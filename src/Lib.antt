-- ===== src/Lib.antt =====
-- Watchpost watches hosts and services ("posts"): collectors deliver observations, rules turn them
-- into alerts, and the definitions of posts, dependencies and rules may be replicated over a
-- cluster. This library models the parts that decide what is stored.
--
-- Base holds what the others share: tests on numbers, lists with Boolean tests, association lists
-- for Go maps, results of calls that can fail, and the integers that stand for float64 values.
-- Base/Times is the order of the texts of times: where a statement compares times as texts
-- (internal/agentpairing, auth, checks, history and retention) a definition uses `text_before`; where
-- Go parses the texts and compares the times it compares numbers.
--
-- Store (internal/store/store.go, internal/audit/audit.go) is the database: a record of tables, each
-- a list of rows, with the keys, foreign keys and checks that its statements meet written into the
-- statements. The foreign key of an audit row to the users is `knows_actor`, which an operation asks
-- before `insert_audit`. A transaction is a function from a database to a result; an error returns no
-- database, which is the rollback.
--
-- Replicated (internal/replicated) is the state machine of the cluster. Op has the operations and
-- their payloads; Graph the dependency graph and the recursive query that looks for cycles; Cleanup
-- is cleanup.go and `clearReplicated`; Apply has one function for each `apply…` method of fsm.go; Fsm
-- has the type FSM, `NewFSM`, `Apply` and `applyLocked`; Snapshot has `Snapshot`, `Persist` and
-- `Restore`; Adapter is adapter.go and ops.go up to the call of `node.Propose`. Raft, the codec, the
-- digest and the version of operations belong to gantry-core, which is not part of the repository:
-- they are the record `Core`, a parameter. What a disk answers in a transaction is the record `Disk`.
-- A committed log is a list of entries, each with the answers of its transaction, and `run` folds
-- `apply` over it. The mutex of FSM is held in each method, so every run is such a sequence.
--
-- Alerts (internal/rules/rules.go) is the evaluation of rules: Decide is the choice of the next
-- state in `Evaluate`, Evaluate the transactions, Manage the rules and the list of alerts.
--
-- Ingest (internal/ingest/ingest.go) is the delivery of observations: Budget is `allow`, Key is
-- `lookupKey` and `promotePending`, Batch the loop of `AcceptBatch`, Accept the entry points.
--
-- Pairing (internal/pairing/pairing.go) is `Create` and `Consume`: a token that is consumed makes or
-- renews the key that Ingest asks for.
--
-- Incidents (internal/incidents/incidents.go) is `Create`, `Transition`, `AddNote`, `Assign` and
-- `Get`; Steps has their accepted calls as a relation between states of the tables.
--
-- AgentPairing (internal/agentpairing/pairing.go) is the pairing of host agents: `Create`, `List` and
-- `Decide` in the parent, `Connections`, `Revoke`, `Rotate` and `Unpair` in Credentials, `Poll` and
-- `reissueUnused` in Poll. Its keys are the rows that Ingest reads; Lifecycle has the accepted calls as a relation between databases with their times. `Create`
-- counts the pending requests in a statement of its own: `create` has a database for the count.
--
-- Posts (internal/posts/posts.go) is the registry of posts: its local transactions stand beside the
-- operations of Replicated, on the same tables. The JSON text of labels is the record `Json`; the
-- mutation authority is a `Reply`, with the database that its commit leaves.
--
-- Auth (internal/auth/auth.go and model.go) has users, their sessions and the throttling of logins:
-- Accounts is `Setup`, `CreateUser`, `SetRole` and the changes of passwords, Sessions is `Login`,
-- `Authenticate` and `Logout`, Steps their accepted calls. A login is `allow` and, later, `verify`,
-- between which other logins may come; `login` is the two in one go. The hashing of passwords and the choice of
-- an account by gantry-core, SHA-256 and the folding of Unicode texts are the record `Primitives`.
--
-- Retention (internal/retention/retention.go, `Retain` of internal/history/history.go) is one pass:
-- Pass has a category per table, and `bounded` its loop. Rows stand in the order of their keys, so a
-- statement with a limit takes the first ones. The loop recurses on its cap of 250 passes,
-- which is the source's.
--
-- Actions (internal/actions/actions.go) is the registry of actions and their requests. `Execute` is
-- two transactions with the action between them: `claim` and `finish` are separate steps, so other
-- calls may come between. Fleet (internal/fleet/fleet.go) has peers and signed events; HMAC, SHA-256,
-- base64 and the JSON text of an envelope are the record `Primitives`; `prune_inbox` is the category
-- of the retention that forgets events.
--
-- Checks (internal/checks/schedules.go) is the schedules of central checks: `Save`, `Get`, `List` and
-- `RunDue`, which reads the rows that are due and then stores each result in its own transaction.
-- The target policy and the probes are the record `Network`; one call of `RunDue` ends before the
-- next, as in the one loop of the server that makes them.
--
-- Examples has the theorems and the stranger behaviours at concrete inputs.
--
-- Numbers: int64 and uint64 counters are natural numbers. The revisions of the graph and of a row
-- in an answer wrap at 2 ^ 64 (`incr64`); versions in rows, sequence numbers, times in nanoseconds
-- and counts of samples are far from their bounds and do not wrap. A float64 in a rule or an
-- observation is only compared, and every finite one is a multiple of 2 ^ -1074, so it is an
-- integer; a rule's duration is not negative. Byte lengths are those of texts. Only `bounded` of
-- Retention recurses on a number, the cap of its source.
--
-- Not modelled: errors of the database other than those of a constraint and, in the state machine,
-- of a transaction's start, metadata and commit; JSON, HTTP, SQL parsing, clocks and random bytes,
-- which are arguments where a function uses them; SHA-256, a parameter; labels of observations; the
-- column `kind` of collector_keys; the audit row's time; in `Logout`, `RevokeSessions` and the end of
-- `Execute`, an audit row that is refused because its actor is no user. Two calls on one database
-- run one after the other, each in its transaction, but for the cases above. The packages under
-- internal and cmd that are not named here are outside this library.
pub mod Base
pub mod Store
pub mod Replicated
pub mod Alerts
pub mod Ingest
pub mod Incidents
pub mod Pairing
pub mod AgentPairing
pub mod Posts
pub mod Auth
pub mod Checks
pub mod Retention
pub mod Actions
pub mod Fleet
pub mod Examples
