-- ===== src/AgentPairing/Credentials.antt =====
-- internal/agentpairing/pairing.go: the connections of agents, and the revocation and replacement
-- of their credentials.
use Prim.Native.String.{compare}
use text.Mathlib.Text.{is_lt}
use watchpost.Base.{
  ℕ, ◌+◌, ◌*◌, String, Bool, true, false, not, ◌&&◌, ◌||◌, Option, none, some, List, [], ◌∷◌, ◌==◌,
  eqb, ltb, text_before, filter, count, update_where, if◌then◌else◌, Result, ok, ◌>>=◌, ◌>>◌, guard,
  require,
}
use watchpost.Store.Rows.{CollectorKey}
use watchpost.Store.Agents.{AgentConnection}
use watchpost.Store.Tables.{Db}
use watchpost.Store.Audit.{Entry, knows_actor, insert_audit}
use watchpost.Ingest.Budget.{minute}
use watchpost.Ingest.Key.{is_key, find_key, update_key, is_some}
use watchpost.Replicated.Snapshot.{order_by, text_le}
use watchpost.AgentPairing.{
  AgentError, constraint_failed, connection_unavailable, credential_required, credential_rejected,
}

pub data Status : Type 0 where
  never_connected revoked rejected offline stale skewed partial healthy : Status

unfoldable pub by_partial : Bool → Status
by_partial b = if b then partial else healthy

-- a key that was seen, and not since more than two minutes
unfoldable pub recent_status : Option ℕ → Bool → ℕ → Status
unfolding by_partial
recent_status none is_partial now = by_partial is_partial
recent_status (some sent) is_partial now =
    if ltb (sent + 5 * minute) now || ltb (now + 5 * minute) sent
    then skewed
    else by_partial is_partial

unfoldable pub seen_status : ℕ → Option ℕ → Bool → ℕ → Status
unfolding recent_status
seen_status seen sent is_partial now =
    if ltb (seen + 10 * minute) now
    then offline
    else if ltb (seen + 2 * minute) now
    then stale
    else recent_status sent is_partial now

-- `rejected.Valid && (!seen.Valid || rejected.String > seen.String)`
unfoldable pub is_rejected : Option ℕ → Option ℕ → Bool
is_rejected none seen = false
is_rejected (some at) none = true
is_rejected (some at) (some seen) = text_before seen at

-- the status of a connection, of the row of its key
unfoldable pub status_of : CollectorKey → ℕ → Status
unfolding is_rejected seen_status
status_of k now =
    if is_some k.revoked_at
    then revoked
    else if is_rejected k.last_rejected_at k.last_seen_at
    then rejected
    else elim k.last_seen_at [
      | none ↦ never_connected
      | some seen ↦ seen_status seen k.last_sent_at k.partial now
    ]

unfoldable pub connection_le : AgentConnection → AgentConnection → Bool
connection_le a b =
    is_lt (compare a.hostname b.hostname)
    || (a.hostname == b.hostname && text_le a.installation_id b.installation_id)

unfoldable pub with_key : Db → ℕ → List AgentConnection → List (AgentConnection × Status)
unfolding find_key status_of
with_key db now [] = []
with_key db now (a ∷ rest) =
    let others = with_key db now rest in
    elim (find_key a.installation_id db) [ none ↦ others | some k ↦ (a, status_of k now) ∷ others ]

-- `Connections`; the empty text asks for those of every post
unfoldable pub connections : String → ℕ → Db → List (AgentConnection × Status)
unfolding filter order_by connection_le with_key
connections post_id now db = with_key db now (
    order_by connection_le (
      filter (λ (a : AgentConnection). post_id == "" || a.post_id == post_id)
        db.local.agent_connections))

unfoldable pub is_connected : String → AgentConnection → Bool
is_connected id a = a.installation_id == id && not (is_some a.revoked_at)

unfoldable pub revoke_connection : ℕ → AgentConnection → AgentConnection
revoke_connection now a = record a { revoked_at = some now }

unfoldable pub revoke_connections : String → ℕ → Db → Db
unfolding update_where is_connected revoke_connection
revoke_connections id now db = record db {
  local = record db.local {
    agent_connections =
        update_where (is_connected id) (revoke_connection now) db.local.agent_connections;
  };
}

unfoldable pub revoke_key : ℕ → CollectorKey → CollectorKey
revoke_key now k = record k { revoked_at = some now }

unfoldable pub audited : Entry → String → Db → Db
unfolding insert_audit
audited entry id = insert_audit (record entry { object_type = "agent_connection"; object_id = id })

-- `Revoke`, by an administrator
unfoldable pub revoke : String → ℕ → Entry → Db → Result AgentError Db
unfolding count is_connected revoke_connections update_key revoke_key audited
revoke id now entry db = do
  guard (eqb (count (is_connected id) db.local.agent_connections) 1) connection_unavailable
  guard (knows_actor entry db) constraint_failed
  ok (audited entry id (update_key id (revoke_key now) (revoke_connections id now db)))

abbrev pub pending_replacement_lifetime : ℕ
pending_replacement_lifetime = 10 * minute

unfoldable pub is_current : String → String → CollectorKey → Bool
unfolding is_key
is_current id secret_hash k =
    is_key id k && k.secret_hash == secret_hash && not (is_some k.revoked_at)

unfoldable pub replace_with : String → ℕ → CollectorKey → CollectorKey
replace_with secret_hash now k = record k {
  pending_secret_hash = some secret_hash;
  pending_expires_at = some (now + pending_replacement_lifetime);
}

unfoldable pub with_keys : List CollectorKey → Db → Db
with_keys rows db = record db { local = record db.local { collector_keys = rows } }

-- `Rotate`, with the credential that is drawn at random
unfoldable pub rotate :
    (String → String) → String → String → String → ℕ → Entry → Db → Result AgentError Db
unfolding count is_current update_where replace_with with_keys audited
rotate sha256 id current credential now entry db = do
  let hit = is_current id (sha256 current)
  let rows = db.local.collector_keys
  guard (not (id == "" || current == "")) credential_required
  guard (eqb (count hit rows) 1) credential_rejected
  guard (knows_actor entry db) constraint_failed
  ok (
      audited entry id
        (with_keys (update_where hit (replace_with (sha256 credential) now) rows) db))

unfoldable pub is_live_key : String → CollectorKey → Bool
unfolding is_key
is_live_key id k = is_key id k && not (is_some k.revoked_at)

-- `Unpair`, by the agent itself
unfoldable pub unpair : (String → String) → String → String → ℕ → Entry → Db → Result AgentError Db
unfolding find_key revoke_connections is_live_key update_where revoke_key with_keys audited
unpair sha256 id current now entry db = do
  guard (not (id == "" || current == "")) credential_required
  k ← require (find_key id db) credential_rejected
  guard (not (is_some k.revoked_at)) credential_rejected
  guard (k.secret_hash == sha256 current) credential_rejected
  let rows = update_where (is_live_key id) (revoke_key now) db.local.collector_keys
  guard (knows_actor entry db) constraint_failed
  ok (audited entry id (with_keys rows (revoke_connections id now db)))
