-- ===== src/AgentPairing/Poll.antt =====
-- internal/agentpairing/pairing.go: the poll of an agent for its credential.
use watchpost.Base.{
  ℕ, String, Bool, true, false, not, ◌&&◌, ◌||◌, Option, none, some, List, ◌∷◌, ◌==◌, eqb, ltb, any,
  find, update_where, if◌then◌else◌, Result, ok, ◌>>=◌, ◌>>◌, guard, require,
}
use watchpost.Store.Rows.{CollectorKey}
use watchpost.Store.Agents.{RequestState, consumed, PairingRequest, AgentConnection}
use watchpost.Store.Tables.{Db}
use watchpost.Ingest.Key.{new_key, find_key, update_key, is_some, text_or_empty}
use watchpost.Pairing.{drop_observations, re_key}
use watchpost.AgentPairing.{
  AgentError, request_invalid, request_unavailable, request_expired, credential_unavailable,
  already_claimed, constraint_failed, is_request, is_approved, update_request,
}

pub data Progress : Type 0 where
  expired pending rejected approved : Progress

pub record Enrollment : Type 0 where
  pub state : Progress
  pub post_id : String
  pub collector_id : String
  pub credential : String

abbrev pub only : Progress → Enrollment
only state = record { state = state; post_id = ""; collector_id = ""; credential = "" }

-- `WHERE id=? AND request_secret_hash=?`
unfoldable pub asked_with : String → String → PairingRequest → Bool
unfolding is_request
asked_with id hash r = is_request id r && r.request_secret_hash == hash

unfoldable pub find_request : String → String → Db → Option PairingRequest
unfolding find asked_with
find_request id hash db = find (asked_with id hash) db.local.agent_pairing_requests

unfoldable pub is_of : String → AgentConnection → Bool
is_of id a = a.installation_id == id

unfoldable pub has_connection : String → Db → Bool
unfolding any is_of
has_connection id db = any (is_of id) db.local.agent_connections

unfoldable pub new_connection : PairingRequest → ℕ → AgentConnection
new_connection r now = record {
  installation_id = r.installation_id;
  post_id = text_or_empty r.post_id;
  hostname = r.hostname;
  platform = r.platform;
  agent_version = r.agent_version;
  created_at = now;
  revoked_at = none;
}

unfoldable pub renew_connection : PairingRequest → AgentConnection → AgentConnection
renew_connection r a = record a {
  post_id = text_or_empty r.post_id;
  hostname = r.hostname;
  platform = r.platform;
  agent_version = r.agent_version;
  revoked_at = none;
}

unfoldable pub with_connections : List AgentConnection → Db → Db
with_connections rows db = record db { local = record db.local { agent_connections = rows } }

-- the upsert of agent_connections: the post must be there
unfoldable pub upsert_connection : PairingRequest → ℕ → Db → Result AgentError Db
unfolding any has_connection update_where is_of renew_connection new_connection with_connections
upsert_connection r now db = do
  let rows = db.local.agent_connections
  guard (any (λ p. p.id == text_or_empty r.post_id) db.posts) constraint_failed
  ok (
      with_connections
        (if has_connection r.installation_id db
          then update_where (is_of r.installation_id) (renew_connection r) rows
          else new_connection r now ∷ rows)
        db)

-- `SET post_id=excluded.post_id,secret_hash=…`: the columns that it does not name stay
unfoldable pub take_over : String → String → CollectorKey → CollectorKey
unfolding re_key
take_over post_id secret_hash k = record (re_key secret_hash k) { post_id = post_id }

-- the upsert of collector_keys, also where the key belongs to another post
unfoldable pub upsert_key : String → String → String → Db → Db
unfolding find_key new_key update_key take_over
upsert_key id post_id secret_hash db = elim (find_key id db) [
  | none ↦ record db {
    local = record db.local {
      collector_keys = new_key id post_id secret_hash ∷ db.local.collector_keys;
    };
  }
  | some k ↦ update_key id (take_over post_id secret_hash) db
]

-- `WHERE id=? AND state='approved'`
unfoldable pub consumable : String → PairingRequest → Bool
unfolding is_request is_approved
consumable id r = is_request id r && is_approved r.state

unfoldable pub consume_row : ℕ → PairingRequest → PairingRequest
consume_row now r = record r { state = consumed; terminal_at = some now }

-- the transaction for an approved request
unfoldable pub enroll_agent :
    (String → String) → String → String → ℕ → PairingRequest → Db → Result AgentError Db
unfolding upsert_connection drop_observations upsert_key consumable consume_row update_request
enroll_agent sha256 id credential now r db = do
  connected ← upsert_connection r now db
  let keyed =
      upsert_key r.installation_id (text_or_empty r.post_id) (sha256 credential)
        (drop_observations r.installation_id connected)
  update_request (consumable id) (consume_row now) keyed

-- the columns of the key that `reissueUnused` sets
unfoldable pub reissue_row : String → CollectorKey → CollectorKey
unfolding re_key
reissue_row secret_hash k = record (re_key secret_hash k) { revoked_at = k.revoked_at }

unfoldable pub is_consumed : RequestState → Bool
is_consumed RequestState.pending = false
is_consumed RequestState.approved = false
is_consumed RequestState.rejected = false
is_consumed consumed = true

-- `reissueUnused`
unfoldable pub reissue_unused :
    (String → String) → String → String → String → ℕ → Db → Result AgentError Db
unfolding find_request is_consumed find_key update_key reissue_row
reissue_unused sha256 id request_secret_hash credential now db = do
  r ← require (find_request id request_secret_hash db) request_unavailable
  guard (is_consumed r.state) request_unavailable
  guard (ltb now r.expires_at) request_expired
  k ← require (find_key r.installation_id db) credential_unavailable
  guard (not (is_some k.last_seen_at || not (eqb k.last_sequence 0))) already_claimed
  ok (update_key r.installation_id (reissue_row (sha256 credential)) db)

abbrev pub enrolled : PairingRequest → String → Db → Db × Enrollment
enrolled r credential db = (
  db,
  record {
    state = approved;
    post_id = text_or_empty r.post_id;
    collector_id = r.installation_id;
    credential = credential;
  },
)

unfoldable pub poll_state :
    (String → String)
    → String
    → String
    → String
    → ℕ
    → PairingRequest
    → RequestState
    → Db
    → Result AgentError (Db × Enrollment)
unfolding reissue_unused enroll_agent
poll_state sha256 id hash credential now r RequestState.pending db = ok (db, only pending)
poll_state sha256 id hash credential now r RequestState.rejected db = ok (db, only rejected)
poll_state sha256 id hash credential now r consumed db = do
  db' ← reissue_unused sha256 id hash credential now db
  ok (enrolled r credential db')
poll_state sha256 id hash credential now r RequestState.approved db = do
  db' ← enroll_agent sha256 id credential now r db
  ok (enrolled r credential db')

-- `Poll`, with the credential that is drawn at random where one is issued
unfoldable pub poll :
    (String → String) → String → String → String → ℕ → Db → Result AgentError (Db × Enrollment)
unfolding find_request poll_state
poll sha256 id secret credential now db = do
  r ← require (find_request id (sha256 secret) db) request_invalid
  elim (ltb now r.expires_at) [
    | true ↦ poll_state sha256 id (sha256 secret) credential now r r.state db
    | false ↦ ok (db, only expired)
  ]
