-- ===== src/AgentPairing.antt =====
-- internal/agentpairing/pairing.go: the pairing of agents. An agent asks with a secret of its own,
-- an administrator decides, and the agent polls for its credential. What is drawn at random is an
-- argument, and so is the hash, SHA-256; a time is in nanoseconds.
pub mod Credentials
pub mod Poll
pub mod Keys
pub mod Enrolled
pub mod Issued
pub mod Claimed
pub mod Replaced
pub mod Ended
pub mod Lifecycle
pub mod Changed
pub mod Orderly
use Prim.Native.String.{len, ◌++◌ as ◌++ˢ◌}
use watchpost.Base.{
  ℕ, ◌+◌, ◌*◌, ◌%◌, suc, zero, String, Bool, true, false, not, ◌&&◌, ◌||◌, Option, none, some, List,
  [], ◌∷◌, map, ◌==◌, eqb, ltb, leb, text_before, any, filter, count, update_where, if◌then◌else◌,
  length, Result, ok, err, ◌>>=◌, ◌>>◌, guard,
}
use watchpost.Store.Agents.{RequestState, pending, approved, rejected, consumed, PairingRequest}
use watchpost.Store.Rows.{Post}
use watchpost.Store.Tables.{Db}
use watchpost.Store.Audit.{Entry, knows_actor, insert_audit}
use watchpost.Ingest.Budget.{minute}
use watchpost.Replicated.Snapshot.{order_by}

pub data AgentError : Type 0 where
  invalid_request too_many_pending request_unavailable request_invalid request_expired : AgentError
  connection_unavailable credential_required credential_rejected : AgentError
  credential_unavailable already_claimed constraint_failed : AgentError

abbrev pub lifetime : ℕ
lifetime = 10 * minute

abbrev pub max_pending : ℕ
max_pending = 100

-- the element at an index that is in range
unfoldable pub word : List String → ℕ → String
word [] n = ""
word (w ∷ ws) zero = w
word (w ∷ ws) (suc n) = word ws n

abbrev pub first_words : List String
first_words = "amber" ∷ "cedar" ∷ "copper" ∷ "olive" ∷ "silver" ∷ "willow" ∷ []

abbrev pub middle_words : List String
middle_words = "bridge" ∷ "harbor" ∷ "meadow" ∷ "river" ∷ "summit" ∷ "tower" ∷ []

abbrev pub last_words : List String
last_words = "four" ∷ "seven" ∷ "nine" ∷ "twelve" ∷ "sixteen" ∷ "twenty" ∷ []

abbrev pub pick : List String → ℕ → String
pick ws byte = word ws (byte % length ws)

-- `pairingPhrase`, of three random bytes
unfoldable pub pairing_phrase : ℕ → ℕ → ℕ → String
pairing_phrase a b c =
    pick first_words a ++ˢ "-" ++ˢ pick middle_words b ++ˢ "-" ++ˢ pick last_words c

unfoldable pub is_pending : RequestState → Bool
is_pending pending = true
is_pending approved = false
is_pending rejected = false
is_pending consumed = false

unfoldable pub is_approved : RequestState → Bool
is_approved pending = false
is_approved approved = true
is_approved rejected = false
is_approved consumed = false

-- `state='pending' AND expires_at>?`
unfoldable pub is_open : ℕ → PairingRequest → Bool
unfolding is_pending
is_open now r = is_pending r.state && text_before now r.expires_at

unfoldable pub is_request : String → PairingRequest → Bool
is_request id r = r.id == id

unfoldable pub with_requests : List PairingRequest → Db → Db
with_requests rows db = record db { local = record db.local { agent_pairing_requests = rows } }

-- what an agent sends
pub record Hello : Type 0 where
  pub installation_id : String
  pub secret : String
  pub hostname : String
  pub platform : String
  pub version : String

unfoldable pub is_complete : Hello → Bool
is_complete h =
    not (h.installation_id == "" || ltb (len h.secret) 32 || h.hostname == "" || h.platform == "")

unfoldable pub new_request : (String → String) → String → String → Hello → ℕ → PairingRequest
new_request sha256 id phrase h now = record {
  id = id;
  request_secret_hash = sha256 h.secret;
  installation_id = h.installation_id;
  hostname = h.hostname;
  platform = h.platform;
  agent_version = h.version;
  phrase = phrase;
  state = pending;
  post_id = none;
  expires_at = now + lifetime;
  created_at = now;
  approved_at = none;
  terminal_at = none;
}

-- `Create` up to the insertion: the arguments and the query of the pending requests. It is not in
-- one transaction with the insertion.
unfoldable pub admit_request : Hello → ℕ → Db → Result AgentError (Unit {0})
unfolding is_complete count is_open
admit_request h now db = do
  guard (is_complete h) invalid_request
  guard (not (leb max_pending (count (is_open now) db.local.agent_pairing_requests)))
      too_many_pending

-- the insertion of `Create`; the id is the primary key of the table
unfoldable pub insert_request :
    (String → String) → String → String → Hello → ℕ → Db → Result AgentError (Db × PairingRequest)
unfolding any is_request new_request with_requests
insert_request sha256 id phrase h now db = do
  let rows = db.local.agent_pairing_requests
  guard (not (any (is_request id) rows)) constraint_failed
  let row = new_request sha256 id phrase h now
  ok (with_requests (row ∷ rows) db, row)

-- `Create`, on the database that its query meets and the one that its insertion meets
unfoldable pub create :
    (String → String)
    → String
    → String
    → Hello
    → ℕ
    → ℕ
    → Db
    → Db
    → Result AgentError (Db × PairingRequest)
unfolding admit_request insert_request
create sha256 id phrase h asked now seen db = do
  admit_request h asked seen
  insert_request sha256 id phrase h now db

-- the state that `List` shows
pub data ShownState : Type 0 where
  as_stored : RequestState → ShownState
  expired : ShownState

unfoldable pub shown_state : ℕ → PairingRequest → ShownState
unfolding is_pending
shown_state now r =
    if is_pending r.state && not (ltb now r.expires_at) then expired else as_stored r.state

-- `List`: the requests that are pending or approved, the newest first
unfoldable pub list : ℕ → Db → List (PairingRequest × ShownState)
unfolding is_pending is_approved filter order_by shown_state
list now db =
    map (λ r. (r, shown_state now r))
      (order_by (λ (r s : PairingRequest). not (text_before r.created_at s.created_at))
        (filter (λ (r : PairingRequest). is_pending r.state || is_approved r.state)
          db.local.agent_pairing_requests))

unfoldable pub approve_row : String → ℕ → PairingRequest → PairingRequest
approve_row post_id now r = record r {
  state = approved;
  post_id = some post_id;
  approved_at = some now;
}

unfoldable pub reject_row : ℕ → PairingRequest → PairingRequest
reject_row now r = record r { state = rejected; terminal_at = some now }

-- `WHERE id=? AND state='pending' AND expires_at>?`
unfoldable pub decidable : String → ℕ → PairingRequest → Bool
unfolding is_request is_open
decidable id now r = is_request id r && is_open now r

-- `EXISTS(SELECT 1 FROM posts WHERE id=? AND archived=0)`
unfoldable pub accepts_agents : String → Db → Bool
unfolding any
accepts_agents post_id db = any (λ (p : Post). p.id == post_id && not p.archived) db.posts

-- `UPDATE agent_pairing_requests SET … WHERE …`, of one row
unfoldable pub update_request :
    (PairingRequest → Bool) → (PairingRequest → PairingRequest) → Db → Result AgentError Db
unfolding count update_where with_requests
update_request hit f db = do
  let rows = db.local.agent_pairing_requests
  guard (eqb (count hit rows) 1) request_unavailable
  ok (with_requests (update_where hit f rows) db)

-- `Decide`
unfoldable pub decide : String → String → Bool → ℕ → Entry → Db → Result AgentError Db
unfolding decidable accepts_agents approve_row reject_row update_request insert_audit
decide id post_id approve now entry db = do
  done ←
      if approve
      then update_request (λ r. decidable id now r && accepts_agents post_id db)
          (approve_row post_id now) db
      else update_request (decidable id now) (reject_row now) db
  guard (knows_actor entry db) constraint_failed
  ok (insert_audit (record entry { object_type = "agent_pairing_request"; object_id = id }) done)
