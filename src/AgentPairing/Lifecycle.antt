-- ===== src/AgentPairing/Lifecycle.antt =====
-- The calls of the component as steps, in the order of their times, and what each of them does to
-- the requests.
use watchpost.Base.{
  Result-cases, inl, inr, ℕ, ◌+◌, ◌≤◌, String, ◌≡◌, refl, ◌∙◌, Bool, true, false, List, [], ◌∷◌,
  arith, any, update_where, ok,
}
use watchpost.Store.Agents.{RequestState, pending, approved, rejected, consumed, PairingRequest}
use watchpost.Store.Tables.{Db}
use watchpost.Store.Audit.{Entry, insert_audit}
use watchpost.Ingest.Key.{is_some}
use watchpost.AgentPairing.{
  Hello, lifetime, is_open, is_request, new_request, create, admit_request, insert_request,
  approve_row, reject_row, decidable, update_request, decide, with_requests,
}
use watchpost.AgentPairing.Credentials.{revoke, rotate, unpair}
use watchpost.AgentPairing.Poll.{Enrollment, consumable, consume_row, poll}

-- An accepted call at the time `now`, whoever makes it. The query of `Create` may have met any other
-- database, so that calls overlap there.
pub data Step (sha256 : String → String) (now : ℕ) (db db' : Db) : Type 0 where
  asked :
      (id phrase : String) (hello : Hello) (read_at : ℕ) (seen : Db) (row : PairingRequest)
      → create sha256 id phrase hello read_at now seen db ≡ ok (db', row)
      → Step sha256 now db db'
  decided :
      (id post_id : String) (approve : Bool) (entry : Entry)
      → decide id post_id approve now entry db ≡ ok db'
      → Step sha256 now db db'
  polled :
      (id secret credential : String) (e : Enrollment)
      → poll sha256 id secret credential now db ≡ ok (db', e)
      → Step sha256 now db db'
  revoked : (id : String) (entry : Entry) → revoke id now entry db ≡ ok db' → Step sha256 now db db'
  rotated :
      (id current credential : String) (entry : Entry)
      → rotate sha256 id current credential now entry db ≡ ok db'
      → Step sha256 now db db'
  unpaired :
      (id current : String) (entry : Entry)
      → unpair sha256 id current now entry db ≡ ok db'
      → Step sha256 now db db'

-- calls one after the other, from a database at a time
pub data Steps (sha256 : String → String) (start : ℕ) (db : Db) : ℕ → Db → Type 0 where
  done : Steps sha256 start db start db
  then :
      {mid : Db} {last : Db} {at : ℕ} (now : ℕ)
      → Steps sha256 start db at mid
      → at ≤ now
      → Step sha256 now mid last
      → Steps sha256 start db now last

-- which of post_id, approved_at and terminal_at a state has
abbrev pub columns : RequestState → Bool × Bool × Bool
columns pending = (false, false, false)
columns approved = (true, true, false)
columns rejected = (false, false, true)
columns consumed = (true, true, true)

-- a request whose columns are those of its state, and that lasts ten minutes
pub record IsOrderly (r : PairingRequest) : Type 0 where
  pub filled : (is_some r.post_id, is_some r.approved_at, is_some r.terminal_at) ≡ columns r.state
  pub lasts : r.expires_at ≡ r.created_at + lifetime

-- what a call does to the requests: a new one, or an update
pub data Change (rows rows' : List PairingRequest) : Type 0 where
  added :
      (r : PairingRequest)
      → rows' ≡ r ∷ rows
      → IsOrderly r
      → any (is_request r.id) rows ≡ false
      → Change rows rows'
  updated :
      (hit : PairingRequest → Bool) (f : PairingRequest → PairingRequest)
      → rows' ≡ update_where hit f rows
      → ((r : PairingRequest) → hit r ≡ true → IsOrderly r → IsOrderly (f r))
      → ((r : PairingRequest) → (f r).id ≡ r.id)
      → Change rows rows'

update_where-none : (rows : List PairingRequest) → rows ≡ update_where (λ r. false) (λ r. r) rows
unfolding update_where
update_where-none [] = refl
update_where-none (r ∷ rows) = ground (arith, update_where-none rows)

pub unchanged : (rows rows' : List PairingRequest) → rows' ≡ rows → Change rows rows'
unchanged rows rows' same =
    updated (λ r. false) (λ r. r) (same ∙ update_where-none rows) (λ r e o. o) (λ r. refl)

pub approve-IsOrderly :
    (id post_id : String) (now : ℕ) (r : PairingRequest)
    → decidable id now r ≡ true
    → IsOrderly r
    → IsOrderly (approve_row post_id now r)
unfolding decidable approve_row is_open
approve-IsOrderly id post_id now r hit o = record {
  filled = ground (arith, o.filled);
  lasts = o.lasts;
}

pub reject-IsOrderly :
    (id : String) (now : ℕ) (r : PairingRequest)
    → decidable id now r ≡ true
    → IsOrderly r
    → IsOrderly (reject_row now r)
unfolding decidable reject_row is_open
reject-IsOrderly id now r hit o = record { filled = ground (arith, o.filled); lasts = o.lasts }

pub consume-IsOrderly :
    (id : String) (now : ℕ) (r : PairingRequest)
    → consumable id r ≡ true
    → IsOrderly r
    → IsOrderly (consume_row now r)
unfolding consumable consume_row
consume-IsOrderly id now r hit o = record { filled = ground (arith, o.filled); lasts = o.lasts }

pub create-Change :
    (sha256 : String → String) (id phrase : String) (hello : Hello) (read_at now : ℕ) (seen db : Db)
    {db' : Db} {row : PairingRequest}
    → create sha256 id phrase hello read_at now seen db ≡ ok (db', row)
    → Change db.local.agent_pairing_requests db'.local.agent_pairing_requests
unfolding create insert_request new_request with_requests
create-Change sha256 id phrase hello read_at now seen db h =
    elim (Result-cases (admit_request hello read_at seen)) [
      | inr (e, failed) ↦ absurd (ground arith)
      | inl (one, admitted) ↦
          added (new_request sha256 id phrase hello now) (ground arith)
            (record { filled = refl; lasts = refl }) (ground arith)
    ]

pub update_request-rows :
    (hit : PairingRequest → Bool) (f : PairingRequest → PairingRequest) (db : Db) {db' : Db}
    → update_request hit f db ≡ ok db'
    → db'.local.agent_pairing_requests ≡ update_where hit f db.local.agent_pairing_requests
unfolding update_request with_requests
update_request-rows hit f db h = ground arith

pub insert_audit-requests :
    (entry : Entry) (db : Db)
    → (insert_audit entry db).local.agent_pairing_requests ≡ db.local.agent_pairing_requests
unfolding insert_audit
insert_audit-requests entry db = refl

pub keeping :
    (post_id : String) (now : ℕ) (r : PairingRequest)
    → ((approve_row post_id now r).id ≡ r.id)
      × ((reject_row now r).id ≡ r.id)
      × ((consume_row now r).id ≡ r.id)
unfolding approve_row reject_row consume_row
keeping post_id now r = (refl, refl, refl)
