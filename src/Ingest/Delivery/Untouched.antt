-- ===== src/Ingest/Delivery/Untouched.antt =====
-- What a stored batch leaves as it was: the requests of agents.
use watchpost.Base.{
  ℕ, suc, String, ◌≡◌, refl, ◌∙◌, inl, inr, false, some, List, [], ◌∷◌, arith, ok, Result-cases,
  if◌then◌else◌,
}
use watchpost.Store.Rows
use watchpost.Store.Rows.{CollectorKey}
use watchpost.Store.Tables.{Db}
use watchpost.Ingest.Types.{Observation}
use watchpost.Ingest.Budget.{Service}
use watchpost.Ingest.Key.{KeyInfo, find_key, update_key, promote, key_info}
use watchpost.Ingest.Batch.{row_of, insert_observation, insert_batch, record_batch}
use watchpost.Ingest.Accept.{accept_batch, write_batch}
use watchpost.Ingest.Delivery.Redelivered.{accepted}

insert_observation-requests :
    (row : Rows.Observation) (db : Db) {db' : Db}
    → insert_observation row db ≡ ok db'
    → db'.local.agent_pairing_requests ≡ db.local.agent_pairing_requests
unfolding insert_observation
insert_observation-requests row db h = ground arith

insert_batch-requests :
    (info : KeyInfo) (id : String) (now next : ℕ) (os : List Observation) (db : Db) {db' : Db}
    → insert_batch info id now next os db ≡ ok db'
    → db'.local.agent_pairing_requests ≡ db.local.agent_pairing_requests
unfolding insert_batch
insert_batch-requests info id now next [] db h = ground arith
insert_batch-requests info id now next (o ∷ os) db {db'} h =
    elim (Result-cases (insert_observation (row_of now o) db)) [
      | inl (mid, done) ↦
          insert_batch-requests info id now (suc next) os mid {db' = db'} (ground arith)
          ∙ insert_observation-requests (row_of now o) db done
      | inr (e, failed) ↦ absurd (ground arith)
    ]

update_key-requests :
    (id : String) (f : CollectorKey → CollectorKey) (db : Db)
    → (update_key id f db).local.agent_pairing_requests ≡ db.local.agent_pairing_requests
unfolding update_key
update_key-requests id f db = refl

write_batch-requests :
    (k : CollectorKey) (presented : String) (first : Observation) (rest : List Observation)
    (now sent_at : ℕ) (batch_id : String) (db : Db) {db' : Db}
    → write_batch k presented first rest now sent_at batch_id db ≡ ok db'
    → db'.local.agent_pairing_requests ≡ db.local.agent_pairing_requests
unfolding write_batch
write_batch-requests k presented first rest now sent_at batch_id db {db'} h =
    let info = key_info k presented now in
    let id = first.collector_id in
    let base = if info.pending then update_key id promote db else db in
    elim (Result-cases (insert_batch info id now (suc info.last) (first ∷ rest) base)) [
      | inl (mid, done) ↦ ground (
        arith,
        insert_batch-requests info id now (suc info.last) (first ∷ rest) base done,
        update_key-requests id promote db,
        update_key-requests id (record_batch first rest now sent_at batch_id) mid,
      )
      | inr (e, failed) ↦ absurd (ground arith)
    ]

pub stored-requests :
    (sha256 : String → String) (secret : String) (first : Observation) (rest : List Observation)
    (now sent_at : ℕ) (batch_id : String) (s : Service) (db : Db) (k : CollectorKey)
    → find_key first.collector_id db ≡ some k
    → (accept_batch sha256 secret (first ∷ rest) now sent_at batch_id s db).answer ≡ ok false
    → (accept_batch sha256 secret
        (first ∷ rest)
        now
        sent_at
        batch_id
        s
        db).db.local.agent_pairing_requests
      ≡ db.local.agent_pairing_requests
stored-requests sha256 secret first rest now sent_at batch_id s db k known h =
    write_batch-requests k (sha256 secret) first rest now sent_at batch_id db
      (accepted sha256 secret first rest now sent_at batch_id s db k known h).0
