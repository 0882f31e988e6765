-- ===== src/Ingest/Accept.antt =====
-- internal/ingest/ingest.go: the entry points. The hash of a credential, SHA-256, is the parameter
-- `sha256`.
use watchpost.Base.{
  ℕ, suc, String, Bool, true, false, not, ◌&&◌, ◌||◌, some, List, [], ◌∷◌, ◌==◌, ltb, leb,
  if◌then◌else◌, any, length, Result, ok, err, ◌>>=◌, ◌>>◌, guard, require,
}
use watchpost.Store.Rows.{CollectorKey}
use watchpost.Store.Tables.{Db}
use watchpost.Store.Audit.{Entry, knows_actor, insert_audit}
use watchpost.Ingest.Types.{
  Observation, IngestError, invalid_batch, authentication_failed, rate_exceeded,
  invalid_observation, outside_clock, replayed, constraint_failed,
}
use watchpost.Ingest.Budget.{Service, allow}
use watchpost.Ingest.Key.{is_key, new_key, key_info, find_key, update_key, promote, authorize}
use watchpost.Ingest.Batch.{
  is_well_formed, in_clock_bounds, row_of, insert_observation, insert_batch, record_batch,
}

-- the answer of a call, with the service and the database that it leaves
pub record Outcome (A : Type 0) : Type 0 where
  pub service : Service
  pub db : Db
  pub answer : Result IngestError A

-- the transaction after the budget has been granted
unfoldable pub write_batch :
    CollectorKey
    → String
    → Observation
    → List Observation
    → ℕ
    → ℕ
    → String
    → Db
    → Result IngestError Db
unfolding insert_batch update_key
write_batch k presented first rest now sent_at batch_id db = do
  let info = key_info k presented now
  let id = first.collector_id
  db' ←
      insert_batch info id now (suc info.last) (first ∷ rest)
        (if info.pending then update_key id promote db else db)
  ok (update_key id (record_batch first rest now sent_at batch_id) db')

abbrev committed : Service → Db → Result IngestError Db → Outcome Bool
committed s db (err e) = record { service = s; db = db; answer = err e }
committed s db (ok db') = record { service = s; db = db'; answer = ok false }

module _ (sha256 : String → String) where
  unfoldable pub deliver :
      String
      → Observation
      → List Observation
      → ℕ
      → ℕ
      → String
      → Service
      → Db
      → CollectorKey
      → Outcome Bool
  unfolding allow
  deliver secret first rest now sent_at batch_id s db k =
      let presented = sha256 secret in
      let (s', granted) = allow first.collector_id (length (first ∷ rest)) now s in
      if not (batch_id == "") && (key_info k presented now).last_batch == batch_id
      then record { service = s; db = db; answer = ok true }
      else if granted
      then committed s' db (write_batch k presented first rest now sent_at batch_id db)
      else record { service = s'; db = db; answer = err rate_exceeded }

  -- `AcceptBatch`; the answer `true` is an acknowledged duplicate
  unfoldable pub accept_batch :
      String → List Observation → ℕ → ℕ → String → Service → Db → Outcome Bool
  accept_batch secret [] now sent_at batch_id s db = record {
    service = s;
    db = db;
    answer = err invalid_batch;
  }
  accept_batch secret (first ∷ rest) now sent_at batch_id s db =
      if ltb 128 (length (first ∷ rest))
      then record { service = s; db = db; answer = err invalid_batch }
      else elim (authorize first.collector_id first.post_id (sha256 secret) now db) [
        | err e ↦ record { service = s; db = db; answer = err e }
        | ok k ↦ deliver secret first rest now sent_at batch_id s db k
      ]

  -- `Authenticate`
  unfoldable pub authenticate : String → String → ℕ → Db → Result IngestError (Unit {0})
  unfolding key_info
  authenticate id secret now db = do
    guard (not (id == "" || secret == "")) authentication_failed
    k ← require (find_key id db) authentication_failed
    let info = key_info k (sha256 secret) now
    guard (not info.revoked && (info.active || info.pending)) authentication_failed

  -- `Accept`, one observation
  unfoldable pub accept : String → Observation → ℕ → Service → Db → Outcome (Unit {0})
  unfolding is_well_formed in_clock_bounds
  accept secret o now s db =
      if not (is_well_formed o && leb 1 o.sequence)
      then record { service = s; db = db; answer = err invalid_observation }
      else if not (in_clock_bounds now o.observed_at)
      then record { service = s; db = db; answer = err outside_clock }
      else elim (authorize o.collector_id o.post_id (sha256 secret) now db) [
        | err e ↦ record { service = s; db = db; answer = err e }
        | ok k ↦
            let info = key_info k (sha256 secret) now in
            let (s', granted) = allow o.collector_id 1 now s in
            let written = (do
              guard granted rate_exceeded
              guard (not (leb o.sequence info.last)) replayed
              db' ←
                  insert_observation (row_of now o)
                    (if info.pending then update_key o.collector_id promote db else db)
              ok (
                  update_key o.collector_id (λ k'. record k' { last_sequence = o.sequence })
                    db')) in
            elim written [
              | err e ↦ record { service = s'; db = db; answer = err e }
              | ok db' ↦ record { service = s'; db = db'; answer = ok tt }
            ]
      ]

-- `Enroll`, with the secret that is drawn at random: primary key and foreign key of the table
unfoldable pub enroll :
    (String → String) → String → String → String → Entry → Db → Result IngestError Db
unfolding any is_key new_key insert_audit
enroll sha256 id post_id secret entry db = do
  guard (not (any (is_key id) db.local.collector_keys)) constraint_failed
  guard (any (λ p. p.id == post_id) db.posts) constraint_failed
  guard (knows_actor entry db) constraint_failed
  ok (
      insert_audit (record entry { object_type = "collector"; object_id = id })
        (record db {
          local = record db.local {
            collector_keys = new_key id post_id (sha256 secret) ∷ db.local.collector_keys;
          };
        }))

-- `RecordRejection`; `message` is the cause, cut to 240 bytes
unfoldable pub record_rejection : String → String → ℕ → Db → Db
unfolding update_key
record_rejection id message now = update_key id (λ k. record k {
  last_error = message;
  last_rejected_at = some now;
  rejected_count = suc k.rejected_count;
})
