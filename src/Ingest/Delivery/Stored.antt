-- ===== src/Ingest/Delivery/Stored.antt =====
-- What a batch leaves in the database, from the rows to the key.
use mathlib.Core.Path.{subst}
use watchpost.Base.{
  ℕ, suc, ◌+◌, String, ◌≡◌, refl, ◌∙◌, sym, ap, some, List, [], ◌∷◌, arith, length, ok,
  Result-cases, >>=-eq-ok, inl, inr, find-update_where, if◌then◌else◌,
}
use watchpost.Store.Rows.{CollectorKey}
use watchpost.Store.Rows
use watchpost.Store.Tables.{Db}
use watchpost.Ingest.Types.{Observation}
use watchpost.Ingest.Key.{find_key, KeyInfo, promote, update_key, is_key, key_info}
use watchpost.Ingest.Accept.{write_batch}
use watchpost.Ingest.Batch.{
  row_of, insert_observation, insert_batch, end_sequence, belongs, record_batch,
}

-- what a batch that has been stored is: its rows on top of the old ones, its sequence numbers the
-- next ones
abbrev pub rows_onto : ℕ → List Observation → List Rows.Observation → List Rows.Observation
rows_onto now [] rows = rows
rows_onto now (o ∷ os) rows = rows_onto now os (row_of now o ∷ rows)

abbrev pub IsContiguous : ℕ → List Observation → Type 0
IsContiguous next [] = Unit
IsContiguous next (o ∷ os) = (o.sequence ≡ next) × IsContiguous (suc next) os

pub last-contiguous :
    (n : ℕ) (o : Observation) (os : List Observation)
    → IsContiguous (suc n) (o ∷ os)
    → end_sequence o.sequence os ≡ n + length (o ∷ os)
unfolding end_sequence
last-contiguous n o [] h = omega arith
last-contiguous n o (o' ∷ os) h = omega (arith, last-contiguous (suc n) o' os h.1)

record Stored (now next : ℕ) (os : List Observation) (db db' : Db) : Type 0 where
  keys : db'.local.collector_keys ≡ db.local.collector_keys
  rows : db'.local.observations ≡ rows_onto now os db.local.observations
  contiguous : IsContiguous next os

insert_observation-ok :
    (row : Rows.Observation) (db : Db) {db' : Db}
    → insert_observation row db ≡ ok db'
    → (db'.local.collector_keys ≡ db.local.collector_keys)
      × (db'.local.observations ≡ row ∷ db.local.observations)
unfolding insert_observation
insert_observation-ok row db h = ground arith

module _ (info : KeyInfo) (id : String) (now : ℕ) where
  insert_batch-Stored :
      (next : ℕ) (os : List Observation) (db : Db) {db' : Db}
      → insert_batch info id now next os db ≡ ok db'
      → Stored now next os db db'
  unfolding insert_batch belongs
  insert_batch-Stored next [] db {db'} h = record {
    keys = ground arith;
    rows = ground arith;
    contiguous = tt;
  }
  insert_batch-Stored next (o ∷ os) db {db'} h =
      elim (Result-cases (insert_observation (row_of now o) db)) [
        | inl (mid, done) ↦
            let now_stored = insert_observation-ok (row_of now o) db done in
            let rest = insert_batch-Stored (suc next) os mid {db' = db'} (ground arith) in
            record {
              keys = rest.keys ∙ now_stored.0;
              rows = rw rest.rows (rw now_stored.1 refl);
              contiguous = (ground arith, rest.contiguous);
            }
        | inr (e, failed) ↦ absurd (ground arith)
      ]

find_key-update_key :
    (id : String) (f : CollectorKey → CollectorKey) (db : Db) (k : CollectorKey)
    → ((x : CollectorKey) → (f x).id ≡ x.id)
    → find_key id db ≡ some k
    → find_key id (update_key id f db) ≡ some (f k)
unfolding find_key update_key is_key
find_key-update_key id f db k same h =
    find-update_where (is_key id) f (λ x e. rw (same x) e) db.local.collector_keys k h

find_key-keys :
    (id : String) (db db' : Db)
    → db'.local.collector_keys ≡ db.local.collector_keys
    → find_key id db' ≡ find_key id db
unfolding find_key
find_key-keys id db db' same = rw same refl

update_key-rows :
    (id : String) (f : CollectorKey → CollectorKey) (db : Db)
    → (update_key id f db).local.observations ≡ db.local.observations
unfolding update_key
update_key-rows id f db = refl

promote-id : (k : CollectorKey) → (promote k).id ≡ k.id
unfolding promote
promote-id k = ground arith

key_info-last :
    (k : CollectorKey) (presented : String) (now : ℕ)
    → (key_info k presented now).last ≡ k.last_sequence
unfolding key_info
key_info-last k presented now = refl

record_batch-id :
    (first : Observation) (rest : List Observation) (now sent_at : ℕ) (batch_id : String)
    (k : CollectorKey)
    → (record_batch first rest now sent_at batch_id k).id ≡ k.id
unfolding record_batch
record_batch-id first rest now sent_at batch_id k = refl

module _ (k : CollectorKey) (presented : String) (first : Observation) (rest : List Observation)
    (now sent_at : ℕ) (batch_id : String) (db : Db) where
  -- the key after the batch
  abbrev pub key_after : CollectorKey
  key_after =
      record_batch first rest now sent_at batch_id
        (if (key_info k presented now).pending then promote k else k)

  abbrev pub db_before : Db
  db_before =
      if (key_info k presented now).pending then update_key first.collector_id promote db else db

  db_before-key :
      find_key first.collector_id db ≡ some k
      → find_key first.collector_id db_before
        ≡ some (if (key_info k presented now).pending then promote k else k)
  db_before-key known =
      ground (arith, find_key-update_key first.collector_id promote db k promote-id known)

  pub db_before-rows : db_before.local.observations ≡ db.local.observations
  unfolding update_key
  db_before-rows = ground arith

  pub write_batch-ok :
      {db' : Db}
      → find_key first.collector_id db ≡ some k
      → write_batch k presented first rest now sent_at batch_id db ≡ ok db'
      → (find_key first.collector_id db' ≡ some key_after)
        × (db'.local.observations ≡ rows_onto now (first ∷ rest) db.local.observations)
        × IsContiguous (suc k.last_sequence) (first ∷ rest)
  unfolding write_batch
  write_batch-ok {db'} known h =
      let info = key_info k presented now in
      let id = first.collector_id in
      let m = insert_batch info id now (suc info.last) (first ∷ rest) db_before in
      let (mid, done, written) =
        >>=-eq-ok m
          (λ (d : Db). ok (update_key id (record_batch first rest now sent_at batch_id) d))
          {last = db'} h in
      let stored = insert_batch-Stored info id now (suc info.last) (first ∷ rest) db_before done in
      let same : update_key id (record_batch first rest now sent_at batch_id) mid ≡ db' =
        ground arith in
      let key : find_key id mid ≡ some (if info.pending then promote k else k) =
        find_key-keys id db_before mid stored.keys ∙ db_before-key known in
      (
        rw (sym same) (
            find_key-update_key id (record_batch first rest now sent_at batch_id) mid
              (if info.pending then promote k else k)
              (record_batch-id first rest now sent_at batch_id) key),
        rw (sym same) (
            update_key-rows id (record_batch first rest now sent_at batch_id) mid
            ∙ stored.rows
            ∙ ap (rows_onto now (first ∷ rest)) db_before-rows),
        subst (λ n. IsContiguous (suc n) (first ∷ rest)) (key_info-last k presented now)
            stored.contiguous,
      )
