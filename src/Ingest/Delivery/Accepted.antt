-- ===== src/Ingest/Delivery/Accepted.antt =====
-- The batches that are accepted: what a delivery has to meet.
use mathlib.Core.Path.{subst}
use watchpost.Base.{
  ℕ, suc, ◌≤◌, String, ◌≡◌, refl, sym, Bool, true, false, ◌&&◌, ◌==◌, some, List, [], ◌∷◌, arith,
  any, length, eqb, leb, eq_iff, ok,
}
use watchpost.Store.Rows.{CollectorKey}
use watchpost.Store.Rows
use watchpost.Store.Tables.{Db}
use watchpost.Ingest.Types.{Observation}
use watchpost.Ingest.Budget.{Service, allow}
use watchpost.Ingest.Key.{KeyInfo, key_info, find_key, update_key, is_accepted_by, authorize}
use watchpost.Ingest.Batch.{belongs, row_of, insert_observation, insert_batch, record_batch}
use watchpost.Ingest.Delivery.Stored.{db_before, db_before-rows}
use watchpost.Ingest.Accept.{write_batch, deliver, accept_batch}

-- each observation passes the checks of the loop, at its place
abbrev pub IsDeliverable : KeyInfo → String → ℕ → ℕ → List Observation → Type 0
IsDeliverable info id now next [] = Unit
IsDeliverable info id now next (o ∷ os) =
    (belongs info id now next o ≡ true) × IsDeliverable info id now (suc next) os

-- the collector has no row at this sequence number or above
abbrev pub IsAhead : String → ℕ → List Rows.Observation → Type 0
IsAhead id next rows = any (λ x. x.collector_id == id && leb next x.sequence) rows ≡ false

module _ {A : Type 0} (p q : A → Bool) (imp : (x : A) → p x ≡ true → q x ≡ true) where
  any-mono-false : (xs : List A) → any q xs ≡ false → any p xs ≡ false
  unfolding any
  any-mono-false [] h = refl
  any-mono-false (x ∷ xs) h = ground (arith, imp x, any-mono-false xs)

module _ (info : KeyInfo) (id : String) (now : ℕ) where
  IsAhead-next :
      (next : ℕ) (rows : List Rows.Observation) → IsAhead id next rows → IsAhead id (suc next) rows
  IsAhead-next next rows =
      any-mono-false (λ x. x.collector_id == id && leb (suc next) x.sequence)
        (λ x. x.collector_id == id && leb next x.sequence) (λ x h. ground arith) rows

  insert_new :
      (next : ℕ) (o : Observation) (db : Db)
      → belongs info id now next o ≡ true
      → IsAhead id next db.local.observations
      → insert_observation (row_of now o) db
        ≡ ok (record db {
          local = record db.local { observations = row_of now o ∷ db.local.observations };
        })
  unfolding insert_observation belongs row_of
  insert_new next o db fits ahead = ground (
    arith,
    any-mono-false
        (λ (x : Rows.Observation).
          x.collector_id == o.collector_id && eqb x.sequence o.sequence && x.signal == o.signal)
        (λ x. x.collector_id == id && leb next x.sequence)
        (λ x h. ground (arith, eq_iff o.collector_id id)) db.local.observations ahead,
  )

  row-IsAhead :
      (next : ℕ) (o : Observation) (rows : List Rows.Observation)
      → belongs info id now next o ≡ true
      → IsAhead id next rows
      → IsAhead id (suc next) (row_of now o ∷ rows)
  unfolding any belongs row_of
  row-IsAhead next o rows fits ahead = ground (arith, IsAhead-next next rows ahead)

  insert_batch_ok :
      (next : ℕ) (os : List Observation) (db : Db)
      → IsDeliverable info id now next os
      → IsAhead id next db.local.observations
      → (db' : Db) × (insert_batch info id now next os db ≡ ok db')
  unfolding insert_batch
  insert_batch_ok next [] db fits ahead = (db, refl)
  insert_batch_ok next (o ∷ os) db fits ahead =
      let mid = record db {
        local = record db.local { observations = row_of now o ∷ db.local.observations };
      } in
      let (last, rest) =
        insert_batch_ok (suc next) os mid fits.1
          (row-IsAhead next o db.local.observations fits.0 ahead) in
      (last, rw fits.0 (rw (insert_new next o db fits.0 ahead) rest))

module _ (sha256 : String → String) (secret : String) (first : Observation)
    (rest : List Observation) (now sent_at : ℕ) (batch_id : String) (s : Service) (db : Db)
    (k : CollectorKey) where
  written :
      IsDeliverable
        (key_info k (sha256 secret) now)
        first.collector_id
        now
        (suc (key_info k (sha256 secret) now).last)
        (first ∷ rest)
      → IsAhead first.collector_id (suc (key_info k (sha256 secret) now).last) db.local.observations
      → (db' : Db) × (write_batch k (sha256 secret) first rest now sent_at batch_id db ≡ ok db')
  unfolding write_batch
  written fits ahead =
      let info = key_info k (sha256 secret) now in
      let id = first.collector_id in
      let before = db_before k (sha256 secret) first rest now sent_at batch_id db in
      let same = db_before-rows k (sha256 secret) first rest now sent_at batch_id db in
      let (db', done) =
        insert_batch_ok info id now (suc info.last) (first ∷ rest) before fits
          (subst (IsAhead id (suc info.last)) (sym same) ahead) in
      (update_key id (record_batch first rest now sent_at batch_id) db', rw done refl)

  -- A delivery is accepted if the key is known, accepts the credential and has not recorded the id
  -- of the batch, the budget grants it, it has at most 128 observations that pass the checks of the
  -- loop, and the collector has no row yet at the next sequence number or above.
  pub batch_accepted :
      find_key first.collector_id db ≡ some k
      → is_accepted_by (key_info k (sha256 secret) now) first.post_id ≡ true
      → ((key_info k (sha256 secret) now).last_batch == batch_id) ≡ false
      → length (first ∷ rest) ≤ 128
      → (allow first.collector_id (length (first ∷ rest)) now s).1 ≡ true
      → IsDeliverable
          (key_info k (sha256 secret) now)
          first.collector_id
          now
          (suc (key_info k (sha256 secret) now).last)
          (first ∷ rest)
      → IsAhead first.collector_id (suc (key_info k (sha256 secret) now).last) db.local.observations
      → (accept_batch sha256 secret (first ∷ rest) now sent_at batch_id s db).answer ≡ ok false
  unfolding accept_batch authorize deliver
  batch_accepted known accepted fresh short granted fits ahead =
      let (db', done) = written fits ahead in ground arith
