-- ===== src/Ingest/Delivery/Redelivered.antt =====
-- The batch that is accepted, and its redelivery.
use watchpost.Base.{
  ℕ, suc, ◌+◌, String, ◌≡◌, ◌≢◌, eq_iff, eq_refl, ◌≤◌, ◌∙◌, true, false, some, List, ◌∷◌, arith,
  length, ok,
}
use watchpost.Store.Rows.{CollectorKey}
use watchpost.Store.Tables.{Db}
use watchpost.Ingest.Types.{Observation}
use watchpost.Ingest.Budget.{Service}
use watchpost.Ingest.Key.{authorize, find_key, promote, key_info, pending_matches, is_accepted_by}
use watchpost.Ingest.Accept.{deliver, accept_batch, write_batch}
use watchpost.Ingest.Batch.{end_sequence, record_batch}
use watchpost.Ingest.Delivery.Stored.{
  rows_onto, IsContiguous, key_after, write_batch-ok, last-contiguous,
}

-- a call of an id that the key has recorded
duplicate :
    (sha256 : String → String) (secret : String) (first : Observation) (rest : List Observation)
    (now sent_at : ℕ) (batch_id : String) (s : Service) (db' : Db) (k' : CollectorKey)
    → batch_id ≢ ""
    → find_key first.collector_id db' ≡ some k'
    → is_accepted_by (key_info k' (sha256 secret) now) first.post_id ≡ true
    → (key_info k' (sha256 secret) now).last_batch ≡ batch_id
    → (length (first ∷ rest) ≤ 128)
    → let again = accept_batch sha256 secret (first ∷ rest) now sent_at batch_id s db' in
      (again.answer ≡ ok true) × (again.db ≡ db') × (again.service ≡ s)
unfolding accept_batch authorize deliver
duplicate sha256 secret first rest now sent_at batch_id s db' k' named known acceptable last short =
    ground (arith, eq_iff batch_id "", eq_refl batch_id)

module _ (sha256 : String → String) (secret : String) (first : Observation)
    (rest : List Observation) (now sent_at : ℕ) (batch_id : String) (s : Service) (db : Db)
    (k : CollectorKey) where
  -- what is known of a call that stores its batch
  pub accepted :
      find_key first.collector_id db ≡ some k
      → (accept_batch sha256 secret (first ∷ rest) now sent_at batch_id s db).answer ≡ ok false
      → (write_batch k (sha256 secret) first rest now sent_at batch_id db
          ≡ ok (accept_batch sha256 secret (first ∷ rest) now sent_at batch_id s db).db)
        × (is_accepted_by (key_info k (sha256 secret) now) first.post_id ≡ true)
        × (length (first ∷ rest) ≤ 128)
  unfolding accept_batch authorize deliver
  accepted known h = ground arith

  -- the key accepts the same credential after the batch, at any time
  still_accepted :
      (now' : ℕ)
      → is_accepted_by (key_info k (sha256 secret) now) first.post_id ≡ true
      → is_accepted_by
          (key_info
            (key_after k (sha256 secret) first rest now sent_at batch_id db)
            (sha256 secret)
            now')
          first.post_id
        ≡ true
  unfolding key_info pending_matches is_accepted_by promote record_batch
  still_accepted now' h = ground arith

  last_batch-key_after :
      (now' : ℕ)
      → (key_info
          (key_after k (sha256 secret) first rest now sent_at batch_id db)
          (sha256 secret)
          now').last_batch
        ≡ batch_id
  unfolding key_info record_batch
  last_batch-key_after now' = ground arith

  last_sequence-key_after :
      (key_after k (sha256 secret) first rest now sent_at batch_id db).last_sequence
      ≡ end_sequence first.sequence rest
  unfolding record_batch
  last_sequence-key_after = ground arith

  -- A batch of a known key that is accepted is stored whole: every observation of it is a new row,
  -- the sequence numbers run on from the last one of the key without a gap, and the last sequence
  -- number of the key grows by the length of the batch.
  pub accepted_stored :
      find_key first.collector_id db ≡ some k
      → (accept_batch sha256 secret (first ∷ rest) now sent_at batch_id s db).answer ≡ ok false
      → let db' = (accept_batch sha256 secret (first ∷ rest) now sent_at batch_id s db).db in
        (db'.local.observations ≡ rows_onto now (first ∷ rest) db.local.observations)
        × IsContiguous (suc k.last_sequence) (first ∷ rest)
        × ((k' : CollectorKey) × (find_key first.collector_id db' ≡ some k')
            × (k'.last_sequence ≡ k.last_sequence + length (first ∷ rest)))
  accepted_stored known h =
      let written = (accepted known h).0 in
      let stored =
        write_batch-ok k (sha256 secret) first rest now sent_at batch_id db known written in
      (
        stored.1,
        stored.2,
        (
          key_after k (sha256 secret) first rest now sent_at batch_id db,
          stored.0,
          last_sequence-key_after ∙ last-contiguous k.last_sequence first rest stored.2,
        ),
      )

  -- A batch of a known key that was accepted under an id, delivered again at any time and with any
  -- budget left, is acknowledged as a duplicate, and neither the database nor the budget changes.
  -- The id is not empty.
  pub redelivery_acknowledged :
      (now' sent_at' : ℕ) (s' : Service)
      → batch_id ≢ ""
      → find_key first.collector_id db ≡ some k
      → (accept_batch sha256 secret (first ∷ rest) now sent_at batch_id s db).answer ≡ ok false
      → let db' = (accept_batch sha256 secret (first ∷ rest) now sent_at batch_id s db).db in
        let again = accept_batch sha256 secret (first ∷ rest) now' sent_at' batch_id s' db' in
        (again.answer ≡ ok true) × (again.db ≡ db') × (again.service ≡ s')
  redelivery_acknowledged now' sent_at' s' named known h =
      let db' = (accept_batch sha256 secret (first ∷ rest) now sent_at batch_id s db).db in
      let taken = accepted known h in
      let stored =
        write_batch-ok k (sha256 secret) first rest now sent_at batch_id db known taken.0 in
      duplicate sha256 secret first rest now' sent_at' batch_id s' db'
        (key_after k (sha256 secret) first rest now sent_at batch_id db) named stored.0
        (still_accepted now' taken.1) (last_batch-key_after now') taken.2
