-- ===== src/Ingest/Delivery/Refused.antt =====
-- Deliveries that are refused: errors, and the revoked key.
use watchpost.Base.{ℕ, String, ◌≡◌, some, List, [], ◌∷◌, arith, err}
use watchpost.Store.Rows.{CollectorKey}
use watchpost.Store.Tables.{Db}
use watchpost.Ingest.Types.{Observation, IngestError, authentication_failed}
use watchpost.Ingest.Budget.{Service}
use watchpost.Ingest.Key.{authorize, find_key}
use watchpost.Ingest.Accept.{deliver, accept_batch, authenticate, accept}

module _ (sha256 : String → String) (secret : String) where
  -- A batch and a single observation that are refused leave the database as it was.
  pub refused_keeps :
      (batch : List Observation) (o : Observation) (now sent_at : ℕ) (batch_id : String)
      (s : Service) (db : Db) {e e' : IngestError}
      → (accept_batch sha256 secret batch now sent_at batch_id s db).answer ≡ err e
      → (accept sha256 secret o now s db).answer ≡ err e'
      → ((accept_batch sha256 secret batch now sent_at batch_id s db).db ≡ db)
        × ((accept sha256 secret o now s db).db ≡ db)
  unfolding accept_batch deliver accept
  refused_keeps [] o now sent_at batch_id s db h h' = ground arith
  refused_keeps (first ∷ rest) o now sent_at batch_id s db h h' = ground arith

  -- A revoked key delivers nothing: neither entry point changes the database, and the key does not
  -- authenticate.
  pub revoked_refused :
      (o : Observation) (rest : List Observation) (now sent_at : ℕ) (batch_id : String)
      (s : Service) (db : Db) (k : CollectorKey) (t : ℕ)
      → find_key o.collector_id db ≡ some k
      → k.revoked_at ≡ some t
      → ((accept_batch sha256 secret (o ∷ rest) now sent_at batch_id s db).db ≡ db)
        × ((accept sha256 secret o now s db).db ≡ db)
        × (authenticate sha256 o.collector_id secret now db ≡ err authentication_failed)
  unfolding accept_batch accept authenticate authorize
  revoked_refused o rest now sent_at batch_id s db k t known revoked = ground arith
