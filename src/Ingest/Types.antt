-- ===== src/Ingest/Types.antt =====
-- internal/ingest/ingest.go: what a collector delivers, and the errors of a delivery. A time is in
-- nanoseconds.
use watchpost.Base.{ℕ, String, Option, List}
use watchpost.Base.Int.{ℤ}

-- a float64 that was delivered
pub data Reading : Type 0 where
  finite : ℤ → Reading
  not_finite : Reading

pub record Observation : Type 0 where
  pub version : ℕ
  pub post_id : String
  pub collector_id : String
  pub observed_at : ℕ
  pub sequence : ℕ
  pub signal : String
  pub value : Option Reading
  pub unit : String
  pub quality : String
  pub labels : List (String × String)

pub data IngestError : Type 0 where
  invalid_batch authentication_failed rate_exceeded non_contiguous : IngestError
  invalid_observation outside_clock replayed constraint_failed : IngestError
