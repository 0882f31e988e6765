-- ===== src/Ingest/Batch.antt =====
-- internal/ingest/ingest.go: the checks and the rows of a batch. The newest row stands first.
use Prim.Native.String.{len}
use watchpost.Base.{
  ℕ, ◌+◌, ◌-◌, ◌*◌, suc, String, Bool, true, false, not, ◌&&◌, ◌||◌, Option, none, some, List, [],
  ◌∷◌, ◌==◌, eqb, ltb, leb, if◌then◌else◌, any, length, Result, ok, ◌>>=◌, ◌>>◌, guard,
}
use watchpost.Base.Int.{ℤ}
use watchpost.Store.Rows.{CollectorKey}
use watchpost.Store.Rows
use watchpost.Store.Tables.{Db}
use watchpost.Ingest.Types.{
  Reading, finite, not_finite, Observation, IngestError, non_contiguous, constraint_failed,
}
use watchpost.Ingest.Budget.{minute}
use watchpost.Ingest.Key.{KeyInfo}

unfoldable pub is_quality : String → Bool
is_quality q = q == "good" || q == "uncertain" || q == "bad" || q == "missing" || q == "stale"

unfoldable pub is_finite : Option Reading → Bool
is_finite (some not_finite) = false
is_finite _ = true

-- the checks on the content of an observation that both entry points share
unfoldable pub is_well_formed : Observation → Bool
unfolding is_quality is_finite
is_well_formed o =
    eqb o.version 1
    && leb 1 (len o.signal)
    && leb (len o.signal) 128
    && leb (length o.labels) 32
    && is_quality o.quality
    && is_finite o.value

abbrev pub day : ℕ
day = 24 * 60 * minute

-- not before a day ago, and not later than in five minutes
unfoldable pub in_clock_bounds : ℕ → ℕ → Bool
in_clock_bounds now observed_at =
    not (ltb observed_at (now - day)) && not (ltb (now + 5 * minute) observed_at)

unfoldable pub belongs : KeyInfo → String → ℕ → ℕ → Observation → Bool
unfolding is_well_formed in_clock_bounds
belongs info collector_id now next o =
    o.post_id == info.post
    && o.collector_id == collector_id
    && eqb o.sequence next
    && is_well_formed o
    && in_clock_bounds now o.observed_at

abbrev pub stored_value : Option Reading → Option ℤ
stored_value (some (finite v)) = some v
stored_value _ = none

unfoldable pub row_of : ℕ → Observation → Rows.Observation
row_of now o = record {
  post_id = o.post_id;
  collector_id = o.collector_id;
  observed_at = o.observed_at;
  ingested_at = now;
  sequence = o.sequence;
  signal = o.signal;
  value = stored_value o.value;
  unit = o.unit;
  quality = o.quality;
}

-- `UNIQUE(collector_id,sequence,signal)`
unfoldable pub insert_observation : Rows.Observation → Db → Result IngestError Db
unfolding any
insert_observation row db = do
  guard
      (not (
        any
          (λ x.
            x.collector_id == row.collector_id
            && eqb x.sequence row.sequence
            && x.signal == row.signal)
          db.local.observations))
      constraint_failed
  ok (record db { local = record db.local { observations = row ∷ db.local.observations } })

-- the loop over the batch; `next` is `info.last + index + 1`
unfoldable pub insert_batch :
    KeyInfo → String → ℕ → ℕ → List Observation → Db → Result IngestError Db
unfolding belongs row_of
insert_batch info collector_id now next [] db = ok db
insert_batch info collector_id now next (o ∷ os) db = do
  guard (belongs info collector_id now next o) non_contiguous
  db' ← insert_observation (row_of now o) db
  insert_batch info collector_id now (suc next) os db'

unfoldable pub latest_time : ℕ → List Observation → ℕ
latest_time latest [] = latest
latest_time latest (o ∷ os) =
    latest_time (if ltb latest o.observed_at then o.observed_at else latest) os

unfoldable pub is_partial : List Observation → Bool
unfolding any
is_partial = any (λ o. not (o.quality == "good") || o.signal == "collector.dropped_samples")

unfoldable pub end_sequence : ℕ → List Observation → ℕ
end_sequence n [] = n
end_sequence n (o ∷ os) = end_sequence o.sequence os

unfoldable pub record_batch :
    Observation → List Observation → ℕ → ℕ → String → CollectorKey → CollectorKey
unfolding end_sequence latest_time is_partial
record_batch first rest now sent_at batch_id k = record k {
  last_sequence = end_sequence first.sequence rest;
  last_seen_at = some now;
  last_observed_at = some (latest_time first.observed_at rest);
  last_sent_at = some sent_at;
  last_error = "";
  partial = is_partial (first ∷ rest);
  last_batch_id = some batch_id;
}
