-- ===== src/Ingest/Budget.antt =====
-- internal/ingest/ingest.go: the budget of samples of each collector in a minute.
use watchpost.Base.{ℕ, ◌+◌, String, Bool, true, false, none, some, [], ltb, leb, if◌then◌else◌}
use watchpost.Base.Assoc.{Assoc, lookup, insert}

pub record RateWindow : Type 0 where
  pub minute_start : ℕ
  pub samples : ℕ

-- the mutable part of `Service`; no budget is a limit of 0
pub record Service : Type 0 where
  pub rate : Assoc RateWindow
  pub limit : ℕ

abbrev pub minute : ℕ
minute = 60_000_000_000

unfoldable pub new_service : Service
new_service = record { rate = []; limit = 3600 }

unfoldable pub set_ingest_rate : ℕ → Service → Service
set_ingest_rate limit s = record s { limit = limit }

-- the window of a collector at `now`: a fresh one if there is none or a minute has passed
unfoldable pub window_at : String → ℕ → Service → RateWindow
unfolding lookup
window_at id now s = elim (lookup id s.rate) [
  | none ↦ record { minute_start = now; samples = 0 }
  | some w ↦
      if leb (w.minute_start + minute) now then record { minute_start = now; samples = 0 } else w
]

-- the window is stored also when the samples do not fit
unfoldable pub allow : String → ℕ → ℕ → Service → Service × Bool
unfolding window_at
allow id samples now s =
    let w = window_at id now s in
    if leb s.limit 0
    then (s, true)
    else if ltb s.limit (w.samples + samples)
    then (record s { rate = insert id w s.rate }, false)
    else (record s { rate = insert id (record w { samples = w.samples + samples }) s.rate }, true)
