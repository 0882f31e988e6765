-- ===== src/Ingest/Rate.antt =====
-- internal/ingest/ingest.go, `allow`: what a collector may deliver in one minute.
use watchpost.Base.{
  ℕ, ◌+◌, ◌≤◌, ◌<◌, String, ◌≡◌, false, some, List, [], ◌∷◌, ◌==◌, arith, if◌then◌else◌, All, inl,
  inr, Bool-cases, eq_refl, eq_iff,
}
use watchpost.Base.Assoc.{lookup, insert, lookup-insert}
use watchpost.Ingest.Budget.{RateWindow, Service, minute, window_at, allow}

-- a delivery of a collector: its time and the number of its samples
pub record Delivery : Type 0 where
  pub collector : String
  pub now : ℕ
  pub samples : ℕ

-- the number of samples of `id` that the budget grants over a sequence of deliveries
abbrev pub granted : String → List Delivery → Service → ℕ
granted id [] s = 0
granted id (d ∷ ds) s =
    let out = allow d.collector d.samples d.now s in
    let rest = granted id ds out.0 in
    (if out.1 then (if d.collector == id then d.samples else 0) else 0) + rest

-- the window of a collector, and the room that is left in it
abbrev pub IsOpen : String → RateWindow → Service → Type 0
IsOpen id w s = (lookup id s.rate ≡ some w) × (1 ≤ s.limit) × (w.samples ≤ s.limit)

-- the window after `n` more samples
abbrev grown : ℕ → RateWindow → RateWindow
grown n w = record w { samples = w.samples + n }

lookup-insert_other :
    (k id : String) (v : RateWindow) (m : List (String × RateWindow))
    → (k == id) ≡ false
    → lookup id (insert k v m) ≡ lookup id m
lookup-insert_other k id v m other = ground (arith, lookup-insert k id v m)

module _ (id : String) (n now : ℕ) (w : RateWindow) (s : Service) where
  allow_other : (k : String) → (k == id) ≡ false → IsOpen id w s → IsOpen id w (allow k n now s).0
  unfolding allow
  allow_other k other h = grind (arith, lookup-insert_other)

  window_now : lookup id s.rate ≡ some w → now < w.minute_start + minute → window_at id now s ≡ w
  unfolding window_at
  window_now found within = ground arith

  allow_same :
      IsOpen id w s
      → now < w.minute_start + minute
      → IsOpen id (grown (if (allow id n now s).1 then n else 0) w) (allow id n now s).0
  unfolding allow
  allow_same h within = ground (
    arith,
    window_now h.0 within,
    eq_refl id,
    lookup-insert id id w s.rate,
    lookup-insert id id (grown n w) s.rate,
  )

allow-limit : (id : String) (n now : ℕ) (s : Service) → (allow id n now s).0.limit ≡ s.limit
unfolding allow
allow-limit id n now s = ground arith

-- While the window of a collector is open, the samples that it is granted over any sequence of
-- deliveries, those of other collectors among them, do not exceed what the limit has left in the
-- window.
pub granted-bound :
    (id : String) (deliveries : List Delivery) (w : RateWindow) (s : Service)
    → IsOpen id w s
    → All (λ d. d.now < w.minute_start + minute) deliveries
    → w.samples + granted id deliveries s ≤ s.limit
granted-bound id [] w s h within = omega arith
granted-bound id (d ∷ ds) w s h within = elim (Bool-cases (d.collector == id)) [
  | inl e ↦
      let same = (eq_iff d.collector id).0 e in
      let n = if (allow id d.samples d.now s).1 then d.samples else 0 in
      rw same (
        ground (
          arith,
          eq_refl id,
          allow-limit id d.samples d.now s,
          granted-bound id ds (grown n w) (allow id d.samples d.now s).0
              (allow_same id d.samples d.now w s h within.0) within.1,
        ))
  | inr e ↦ rw e (
      ground (
        arith,
        allow-limit d.collector d.samples d.now s,
        granted-bound id ds w (allow d.collector d.samples d.now s).0
            (allow_other id d.samples d.now w s d.collector e h) within.1,
      ))
]
