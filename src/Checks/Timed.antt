-- ===== src/Checks/Timed.antt =====
-- What one stored result does to the times of its schedule and of the others.
use watchpost.Base.{
  All-update_split, ==-comm, ℕ, ◌+◌, ◌*◌, ◌≤◌, Bool, ◌≡◌, ap, true, false, List, [], ◌∷◌, ◌==◌,
  arith, eq_iff, any, update_where, All, All-map, Distinct,
}
use watchpost.Alerts.Decide.{second}
use watchpost.Replicated.Snapshot.Ordered.{All-zip}
use watchpost.Checks.{Schedule, Probed, StoredResult, Tables, is_schedule, reschedule, result_row}

abbrev pub same_schedule : Schedule → Schedule → Bool
same_schedule s v = v.id == s.id

abbrev pub interval : Schedule → ℕ
interval s = s.interval_seconds * second

-- a result of the schedule lies an interval before a time
abbrev pub IsEarlier : Schedule → ℕ → StoredResult → Type 0
IsEarlier s at r = (r.schedule_id == s.id) ≡ true → r.checked_at + interval s ≤ at

-- the results of the schedule, the newest first, are an interval apart but for a second
abbrev pub IsApart : Schedule → List StoredResult → Type 0
IsApart s [] = Unit
IsApart s (r ∷ rs) =
    ((r.schedule_id == s.id) ≡ true → All (IsEarlier s (r.checked_at + second)) rs) × IsApart s rs

abbrev pub IsTimed : List StoredResult → Schedule → Type 0
IsTimed rs s = (30 ≤ s.interval_seconds) × (All (IsEarlier s s.next_run_at) rs × IsApart s rs)

pub record IsSpaced (t : Tables) : Type 0 where
  pub distinct : Distinct same_schedule t.schedules
  pub timed : All (IsTimed t.results) t.schedules
  pub known : All (λ r. any (is_schedule r.schedule_id) t.schedules ≡ true) t.results

-- a row with the schedule's id is due, and has its interval
abbrev pub IsPaced : ℕ → Schedule → Schedule → Type 0
IsPaced now v s =
    (s.id == v.id) ≡ true
    → (s.next_run_at ≤ now + second) × (s.interval_seconds ≡ v.interval_seconds)

abbrev pub IsReady : ℕ → List Schedule → Schedule → Type 0
IsReady now rows v = All (IsPaced now v) rows

pub rescheduled-IsReady :
    (now at : ℕ) (v w : Schedule) (rows : List Schedule)
    → (w.id == v.id) ≡ false
    → IsReady now rows w
    → IsReady now (update_where (is_schedule v.id) (reschedule at) rows) w
unfolding is_schedule reschedule
rescheduled-IsReady now at v w rows other =
    All-update_split _ _ (is_schedule v.id) (reschedule at)
      (λ s here ready same.
        absurd (ground (arith, eq_iff s.id v.id, eq_iff s.id w.id, eq_iff w.id v.id)))
      (λ s here ready same. ready same) rows

pub All-IsEarlier-later :
    (s : Schedule) (at later : ℕ) (rs : List StoredResult)
    → at ≤ later
    → All (IsEarlier s at) rs
    → All (IsEarlier s later) rs
All-IsEarlier-later s at later rs after =
    All-map _ _ (λ r early here. omega (arith, early here, after)) rs

-- a new result of a schedule that is due, and its next run an interval later
pub rescheduled-IsTimed :
    (now : ℕ) (v : Schedule) (r : Probed) (rs : List StoredResult) (rows : List Schedule)
    → IsReady now rows v
    → All (IsTimed rs) rows
    → All
        (IsTimed (result_row v.id now r ∷ rs))
        (update_where (is_schedule v.id) (reschedule (now + interval v)) rows)
unfolding result_row is_schedule reschedule
rescheduled-IsTimed now v r rs rows ready timed =
    All-update_split (λ s. IsPaced now v s × IsTimed rs s) _ (is_schedule v.id)
      (reschedule (now + interval v))
      (λ s here k.
        let (due_now, paced) = k.0 here in
        (
          k.1.0,
          (
            (
              (λ own. omega (arith, ap (λ n. n * second) paced)),
              All-IsEarlier-later s s.next_run_at (now + interval v) rs
                  (omega (arith, due_now, paced, k.1.0)) k.1.1.0,
            ),
            (
              (λ own. All-IsEarlier-later s s.next_run_at (now + second) rs due_now k.1.1.0),
              k.1.1.1,
            ),
          ),
        ))
      (λ s other k. (
        k.1.0,
        (
          ((λ own. absurd (ground (arith, ==-comm v.id s.id))), k.1.1.0),
          ((λ own. absurd (ground (arith, ==-comm v.id s.id))), k.1.1.1),
        ),
      ))
      rows (All-zip (IsPaced now v) (IsTimed rs) rows ready timed)
