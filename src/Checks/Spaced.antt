-- ===== src/Checks/Spaced.antt =====
-- Runs of due checks, and the times between the results of a schedule.
use mathlib.Core.Path.{subst}
use watchpost.Base.{
  ◌≤◌, not, text_before, text_before_not, All-take, Distinct-take, Distinct-filter, ◌⊎◌, ==-comm, ℕ,
  sym, ◌+◌, String, ◌≡◌, refl, ◌∙◌, true, false, some, List, [], ◌∷◌, ◌==◌, arith, eq_iff, any,
  filter, update_where, All, All-map, All-filter, Distinct, Distinct-update_where, any-update_where,
  Bool-cases, inl, inr, ok,
}
use watchpost.Store.Audit.{Entry}
use watchpost.Replicated.Snapshot.Ordered.{All-any-false, All-zip, All-order_by, Distinct-order_by}
use watchpost.Checks.{
  is_valid, constraint_failed, Schedule, Probed, StoredResult, Tables, Network, is_schedule, is_due,
  due, save, store_result, store_results, run_due, run_with_policy, reschedule, result_row, max_due,
}
use watchpost.Checks.Timed.{
  IsEarlier, IsApart, same_schedule, interval, IsSpaced, IsReady, rescheduled-IsReady,
  rescheduled-IsTimed,
}

abbrev stored : ℕ → Schedule → Probed → Tables → Tables
stored now v r t = record t {
  results = result_row v.id now r ∷ t.results;
  schedules = update_where (is_schedule v.id) (reschedule (now + interval v)) t.schedules;
}

stored-IsSpaced :
    (now : ℕ) (v : Schedule) (r : Probed) (t : Tables)
    → any (is_schedule v.id) t.schedules ≡ true
    → IsReady now t.schedules v
    → IsSpaced t
    → IsSpaced (stored now v r t)
unfolding is_schedule reschedule result_row
stored-IsSpaced now v r t there ready k =
    let kept = λ (id : String).
      any-update_where (is_schedule id) (is_schedule v.id) (reschedule (now + interval v))
        (λ x. refl) t.schedules in
    record {
      distinct =
          Distinct-update_where same_schedule (is_schedule v.id) (reschedule (now + interval v))
            (λ x y. refl) (λ x y. refl) t.schedules k.distinct;
      timed = rescheduled-IsTimed now v r t.results t.schedules ready k.timed;
      known = (kept v.id ∙ there, All-map _ _ (λ q h. kept q.schedule_id ∙ h) t.results k.known);
    }

store_results-cons :
    (now : ℕ) (net : Network) (v : Schedule) (rest : List Schedule) (t : Tables)
    → (store_results now net (v ∷ rest) t ≡ (t, some constraint_failed))
      ⊎ ((any (is_schedule v.id) t.schedules ≡ true)
          × (store_results now net (v ∷ rest) t
              ≡ store_results now net rest (stored now v (run_with_policy net v) t)))
unfolding store_results store_result
store_results-cons now net v rest t = elim (Bool-cases (any (is_schedule v.id) t.schedules)) [
  | inr gone ↦ inl (ground arith)
  | inl there ↦ inr (there, ground arith)
]

store_results-IsSpaced :
    (now : ℕ) (net : Network) (work : List Schedule) (t : Tables)
    → Distinct same_schedule work
    → All (IsReady now t.schedules) work
    → IsSpaced t
    → IsSpaced (store_results now net work t).0
unfolding store_results
store_results-IsSpaced now net [] t apart ready k = k
store_results-IsSpaced now net (v ∷ rest) t apart ready k =
    elim (store_results-cons now net v rest t) [
      | inl stop ↦ subst (λ x. IsSpaced x.0) (sym stop) k
      | inr (there, onward) ↦
          subst (λ x. IsSpaced x.0) (sym onward)
            (store_results-IsSpaced now net rest (stored now v (run_with_policy net v) t) apart.1
              (All-map _ _
                (λ w h. rescheduled-IsReady now (now + interval v) v w t.schedules h.0 h.1) rest
                (All-zip (λ w. same_schedule v w ≡ false) (IsReady now t.schedules) rest
                  (All-any-false (same_schedule v) rest apart.0) ready.1))
              (stored-IsSpaced now v (run_with_policy net v) t there ready.0 k))
    ]

-- of rows with different ids, those that are due are ready
due-IsReady :
    (now : ℕ) (rows : List Schedule)
    → Distinct same_schedule rows
    → All (λ v. is_due now v ≡ true → IsReady now rows v) rows
unfolding is_due
due-IsReady now [] apart = tt
due-IsReady now (x ∷ rest) apart = (
  λ here. (
    (λ same. (ground (arith, text_before_not now x.next_run_at), refl)),
    All-map _ _ (λ s other same. absurd (ground arith)) rest
        (All-any-false (same_schedule x) rest apart.0),
  ),
  All-map _ _ (λ v h here. ((λ same. absurd (ground (arith, ==-comm x.id v.id, h.0))), h.1 here))
      rest
      (All-zip (λ v. same_schedule x v ≡ false) (λ v. is_due now v ≡ true → IsReady now rest v) rest
        (All-any-false (same_schedule x) rest apart.0) (due-IsReady now rest apart.1)),
)

run_due-IsSpaced :
    (net : Network) (now : ℕ) (t : Tables) → IsSpaced t → IsSpaced (run_due net now t).0
unfolding run_due due
run_due-IsSpaced net now t k =
    let hit = filter (is_due now) t.schedules in
    let le = λ (a b : Schedule). not (text_before b.next_run_at a.next_run_at) in
    store_results-IsSpaced now net (due now t) t
      (Distinct-take same_schedule max_due _ (
        Distinct-order_by le same_schedule (λ s v. ==-comm v.id s.id) hit
          (Distinct-filter same_schedule (is_due now) t.schedules k.distinct)))
      (All-take _ max_due _ (
        All-order_by le (IsReady now t.schedules) hit (
          All-filter _ _ (is_due now) (λ v h here. h here) t.schedules
            (due-IsReady now t.schedules k.distinct))))
      k

-- a new schedule has no result
fresh-IsApart :
    (s : Schedule) (rs : List StoredResult)
    → All (λ r. (r.schedule_id == s.id) ≡ false) rs
    → All (IsEarlier s s.next_run_at) rs × IsApart s rs
fresh-IsApart s [] h = (tt, tt)
fresh-IsApart s (r ∷ rs) h =
    let rest = fresh-IsApart s rs h.1 in
    (((λ own. absurd (ground arith)), rest.0), ((λ own. absurd (ground arith)), rest.1))

saved_long :
    (sha256 : String → String) (net : Network) (v : Schedule) (now : ℕ) (entry : Entry)
    (t t' : Tables)
    → save sha256 net v now entry t ≡ ok t'
    → 30 ≤ v.interval_seconds
unfolding save is_valid
saved_long sha256 net v now entry t t' h = ground arith

save-IsSpaced :
    (sha256 : String → String) (net : Network) (v : Schedule) (now : ℕ) (entry : Entry)
    (t t' : Tables)
    → save sha256 net v now entry t ≡ ok t'
    → IsSpaced t
    → IsSpaced t'
unfolding save any is_schedule
save-IsSpaced sha256 net v now entry t t' h k =
    let s = record v { enabled = true; next_run_at = now } in
    let fresh : any (is_schedule v.id) t.schedules ≡ false = ground arith in
    let rows : s ∷ t.schedules ≡ t'.schedules = ground arith in
    let same : t.results ≡ t'.results = ground arith in
    rw (sym rows) (
      rw (sym same) (record {
        distinct = (fresh, k.distinct);
        timed = (
          (
            saved_long sha256 net v now entry t t' h,
            fresh-IsApart s t.results (
                All-map _ _ (λ r there. ground (arith, there, eq_iff r.schedule_id v.id)) t.results
                  k.known),
          ),
          k.timed,
        );
        known = All-map _ _ (λ r there. ground (arith, there)) t.results k.known;
      }))

-- Accepted calls of `Save`, and calls of `RunDue`, one after another.
pub data Steps (sha256 : String → String) (t : Tables) : Tables → Type 0 where
  done : Steps sha256 t t
  saved :
      {mid last : Tables} (net : Network) (v : Schedule) (now : ℕ) (entry : Entry)
      → Steps sha256 t mid
      → save sha256 net v now entry mid ≡ ok last
      → Steps sha256 t last
  ran :
      {mid : Tables} (net : Network) (now : ℕ)
      → Steps sha256 t mid
      → Steps sha256 t (run_due net now mid).0

-- Calls of Save and of RunDue in any number, one after another, whatever their times and whatever
-- the probes answer, keep the checks paced: any two results of a schedule are its interval apart but
-- for at most a second, which the comparison of times as texts may cost, and the next run is a whole
-- interval after each. An interval has 30 seconds or more, no two schedules have one id, and every
-- result is of a schedule. All this is so afterwards if it was so before.
pub steps-IsSpaced :
    (sha256 : String → String) (t t' : Tables) → Steps sha256 t t' → IsSpaced t → IsSpaced t'
steps-IsSpaced sha256 t _ done k = k
steps-IsSpaced sha256 t t' (saved {mid = mid} net v now entry steps step) k =
    save-IsSpaced sha256 net v now entry mid t' step (steps-IsSpaced sha256 t mid steps k)
steps-IsSpaced sha256 t _ (ran {mid = mid} net now steps) k =
    run_due-IsSpaced net now mid (steps-IsSpaced sha256 t mid steps k)
