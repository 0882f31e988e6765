-- ===== src/Incidents/Timeline.antt =====
-- Sequences of accepted calls only add to the timeline.
use watchpost.Base.{ℕ, suc, String, ◌≡◌, refl, ◌∙◌, ap, List, [], ◌∷◌, ◌++◌, length}
use watchpost.Incidents.{TimelineEntry, Tables}
use watchpost.Incidents.Steps.{
  Step, created, transitioned, noted, given, Steps, done, then, count_steps, create_ok,
  transition_ok, assign_ok, note_ok,
}

step_added :
    (shown : ℕ → String) (t t' : Tables)
    → Step shown t t'
    → (e : TimelineEntry) × (t'.timeline ≡ e ∷ t.timeline)
step_added shown t t' (created title severity actor alerts now entry row h) =
    let r = create_ok shown t title severity actor alerts now entry h in (r.entry, r.added)
step_added shown t t' (transitioned id status actor summary now entry h) =
    let r = (transition_ok shown t id status actor summary now entry h).1 in (r.entry, r.added)
step_added shown t t' (noted id actor body now entry h) =
    let r = note_ok shown t id actor body now entry h in (r.entry, r.added)
step_added shown t t' (given id owner actor now entry h) =
    let r = assign_ok shown t id owner actor now entry h in (r.entry, r.added)

-- The timeline is append-only: each accepted call adds one entry to it, and the entries that were
-- there stay as they were.
pub steps_append :
    (shown : ℕ → String) (t t' : Tables) (steps : Steps shown t t')
    → (new : List TimelineEntry) × (t'.timeline ≡ new ++ t.timeline)
      × (length new ≡ count_steps steps)
steps_append shown t _ done = ([], refl, refl)
steps_append shown t t' (then {mid = mid} steps step) =
    let (new, kept, size) = steps_append shown t mid steps in
    let (e, added) = step_added shown mid t' step in
    (e ∷ new, added ∙ ap (λ rows. e ∷ rows) kept, ap suc size)
