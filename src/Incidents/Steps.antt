-- ===== src/Incidents/Steps.antt =====
-- The accepted calls as steps, and what each of them adds to the timeline.
use mathlib.Core.Path.{subst}
use Prim.Native.String.{◌++◌ as ◌++ˢ◌}
use watchpost.Base.{
  ℕ, suc, String, ◌≡◌, ◌∙◌, ap, true, List, ◌∷◌, arith, any, update_where, ok, Result-cases, ◌>>=◌,
  inl, inr,
}
use watchpost.Store.Audit.{Entry}
use watchpost.Incidents.{
  Incident, TimelineEntry, Tables, is_status, is_incident, add_entry, opened, moved, assigned,
  change, create, next_incident, next_entry, link_alerts, transition, add_note, assign, audited,
}

-- An accepted call, whoever makes it.
pub data Step (shown : ℕ → String) (t t' : Tables) : Type 0 where
  created :
      (title severity actor : String) (alerts : List ℕ) (now : ℕ) (entry : Entry) (row : Incident)
      → create shown title severity actor alerts now entry t ≡ ok (t', row)
      → Step shown t t'
  transitioned :
      (id : ℕ) (status actor summary : String) (now : ℕ) (entry : Entry)
      → transition shown id status actor summary now entry t ≡ ok t'
      → Step shown t t'
  noted :
      (id : ℕ) (actor body : String) (now : ℕ) (entry : Entry)
      → add_note shown id actor body now entry t ≡ ok t'
      → Step shown t t'
  given :
      (id : ℕ) (owner actor : String) (now : ℕ) (entry : Entry)
      → assign shown id owner actor now entry t ≡ ok t'
      → Step shown t t'

pub data Steps (shown : ℕ → String) (t : Tables) : Tables → Type 0 where
  done : Steps shown t t
  then : {mid last : Tables} → Steps shown t mid → Step shown mid last → Steps shown t last

abbrev pub count_steps : {shown : ℕ → String} {t t' : Tables} → Steps shown t t' → ℕ
count_steps done = 0
count_steps (then steps step) = suc (count_steps steps)

-- what an accepted call adds to the timeline: one entry, of an incident that is there
pub record IsRecorded (incidents : List Incident) (t t' : Tables) : Type 0 where
  pub entry : TimelineEntry
  pub added : t'.timeline ≡ entry ∷ t.timeline
  pub left : t'.incidents ≡ incidents
  pub present : any (is_incident entry.incident_id) incidents ≡ true

add_entry-IsRecorded :
    (id at : ℕ) (kind actor body incident : String) (entry : Entry) (t : Tables) {d : Tables}
    → add_entry id at kind actor body t ≡ ok d
    → IsRecorded t.incidents t (audited entry incident d)
unfolding add_entry audited next_entry
add_entry-IsRecorded id at kind actor body incident entry t {d} h = record {
  entry = record {
    id = next_entry t.timeline;
    incident_id = id;
    at = at;
    kind = kind;
    actor = actor;
    body = body;
  };
  added = ground arith;
  left = ground arith;
  present = ground arith;
}

change-IsRecorded :
    (id : ℕ) (f : Incident → Incident) (t mid t' : Tables)
    → change id f t ≡ ok mid
    → IsRecorded mid.incidents mid t'
    → IsRecorded (update_where (is_incident id) f t.incidents) t t'
unfolding change
change-IsRecorded id f t mid t' h r = record {
  entry = r.entry;
  added = r.added ∙ ap (λ rows. r.entry ∷ rows) (ground arith);
  left = r.left ∙ ground arith;
  present =
      subst (λ rows. any (is_incident r.entry.incident_id) rows ≡ true) (ground arith) r.present;
}

module _ (shown : ℕ → String) (t : Tables) {t' : Tables} where
  pub create_ok :
      (title severity actor : String) (alerts : List ℕ) (now : ℕ) (entry : Entry) {row : Incident}
      → create shown title severity actor alerts now entry t ≡ ok (t', row)
      → IsRecorded (opened (next_incident t.incidents) title severity now ∷ t.incidents) t t'
  unfolding create
  create_ok title severity actor alerts now entry h =
      let id = next_incident t.incidents in
      let row = opened id title severity now in
      elim (Result-cases (link_alerts (shown id) alerts t.db)) [
        | inr (e, failed) ↦ absurd (ground arith)
        | inl (db, linked) ↦
            let base = record t { incidents = row ∷ t.incidents; db = db } in
            elim (Result-cases (add_entry id now "created" actor title base)) [
              | inr (e, failed) ↦ absurd (ground arith)
              | inl (d, recorded) ↦
                  let r =
                    add_entry-IsRecorded id now "created" actor title (shown id) entry base
                      recorded in
                  let same : audited entry (shown id) d ≡ t' = ground arith in
                  subst (λ x. IsRecorded (row ∷ t.incidents) t x) same
                    (record {
                      entry = r.entry;
                      added = r.added;
                      left = r.left;
                      present = r.present;
                    })
            ]
      ]

  -- a change of one row, and its entry
  entered :
      (id at : ℕ) (kind actor body : String) (entry : Entry) (f : Incident → Incident)
      → (do
        changed ← change id f t
        d ← add_entry id at kind actor body changed
        ok (audited entry (shown id) d))
        ≡ ok t'
      → IsRecorded (update_where (is_incident id) f t.incidents) t t'
  entered id at kind actor body entry f h = elim (Result-cases (change id f t)) [
    | inr (e, failed) ↦ absurd (ground arith)
    | inl (mid, changed) ↦ elim (Result-cases (add_entry id at kind actor body mid)) [
      | inr (e, failed) ↦ absurd (ground arith)
      | inl (d, recorded) ↦
          let same : audited entry (shown id) d ≡ t' = ground arith in
          change-IsRecorded id f t mid t' changed (
            subst (IsRecorded mid.incidents mid) same
              (add_entry-IsRecorded id at kind actor body (shown id) entry mid recorded))
    ]
  ]

  pub transition_ok :
      (id : ℕ) (status actor summary : String) (now : ℕ) (entry : Entry)
      → transition shown id status actor summary now entry t ≡ ok t'
      → (is_status status ≡ true)
        × IsRecorded (update_where (is_incident id) (moved status summary now) t.incidents) t t'
  unfolding transition
  transition_ok id status actor summary now entry h = (
    ground arith,
    entered id now "status" actor (status ++ˢ ": " ++ˢ summary) entry (moved status summary now)
        (ground arith),
  )

  pub assign_ok :
      (id : ℕ) (owner actor : String) (now : ℕ) (entry : Entry)
      → assign shown id owner actor now entry t ≡ ok t'
      → IsRecorded (update_where (is_incident id) (assigned owner now) t.incidents) t t'
  unfolding assign
  assign_ok id owner actor now entry h =
      entered id now "assignment" actor owner entry (assigned owner now) (ground arith)

  pub note_ok :
      (id : ℕ) (actor body : String) (now : ℕ) (entry : Entry)
      → add_note shown id actor body now entry t ≡ ok t'
      → IsRecorded t.incidents t t'
  unfolding add_note
  note_ok id actor body now entry h = elim (Result-cases (add_entry id now "note" actor body t)) [
    | inr (e, failed) ↦ absurd (ground arith)
    | inl (d, recorded) ↦
        let same : audited entry (shown id) d ≡ t' = ground arith in
        subst (IsRecorded t.incidents t) same
          (add_entry-IsRecorded id now "note" actor body (shown id) entry t recorded)
  ]
