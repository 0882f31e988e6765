-- ===== src/Incidents/Settled.antt =====
-- Sequences of accepted calls keep the incidents and the timeline well-formed.
use watchpost.Base.{
  ℕ, String, ◌≡◌, refl, ◌∙◌, ap, Bool, true, false, Option, none, some, List, ◌∷◌, ◌==◌, eqb, arith,
  any, any-update_where, update_where, All, All-map, All-update_where,
}
use watchpost.Incidents.{
  Incident, TimelineEntry, Tables, is_status, is_incident, opened, moved, assigned, next_incident,
}
use watchpost.Incidents.Steps.{
  Step, created, transitioned, noted, given, Steps, done, then, IsRecorded, create_ok,
  transition_ok, assign_ok, note_ok,
}

abbrev is_resolved : Option ℕ → Bool
is_resolved none = false
is_resolved (some at) = true

-- a known status, and a time of resolution exactly where the status is "resolved"
pub record IsSettled (i : Incident) : Type 0 where
  pub known : is_status i.status ≡ true
  pub resolution : (i.status == "resolved") ≡ is_resolved i.resolved_at

abbrev pub IsOf : List Incident → TimelineEntry → Type 0
IsOf incidents e = any (is_incident e.incident_id) incidents ≡ true

pub record IsKept (t : Tables) : Type 0 where
  pub settled : All IsSettled t.incidents
  pub owned : All (IsOf t.incidents) t.timeline

IsKept-of :
    (incidents : List Incident) (t t' : Tables)
    → IsRecorded incidents t t'
    → All IsSettled incidents
    → ((id : ℕ) → any (is_incident id) t.incidents ≡ true → any (is_incident id) incidents ≡ true)
    → IsKept t
    → IsKept t'
IsKept-of incidents t t' r settled more k = record {
  settled = rw r.left settled;
  owned =
      rw r.left
        (rw r.added (r.present, All-map _ _ (λ e h. more e.incident_id h) t.timeline k.owned));
}

opened-IsSettled :
    (id : ℕ) (title severity : String) (now : ℕ) → IsSettled (opened id title severity now)
unfolding opened is_status
opened-IsSettled id title severity now = record { known = refl; resolution = refl }

moved-IsSettled :
    (status summary : String) (now : ℕ) (i : Incident)
    → is_status status ≡ true
    → IsSettled (moved status summary now i)
unfolding moved
moved-IsSettled status summary now i known = record { known = known; resolution = ground arith }

assigned-IsSettled :
    (owner : String) (now : ℕ) (i : Incident) → IsSettled i → IsSettled (assigned owner now i)
unfolding assigned
assigned-IsSettled owner now i s = record { known = s.known; resolution = s.resolution }

update_where-more :
    (id : ℕ) (f : Incident → Incident) (incidents : List Incident)
    → ((i : Incident) → (f i).id ≡ i.id)
    → (other : ℕ) → any (is_incident other) incidents ≡ true
    → any (is_incident other) (update_where (is_incident id) f incidents) ≡ true
unfolding is_incident
update_where-more id f incidents same other h =
    any-update_where (is_incident other) (is_incident id) f (λ i. ap (λ n. eqb n other) (same i))
      incidents
    ∙ h

cons-more :
    (i : Incident) (incidents : List Incident) (id : ℕ)
    → any (is_incident id) incidents ≡ true
    → any (is_incident id) (i ∷ incidents) ≡ true
unfolding any
cons-more i incidents id h = ground arith

step-IsKept : (shown : ℕ → String) (t t' : Tables) → Step shown t t' → IsKept t → IsKept t'
unfolding moved assigned
step-IsKept shown t t' (created title severity actor alerts now entry row h) k =
    let new = opened (next_incident t.incidents) title severity now in
    IsKept-of (new ∷ t.incidents) t t' (create_ok shown t title severity actor alerts now entry h)
      (opened-IsSettled (next_incident t.incidents) title severity now, k.settled)
      (cons-more new t.incidents) k
step-IsKept shown t t' (transitioned id status actor summary now entry h) k =
    let r = transition_ok shown t id status actor summary now entry h in
    IsKept-of (update_where (is_incident id) (moved status summary now) t.incidents) t t' r.1
      (All-update_where IsSettled (is_incident id) (moved status summary now)
        (λ i s. moved-IsSettled status summary now i r.0) t.incidents k.settled)
      (update_where-more id (moved status summary now) t.incidents (λ i. refl)) k
step-IsKept shown t t' (noted id actor body now entry h) k =
    IsKept-of t.incidents t t' (note_ok shown t id actor body now entry h) k.settled (λ i h'. h') k
step-IsKept shown t t' (given id owner actor now entry h) k =
    IsKept-of (update_where (is_incident id) (assigned owner now) t.incidents) t t'
      (assign_ok shown t id owner actor now entry h)
      (All-update_where IsSettled (is_incident id) (assigned owner now)
        (λ i s. assigned-IsSettled owner now i s) t.incidents k.settled)
      (update_where-more id (assigned owner now) t.incidents (λ i. refl)) k

-- From well-formed tables, accepted calls in any number and order lead to well-formed tables: each
-- incident has a known status, and a time of resolution exactly while it is resolved, and every
-- entry of the timeline belongs to an incident.
pub steps-IsKept : (shown : ℕ → String) (t t' : Tables) → Steps shown t t' → IsKept t → IsKept t'
steps-IsKept shown t _ done k = k
steps-IsKept shown t t' (then {mid = mid} steps step) k =
    step-IsKept shown mid t' step (steps-IsKept shown t mid steps k)
