-- ===== src/Alerts/Decide.antt =====
-- internal/rules/rules.go: the state that an evaluation wants. A time is in nanoseconds.
use watchpost.Base.{
  ℕ, ◌+◌, ◌*◌, String, Bool, true, false, not, ◌&&◌, ◌||◌, Option, none, some, ◌==◌, eqb, leb,
  if◌then◌else◌,
}
use watchpost.Base.Int.{ℤ, ltb_ℤ, leb_ℤ}
use watchpost.Store.Rows.{
  Rule, Alert, AlertState, pending, firing, acknowledged, suppressed, resolved,
}

pub data AlertError : Type 0 where
  invalid_rule rule_not_found not_firing no_rows storage_failed : AlertError

abbrev pub second : ℕ
second = 1_000_000_000

-- `time.Duration(seconds) * time.Second`
unfoldable pub duration : Rule → ℕ
duration r = r.duration_seconds * second

-- a value is a finite float64, so its order is that of ℤ
unfoldable pub compare_value : ℤ → String → ℤ → Bool
compare_value v op t =
    if op == "gt"
    then ltb_ℤ t v
    else if op == "gte"
    then leb_ℤ t v
    else if op == "lt"
    then ltb_ℤ v t
    else if op == "lte"
    then leb_ℤ v t
    else false

unfoldable pub recovered : ℤ → String → ℤ → Bool
recovered v op t = if op == "gt" || op == "gte" then ltb_ℤ v t else ltb_ℤ t v

unfoldable pub state_eq : AlertState → AlertState → Bool
state_eq pending pending = true
state_eq firing firing = true
state_eq acknowledged acknowledged = true
state_eq suppressed suppressed = true
state_eq resolved resolved = true
state_eq _ _ = false

-- an alert that is shown: pending, firing or acknowledged
unfoldable pub is_active : AlertState → Bool
is_active pending = true
is_active firing = true
is_active acknowledged = true
is_active _ = false

unfoldable pub is_raised : AlertState → Bool
is_raised firing = true
is_raised acknowledged = true
is_raised _ = false

-- `value != nil && quality == "good" && compare(…)`, or a missing value under the policy "firing"
unfoldable pub first_breach : Rule → Option ℤ → String → Bool
unfolding compare_value
first_breach r none quality = r.missing_policy == "firing"
first_breach r (some v) quality =
    if quality == "good"
    then compare_value v r.operator r.threshold
    else r.missing_policy == "firing"

unfoldable pub first_desired : Rule → Bool → Bool → AlertState
first_desired r maintenance breached =
    if maintenance && breached
    then suppressed
    else if breached
    then (if eqb (duration r) 0 then firing else pending)
    else resolved

-- a raised alert with a recovery threshold stays breached until the value is past that
unfoldable pub breach : Rule → Option ℤ → AlertState → Bool → Bool
unfolding recovered is_raised
breach r none state breached = breached
breach r (some v) state breached = elim r.recovery_threshold [
  | none ↦ breached
  | some t ↦ if is_raised state then not (recovered v r.operator t) else breached
]

-- the three adjustments of the desired state, in their order
unfoldable pub adjust_maintenance : Bool → Bool → AlertState → AlertState
unfolding state_eq
adjust_maintenance maintenance breached desired =
    if maintenance && breached
    then suppressed
    else if breached && state_eq desired resolved
    then pending
    else desired

unfoldable pub adjust_active : Rule → ℕ → Alert → Bool → AlertState → AlertState
unfolding state_eq is_active
adjust_active r at current breached desired =
    if breached && is_active current.state
    then (if state_eq current.state pending && leb (current.opened_at + duration r) at
        then firing
        else current.state)
    else desired

unfoldable pub adjust_resolved : Bool → Alert → AlertState → AlertState
unfolding state_eq
adjust_resolved breached current desired =
    if not breached && state_eq current.state resolved then resolved else desired

unfoldable pub desired_state : Rule → Bool → ℕ → Option ℤ → String → Alert → AlertState
unfolding first_desired adjust_maintenance adjust_active adjust_resolved
desired_state r maintenance at value quality current =
    let first = first_breach r value quality in
    let breached = breach r value current.state first in
    adjust_resolved breached current (
      adjust_active r at current breached
        (adjust_maintenance maintenance breached (first_desired r maintenance first)))
