-- ===== src/Examples/Evaluations.antt =====
-- Evaluations of a rule "cpu above 90 for 60 s, recovered below 80".
use watchpost.Base.{◌+◌, ◌*◌, ◌≤◌, ◌≡◌, ◌⊎◌, refl, true, false, none, some, arith, inl, inr}
use watchpost.Base.Int.{pos}
use watchpost.Store.Rows.{Rule, Alert, AlertState, pending, firing, resolved}
use watchpost.Store.Tables.{empty_db}
use watchpost.Alerts.Decide.{
  second, duration, compare_value, recovered, first_breach, breach, desired_state,
}
use watchpost.Alerts.Evaluate.{evaluate_current}
use watchpost.Alerts.Transitions.{◌⟶◌, IsHysteresis, desired-⟶, hysteresis}
use watchpost.Alerts.Maintenance.{fires_in_maintenance}

abbrev cpu : Rule
cpu = record {
  id = "cpu";
  post_id = "a";
  signal = "cpu";
  operator = "gt";
  threshold = pos 90;
  duration_seconds = 60;
  recovery_threshold = some (pos 80);
  missing_policy = "firing";
  severity = "warning";
  enabled = true;
  version = 1;
}

abbrev alert : AlertState → Alert
alert state = record {
  id = 1;
  rule_id = "cpu";
  post_id = "a";
  state = state;
  severity = "warning";
  opened_at = 5 * second;
  updated_at = 5 * second;
  acknowledged_at = none;
  resolved_at = none;
  value = some (pos 95);
}

cpu-IsHysteresis : IsHysteresis cpu
unfolding compare_value recovered
cpu-IsHysteresis = record { at = λ v t e h. ground arith }

breached : breach cpu (some (pos 95)) pending (first_breach cpu (some (pos 95)) "good") ≡ true
unfolding breach first_breach compare_value
breached = refl

now_fires : desired_state cpu false (65 * second) (some (pos 95)) "good" (alert pending) ≡ firing
unfolding desired_state breach first_breach duration
now_fires = refl

desired-⟶_example :
    pending ⟶ desired_state cpu false (65 * second) (some (pos 95)) "good" (alert pending)
desired-⟶_example =
    desired-⟶ cpu false (65 * second) (some (pos 95)) "good" (alert pending) cpu-IsHysteresis
      (inr refl) (λ e. let both = now_fires in cc)

between : compare_value (pos 85) "gt" (pos 90) ≡ false
unfolding compare_value
between = refl

hysteresis_example :
    let (db', last) =
      evaluate_current cpu false
        (70 * second)
        (some (pos 85))
        "good"
        (some (alert firing))
        empty_db in
    ((recovered (pos 85) "gt" (pos 80) ≡ true)
      × (last.state ≡ resolved)
      × (last.resolved_at ≡ some (70 * second)))
    ⊎ ((recovered (pos 85) "gt" (pos 80) ≡ false) × (db' ≡ empty_db) × (last.state ≡ firing))
hysteresis_example =
    hysteresis cpu (70 * second) (pos 85) (pos 80) (alert firing) empty_db (inl refl) refl between

elapsed : 5 * second + duration cpu ≤ 65 * second
unfolding duration
elapsed = omega arith

fires_in_maintenance_example :
    desired_state cpu true (65 * second) (some (pos 95)) "good" (alert pending) ≡ firing
fires_in_maintenance_example =
    fires_in_maintenance cpu (65 * second) (some (pos 95)) "good" (alert pending) refl breached
      elapsed
