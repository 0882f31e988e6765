-- ===== src/Alerts/Maintenance.antt =====
-- Where an evaluation does not do what maintenance, and the life of an alert, call for.
use watchpost.Base.{ℕ, ◌+◌, ◌≤◌, ◌==◌, String, ◌≡◌, ◌≢◌, true, false, Option, some, arith}
use watchpost.Base.Int.{ℤ}
use watchpost.Store.Rows.{Rule, Alert, pending, firing}
use watchpost.Alerts.Decide.{duration, recovered, first_breach, breach, desired_state}

-- A pending alert of a post in maintenance that is still breached fires when its duration is over:
-- the suppression that the evaluation asks for is overwritten by the rule for active alerts.
pub fires_in_maintenance :
    (r : Rule) (at : ℕ) (value : Option ℤ) (quality : String) (current : Alert)
    → current.state ≡ pending
    → breach r value current.state (first_breach r value quality) ≡ true
    → current.opened_at + duration r ≤ at
    → desired_state r true at value quality current ≡ firing
unfolding desired_state
fires_in_maintenance r at value quality current s b elapsed = ground arith

-- Outside maintenance a firing alert of a rule with a duration falls back to pending when a value
-- of doubtful quality has recovered while the rule counts missing data as a breach: the first test
-- and the recovery test disagree.
pub demoted_by_doubt :
    (r : Rule) (at : ℕ) (v t : ℤ) (quality : String) (current : Alert)
    → current.state ≡ firing
    → r.recovery_threshold ≡ some t
    → recovered v r.operator t ≡ true
    → (quality == "good") ≡ false
    → (r.missing_policy == "firing") ≡ true
    → duration r ≢ 0
    → desired_state r false at (some v) quality current ≡ pending
unfolding desired_state breach first_breach
demoted_by_doubt r at v t quality current s e rec doubt policy long = ground arith
