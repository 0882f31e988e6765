-- ===== src/Examples/Prunings.antt =====
-- Old rows that are pruned, kept, and in the way.
use watchpost.Base.{
  ◌⊎◌, false, remove, text_before, ℕ, ◌≡◌, refl, true, false, none, some, List, [], ◌∷◌, any, count,
  eqb, ◌&&◌, arith, ok,
}
use watchpost.Store.Rows.{Alert, AlertState}
use watchpost.Retention.{
  Timed, Delivery, Tables, constraint_failed, is_old, has_alert, prune_alerts, max_passes, Pruned,
  bounded,
}
use watchpost.Retention.Pass.{Policy, run_once}
use watchpost.Retention.Batches.{observations_drained}
use watchpost.Retention.Protected.{is_protected, pruned_alerts_safe}

abbrev row : ℕ → ℕ → Timed
row id at = record { id = id; at = at }

abbrev alert : ℕ → AlertState → Alert
alert id state = record {
  id = id;
  rule_id = "r";
  post_id = "a";
  state = state;
  severity = "warning";
  opened_at = 1;
  updated_at = 2;
  acknowledged_at = none;
  resolved_at = some 3;
  value = none;
}

abbrev nothing : Tables
nothing = record {
  sessions = [];
  bootstrap_tokens = [];
  observations = [];
  check_results = [];
  logs = [];
  changes = [];
  alerts = [];
  incident_alerts = [];
  notification_deliveries = [];
  pairing_tokens = [];
  pairing_requests = [];
  federation_inbox = [];
  federation_outbox = [];
  conversations = [];
  conversation_messages = [];
  conversation_evidence = [];
}

abbrev rows : List Timed
rows = row 1 5 ∷ row 2 6 ∷ row 3 60 ∷ []

two_old : count (is_old 50) rows ≡ 2
unfolding count is_old text_before
two_old = refl

observations_drained_example :
    (r : Pruned (List Timed)) × (bounded max_passes 10 50 0 rows ≡ ok r)
    × (r.truncated ≡ false)
    × (r.left ≡ remove (is_old 50) rows)
    × (r.removed ≡ count (is_old 50) rows)
observations_drained_example =
    observations_drained 10 50 rows (omega arith) (omega arith) (omega (arith, two_old))

abbrev delivery : ℕ → Delivery
delivery id = record { id = 1; alert_id = id; state = "retry"; delivered_at = none }

abbrev many : Tables
many = record nothing {
  alerts =
      alert 1 AlertState.resolved ∷ alert 2 AlertState.resolved ∷ alert 3 AlertState.firing ∷ [];
  incident_alerts = 2 ∷ [];
  notification_deliveries = delivery 3 ∷ [];
}

abbrev fewer : Tables
fewer = record many { alerts = alert 2 AlertState.resolved ∷ alert 3 AlertState.firing ∷ [] }

pruned : prune_alerts 10 50 many ≡ ok (fewer, 1)
unfolding prune_alerts text_before
pruned = refl

pruned_alerts_safe_example :
    (any (λ a. eqb a.id 2 && is_protected many a) fewer.alerts
      ≡ any (λ a. eqb a.id 2 && is_protected many a) many.alerts)
    × ((any (λ d. eqb d.alert_id 3) many.notification_deliveries ≡ false)
        ⊎ (has_alert 3 many.alerts ≡ false)
        ⊎ (has_alert 3 fewer.alerts ≡ true))
pruned_alerts_safe_example = pruned_alerts_safe 10 50 2 3 many fewer 1 pruned

abbrev policy : Policy
policy = record {
  observations = 0;
  check_results = 0;
  logs = 0;
  changes = 0;
  alerts_resolved = 10;
  deliveries = 10;
  pairing_tokens = 10;
  pairing_requests = 0;
  federation_inbox = 10;
  federation_outbox = 0;
  conversations = 10;
  batch = 100;
}

-- a resolved alert whose notification was never delivered stops the pass
abbrev stuck : Tables
stuck = record nothing {
  alerts = alert 1 AlertState.resolved ∷ [];
  notification_deliveries = delivery 1 ∷ [];
  federation_inbox = row 1 5 ∷ [];
}

stuck_pass : run_once policy 100 stuck ≡ record {
  tables = stuck;
  counts = ("sessions", 0) ∷ ("bootstrap_tokens", 0) ∷ [];
  truncated = [];
  failure = some ("alerts", constraint_failed);
}
unfolding run_once text_before
stuck_pass = refl

-- so does an orphaned conversation with a message
abbrev talk : Tables
talk = record nothing {
  conversations = record { id = 1; post_id = none; incident_id = none; created_at = 5 } ∷ [];
  conversation_messages = record { id = 1; conversation_id = 1 } ∷ [];
}

talk_pass : (run_once policy 100 talk).failure ≡ some ("conversations", constraint_failed)
unfolding run_once text_before
talk_pass = refl
