-- ===== src/Alerts/Evaluate.antt =====
-- internal/rules/rules.go: the evaluation of rules and the acknowledgement. An evaluation inserts a
-- row for each change of state; the newest row stands first, and its id, an INTEGER PRIMARY KEY, is
-- above all others.
use watchpost.Base.{
  ℕ, suc, String, Bool, ◌&&◌, Option, none, some, List, [], ◌∷◌, ◌==◌, eqb, ltb, if◌then◌else◌, any,
  find, count, filter, update_where, Result, ok, err, ◌>>=◌, ◌>>◌, guard, require,
}
use watchpost.Base.Int.{ℤ}
use watchpost.Store.Rows.{Post, Rule, Alert, AlertState, firing, acknowledged, resolved}
use watchpost.Store.Tables.{Db}
use watchpost.Store.Audit.{Entry, knows_actor, insert_audit}
use watchpost.Alerts.Decide.{
  storage_failed, AlertError, not_firing, no_rows, state_eq, first_breach, first_desired, breach,
  desired_state,
}

unfoldable pub max_id : List Alert → ℕ
max_id [] = 0
max_id (a ∷ rest) = let m = max_id rest in if ltb a.id m then m else a.id

-- `INSERT INTO alerts`
unfoldable pub insert_alert : Rule → AlertState → ℕ → ℕ → Option ℤ → Db → Db × Alert
unfolding max_id state_eq
insert_alert r state opened_at at value db =
    let row : Alert = record {
      id = suc (max_id db.local.alerts);
      rule_id = r.id;
      post_id = r.post_id;
      state = state;
      severity = r.severity;
      opened_at = opened_at;
      updated_at = at;
      acknowledged_at = none;
      resolved_at = if state_eq state resolved then some at else none;
      value = value;
    } in
    (record db { local = record db.local { alerts = row ∷ db.local.alerts } }, row)

-- the answer when nothing is breached and there is no alert: no row is written
unfoldable pub calm : Rule → ℕ → Alert
calm r at = record {
  id = 0;
  rule_id = r.id;
  post_id = r.post_id;
  state = resolved;
  severity = r.severity;
  opened_at = 0;
  updated_at = at;
  acknowledged_at = none;
  resolved_at = none;
  value = none;
}

-- the answer when the state stays: the columns that the query reads, with the new value
unfoldable pub scanned : Option ℤ → Alert → Alert
scanned value current = record {
  id = current.id;
  rule_id = "";
  post_id = "";
  state = current.state;
  severity = "";
  opened_at = current.opened_at;
  updated_at = current.updated_at;
  acknowledged_at = none;
  resolved_at = none;
  value = value;
}

-- the part of `Evaluate` after the latest alert has been read
unfoldable pub evaluate_current :
    Rule → Bool → ℕ → Option ℤ → String → Option Alert → Db → Db × Alert
unfolding first_desired calm scanned state_eq
evaluate_current r maintenance at value quality none db =
    let breached = first_breach r value quality in
    if breached
    then insert_alert r (first_desired r maintenance breached) at at value db
    else (db, calm r at)
evaluate_current r maintenance at value quality (some current) db =
    let breached = breach r value current.state (first_breach r value quality) in
    let desired = desired_state r maintenance at value quality current in
    if state_eq desired current.state
    then (db, scanned value current)
    else insert_alert r desired (if breached then current.opened_at else at) at value db

unfoldable pub latest_alert : Rule → Db → Option Alert
unfolding find
latest_alert r db = find (λ a. a.rule_id == r.id && a.post_id == r.post_id) db.local.alerts

unfoldable pub evaluate : String → ℕ → Option ℤ → String → Db → Result AlertError (Db × Alert)
unfolding latest_alert find
evaluate rule_id at value quality db = do
  r ← require (find (λ (x : Rule). x.id == rule_id) db.rules) no_rows
  p ← require (find (λ (x : Post). x.id == r.post_id) db.posts) no_rows
  ok (evaluate_current r p.maintenance at value quality (latest_alert r db) db)

unfoldable pub acknowledge_row : ℕ → Alert → Alert
acknowledge_row at a = record a { state = acknowledged; acknowledged_at = some at; updated_at = at }

unfoldable pub is_firing : ℕ → Alert → Bool
unfolding state_eq
is_firing id a = eqb a.id id && state_eq a.state firing

-- `Acknowledge`; `shown` is `fmt.Sprint(id)`
unfoldable pub acknowledge : ℕ → String → ℕ → Entry → Db → Result AlertError Db
unfolding acknowledge_row is_firing insert_audit
acknowledge id shown at entry db = do
  guard (eqb (count (is_firing id) db.local.alerts) 1) not_firing
  let alerts = update_where (is_firing id) (acknowledge_row at) db.local.alerts
  guard (knows_actor entry db) storage_failed
  ok (
      insert_audit (record entry { object_type = "alert"; object_id = shown })
        (record db { local = record db.local { alerts = alerts } }))

-- `EvaluateObservation`: every enabled rule for the signal, or for a legacy name of it
unfoldable pub signal_names : String → List String
signal_names signal = if signal == "load.1" then signal ∷ "load.one" ∷ [] else signal ∷ []

unfoldable pub concerns : String → String → Rule → Bool
unfolding signal_names any
concerns post_id signal r =
    r.post_id == post_id && any (λ s. s == r.signal) (signal_names signal) && r.enabled

-- each evaluation is a transaction of its own: what was done before an error stays
unfoldable pub evaluate_all :
    List Rule → ℕ → Option ℤ → String → Db → Db × Result AlertError (List Alert)
evaluate_all [] at value quality db = (db, ok [])
evaluate_all (r ∷ rs) at value quality db = elim (evaluate r.id at value quality db) [
  | err e ↦ (db, err e)
  | ok (db', alert) ↦
      let (last, alerts) = evaluate_all rs at value quality db' in
      (last, alerts >>= λ found. ok (alert ∷ found))
]

-- `order` is the query's `ORDER BY id`
unfoldable pub evaluate_observation :
    (List Rule → List Rule)
    → String
    → String
    → ℕ
    → Option ℤ
    → String
    → Db
    → Db × Result AlertError (List Alert)
unfolding concerns filter evaluate_all
evaluate_observation order post_id signal at value quality db =
    evaluate_all (order (filter (concerns post_id signal) db.rules)) at value quality db
