-- ===== src/Alerts/History.antt =====
-- The rows that evaluations leave: the answer of an evaluation is what the table shows next.
use watchpost.Base.{ℕ, String, ◌≡◌, refl, Bool, Option, none, some, arith, if◌then◌else◌, eq_refl}
use watchpost.Base.Int.{ℤ}
use watchpost.Store.Rows.{Rule, Alert, AlertState, resolved}
use watchpost.Store.Tables.{Db}
use watchpost.Alerts.Evaluate.{evaluate_current, latest_alert, insert_alert}
use watchpost.Alerts.Decide.{first_breach, first_desired, breach, desired_state}

-- the state that the table shows for a rule
abbrev state_of : Option Alert → AlertState
state_of none = resolved
state_of (some a) = a.state

abbrev pub shown_state : Rule → Db → AlertState
shown_state r db = state_of (latest_alert r db)

latest-insert :
    (r : Rule) (state : AlertState) (opened at : ℕ) (value : Option ℤ) (db : Db)
    → latest_alert r (insert_alert r state opened at value db).0
      ≡ some (insert_alert r state opened at value db).1
unfolding latest_alert insert_alert
latest-insert r state opened at value db = ground (arith, eq_refl r.id, eq_refl r.post_id)

module _ (r : Rule) (maintenance : Bool) (at : ℕ) (value : Option ℤ) (quality : String)
    (db : Db) where
  shown_after :
      (o : Option Alert)
      → latest_alert r db ≡ o
      → shown_state r (evaluate_current r maintenance at value quality o db).0
        ≡ (evaluate_current r maintenance at value quality o db).1.state
  unfolding evaluate_current
  shown_after none e =
      let first = first_breach r value quality in
      ground (arith, latest-insert r (first_desired r maintenance first) at at value db)
  shown_after (some current) e =
      let breached = breach r value current.state (first_breach r value quality) in
      ground (
        arith,
        latest-insert r (desired_state r maintenance at value quality current)
            (if breached then current.opened_at else at) at value db,
      )

  -- The state in the answer of an evaluation is the state that the table shows afterwards.
  pub evaluate-shown_state :
      let (db', alert) = evaluate_current r maintenance at value quality (latest_alert r db) db in
      shown_state r db' ≡ alert.state
  evaluate-shown_state = shown_after (latest_alert r db) refl
