-- ===== src/Alerts/Transitions.antt =====
-- The transitions of an alert, and when each is taken.
use watchpost.Base.{
  ℕ, ◌+◌, ◌==◌, ◌≤◌, String, ◌≡◌, ◌≢◌, ◌⊎◌, inl, inr, refl, Option-cases, Bool-cases, Bool, true,
  false, Option, none, some, arith,
}
use watchpost.Base.Int.{ℤ}
use watchpost.Store.Rows.{
  Rule, Alert, AlertState, pending, firing, acknowledged, suppressed, resolved,
}
use watchpost.Store.Tables.{Db}
use watchpost.Alerts.Decide.{
  duration, recovered, compare_value, first_breach, breach, desired_state,
}
use watchpost.Alerts.Evaluate.{scanned, evaluate_current, insert_alert}

-- a change of state that `Evaluate` may write
infix 40 ◌⟶◌
pub data ◌⟶◌ : AlertState → AlertState → Type 0 where
  fire : pending ⟶ firing
  clear_pending : pending ⟶ resolved
  clear_firing : firing ⟶ resolved
  clear_acknowledged : acknowledged ⟶ resolved
  resume : suppressed ⟶ pending
  resume_firing : suppressed ⟶ firing
  clear_suppressed : suppressed ⟶ resolved
  reopen : resolved ⟶ pending
  reopen_firing : resolved ⟶ firing
  reopen_suppressed : resolved ⟶ suppressed

ruleset edges = (
  fire, clear_pending, clear_firing, clear_acknowledged, resume, resume_firing, clear_suppressed,
  reopen, reopen_firing, reopen_suppressed,
)

-- A value that breaches the rule is not past its recovery threshold.
pub record IsHysteresis (r : Rule) : Type 0 where
  pub at :
      (v t : ℤ)
      → r.recovery_threshold ≡ some t
      → compare_value v r.operator r.threshold ≡ true
      → recovered v r.operator t ≡ false

-- A value of doubtful quality does not count as missing data that must fire.
abbrev pub IsReliable : Rule → String → Type 0
IsReliable r quality = ((r.missing_policy == "firing") ≡ false) ⊎ ((quality == "good") ≡ true)

-- an alert that is breached at first sight is breached in the end
breach_stays :
    (r : Rule) (quality : String) (state : AlertState) (value : Option ℤ)
    → IsHysteresis r
    → IsReliable r quality
    → first_breach r value quality ≡ true
    → breach r value state (first_breach r value quality) ≡ true
unfolding breach first_breach
breach_stays r quality state none h reliable b = b
breach_stays r quality state (some v) h reliable b = elim (Option-cases r.recovery_threshold) [
  | inl plain ↦ ground arith
  | inr (t, e) ↦ ground (arith, h.at v t e)
]

module _ (r : Rule) (maintenance : Bool) (at : ℕ) (value : Option ℤ) (quality : String)
    (current : Alert) where
  -- A pending alert that is still breached fires as soon as it has been open for the duration of
  -- its rule, and stays pending until then.
  pub pending_fires :
      current.state ≡ pending
      → breach r value current.state (first_breach r value quality) ≡ true
      → ((current.opened_at + duration r ≤ at)
          × (desired_state r maintenance at value quality current ≡ firing))
        ⊎ ((at + 1 ≤ current.opened_at + duration r)
            × (desired_state r maintenance at value quality current ≡ pending))
  unfolding desired_state
  pending_fires s b = ground arith

  -- under these conditions every change of state follows an edge
  edge_of :
      (first last : Bool)
      → (first ≡ true → last ≡ true)
      → first_breach r value quality ≡ first
      → breach r value current.state (first_breach r value quality) ≡ last
      → desired_state r maintenance at value quality current ≢ current.state
      → current.state ⟶ desired_state r maintenance at value quality current
  unfolding desired_state
  edge_of first last imp e f ne = grind (arith, edges)

  -- Every change of state that an evaluation asks for is one of ⟶, which has no edge from a pending,
  -- firing or acknowledged alert to suppressed: against docs/state-machines.md, maintenance does not
  -- suppress an active alert. This is so for a rule whose recovery threshold lies on the healthy
  -- side and data that is not both doubtful and counted as missing.
  pub desired-⟶ :
      IsHysteresis r
      → IsReliable r quality
      → desired_state r maintenance at value quality current ≢ current.state
      → current.state ⟶ desired_state r maintenance at value quality current
  desired-⟶ h reliable ne =
      edge_of (first_breach r value quality)
        (breach r value current.state (first_breach r value quality))
        (λ e. breach_stays r quality current.state value h reliable e) refl refl ne

  -- A firing or acknowledged alert that is still breached is left as it is, in maintenance too: no
  -- row is written, and the answer has the new value.
  pub raised_stays :
      (db : Db)
      → (current.state ≡ firing) ⊎ (current.state ≡ acknowledged)
      → breach r value current.state (first_breach r value quality) ≡ true
      → evaluate_current r maintenance at value quality (some current) db
        ≡ (db, scanned value current)
  unfolding evaluate_current desired_state
  raised_stays db s b = ground arith

-- Outside maintenance, for a good value that does not breach the rule, a raised alert of a rule
-- with a recovery threshold resolves if the value has recovered; if not, it stays as it is and no
-- row is written.
pub hysteresis :
    (r : Rule) (at : ℕ) (v t : ℤ) (current : Alert) (db : Db)
    → (current.state ≡ firing) ⊎ (current.state ≡ acknowledged)
    → r.recovery_threshold ≡ some t
    → compare_value v r.operator r.threshold ≡ false
    → let (db', alert) = evaluate_current r false at (some v) "good" (some current) db in
      ((recovered v r.operator t ≡ true) × (alert.state ≡ resolved) × (alert.resolved_at ≡ some at))
      ⊎ ((recovered v r.operator t ≡ false) × (db' ≡ db) × (alert.state ≡ current.state))
unfolding evaluate_current insert_alert desired_state breach first_breach
hysteresis r at v t current db s e below = elim (Bool-cases (recovered v r.operator t)) [
  | inl yet ↦ inl (yet, ground arith, ground arith)
  | inr still ↦ inr (still, ground arith, ground arith)
]
