-- ===== src/Replicated/Fsm/Fence.antt =====
-- Failures of the state machine: what a failed apply leaves alone, and what comes after it.
use watchpost.Base.{ℕ, String, ◌≡◌, ◌≢◌, refl, ◌⊎◌, inl, inr, none, some, List, [], ◌∷◌, arith, err}
use watchpost.Replicated.Op.{Operation, Failure, conflicting_retry, Core, Disk}
use watchpost.Replicated.Fsm.{Fsm, LogEntry, poison, settle, apply_known, apply_locked, apply, run}

-- what a restart would find and a reader would see is the same
pub record SameState (f g : Fsm) : Type 0 where
  pub db : f.db ≡ g.db
  pub graph_rev : f.graph_rev ≡ g.graph_rev
  pub applied : f.applied ≡ g.applied
  pub applied_index : f.applied_index ≡ g.applied_index
  pub applied_term : f.applied_term ≡ g.applied_term
  pub product : f.product ≡ g.product

SameState-poison : (e : Failure) (f : Fsm) → SameState (poison e f) f
unfolding poison
SameState-poison e f = ground arith

module _ (disk : Disk) (op : Operation) (digest : String) (index term : ℕ) (f : Fsm) where
  apply_known_keeps :
      {e : Failure}
      → (apply_known disk op digest index term f).1 ≡ err e
      → SameState (apply_known disk op digest index term f).0 f
  unfolding apply_known settle
  apply_known_keeps h = ground arith

  apply_known_error :
      {e : Failure}
      → f.apply_failure ≡ none
      → (apply_known disk op digest index term f).1 ≡ err e
      → ((apply_known disk op digest index term f).0.apply_failure ≡ some e)
        ⊎ (e ≡ conflicting_retry)
  unfolding apply_known settle
  apply_known_error healthy h = ground arith

module _ (core : Core) (disk : Disk) where
  apply_locked_keeps :
      (f : Fsm) (op : Operation) (index term : ℕ) {e : Failure}
      → (apply_locked core disk f op index term).1 ≡ err e
      → SameState (apply_locked core disk f op index term).0 f
  unfolding apply_locked
  apply_locked_keeps f op index term h = grind (arith, apply_known_keeps)

  -- An apply that returns an error changes neither the database nor the graph revision, the known
  -- operations, the applied position or the product.
  pub apply_error_keeps :
      (f : Fsm) (entry : LogEntry) {e : Failure}
      → (apply core disk f entry).1 ≡ err e
      → SameState (apply core disk f entry).0 f
  unfolding apply
  apply_error_keeps f entry h = grind (arith, apply_known_keeps)

  -- a poisoned state machine is not changed by any entry
  apply_fenced :
      (f : Fsm) (entry : LogEntry) {e : Failure}
      → f.apply_failure ≡ some e
      → (apply core disk f entry).0 ≡ f
  unfolding apply
  apply_fenced f entry h = ground arith

  -- A healthy state machine is poisoned by every error of an apply but one: a known id with
  -- another digest.
  pub apply_error_poisons :
      (f : Fsm) (entry : LogEntry) {e : Failure}
      → f.apply_failure ≡ none
      → (apply core disk f entry).1 ≡ err e
      → ((apply core disk f entry).0.apply_failure ≡ some e) ⊎ (e ≡ conflicting_retry)
  unfolding apply
  apply_error_poisons f entry healthy h = grind (arith, apply_known_error)

module _ (core : Core) where
  -- A poisoned state machine is left as it is by any log.
  pub run_fenced :
      (f : Fsm) (log : List (Disk × LogEntry)) {e : Failure}
      → f.apply_failure ≡ some e
      → run core f log ≡ f
  unfolding run
  run_fenced f [] h = refl
  run_fenced f ((disk, entry) ∷ log) h = rw (apply_fenced core disk f entry h) (run_fenced f log h)

  -- From a healthy state, an entry that fails for any reason but a conflicting retry is the last
  -- one that has an effect, whatever follows it in the log: the database, the graph revision, the
  -- known operations, the applied position and the product stay as they were before it, and its
  -- error is the one that is reported from then on.
  pub first_failure_is_boundary :
      (disk : Disk) (f : Fsm) (entry : LogEntry) (log : List (Disk × LogEntry)) {e : Failure}
      → f.apply_failure ≡ none
      → (apply core disk f entry).1 ≡ err e
      → e ≢ conflicting_retry
      → SameState (run core f ((disk, entry) ∷ log)) f
        × ((run core f ((disk, entry) ∷ log)).apply_failure ≡ some e)
  unfolding run
  first_failure_is_boundary disk f entry log healthy h other =
      elim (apply_error_poisons core disk f entry healthy h) [
        | inl poisoned ↦
            rw (run_fenced (apply core disk f entry).0 log poisoned)
              (apply_error_keeps core disk f entry h, poisoned)
        | inr retried ↦ absurd (other retried)
      ]
