-- ===== src/Replicated/Fsm/Rule.antt =====
-- One rule for what an apply does to the database: it stays, or a dispatched operation changed it.
use watchpost.Base.{
  ℕ, String, ◌≡◌, Option-cases, Result-cases, inl, inr, none, some, arith, ◌⊎◌, ok, err,
}
use watchpost.Replicated.Op.{Operation, Failure, Core, Disk}
use watchpost.Replicated.Apply.{Applied}
use watchpost.Replicated.Fsm.{Fsm, LogEntry, dispatch, settle, apply_known, admit, apply}

-- the database and the graph revision are as before
abbrev Same : Fsm → Fsm → Type 0
Same g f = (g.db ≡ f.db) × (g.graph_rev ≡ f.graph_rev)

-- they are those of a dispatched operation
abbrev Took : Fsm → Applied → Type 0
Took g a = (g.db ≡ a.db) × (g.graph_rev ≡ a.graph_rev)

module _ (disk : Disk) (op : Operation) (digest : String) (index term : ℕ) (f : Fsm) where
  not_applied :
      {e : Failure}
      → dispatch op.kind disk op index term f ≡ err e
      → Same (apply_known disk op digest index term f).0 f
  unfolding apply_known settle
  not_applied h = ground arith

  maybe_applied :
      {a : Applied}
      → dispatch op.kind disk op index term f ≡ ok a
      → Same (apply_known disk op digest index term f).0 f
        ⊎ Took (apply_known disk op digest index term f).0 a
  unfolding apply_known settle
  maybe_applied h = ground arith

module _ (core : Core) (disk : Disk) (f : Fsm) (entry : LogEntry) where
  undecoded : core.decode_operation entry.bytes ≡ none → Same (apply core disk f entry).0 f
  unfolding apply
  undecoded h = ground arith

  decoded_cases :
      (op : Operation)
      → core.decode_operation entry.bytes ≡ some op
      → Same (apply core disk f entry).0 f
        ⊎ ((digest : String) × (apply core disk f entry
              ≡ apply_known disk op digest entry.index entry.term f))
  unfolding apply
  decoded_cases op h = elim (Result-cases (admit core f op)) [
    | inl (digest, e) ↦ elim (Option-cases f.apply_failure) [
      | inl healthy ↦ inr (digest, ground arith)
      | inr (x, failed) ↦ inl (ground arith)
    ]
    | inr (x, e) ↦ inl (ground arith)
  ]

  -- An apply leaves the database and the graph revision, or takes those of its operation.
  pub apply_effect :
      Same (apply core disk f entry).0 f
      ⊎ ((op : Operation) × (a : Applied) × (core.decode_operation entry.bytes ≡ some op)
          × (dispatch op.kind disk op entry.index entry.term f ≡ ok a)
          × Took (apply core disk f entry).0 a)
  apply_effect = elim (Option-cases (core.decode_operation entry.bytes)) [
    | inl h ↦ inl (undecoded h)
    | inr (op, h) ↦ elim (decoded_cases op h) [
      | inl same ↦ inl same
      | inr (digest, known) ↦
          elim (Result-cases (dispatch op.kind disk op entry.index entry.term f)) [
            | inl (a, done) ↦ elim (maybe_applied disk op digest entry.index entry.term f done) [
              | inl same ↦ inl (rw known same)
              | inr took ↦ inr (op, a, h, done, rw known took)
            ]
            | inr (x, refused) ↦
                inl (rw known (not_applied disk op digest entry.index entry.term f refused))
          ]
    ]
  ]
