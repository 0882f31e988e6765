-- ===== src/Replicated/Fsm/Retry.antt =====
-- Operation ids: what a committed operation that comes again does.
use watchpost.Base.{
  ℕ, String, ◌≡◌, inl, inr, Option-cases, Result-cases, ◌∙◌, ap, Option, none, some, arith, Result,
  ok, err, eq_refl, eq_iff, ◌==◌, if◌then◌else◌,
}
use watchpost.Base.Assoc.{lookup, lookup-insert}
use watchpost.Replicated.Op.{Operation, ApplyResult, Failure, conflicting_retry, Core, Disk}
use watchpost.Replicated.Apply.{Applied, result_of}
use watchpost.Replicated.Fsm.{
  AppliedOp, Fsm, LogEntry, dispatch, apply_known, admit, apply_locked, apply, remember, settle,
}

-- the digest and the result that are recorded for an id
abbrev summary : Option AppliedOp → Option (String × ApplyResult)
summary none = none
summary (some p) = some (p.digest, p.result)

abbrev pub recorded : String → Fsm → Option (String × ApplyResult)
recorded id f = summary (lookup id f.applied)

remember-recorded :
    (op : Operation) (digest : String) (res : ApplyResult) (index term : ℕ) (f : Fsm)
    → recorded op.id (remember op digest res index term f) ≡ some (digest, res)
unfolding remember
remember-recorded op digest res index term f = rw (lookup-insert, eq_refl)

-- still healthy, and at the same version
record Healthy (g f : Fsm) : Type 0 where
  pub failure : g.apply_failure ≡ none
  pub version : g.supported ≡ f.supported

settle_records :
    (op : Operation) (digest : String) (index term : ℕ) (f : Fsm) (m : Result Failure Applied)
    {r : ApplyResult}
    → (settle op digest index term f m).1 ≡ ok r
    → recorded op.id (settle op digest index term f m).0 ≡ some (digest, r)
unfolding settle
settle_records op digest index term f (err e) h = cc
settle_records op digest index term f (ok a) h = rw (lookup-insert, eq_refl) (cc)

skipped :
    (op : Operation) (digest : String) (index term : ℕ) (f : Fsm)
    → recorded op.id (remember op digest (result_of op index term op.revision) index term f)
      ≡ some (digest, result_of op index term op.revision)
skipped op digest index term f =
    remember-recorded op digest (result_of op index term op.revision) index term f

settle_health :
    (op : Operation) (digest : String) (index term : ℕ) (f : Fsm) (m : Result Failure Applied)
    {r : ApplyResult}
    → f.apply_failure ≡ none
    → (settle op digest index term f m).1 ≡ ok r
    → Healthy (settle op digest index term f m).0 f
unfolding settle
settle_health op digest index term f (err e) healthy h = ground arith
settle_health op digest index term f (ok a) healthy h = ground arith

module _ (disk : Disk) (op : Operation) (digest : String) (index term : ℕ) (f : Fsm) where
  apply_known_records :
      {r : ApplyResult}
      → (apply_known disk op digest index term f).1 ≡ ok r
      → recorded op.id (apply_known disk op digest index term f).0 ≡ some (digest, r)
  unfolding apply_known
  apply_known_records {r} h = elim (Option-cases (lookup op.id f.applied)) [
    | inl fresh ↦ ground (
      arith,
      settle_records op digest index term f (dispatch op.kind disk op index term f) {r = r},
      skipped op digest index term f,
    )
    | inr (prior, known) ↦ ground (arith, eq_iff prior.digest digest)
  ]

  apply_known_health :
      {r : ApplyResult}
      → f.apply_failure ≡ none
      → (apply_known disk op digest index term f).1 ≡ ok r
      → Healthy (apply_known disk op digest index term f).0 f
  unfolding apply_known
  apply_known_health {r} healthy h =
      ground (
        arith,
        settle_health op digest index term f (dispatch op.kind disk op index term f) {r = r},
      )

module _ (core : Core) where
  -- In a healthy state machine, an admitted operation whose id is known changes nothing: it has
  -- the recorded result if its digest is the recorded one, and is refused if not.
  pub apply_known_id :
      (disk : Disk) (f : Fsm) (entry : LogEntry) (op : Operation) (digest : String)
      (prior : AppliedOp)
      → f.apply_failure ≡ none
      → core.decode_operation entry.bytes ≡ some op
      → admit core f op ≡ ok digest
      → lookup op.id f.applied ≡ some prior
      → apply core disk f entry
        ≡ (f, if prior.digest == digest then ok prior.result else err conflicting_retry)
  unfolding apply apply_known
  apply_known_id disk f entry op digest prior healthy decoded admitted known = ground arith

  apply_step :
      (disk : Disk) (f : Fsm) (entry : LogEntry) (op : Operation) (digest : String)
      → f.apply_failure ≡ none
      → core.decode_operation entry.bytes ≡ some op
      → admit core f op ≡ ok digest
      → apply core disk f entry ≡ apply_known disk op digest entry.index entry.term f
  unfolding apply apply_locked
  apply_step disk f entry op digest healthy decoded admitted = ground arith

  refused_error :
      (disk : Disk) (f : Fsm) (entry : LogEntry) (op : Operation) (x : Failure) (r : ApplyResult)
      → f.apply_failure ≡ none
      → core.decode_operation entry.bytes ≡ some op
      → admit core f op ≡ err x
      → (apply core disk f entry).1 ≡ ok r
      → ⊥
  unfolding apply
  refused_error disk f entry op x r healthy decoded refused h = ground arith

  -- the recorded result answers a second apply
  apply_again :
      (disk : Disk) (f : Fsm) (entry : LogEntry) (op : Operation) (digest : String)
      (r : ApplyResult)
      → f.apply_failure ≡ none
      → core.decode_operation entry.bytes ≡ some op
      → admit core f op ≡ ok digest
      → recorded op.id f ≡ some (digest, r)
      → apply core disk f entry ≡ (f, ok r)
  apply_again disk f entry op digest r healthy decoded admitted rec =
      elim (Option-cases (lookup op.id f.applied)) [
        | inl fresh ↦ absurd (ground arith)
        | inr (prior, known) ↦
            apply_known_id disk f entry op digest prior healthy decoded admitted known
            ∙ ground (arith, eq_iff prior.digest digest)
      ]

  admit_version :
      (g f : Fsm) (op : Operation) → g.supported ≡ f.supported → admit core g op ≡ admit core f op
  unfolding admit
  admit_version g f op h = rw h

  apply_records :
      (disk : Disk) (f : Fsm) (entry : LogEntry) (op : Operation) (digest : String)
      (r : ApplyResult)
      → f.apply_failure ≡ none
      → core.decode_operation entry.bytes ≡ some op
      → admit core f op ≡ ok digest
      → (apply core disk f entry).1 ≡ ok r
      → (recorded op.id (apply core disk f entry).0 ≡ some (digest, r))
        × Healthy (apply core disk f entry).0 f
  apply_records disk f entry op digest r healthy decoded admitted h =
      let step = apply_step disk f entry op digest healthy decoded admitted in
      rw step (
        apply_known_records disk op digest entry.index entry.term f (rw step at h),
        apply_known_health disk op digest entry.index entry.term f healthy (rw step at h),
      )

  -- An operation that a healthy state machine has applied with success is applied once: its entry,
  -- committed again at any index and under any term, returns the result that it returned the first
  -- time and changes nothing.
  pub apply_once :
      (disk disk' : Disk) (f : Fsm) (entry entry' : LogEntry) (op : Operation) (r : ApplyResult)
      → f.apply_failure ≡ none
      → core.decode_operation entry.bytes ≡ some op
      → entry'.bytes ≡ entry.bytes
      → (apply core disk f entry).1 ≡ ok r
      → apply core disk' (apply core disk f entry).0 entry' ≡ ((apply core disk f entry).0, ok r)
  apply_once disk disk' f entry entry' op r healthy decoded same h =
      elim (Result-cases (admit core f op)) [
        | inl (digest, admitted) ↦
            let (known, health) =
              apply_records disk f entry op digest r healthy decoded admitted h in
            apply_again disk' (apply core disk f entry).0 entry' op digest r health.failure
              (ap core.decode_operation same ∙ decoded)
              (admit_version (apply core disk f entry).0 f op health.version ∙ admitted) known
        | inr (x, refused) ↦ absurd (refused_error disk f entry op x r healthy decoded refused h)
      ]
