-- ===== src/Replicated/Adapter/Admitted.antt =====
-- What the adapter admits, the state machine applies.
use watchpost.Base.{
  ℕ, String, ◌≡◌, ◌≤◌, ◌+◌, ◌==◌, ◌||◌, count, any, Distinct, Bool-cases, Result-cases, eq_refl,
  Result, refl, inl, inr, none, some, List, [], ◌∷◌, arith, Bool, true, false, ok, eq_iff,
}
use mathlib.Core.Path.{subst}
use watchpost.Base.Assoc.{lookup}
use watchpost.Store.Rows.{Post}
use watchpost.Replicated.Consistent.{IsConsistent, same_post}
use watchpost.Replicated.Op.{
  Operation, Kind, Payload, post, PostPayload, Core, Disk, decode_dependency,
}
use watchpost.Replicated.Apply.{Applied, apply_dependency_add, has_post}
use watchpost.Replicated.Fsm.{AppliedOp, Fsm}
use watchpost.Replicated.Adapter.{
  answered, EdgeError, graph_propose, bool_eq, proposed, add_dependency, validate_dependency_add,
  create_post, semantically_equivalent,
}

abbrev pub working_disk : Disk
working_disk = record { begin_ok = true; meta_ok = true; commit_ok = true }

count_or :
    (a b : String) (ps : List Post)
    → count (λ (q : Post). q.id == a || q.id == b) ps
      ≤ count (λ (q : Post). q.id == a) ps + count (λ (q : Post). q.id == b) ps
unfolding count
count_or a b [] = omega arith
count_or a b (p ∷ ps) = ground (arith, count_or a b ps)

count_absent :
    (a : String) (ps : List Post) → has_post ps a ≡ false → count (λ (q : Post). q.id == a) ps ≡ 0
unfolding count has_post any
count_absent a [] h = refl
count_absent a (p ∷ ps) h = ground (arith, count_absent a ps)

-- an id is the key of at most one post
count_key :
    (a : String) (ps : List Post) → Distinct same_post ps → count (λ (q : Post). q.id == a) ps ≤ 1
unfolding count has_post
count_key a [] h = omega arith
count_key a (p ∷ ps) h = elim (Bool-cases (p.id == a)) [
  | inl e ↦
      let absent : has_post ps a ≡ false =
        subst (λ x. has_post ps x ≡ false) ((eq_iff p.id a).0 e) h.0 in
      ground (arith, count_absent a ps absent)
  | inr e ↦ ground (arith, count_key a ps h.1)
]

two_ends :
    (a b : String) (ps : List Post)
    → Distinct same_post ps
    → count (λ (q : Post). q.id == a || q.id == b) ps ≡ 2
    → (has_post ps a ≡ true) × (has_post ps b ≡ true)
two_ends a b ps h two = (
  ground (arith, count_or a b ps, count_key b ps h, count_absent a ps),
  ground (arith, count_or a b ps, count_key a ps h, count_absent b ps),
)

-- An edge that the adapter proposes is applied: over the consistent state that it was validated
-- against, the transaction of the state machine succeeds when the disk does.
pub proposed_dependency_applies :
    (core : Core) (product : String) (f : Fsm) (op_id source depends : String) (op : Operation)
    (index term : ℕ)
    → IsConsistent f.db
    → add_dependency core product f op_id source depends ≡ ok (proposed op)
    → (a : Applied) × (apply_dependency_add working_disk op index term f.graph_rev f.db ≡ ok a)
unfolding add_dependency validate_dependency_add apply_dependency_add decode_dependency
proposed_dependency_applies core product f op_id source depends op index term c h =
    elim (Result-cases (apply_dependency_add working_disk op index term f.graph_rev f.db)) [
      | inl done ↦ done
      | inr (e, refused) ↦
          absurd (ground (arith, two_ends source depends f.db.posts c.posts_distinct))
    ]

-- A graph operation is labelled with the revision of the state in which it was admitted.
pub admitted_revision :
    (core : Core) (product : String) (f : Fsm) (kind : Kind) (op_id id : String) (revision : ℕ)
    (payload : Payload) (v : Result EdgeError (Unit {0})) (op : Operation)
    → graph_propose core product f kind op_id id revision payload v ≡ ok (proposed op)
    → (op.domain_revision ≡ f.graph_rev) × (op.id ≡ op_id) × (v ≡ ok tt) × (f.apply_failure ≡ none)
unfolding graph_propose
admitted_revision core product f kind op_id id revision payload v op h = ground arith

-- the intent is compared without the timestamps
abbrev pub at_times : String → String → PostPayload → PostPayload
at_times created updated p = record p { created_at = created; updated_at = updated }

bool_eq_refl : (b : Bool) → bool_eq b b ≡ true
bool_eq_refl true = refl
bool_eq_refl false = refl

-- A post.create that was applied under the caller's request identity is answered, when the request
-- comes again with newly generated timestamps, by the committed result, and nothing is proposed.
pub retried_create_answered :
    (core : Core) (product : String) (f : Fsm) (op_id id created updated : String) (p : PostPayload)
    (prior : AppliedOp)
    → f.apply_failure ≡ none
    → lookup op_id f.applied ≡ some prior
    → prior.result.object_id ≡ id
    → prior.revision ≡ 0
    → prior.payload ≡ post p
    → create_post core product f op_id id (at_times created updated p) ≡ ok (answered prior.result)
unfolding create_post semantically_equivalent
retried_create_answered core product f op_id id created updated p prior healthy known object rev
      payload =
    ground (
      arith,
      eq_refl p.name,
      eq_refl p.kind,
      eq_refl p.address,
      eq_refl p.owner,
      eq_refl p.labels_json,
      eq_iff prior.result.object_id id,
      bool_eq_refl p.maintenance,
      bool_eq_refl p.archived,
    )
