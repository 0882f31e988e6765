-- ===== src/Examples/Machine.antt =====
-- The state machine on a log of four operations, its failures, and its restarts.
use watchpost.Base.{◌≡◌, ◌↔◌, ◌⊎◌, refl, true, some, [], ◌∷◌, arith, ok, err, incr64, count}
use watchpost.Base.Assoc.{insert}
use watchpost.Store.Tables.{Db, empty_db}
use watchpost.Replicated.Op.{
  Operation, ApplyResult, invariant, self_dependency, post_create, decode_dependency, decode_post,
}
use watchpost.Replicated.Graph.{Reach, has_edge, reaches, reaches_iff, nil-IsAcyclic}
use watchpost.Replicated.Apply.{
  result_of, write_meta, post_row, has_post, apply_post_create, apply_dependency_add,
}
use watchpost.Replicated.Fsm.{Fsm, admit, dispatch, settle, apply_known, apply, run, new_fsm}
use watchpost.Replicated.Fsm.Fence.{SameState, first_failure_is_boundary}
use watchpost.Replicated.Fsm.Retry.{apply_once}
use watchpost.Replicated.Fsm.Revision.{IsGraphKind, apply_revision}
use watchpost.Replicated.Fsm.Restart.{restart_revision, replay_skips}
use watchpost.Replicated.Consistent.{IsConsistent}
use watchpost.Replicated.Consistent.Steps.{run-IsConsistent}
use watchpost.Examples.Data.{create_a, join, core, disk, entry, machine, log, two_posts, edge}

empty-IsConsistent : IsConsistent empty_db
empty-IsConsistent = record {
  ends = tt;
  acyclic = nil-IsAcyclic;
  owned = tt;
  posts_distinct = tt;
  rules_distinct = tt;
}

run-IsConsistent_example : IsConsistent (run core (machine empty_db) log).db
run-IsConsistent_example = run-IsConsistent core (machine empty_db) log empty-IsConsistent

reaches_iff_example :
    (reaches (edge "a" "b" ∷ edge "b" "c" ∷ []) "a" "c" ≡ true)
    ↔ Reach (edge "a" "b" ∷ edge "b" "c" ∷ []) "a" "c"
reaches_iff_example = reaches_iff (edge "a" "b" ∷ edge "b" "c" ∷ []) "a" "c"

-- an edge from a post to itself is refused
loop_refused :
    (apply core disk (machine two_posts) (entry 1 "loop")).1 ≡ err (invariant self_dependency)
unfolding apply apply_known settle dispatch apply_dependency_add admit decode_dependency
loop_refused = refl

first_failure_is_boundary_example :
    SameState (run core (machine two_posts) ((disk, entry 1 "loop") ∷ log)) (machine two_posts)
    × ((run core (machine two_posts) ((disk, entry 1 "loop") ∷ log)).apply_failure
        ≡ some (invariant self_dependency))
first_failure_is_boundary_example =
    first_failure_is_boundary core disk (machine two_posts) (entry 1 "loop") log refl loop_refused
      (λ h. cc)

abbrev result : ApplyResult
unfolding result_of
result = record {
  index = 1;
  term = 1;
  op_id = "op-a";
  object_id = "a";
  kind = post_create;
  version = 1;
  revision = 1;
}

created : (apply core disk (machine empty_db) (entry 1 "create a")).1 ≡ ok result
unfolding apply apply_known settle dispatch apply_post_create admit decode_post has_post
created = refl

apply_once_example :
    apply core disk (apply core disk (machine empty_db) (entry 1 "create a")).0 (entry 7 "create a")
    ≡ ((apply core disk (machine empty_db) (entry 1 "create a")).0, ok result)
apply_once_example =
    apply_once core disk disk (machine empty_db) (entry 1 "create a") (entry 7 "create a") create_a
      result refl refl refl created

apply_revision_example :
    (((apply core disk (machine two_posts) (entry 3 "join")).0.graph_rev ≡ 0)
      × ((apply core disk (machine two_posts) (entry 3 "join")).0.db.post_dependencies ≡ []))
    ⊎ ((op : Operation) × (some join ≡ some op)
        × IsGraphKind op.kind
        × (op.domain_revision ≡ 0)
        × ((apply core disk (machine two_posts) (entry 3 "join")).0.graph_rev ≡ incr64 0))
apply_revision_example = apply_revision core disk (machine two_posts) (entry 3 "join")

replay_skips_example :
    ((run core (record (machine two_posts) { persisted_index = 4 }) log).db ≡ two_posts)
    × ((run core (record (machine two_posts) { persisted_index = 4 }) log).graph_rev ≡ 0)
replay_skips_example =
    replay_skips core (record (machine two_posts) { persisted_index = 4 }) log
      (omega arith, (omega arith, (omega arith, (omega arith, tt))))

abbrev left : Db
left = (run core (machine empty_db) log).db

abbrev started : Fsm
started = record (machine left) {
  product = "";
  graph_rev = 1;
  applied_index = 3;
  applied_term = 1;
  persisted_index = 3;
}

restarted : new_fsm core left ≡ ok started
unfolding new_fsm run apply admit apply_known settle dispatch apply_post_create decode_post has_post
    insert write_meta post_row apply_dependency_add decode_dependency count has_edge reaches incr64
restarted = refl

restart_revision_example : (left ≡ left) × (1 ≡ (run core (machine empty_db) log).graph_rev)
restart_revision_example = restart_revision core (machine empty_db) log {g = started} refl restarted
