-- ===== src/Replicated/Consistent/Steps.antt =====
-- The replicated tables stay consistent under every operation and every log.
use watchpost.Base.{ℕ, ◌≡◌, List, [], ◌∷◌, arith, ok, inl, inr}
use watchpost.Replicated.Op.{
  Kind, post_create, post_update, post_delete, dependency_add, rule_create, rule_set_enable, other,
  Operation, Core, Disk,
}
use watchpost.Replicated.Apply.{Applied, write_meta, post_at, rule_at}
use watchpost.Replicated.Fsm.{Fsm, LogEntry, dispatch, apply, run}
use watchpost.Replicated.Apply.Inversion.{
  post_create_ok, post_update_ok, post_delete_ok, dependency_add_ok, rule_create_ok,
  rule_set_enabled_ok,
}
use watchpost.Replicated.Fsm.Rule.{apply_effect}
use watchpost.Replicated.Consistent.{
  IsConsistent, IsConsistent-of, create-IsConsistent, update-IsConsistent, delete-IsConsistent,
  depend-IsConsistent, rule-IsConsistent, enable-IsConsistent,
}

module _ (disk : Disk) (op : Operation) (index term : ℕ) (f : Fsm) {a : Applied} where
  -- Every operation that succeeds keeps the replicated tables consistent.
  pub dispatch-IsConsistent :
      (kind : Kind)
      → IsConsistent f.db
      → dispatch kind disk op index term f ≡ ok a
      → IsConsistent a.db
  unfolding dispatch write_meta
  dispatch-IsConsistent post_create c h =
      let (p, decoded, fresh, left, rev) = post_create_ok disk op index term f.graph_rev f.db h in
      IsConsistent-of a.db _ (ground arith) (create-IsConsistent op p f.db c fresh)
  dispatch-IsConsistent post_update c h =
      let (p, decoded, hit, left, rev) = post_update_ok disk op index term f.graph_rev f.db h in
      IsConsistent-of a.db _ (ground arith)
        (update-IsConsistent (post_at op.object_id op.revision) p f.db c)
  dispatch-IsConsistent post_delete c h =
      let (local, cleaned, fresh, edges, left, rev) =
        post_delete_ok disk op index term f.graph_rev f.db h in
      IsConsistent-of a.db _ (ground arith) (delete-IsConsistent op.object_id f.db c)
  dispatch-IsConsistent dependency_add c h =
      let (p, decoded, fresh, loop, source, target, new_edge, walk, left, rev) =
        dependency_add_ok disk op index term f.graph_rev f.db h in
      IsConsistent-of a.db _ (ground arith) (
        depend-IsConsistent (record { post_id = op.object_id; depends_on_id = p.depends_on }) f.db c
          (source, target) loop walk)
  dispatch-IsConsistent rule_create c h =
      let (p, decoded, fresh, owner, left, rev) =
        rule_create_ok disk op index term f.graph_rev f.db h in
      IsConsistent-of a.db _ (ground arith) (rule-IsConsistent op p f.db c fresh owner)
  dispatch-IsConsistent rule_set_enable c h =
      let (p, decoded, hit, left, rev) =
        rule_set_enabled_ok disk op index term f.graph_rev f.db h in
      IsConsistent-of a.db _ (ground arith)
        (enable-IsConsistent (rule_at op.object_id op.revision) p.enabled f.db c)
  dispatch-IsConsistent (other k) c h = absurd (cc)

apply-IsConsistent :
    (core : Core) (disk : Disk) (f : Fsm) (entry : LogEntry)
    → IsConsistent f.db
    → IsConsistent (apply core disk f entry).0.db
apply-IsConsistent core disk f entry c = elim (apply_effect core disk f entry) [
  | inl (same, rev) ↦ rw same c
  | inr (op, a, decoded, done, took) ↦
      rw took.0 (dispatch-IsConsistent disk op entry.index entry.term f op.kind c done)
]

-- From consistent tables, a log of committed operations, whatever it holds and however its
-- transactions fail, leaves consistent tables: every edge joins two posts, the graph has no cycle,
-- every rule belongs to a post, and the ids of posts and of rules are distinct.
pub run-IsConsistent :
    (core : Core) (f : Fsm) (log : List (Disk × LogEntry))
    → IsConsistent f.db
    → IsConsistent (run core f log).db
unfolding run
run-IsConsistent core f [] c = c
run-IsConsistent core f ((disk, entry) ∷ log) c =
    run-IsConsistent core (apply core disk f entry).0 log (apply-IsConsistent core disk f entry c)
