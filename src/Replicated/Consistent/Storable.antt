-- ===== src/Replicated/Consistent/Storable.antt =====
-- The constraints of the schema that a restore meets again, beside the keys of posts and rules.
use watchpost.Base.{
  ℕ, ◌≡◌, Bool, true, false, some, List, [], ◌∷◌, ◌==◌, arith, remove, update_where, inl, inr, ok,
  All, All-remove, All-update_where, Distinct, Distinct-remove,
}
use watchpost.Store.Rows.{Dependency, Rule}
use watchpost.Store.Tables.{Db}
use watchpost.Replicated.Op.{
  Kind, post_create, post_update, post_delete, dependency_add, rule_create, rule_set_enable, other,
  Operation, RulePayload, Core, Disk, decode_rule,
}
use watchpost.Replicated.Graph.{has_edge}
use watchpost.Replicated.Apply.{
  Applied, is_operator, touches, write_meta, rule_row, revise_rule, rule_at, apply_rule_create,
}
use watchpost.Replicated.Apply.Inversion.{
  post_create_ok, post_update_ok, post_delete_ok, dependency_add_ok, rule_create_ok,
  rule_set_enabled_ok,
}
use watchpost.Replicated.Fsm.{Fsm, LogEntry, dispatch, apply, run}
use watchpost.Replicated.Fsm.Rule.{apply_effect}
use watchpost.Replicated.Consistent.{same_edge}

-- what the primary key and the check of post_dependencies and the check of rules ask for
pub record IsStorable (db : Db) : Type 0 where
  pub edges_distinct : Distinct same_edge db.post_dependencies
  pub no_loops : All (λ d. (d.post_id == d.depends_on_id) ≡ false) db.post_dependencies
  pub operators : All (λ r. is_operator r.operator ≡ true) db.rules

IsStorable-of :
    (db db' : Db)
    → db'.post_dependencies ≡ db.post_dependencies
    → db'.rules ≡ db.rules
    → IsStorable db
    → IsStorable db'
IsStorable-of db db' d r s = record {
  edges_distinct = rw d s.edges_distinct;
  no_loops = rw d s.no_loops;
  operators = rw r s.operators;
}

delete-IsStorable :
    (p : Dependency → Bool) (q : Rule → Bool) (db : Db)
    → IsStorable db
    → IsStorable
        (record db { post_dependencies = remove p db.post_dependencies; rules = remove q db.rules })
delete-IsStorable p q db s = record {
  edges_distinct = Distinct-remove same_edge p db.post_dependencies s.edges_distinct;
  no_loops = All-remove _ _ p (λ d h e. h) db.post_dependencies s.no_loops;
  operators = All-remove _ _ q (λ r h e. h) db.rules s.operators;
}

depend-IsStorable :
    (d : Dependency) (db : Db)
    → IsStorable db
    → has_edge db.post_dependencies d.post_id d.depends_on_id ≡ false
    → (d.post_id == d.depends_on_id) ≡ false
    → IsStorable (record db { post_dependencies = d ∷ db.post_dependencies })
unfolding has_edge
depend-IsStorable d db s fresh loop = record {
  edges_distinct = (fresh, s.edges_distinct);
  no_loops = (loop, s.no_loops);
  operators = s.operators;
}

rule-IsStorable :
    (r : Rule) (db : Db)
    → IsStorable db
    → is_operator r.operator ≡ true
    → IsStorable (record db { rules = r ∷ db.rules })
rule-IsStorable r db s o = record {
  edges_distinct = s.edges_distinct;
  no_loops = s.no_loops;
  operators = (o, s.operators);
}

enable-IsStorable :
    (hit : Rule → Bool) (enabled : Bool) (db : Db)
    → IsStorable db
    → IsStorable (record db { rules = update_where hit (revise_rule enabled) db.rules })
unfolding revise_rule
enable-IsStorable hit enabled db s = record {
  edges_distinct = s.edges_distinct;
  no_loops = s.no_loops;
  operators = All-update_where _ hit (revise_rule enabled) (λ r h. h) db.rules s.operators;
}

module _ (disk : Disk) (op : Operation) (index term : ℕ) (f : Fsm) {a : Applied} where
  rule_operator :
      (p : RulePayload)
      → decode_rule op.payload ≡ some p
      → apply_rule_create disk op index term f.graph_rev f.db ≡ ok a
      → is_operator (rule_row op p).operator ≡ true
  unfolding apply_rule_create rule_row
  rule_operator p decoded h = ground arith

  dispatch-IsStorable :
      (kind : Kind) → IsStorable f.db → dispatch kind disk op index term f ≡ ok a → IsStorable a.db
  unfolding dispatch write_meta
  dispatch-IsStorable post_create s h =
      let (p, decoded, fresh, left, rev) = post_create_ok disk op index term f.graph_rev f.db h in
      IsStorable-of f.db a.db (ground arith) (ground arith) s
  dispatch-IsStorable post_update s h =
      let (p, decoded, hit, left, rev) = post_update_ok disk op index term f.graph_rev f.db h in
      IsStorable-of f.db a.db (ground arith) (ground arith) s
  dispatch-IsStorable post_delete s h =
      let (local, cleaned, fresh, edges, left, rev) =
        post_delete_ok disk op index term f.graph_rev f.db h in
      IsStorable-of _ a.db (ground arith) (ground arith)
        (delete-IsStorable (touches op.object_id) (λ r. r.post_id == op.object_id) f.db s)
  dispatch-IsStorable dependency_add s h =
      let (p, decoded, fresh, loop, source, target, new_edge, walk, left, rev) =
        dependency_add_ok disk op index term f.graph_rev f.db h in
      IsStorable-of _ a.db (ground arith) (ground arith) (
        depend-IsStorable (record { post_id = op.object_id; depends_on_id = p.depends_on }) f.db s
          new_edge loop)
  dispatch-IsStorable rule_create s h =
      let (p, decoded, fresh, owner, left, rev) =
        rule_create_ok disk op index term f.graph_rev f.db h in
      IsStorable-of _ a.db (ground arith) (ground arith)
        (rule-IsStorable (rule_row op p) f.db s (rule_operator p decoded h))
  dispatch-IsStorable rule_set_enable s h =
      let (p, decoded, hit, left, rev) =
        rule_set_enabled_ok disk op index term f.graph_rev f.db h in
      IsStorable-of _ a.db (ground arith) (ground arith)
        (enable-IsStorable (rule_at op.object_id op.revision) p.enabled f.db s)
  dispatch-IsStorable (other k) s h = absurd (cc)

apply-IsStorable :
    (core : Core) (disk : Disk) (f : Fsm) (entry : LogEntry)
    → IsStorable f.db
    → IsStorable (apply core disk f entry).0.db
apply-IsStorable core disk f entry s = elim (apply_effect core disk f entry) [
  | inl (same, rev) ↦ rw same s
  | inr (op, a, decoded, done, took) ↦
      rw took.0 (dispatch-IsStorable disk op entry.index entry.term f op.kind s done)
]

-- If the edges are distinct and free of loops and the operator of every rule is one of the four,
-- the same holds after a log of committed operations, whatever it holds and however its
-- transactions fail.
pub run-IsStorable :
    (core : Core) (f : Fsm) (log : List (Disk × LogEntry))
    → IsStorable f.db
    → IsStorable (run core f log).db
unfolding run
run-IsStorable core f [] s = s
run-IsStorable core f ((disk, entry) ∷ log) s =
    run-IsStorable core (apply core disk f entry).0 log (apply-IsStorable core disk f entry s)
