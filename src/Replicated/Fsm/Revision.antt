-- ===== src/Replicated/Fsm/Revision.antt =====
-- The graph revision: who advances it, and what an unchanged revision promises.
use watchpost.Base.{ℕ, ◌≡◌, ◌⊎◌, inl, inr, refl, ◌∙◌, sym, ap, some, arith, ok, incr64, incr64-ne}
use watchpost.Store.Tables.{Db, number}
use watchpost.Replicated.Op.{
  Kind, post_create, post_update, post_delete, dependency_add, rule_create, rule_set_enable, other,
  Operation, Core, Disk,
}
use watchpost.Replicated.Apply.{Applied, write_meta}
use watchpost.Replicated.Apply.Inversion.{
  post_create_ok, post_update_ok, post_delete_ok, dependency_add_ok, rule_create_ok,
  rule_set_enabled_ok,
}
use watchpost.Replicated.Fsm.{Fsm, LogEntry, dispatch, apply}
use watchpost.Replicated.Fsm.Rule.{apply_effect}

abbrev pub IsGraphKind : Kind → Type 0
IsGraphKind k = (k ≡ post_delete) ⊎ (k ≡ dependency_add)

-- what a dispatched operation does to the revision, the edges and the recorded position
pub record Revised (f : Fsm) (op : Operation) (k : Kind) (index term : ℕ) (a : Applied)
    : Type 0 where
  pub step :
      ((a.graph_rev ≡ f.graph_rev) × (a.db.post_dependencies ≡ f.db.post_dependencies))
      ⊎ (IsGraphKind k × (op.domain_revision ≡ f.graph_rev) × (a.graph_rev ≡ incr64 f.graph_rev))
  pub index_recorded : a.db.meta.applied_index ≡ some (number index)
  pub term_recorded : a.db.meta.applied_term ≡ some (number term)
  pub revision_recorded : a.db.meta.graph_revision ≡ some (number a.graph_rev)

module _ (disk : Disk) (op : Operation) (index term : ℕ) (f : Fsm) {a : Applied} where
  pub dispatch-Revised :
      (kind : Kind) → dispatch kind disk op index term f ≡ ok a → Revised f op kind index term a
  unfolding dispatch write_meta
  dispatch-Revised post_create h =
      let (p, decoded, fresh, left, rev) = post_create_ok disk op index term f.graph_rev f.db h in
      record {
        step = inl (rev, ground arith);
        index_recorded = ground arith;
        term_recorded = ground arith;
        revision_recorded = ground arith;
      }
  dispatch-Revised post_update h =
      let (p, decoded, hit, left, rev) = post_update_ok disk op index term f.graph_rev f.db h in
      record {
        step = inl (rev, ground arith);
        index_recorded = ground arith;
        term_recorded = ground arith;
        revision_recorded = ground arith;
      }
  dispatch-Revised post_delete h =
      let (local, cleaned, fresh, edges, left, rev) =
        post_delete_ok disk op index term f.graph_rev f.db h in
      record {
        step = inr (inl refl, fresh, rev);
        index_recorded = ground arith;
        term_recorded = ground arith;
        revision_recorded = ground arith;
      }
  dispatch-Revised dependency_add h =
      let (p, decoded, fresh, loop, source, target, new_edge, walk, left, rev) =
        dependency_add_ok disk op index term f.graph_rev f.db h in
      record {
        step = inr (inr refl, fresh, rev);
        index_recorded = ground arith;
        term_recorded = ground arith;
        revision_recorded = ground arith;
      }
  dispatch-Revised rule_create h =
      let (p, decoded, fresh, owner, left, rev) =
        rule_create_ok disk op index term f.graph_rev f.db h in
      record {
        step = inl (rev, ground arith);
        index_recorded = ground arith;
        term_recorded = ground arith;
        revision_recorded = ground arith;
      }
  dispatch-Revised rule_set_enable h =
      let (p, decoded, hit, left, rev) =
        rule_set_enabled_ok disk op index term f.graph_rev f.db h in
      record {
        step = inl (rev, ground arith);
        index_recorded = ground arith;
        term_recorded = ground arith;
        revision_recorded = ground arith;
      }
  dispatch-Revised (other k) h = absurd (cc)

module _ (core : Core) (disk : Disk) (f : Fsm) (entry : LogEntry) where
  -- An apply leaves the graph revision and the edges as they are, or its entry is a post.delete or
  -- a post_dependency.add that was validated against the revision of the state it meets, and the
  -- revision advances by one.
  pub apply_revision :
      (((apply core disk f entry).0.graph_rev ≡ f.graph_rev)
        × ((apply core disk f entry).0.db.post_dependencies ≡ f.db.post_dependencies))
      ⊎ ((op : Operation) × (core.decode_operation entry.bytes ≡ some op)
          × IsGraphKind op.kind
          × (op.domain_revision ≡ f.graph_rev)
          × ((apply core disk f entry).0.graph_rev ≡ incr64 f.graph_rev))
  apply_revision = elim (apply_effect core disk f entry) [
    | inl (same, rev) ↦ inl (rev, ap (λ (d : Db). d.post_dependencies) same)
    | inr (op, a, decoded, done, took) ↦
        elim (dispatch-Revised disk op entry.index entry.term f op.kind done).step [
          | inl (r, d) ↦ inl (took.1 ∙ r, ap (λ (d : Db). d.post_dependencies) took.0 ∙ d)
          | inr (graph, fresh, r) ↦ inr (op, decoded, graph, fresh, took.1 ∙ r)
        ]
  ]

  -- As long as an apply leaves the graph revision unchanged, it leaves the edges unchanged.
  pub revision_guards_edges :
      (apply core disk f entry).0.graph_rev ≡ f.graph_rev
      → (apply core disk f entry).0.db.post_dependencies ≡ f.db.post_dependencies
  revision_guards_edges same = elim apply_revision [
    | inl (rev, edges) ↦ edges
    | inr (op, decoded, graph, fresh, next) ↦ absurd (incr64-ne f.graph_rev (sym next ∙ same))
  ]
