-- ===== src/Replicated/Apply/Inversion.antt =====
-- What each operation did to the database when it succeeded.
use watchpost.Base.{
  ℕ, ◌≡◌, true, false, ◌||◌, some, ◌∷◌, ◌==◌, arith, any, count, remove, inl, inr, Option-cases,
  update_where, incr64, ok,
}
use watchpost.Store.Rows.{Post, Rule}
use watchpost.Store.Tables.{Db, Local}
use watchpost.Replicated.Op.{
  PostPayload, DepPayload, RulePayload, Operation, Disk, decode_post, decode_dependency,
  decode_rule,
}
use watchpost.Replicated.Graph.{has_edge, reaches}
use watchpost.Replicated.Cleanup.{cleanup_node_local, cascade}
use watchpost.Replicated.Apply.{
  Applied, has_post, has_rule, touches, write_meta, finish, post_row, rule_row, revise_post,
  revise_rule, post_at, rule_at, apply_post_create, apply_post_update, apply_post_delete,
  apply_dependency_add, apply_rule_create, apply_rule_set_enabled,
}

module _ (disk : Disk) (op : Operation) (index term graph_rev : ℕ) (db : Db) {a : Applied} where
  finish_ok :
      (revision : ℕ)
      → finish disk op index term graph_rev revision db ≡ ok a
      → (a.db ≡ write_meta index term graph_rev db) × (a.graph_rev ≡ graph_rev)
  unfolding finish
  finish_ok revision h = ground arith

  pub post_create_ok :
      apply_post_create disk op index term graph_rev db ≡ ok a
      → (p : PostPayload) × (decode_post op.payload ≡ some p)
        × (has_post db.posts op.object_id ≡ false)
        × (a.db ≡ write_meta index term graph_rev (record db { posts = post_row op p ∷ db.posts }))
        × (a.graph_rev ≡ graph_rev)
  unfolding apply_post_create post_row
  post_create_ok h = ground arith

  pub post_update_ok :
      apply_post_update disk op index term graph_rev db ≡ ok a
      → (p : PostPayload) × (decode_post op.payload ≡ some p)
        × (count (post_at op.object_id op.revision) db.posts ≡ 1)
        × (a.db
            ≡ write_meta index term graph_rev (record db {
              posts = update_where (post_at op.object_id op.revision) (revise_post p) db.posts;
            }))
        × (a.graph_rev ≡ graph_rev)
  unfolding apply_post_update
  post_update_ok h = ground arith

  pub post_delete_ok :
      apply_post_delete disk op index term graph_rev db ≡ ok a
      → (local : Local) × (cleanup_node_local op.object_id db.local ≡ ok local)
        × (op.domain_revision ≡ graph_rev)
        × (any
              (λ d. d.post_id == op.object_id || d.depends_on_id == op.object_id)
              (remove (touches op.object_id) db.post_dependencies)
            ≡ false)
        × (a.db
            ≡ write_meta index term (incr64 graph_rev) (record db {
              post_dependencies = remove (touches op.object_id) db.post_dependencies;
              rules = remove (λ (r : Rule). r.post_id == op.object_id) db.rules;
              posts = remove (λ (q : Post). q.id == op.object_id) db.posts;
              local = cascade (λ p. p == op.object_id) local;
            }))
        × (a.graph_rev ≡ incr64 graph_rev)
  unfolding apply_post_delete
  post_delete_ok h = ground arith

  pub dependency_add_ok :
      apply_dependency_add disk op index term graph_rev db ≡ ok a
      → (p : DepPayload) × (decode_dependency op.payload ≡ some p)
        × (op.domain_revision ≡ graph_rev)
        × ((op.object_id == p.depends_on) ≡ false)
        × (has_post db.posts op.object_id ≡ true)
        × (has_post db.posts p.depends_on ≡ true)
        × (has_edge db.post_dependencies op.object_id p.depends_on ≡ false)
        × (reaches db.post_dependencies p.depends_on op.object_id ≡ false)
        × (a.db
            ≡ write_meta index term (incr64 graph_rev) (record db {
              post_dependencies =
                  record { post_id = op.object_id; depends_on_id = p.depends_on }
                  ∷ db.post_dependencies;
            }))
        × (a.graph_rev ≡ incr64 graph_rev)
  unfolding apply_dependency_add
  dependency_add_ok h = ground arith

  pub rule_create_ok :
      apply_rule_create disk op index term graph_rev db ≡ ok a
      → (p : RulePayload) × (decode_rule op.payload ≡ some p)
        × (has_rule db.rules op.object_id ≡ false)
        × (has_post db.posts p.post_id ≡ true)
        × (a.db ≡ write_meta index term graph_rev (record db { rules = rule_row op p ∷ db.rules }))
        × (a.graph_rev ≡ graph_rev)
  unfolding apply_rule_create rule_row
  rule_create_ok h = elim (Option-cases (decode_rule op.payload)) [
    | inl undecoded ↦ absurd (ground arith)
    | inr (p, decoded) ↦ (p, decoded, ground arith, ground arith, ground arith, ground arith)
  ]

  pub rule_set_enabled_ok :
      apply_rule_set_enabled disk op index term graph_rev db ≡ ok a
      → (p : RulePayload) × (decode_rule op.payload ≡ some p)
        × (count (rule_at op.object_id op.revision) db.rules ≡ 1)
        × (a.db
            ≡ write_meta index term graph_rev (record db {
              rules =
                  update_where (rule_at op.object_id op.revision) (revise_rule p.enabled) db.rules;
            }))
        × (a.graph_rev ≡ graph_rev)
  unfolding apply_rule_set_enabled
  rule_set_enabled_ok h = elim (Option-cases (decode_rule op.payload)) [
    | inl undecoded ↦ absurd (ground arith)
    | inr (p, decoded) ↦ (p, decoded, ground arith, ground arith, ground arith)
  ]
