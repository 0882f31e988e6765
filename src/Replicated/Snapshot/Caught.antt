-- ===== src/Replicated/Snapshot/Caught.antt =====
-- A snapshot that is taken, persisted and restored on a node that has nothing yet.
use watchpost.Base.{
  ==-comm, String, Bool, true, List, [], ◌∷◌, ◌==◌, ◌≡◌, ◌<◌, refl, ◌∙◌, some, arith, any, All,
  All-map, ok, eq_refl,
}
use watchpost.Store.Rows.{Post, Dependency, Rule}
use watchpost.Store.Tables.{Db, empty_db}
use watchpost.Replicated.Op.{Core, Disk}
use watchpost.Replicated.Apply.{has_post, has_rule, write_meta, delete_rules, delete_posts}
use watchpost.Replicated.Cleanup.{clear_node_local, blocks_post, cascade}
use watchpost.Replicated.Graph.{is_edge, has_edge}
use watchpost.Replicated.Fsm.{Fsm}
use watchpost.Replicated.Consistent.{same_edge, IsConsistent, same_post, same_rule}
use watchpost.Replicated.Consistent.Storable.{IsStorable}
use watchpost.Replicated.Snapshot.{
  Envelope, text_le, edge_le, order_by, snapshot, replace, clear_replicated, insert_posts,
  insert_dependencies, insert_rules, install, catch_up, persist, verify, restore,
}
use watchpost.Replicated.Snapshot.Ordered.{
  rev_onto, any-rev_onto, All-zip, any-order_by, All-order_by, Distinct-order_by,
}
use watchpost.Replicated.Snapshot.Inserted.{
  IsEdgeRow, IsRuleRow, IsNewPost, IsNewEdge, IsNewRule, insert_posts-ok, insert_dependencies-ok,
  insert_rules-ok,
}

abbrev pub healthy_disk : Disk
healthy_disk = record { begin_ok = true; meta_ok = true; commit_ok = true }

All-always {ℓ κ} : {A : Type ℓ} (P : A → Type κ) → ((x : A) → P x) → (xs : List A) → All P xs
All-always P h [] = tt
All-always P h (x ∷ xs) = (h x, All-always P h xs)

-- the rows that are selected, ordered and inserted again are the same rows
any-again {ℓ} :
    {A : Type ℓ} (before : A → A → Bool) (q : A → Bool) (xs : List A)
    → any q (rev_onto (order_by before xs) []) ≡ any q xs
unfolding any
any-again before q xs =
    ground (arith, any-rev_onto q (order_by before xs) [], any-order_by before q xs)

clear_empty : clear_replicated empty_db ≡ ok empty_db
unfolding clear_replicated clear_node_local delete_rules delete_posts blocks_post cascade
clear_empty = refl

edge_comm : (d e : Dependency) → same_edge d e ≡ same_edge e d
unfolding is_edge
edge_comm d e = ground (arith, ==-comm d.post_id e.post_id, ==-comm d.depends_on_id e.depends_on_id)

module _ (db : Db) (c : IsConsistent db) (s : IsStorable db) where
  abbrev posts : List Post
  posts = order_by (λ p q. text_le p.id q.id) db.posts

  abbrev edges : List Dependency
  edges = order_by edge_le db.post_dependencies

  abbrev rules : List Rule
  rules = order_by (λ r t. text_le r.id t.id) db.rules

  abbrev again : Db
  again = record empty_db {
    posts = rev_onto posts [];
    post_dependencies = rev_onto edges [];
    rules = rev_onto rules [];
  }

  has_post-again : (id : String) → has_post (rev_onto posts []) id ≡ has_post db.posts id
  unfolding has_post
  has_post-again id = any-again (λ p q. text_le p.id q.id) (λ p. p.id == id) db.posts

  posts_inserted : insert_posts posts empty_db ≡ ok (record empty_db { posts = rev_onto posts [] })
  unfolding has_post any
  posts_inserted =
      insert_posts-ok posts empty_db
        (Distinct-order_by (λ p q. text_le p.id q.id) same_post (λ p q. ==-comm q.id p.id) db.posts
          c.posts_distinct)
        (All-always (IsNewPost []) (λ p. refl) posts)

  edges_inserted :
      insert_dependencies edges (record empty_db { posts = rev_onto posts [] })
      ≡ ok (record empty_db { posts = rev_onto posts []; post_dependencies = rev_onto edges [] })
  unfolding has_edge any is_edge
  edges_inserted =
      insert_dependencies-ok edges (record empty_db { posts = rev_onto posts [] })
        (Distinct-order_by edge_le same_edge edge_comm db.post_dependencies s.edges_distinct)
        (All-always (IsNewEdge []) (λ d. refl) edges)
        (All-order_by edge_le (IsEdgeRow (rev_onto posts [])) db.post_dependencies (
          All-map _ _
            (λ d h.
              ((has_post-again d.post_id ∙ h.0.0, has_post-again d.depends_on_id ∙ h.0.1), h.1))
            db.post_dependencies (All-zip _ _ db.post_dependencies c.ends s.no_loops)))

  rules_inserted :
      insert_rules rules
        (record empty_db { posts = rev_onto posts []; post_dependencies = rev_onto edges [] })
      ≡ ok again
  unfolding has_rule any
  rules_inserted =
      insert_rules-ok rules
        (record empty_db { posts = rev_onto posts []; post_dependencies = rev_onto edges [] })
        (Distinct-order_by (λ r t. text_le r.id t.id) same_rule (λ r t. ==-comm t.id r.id) db.rules
          c.rules_distinct)
        (All-always (IsNewRule []) (λ r. refl) rules)
        (All-order_by (λ r t. text_le r.id t.id) (IsRuleRow (rev_onto posts [])) db.rules
          (All-map _ _ (λ r h. (has_post-again r.post_id ∙ h.0, h.1)) db.rules
            (All-zip _ _ db.rules c.owned s.operators)))

  replaced :
      (env : Envelope)
      → env.posts ≡ posts
      → env.dependencies ≡ edges
      → env.rules ≡ rules
      → replace healthy_disk env empty_db
        ≡ ok (write_meta env.applied_index env.applied_term env.graph_revision again)
  unfolding replace
  replaced env p d r =
      rw clear_empty
        (rw p (rw posts_inserted (rw d (rw edges_inserted (rw r (rw rules_inserted refl))))))

module _ (core : Core) (checksum : Envelope → String) where
  verified :
      (f : Fsm) (env : Envelope)
      → f.supported ≡ core.version
      → snapshot true f ≡ ok env
      → verify core checksum (persist core checksum env) ≡ ok tt
  unfolding verify persist snapshot
  verified f env same taken = ground (arith, eq_refl (checksum (record env { integrity = "" })))

  forward :
      (env : Envelope) (learner : Fsm) (db : Db)
      → verify core checksum env ≡ ok tt
      → learner.persisted_index < env.applied_index
      → replace healthy_disk env learner.db ≡ ok db
      → restore core checksum healthy_disk (some env) learner ≡ (install env db learner, ok tt)
  unfolding restore catch_up
  forward env learner db genuine behind done = ground arith

  -- A snapshot of a state machine with consistent tables that meet the schema's constraints and
  -- with the version of the node, persisted and restored on a node with an empty database whose
  -- persisted position is behind, succeeds when the disk does: the node then has the same posts,
  -- edges and rules (any test finds one there if and only if it finds one here), and the revision,
  -- the positions, the product and the known operations of the state machine.
  pub snapshot_restored :
      (f learner : Fsm) (env : Envelope) (p : Post → Bool) (d : Dependency → Bool) (r : Rule → Bool)
      → IsConsistent f.db
      → IsStorable f.db
      → f.supported ≡ core.version
      → learner.db ≡ empty_db
      → learner.persisted_index < f.applied_index
      → snapshot true f ≡ ok env
      → let (g, answer) =
          restore core checksum healthy_disk (some (persist core checksum env)) learner in
        (answer ≡ ok tt)
        × ((any p g.db.posts ≡ any p f.db.posts)
            × (any d g.db.post_dependencies ≡ any d f.db.post_dependencies)
            × (any r g.db.rules ≡ any r f.db.rules))
        × ((g.graph_rev ≡ f.graph_rev)
            × (g.applied_index ≡ f.applied_index)
            × (g.applied_term ≡ f.applied_term)
            × (g.persisted_index ≡ f.applied_index)
            × (g.product ≡ f.product)
            × (g.applied ≡ f.applied))
  unfolding snapshot persist install write_meta
  snapshot_restored f learner env p d r c s same empty behind taken =
      let env' = persist core checksum env in
      let left =
        write_meta env.applied_index env.applied_term env.graph_revision (again f.db c s) in
      let done : replace healthy_disk env' empty_db ≡ ok left =
        replaced f.db c s env' (ground arith) (ground arith) (ground arith) in
      let step =
        forward env' learner left (verified f env same taken) (ground arith) (rw empty done) in
      rw step (
        refl,
        (
          any-again (λ x y. text_le x.id y.id) p f.db.posts,
          any-again edge_le d f.db.post_dependencies,
          any-again (λ x y. text_le x.id y.id) r f.db.rules,
        ),
        ground arith,
      )
