-- ===== src/Examples/Proposals.antt =====
-- Proposals of the adapter over two posts, and a snapshot.
use watchpost.Base.{ℕ, String, ◌≡◌, refl, some, [], arith, ok, any, count, ◌==◌, true}
use watchpost.Store.Rows.{Dependency, Rule}
use watchpost.Store.Tables.{empty_db}
use watchpost.Replicated.Graph.{reaches, has_edge, nil-IsAcyclic}
use watchpost.Replicated.Apply.{Applied, apply_dependency_add}
use watchpost.Replicated.Fsm.{Fsm}
use watchpost.Replicated.Consistent.{IsConsistent}
use watchpost.Replicated.Snapshot.{Envelope, snapshot, persist, restore}
use watchpost.Replicated.Consistent.Storable.{IsStorable}
use watchpost.Replicated.Snapshot.Caught.{healthy_disk, snapshot_restored}
use watchpost.Replicated.Adapter.{proposed, add_dependency, validate_dependency_add}
use watchpost.Replicated.Adapter.Admitted.{working_disk, proposed_dependency_applies}
use watchpost.Examples.Data.{join, core, machine, two_posts}

two_posts-IsConsistent : IsConsistent two_posts
unfolding any
two_posts-IsConsistent = record {
  ends = tt;
  acyclic = nil-IsAcyclic;
  owned = tt;
  posts_distinct = (refl, (refl, tt));
  rules_distinct = tt;
}

joined : add_dependency core "watchpost" (machine two_posts) "op-ab" "a" "b" ≡ ok (proposed join)
unfolding add_dependency validate_dependency_add count has_edge reaches
joined = refl

proposed_dependency_applies_example :
    (a : Applied) × (apply_dependency_add working_disk join 5 1 0 two_posts ≡ ok a)
proposed_dependency_applies_example =
    proposed_dependency_applies core "watchpost" (machine two_posts) "op-ab" "a" "b" join 5 1
      two_posts-IsConsistent joined

abbrev checksum : Envelope → String
checksum env = env.product

abbrev envelope : ℕ → ℕ → Envelope
envelope format index = record {
  format_version = format;
  replication_version = 1;
  product = "watchpost";
  graph_revision = 3;
  applied_index = index;
  applied_term = 1;
  posts = [];
  dependencies = [];
  rules = [];
  applied_ops = [];
  integrity = "watchpost";
}

abbrev applied_two : Fsm
applied_two = record (machine two_posts) { applied_index = 2; applied_term = 1 }

abbrev taken : Envelope
taken = record (envelope 1 2) { graph_revision = 0; posts = two_posts.posts; integrity = "" }

envelope_taken : snapshot true applied_two ≡ ok taken
unfolding snapshot
envelope_taken = refl

two_posts-IsStorable : IsStorable two_posts
two_posts-IsStorable = record { edges_distinct = tt; no_loops = tt; operators = tt }

snapshot_restored_example :
    let (g, answer) =
      restore core checksum healthy_disk (some (persist core checksum taken)) (machine empty_db) in
    (answer ≡ ok tt)
    × ((any (λ p. p.id == "a") g.db.posts ≡ any (λ p. p.id == "a") two_posts.posts)
        × (any (λ d. d.post_id == "a") g.db.post_dependencies
            ≡ any (λ (d : Dependency). d.post_id == "a") [])
        × (any (λ r. r.id == "cpu") g.db.rules ≡ any (λ (r : Rule). r.id == "cpu") []))
    × ((g.graph_rev ≡ 0)
        × (g.applied_index ≡ 2)
        × (g.applied_term ≡ 1)
        × (g.persisted_index ≡ 2)
        × (g.product ≡ "watchpost")
        × (g.applied ≡ []))
snapshot_restored_example =
    snapshot_restored core checksum applied_two (machine empty_db) taken (λ p. p.id == "a")
      (λ d. d.post_id == "a") (λ r. r.id == "cpu") two_posts-IsConsistent two_posts-IsStorable refl
      refl (omega arith) envelope_taken
