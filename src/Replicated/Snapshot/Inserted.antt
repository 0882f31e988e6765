-- ===== src/Replicated/Snapshot/Inserted.antt =====
-- The loops that insert the rows of a snapshot: what they need to succeed, and what they leave.
use watchpost.Base.{
  ==-comm, true, false, List, [], ◌∷◌, ◌==◌, ◌≡◌, refl, arith, any, All, All-map, Distinct, ok,
}
use watchpost.Store.Rows.{Post, Dependency, Rule}
use watchpost.Store.Tables.{Db}
use watchpost.Replicated.Graph.{is_edge, has_edge}
use watchpost.Replicated.Apply.{
  has_post, has_rule, is_operator, insert_post, insert_dependency, insert_rule,
}
use watchpost.Replicated.Consistent.{same_post, same_edge, same_rule, HasEnds, HasOwner}
use watchpost.Replicated.Snapshot.{insert_posts, insert_dependencies, insert_rules}
use watchpost.Replicated.Snapshot.Ordered.{rev_onto, All-any-false, All-zip}

-- a row whose key is not in the table
abbrev pub IsNewPost : List Post → Post → Type 0
IsNewPost posts p = has_post posts p.id ≡ false

abbrev pub IsNewEdge : List Dependency → Dependency → Type 0
IsNewEdge edges d = has_edge edges d.post_id d.depends_on_id ≡ false

abbrev pub IsNewRule : List Rule → Rule → Type 0
IsNewRule rules r = has_rule rules r.id ≡ false

IsNewPost-cons :
    (p q : Post) (posts : List Post)
    → (q.id == p.id) ≡ false
    → IsNewPost posts q
    → IsNewPost (p ∷ posts) q
unfolding has_post any
IsNewPost-cons p q posts other fresh = ground (arith, ==-comm p.id q.id)

IsNewEdge-cons :
    (d e : Dependency) (edges : List Dependency)
    → same_edge d e ≡ false
    → IsNewEdge edges e
    → IsNewEdge (d ∷ edges) e
unfolding has_edge any is_edge
IsNewEdge-cons d e edges other fresh =
    ground (arith, ==-comm d.post_id e.post_id, ==-comm d.depends_on_id e.depends_on_id)

IsNewRule-cons :
    (r s : Rule) (rules : List Rule)
    → (s.id == r.id) ≡ false
    → IsNewRule rules s
    → IsNewRule (r ∷ rules) s
unfolding has_rule any
IsNewRule-cons r s rules other fresh = ground (arith, ==-comm r.id s.id)

insert_post-ok :
    (p : Post) (db : Db)
    → IsNewPost db.posts p
    → insert_post p db ≡ ok (record db { posts = p ∷ db.posts })
unfolding insert_post
insert_post-ok p db fresh = rw fresh refl

pub insert_posts-ok :
    (ps : List Post) (db : Db)
    → Distinct same_post ps
    → All (IsNewPost db.posts) ps
    → insert_posts ps db ≡ ok (record db { posts = rev_onto ps db.posts })
unfolding insert_posts
insert_posts-ok [] db distinct fresh = refl
insert_posts-ok (p ∷ ps) db distinct fresh = rw (insert_post-ok p db fresh.0) (
    insert_posts-ok ps (record db { posts = p ∷ db.posts }) distinct.1
      (All-map _ _ (λ q h. IsNewPost-cons p q db.posts h.0 h.1) ps
        (All-zip _ _ ps (All-any-false (same_post p) ps distinct.0) fresh.1)))

-- what the schema asks of an edge and of a rule, beside their keys
abbrev pub IsEdgeRow : List Post → Dependency → Type 0
IsEdgeRow posts d = HasEnds posts d × ((d.post_id == d.depends_on_id) ≡ false)

abbrev pub IsRuleRow : List Post → Rule → Type 0
IsRuleRow posts r = HasOwner posts r × (is_operator r.operator ≡ true)

insert_dependency-ok :
    (d : Dependency) (db : Db)
    → IsNewEdge db.post_dependencies d
    → IsEdgeRow db.posts d
    → insert_dependency d db ≡ ok (record db { post_dependencies = d ∷ db.post_dependencies })
unfolding insert_dependency
insert_dependency-ok d db fresh row = rw fresh (rw row.0.0 (rw row.0.1 (rw row.1 refl)))

pub insert_dependencies-ok :
    (ds : List Dependency) (db : Db)
    → Distinct same_edge ds
    → All (IsNewEdge db.post_dependencies) ds
    → All (IsEdgeRow db.posts) ds
    → insert_dependencies ds db
      ≡ ok (record db { post_dependencies = rev_onto ds db.post_dependencies })
unfolding insert_dependencies
insert_dependencies-ok [] db distinct fresh rows = refl
insert_dependencies-ok (d ∷ ds) db distinct fresh rows =
    rw (insert_dependency-ok d db fresh.0 rows.0) (
      insert_dependencies-ok ds (record db { post_dependencies = d ∷ db.post_dependencies })
        distinct.1
        (All-map _ _ (λ e h. IsNewEdge-cons d e db.post_dependencies h.0 h.1) ds
          (All-zip _ _ ds (All-any-false (same_edge d) ds distinct.0) fresh.1))
        rows.1)

insert_rule-ok :
    (r : Rule) (db : Db)
    → IsNewRule db.rules r
    → IsRuleRow db.posts r
    → insert_rule r db ≡ ok (record db { rules = r ∷ db.rules })
unfolding insert_rule
insert_rule-ok r db fresh row = rw fresh (rw row.0 (rw row.1 refl))

pub insert_rules-ok :
    (rs : List Rule) (db : Db)
    → Distinct same_rule rs
    → All (IsNewRule db.rules) rs
    → All (IsRuleRow db.posts) rs
    → insert_rules rs db ≡ ok (record db { rules = rev_onto rs db.rules })
unfolding insert_rules
insert_rules-ok [] db distinct fresh rows = refl
insert_rules-ok (r ∷ rs) db distinct fresh rows = rw (insert_rule-ok r db fresh.0 rows.0) (
    insert_rules-ok rs (record db { rules = r ∷ db.rules }) distinct.1
      (All-map _ _ (λ s h. IsNewRule-cons r s db.rules h.0 h.1) rs
        (All-zip _ _ rs (All-any-false (same_rule r) rs distinct.0) fresh.1))
      rows.1)
