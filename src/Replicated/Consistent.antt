-- ===== src/Replicated/Consistent.antt =====
-- The integrity of the replicated tables, and each change of a table that keeps it.
pub mod Steps
pub mod Storable
use mathlib.Core.Path.{subst, subst₃}
use watchpost.Base.{
  ℕ, String, ◌≡◌, refl, ◌∙◌, sym, Bool, true, false, ◌||◌, some, none, List, [], ◌∷◌, ◌==◌, eq_iff,
  arith, any, remove, update_where, incr64, ok, err, All, All-map, All-remove, All-update_where,
  any-remove, any-update_where, any-remove-false, Distinct, Distinct-remove, Distinct-update_where,
  inl, inr, Result, Result-cases,
}
use watchpost.Store.Rows.{Post, Dependency, Rule}
use watchpost.Store.Tables.{Db}
use watchpost.Replicated.Op.{
  PostPayload, RulePayload, Kind, post_create, post_update, post_delete, dependency_add,
  rule_create, rule_set_enable, other, Operation, Core, Disk,
}
use watchpost.Replicated.Graph.{
  is_edge, has_edge, reaches, IsAcyclic, cons-IsAcyclic, remove-IsAcyclic,
}
use watchpost.Replicated.Apply.{
  Applied, has_post, has_rule, touches, write_meta, post_row, rule_row, revise_post, revise_rule,
  post_at, rule_at, apply_post_create, apply_post_update, apply_post_delete, apply_dependency_add,
  apply_rule_create, apply_rule_set_enabled,
}
use watchpost.Replicated.Fsm.{Fsm, dispatch}
use watchpost.Replicated.Apply.Inversion.{
  post_create_ok, post_update_ok, post_delete_ok, dependency_add_ok, rule_create_ok,
  rule_set_enabled_ok,
}

abbrev pub same_post : Post → Post → Bool
same_post p q = q.id == p.id

abbrev pub same_edge : Dependency → Dependency → Bool
same_edge d e = is_edge d.post_id d.depends_on_id e

abbrev pub same_rule : Rule → Rule → Bool
same_rule r s = s.id == r.id

abbrev pub HasEnds : List Post → Dependency → Type 0
HasEnds posts d = (has_post posts d.post_id ≡ true) × (has_post posts d.depends_on_id ≡ true)

abbrev pub HasOwner : List Post → Rule → Type 0
HasOwner posts r = has_post posts r.post_id ≡ true

-- Every edge joins two posts, the graph has no cycle, every rule belongs to a post, and ids are
-- keys.
pub record IsConsistent (db : Db) : Type 0 where
  pub ends : All (HasEnds db.posts) db.post_dependencies
  pub acyclic : IsAcyclic db.post_dependencies
  pub owned : All (HasOwner db.posts) db.rules
  pub posts_distinct : Distinct same_post db.posts
  pub rules_distinct : Distinct same_rule db.rules

-- more posts keep what refers to posts
module _ (posts posts' : List Post)
    (more : (id : String) → has_post posts id ≡ true → has_post posts' id ≡ true) where
  ends_mono : (ds : List Dependency) → All (HasEnds posts) ds → All (HasEnds posts') ds
  ends_mono = All-map _ _ (λ d h. (more d.post_id h.0, more d.depends_on_id h.1))

  owned_mono : (rs : List Rule) → All (HasOwner posts) rs → All (HasOwner posts') rs
  owned_mono = All-map _ _ (λ r h. more r.post_id h)

has_post-cons :
    (p : Post) (posts : List Post) (id : String)
    → has_post posts id ≡ true
    → has_post (p ∷ posts) id ≡ true
unfolding has_post any
has_post-cons p posts id h = ground arith

has_post-update_where :
    (hit : Post → Bool) (p : PostPayload) (posts : List Post) (id : String)
    → has_post (update_where hit (revise_post p) posts) id ≡ has_post posts id
unfolding has_post revise_post
has_post-update_where hit p posts id =
    any-update_where (λ (q : Post). q.id == id) hit (revise_post p) (λ x. refl) posts

has_post-remove :
    (gone : String) (posts : List Post) (id : String)
    → (id == gone) ≡ false
    → has_post (remove (λ (q : Post). q.id == gone) posts) id ≡ has_post posts id
unfolding has_post
has_post-remove gone posts id h =
    any-remove (λ (q : Post). q.id == id) (λ (q : Post). q.id == gone)
      (λ x e. ground (arith, eq_iff x.id id, eq_iff x.id gone, eq_iff id gone)) posts

pub create-IsConsistent :
    (op : Operation) (p : PostPayload) (db : Db)
    → IsConsistent db
    → has_post db.posts op.object_id ≡ false
    → IsConsistent (record db { posts = post_row op p ∷ db.posts })
unfolding has_post post_row
create-IsConsistent op p db c fresh = record {
  ends =
      ends_mono db.posts (post_row op p ∷ db.posts) (has_post-cons (post_row op p) db.posts)
        db.post_dependencies c.ends;
  acyclic = c.acyclic;
  owned =
      owned_mono db.posts (post_row op p ∷ db.posts) (has_post-cons (post_row op p) db.posts)
        db.rules c.owned;
  posts_distinct = (fresh, c.posts_distinct);
  rules_distinct = c.rules_distinct;
}

pub update-IsConsistent :
    (hit : Post → Bool) (p : PostPayload) (db : Db)
    → IsConsistent db
    → IsConsistent (record db { posts = update_where hit (revise_post p) db.posts })
unfolding revise_post
update-IsConsistent hit p db c = record {
  ends = ends_mono db.posts _ kept db.post_dependencies c.ends;
  acyclic = c.acyclic;
  owned = owned_mono db.posts _ kept db.rules c.owned;
  posts_distinct =
      Distinct-update_where same_post hit (revise_post p) (λ x y. refl) (λ x y. refl) db.posts
        c.posts_distinct;
  rules_distinct = c.rules_distinct;
}
  where
    kept :
        (id : String)
        → has_post db.posts id ≡ true
        → has_post (update_where hit (revise_post p) db.posts) id ≡ true
    kept id h = has_post-update_where hit p db.posts id ∙ h

pub delete-IsConsistent :
    (gone : String) (db : Db)
    → IsConsistent db
    → IsConsistent (record db {
      post_dependencies = remove (touches gone) db.post_dependencies;
      rules = remove (λ (r : Rule). r.post_id == gone) db.rules;
      posts = remove (λ (q : Post). q.id == gone) db.posts;
    })
unfolding touches
delete-IsConsistent gone db c = record {
  ends =
      All-remove (HasEnds db.posts) _ (touches gone)
        (λ d h e. (
          has_post-remove gone db.posts d.post_id (ground arith) ∙ h.0,
          has_post-remove gone db.posts d.depends_on_id (ground arith) ∙ h.1,
        ))
        db.post_dependencies c.ends;
  acyclic = remove-IsAcyclic (touches gone) db.post_dependencies c.acyclic;
  owned =
      All-remove (HasOwner db.posts) _ (λ (r : Rule). r.post_id == gone)
        (λ r h e. has_post-remove gone db.posts r.post_id e ∙ h) db.rules c.owned;
  posts_distinct = Distinct-remove same_post _ db.posts c.posts_distinct;
  rules_distinct = Distinct-remove same_rule _ db.rules c.rules_distinct;
}

pub depend-IsConsistent :
    (d : Dependency) (db : Db)
    → IsConsistent db
    → HasEnds db.posts d
    → (d.post_id == d.depends_on_id) ≡ false
    → reaches db.post_dependencies d.depends_on_id d.post_id ≡ false
    → IsConsistent (record db { post_dependencies = d ∷ db.post_dependencies })
depend-IsConsistent d db c ends loop walk = record {
  ends = (ends, c.ends);
  acyclic = cons-IsAcyclic d db.post_dependencies c.acyclic loop walk;
  owned = c.owned;
  posts_distinct = c.posts_distinct;
  rules_distinct = c.rules_distinct;
}

pub rule-IsConsistent :
    (op : Operation) (p : RulePayload) (db : Db)
    → IsConsistent db
    → has_rule db.rules op.object_id ≡ false
    → has_post db.posts p.post_id ≡ true
    → IsConsistent (record db { rules = rule_row op p ∷ db.rules })
unfolding rule_row has_rule
rule-IsConsistent op p db c fresh owner = record {
  ends = c.ends;
  acyclic = c.acyclic;
  owned = (owner, c.owned);
  posts_distinct = c.posts_distinct;
  rules_distinct = (fresh, c.rules_distinct);
}

pub enable-IsConsistent :
    (hit : Rule → Bool) (enabled : Bool) (db : Db)
    → IsConsistent db
    → IsConsistent (record db { rules = update_where hit (revise_rule enabled) db.rules })
unfolding revise_rule
enable-IsConsistent hit enabled db c = record {
  ends = c.ends;
  acyclic = c.acyclic;
  owned =
      All-update_where (HasOwner db.posts) hit (revise_rule enabled) (λ r h. h) db.rules c.owned;
  posts_distinct = c.posts_distinct;
  rules_distinct =
      Distinct-update_where same_rule hit (revise_rule enabled) (λ x y. refl) (λ x y. refl) db.rules
        c.rules_distinct;
}

-- the metadata and the node-local tables are not part of it
pub record SameTables (x y : Db) : Type 0 where
  pub posts : x.posts ≡ y.posts
  pub post_dependencies : x.post_dependencies ≡ y.post_dependencies
  pub rules : x.rules ≡ y.rules

pub IsConsistent-of : (x y : Db) → SameTables x y → IsConsistent y → IsConsistent x
IsConsistent-of x y same c =
    subst₃
      (λ (ps : List Post) (ds : List Dependency) (rs : List Rule).
        IsConsistent (record {
          posts = ps;
          post_dependencies = ds;
          rules = rs;
          meta = x.meta;
          local = x.local;
        }))
      (sym same.posts) (sym same.post_dependencies) (sym same.rules)
      (record {
        ends = c.ends;
        acyclic = c.acyclic;
        owned = c.owned;
        posts_distinct = c.posts_distinct;
        rules_distinct = c.rules_distinct;
      })
