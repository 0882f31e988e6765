-- ===== src/Replicated/Graph.antt =====
-- The dependency graph: the edges of post_dependencies and the recursive query over them.
use mathlib.Core.Path.{subst}
use watchpost.Base.{
  String, ◌≡◌, ◌↔◌, Bool, true, false, ◌||◌, ◌&&◌, inl, inr, List, [], ◌∷◌, ◌==◌, eq_iff, eq_refl,
  arith, any, filter, remove, not, Bool-cases,
}
use watchpost.Store.Rows.{Dependency}

unfoldable pub is_edge : String → String → Dependency → Bool
is_edge a b d = d.post_id == a && d.depends_on_id == b

-- `SELECT COUNT(*) FROM post_dependencies WHERE post_id=? AND depends_on_id=?`, compared with 0
unfoldable pub has_edge : List Dependency → String → String → Bool
unfolding is_edge any
has_edge edges a b = any (is_edge a b) edges

-- `WITH RECURSIVE reach(id)`: the least set with what `a` depends on, closed under the edges.
pub data Reach (edges : List Dependency) (a : String) : String → Type 0 where
  base : {b : String} → has_edge edges a b ≡ true → Reach edges a b
  next : {b c : String} → Reach edges a b → has_edge edges b c ≡ true → Reach edges a c

-- `SELECT COUNT(*) FROM reach WHERE id=b`, compared with 0: a walk that uses the first edge goes
-- to its source without it, and on from its end without it.
unfoldable pub reaches : List Dependency → String → String → Bool
reaches [] a b = false
reaches (e ∷ es) a b =
    let direct = reaches es a b in
    let before = reaches es a e.post_id in
    let after = reaches es e.depends_on_id b in
    direct || ((e.post_id == a || before) && (e.depends_on_id == b || after))

pub reaches_trans :
    (es : List Dependency) (a b c : String)
    → reaches es a b ≡ true
    → reaches es b c ≡ true
    → reaches es a c ≡ true
unfolding reaches
reaches_trans [] a b c h k = cc
reaches_trans (e ∷ es) a b c h k = ground (
  arith,
  eq_iff e.post_id a,
  eq_iff e.post_id b,
  eq_iff e.depends_on_id b,
  eq_iff e.depends_on_id c,
  reaches_trans es a b c,
  reaches_trans es a b e.post_id,
  reaches_trans es e.depends_on_id b c,
)

reaches_of_edge :
    (es : List Dependency) (a b : String) → has_edge es a b ≡ true → reaches es a b ≡ true
unfolding reaches has_edge
reaches_of_edge [] a b h = cc
reaches_of_edge (e ∷ es) a b h = ground (arith, reaches_of_edge es a b)

reaches_complete :
    (es : List Dependency) (a : String) {b : String} → Reach es a b → reaches es a b ≡ true
reaches_complete es a (base h) = reaches_of_edge es a _ h
reaches_complete es a (next {b = b} {c = c} r h) =
    reaches_trans es a b c (reaches_complete es a r) (reaches_of_edge es b c h)

-- more edges reach more
pub Reach-mono :
    (es fs : List Dependency)
    → ((a b : String) → has_edge es a b ≡ true → has_edge fs a b ≡ true)
    → (a : String) {b : String} → Reach es a b
    → Reach fs a b
Reach-mono es fs sub a (base h) = base (sub a _ h)
Reach-mono es fs sub a (next r h) = next (Reach-mono es fs sub a r) (sub _ _ h)

Reach-trans :
    (es : List Dependency) (a b : String) {c : String} → Reach es a b → Reach es b c → Reach es a c
Reach-trans es a b r (base h) = next r h
Reach-trans es a b r (next s h) = next (Reach-trans es a b r s) h

has_edge-cons :
    (e : Dependency) (es : List Dependency) (a b : String)
    → has_edge es a b ≡ true
    → has_edge (e ∷ es) a b ≡ true
unfolding has_edge
has_edge-cons e es a b h = ground arith

has_edge_self :
    (e : Dependency) (es : List Dependency) → has_edge (e ∷ es) e.post_id e.depends_on_id ≡ true
unfolding has_edge
has_edge_self e es = ground (arith, eq_refl e.post_id, eq_refl e.depends_on_id)

-- the two ends of a walk through the first edge
Reach-before :
    (e : Dependency) (es : List Dependency) (a : String)
    → (e.post_id == a || reaches es a e.post_id) ≡ true
    → ((reaches es a e.post_id ≡ true) → Reach (e ∷ es) a e.post_id)
    → Reach (e ∷ es) a e.depends_on_id
Reach-before e es a h lift = elim (Bool-cases (reaches es a e.post_id)) [
  | inl r ↦ next (lift r) (has_edge_self e es)
  | inr n ↦
      subst (λ (x : String). Reach (e ∷ es) x e.depends_on_id)
        ((eq_iff e.post_id a).0 (ground arith)) (base (has_edge_self e es))
]

reaches_sound : (es : List Dependency) (a b : String) → reaches es a b ≡ true → Reach es a b
unfolding reaches
reaches_sound [] a b h = absurd (cc)
reaches_sound (e ∷ es) a b h = elim (Bool-cases (reaches es a b)) [
  | inl r ↦ lift a b (reaches_sound es a b r)
  | inr n ↦
      let first : Reach (e ∷ es) a e.depends_on_id =
        Reach-before e es a (ground arith) (λ r. lift a _ (reaches_sound es a e.post_id r)) in
      elim (Bool-cases (reaches es e.depends_on_id b)) [
        | inl r ↦
            Reach-trans (e ∷ es) a e.depends_on_id first
              (lift e.depends_on_id b (reaches_sound es e.depends_on_id b r))
        | inr m ↦
            subst (λ (x : String). Reach (e ∷ es) a x) ((eq_iff e.depends_on_id b).0 (ground arith))
              first
      ]
]
  where
    lift : (x y : String) → Reach es x y → Reach (e ∷ es) x y
    lift x y = Reach-mono es (e ∷ es) (has_edge-cons e es) x

-- The query finds `b` exactly when there is a walk of one edge or more from `a` to `b`.
pub reaches_iff : (es : List Dependency) (a b : String) → (reaches es a b ≡ true) ↔ Reach es a b
reaches_iff es a b = (reaches_sound es a b, reaches_complete es a)

abbrev pub IsAcyclic : List Dependency → Type 0
IsAcyclic es = (a : String) → Reach es a a → ⊥

pub nil-IsAcyclic : IsAcyclic []
unfolding reaches
nil-IsAcyclic a walk = let found = reaches_complete [] a walk in cc

-- An edge between two different posts, added to a graph without cycles in which the query does not
-- find its source from its end, closes no cycle.
pub cons-IsAcyclic :
    (e : Dependency) (es : List Dependency)
    → IsAcyclic es
    → (e.post_id == e.depends_on_id) ≡ false
    → reaches es e.depends_on_id e.post_id ≡ false
    → IsAcyclic (e ∷ es)
unfolding reaches
cons-IsAcyclic e es acyclic loop walk a r = elim (Bool-cases (reaches es a a)) [
  | inl old ↦ acyclic a (reaches_sound es a a old)
  | inr fresh ↦ absurd (
      ground (
        arith,
        reaches_complete (e ∷ es) a r,
        eq_iff e.post_id a,
        eq_iff e.depends_on_id a,
        eq_iff e.post_id e.depends_on_id,
        reaches_trans es e.depends_on_id a e.post_id,
      ))
]

has_edge-filter :
    (p : Dependency → Bool) (es : List Dependency) (a b : String)
    → has_edge (filter p es) a b ≡ true
    → has_edge es a b ≡ true
unfolding has_edge filter
has_edge-filter p [] a b h = h
has_edge-filter p (e ∷ es) a b h = ground (arith, has_edge-filter p es a b)

-- Edges that are taken away create no cycle.
pub filter-IsAcyclic :
    (p : Dependency → Bool) (es : List Dependency) → IsAcyclic es → IsAcyclic (filter p es)
filter-IsAcyclic p es acyclic a r =
    acyclic a (Reach-mono (filter p es) es (has_edge-filter p es) a r)

pub remove-IsAcyclic :
    (p : Dependency → Bool) (es : List Dependency) → IsAcyclic es → IsAcyclic (remove p es)
unfolding remove
remove-IsAcyclic p es = filter-IsAcyclic (λ d. not (p d)) es
