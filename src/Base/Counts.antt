-- ===== src/Base/Counts.antt =====
-- Counts of the rows that a `WHERE` clause selects.
use Prim.Native.Nat.{◌+◌, ◌≤◌, ◌<◌}
use mathlib.Core.Path.{◌≡◌, refl}
use mathlib.Core.Bool.{Bool, true, false}
use mathlib.Core.Option.{some}
use mathlib.Core.List.{List, [], ◌∷◌}
use native.Mathlib.Omega.{arith}
use watchpost.Base.Lists.{any, find, count, update_where}

module _ {ℓ} {A : Type ℓ} where
  pub any-count : (p : A → Bool) (xs : List A) → count p xs ≡ 1 → any p xs ≡ true
  unfolding count any
  any-count p [] h = absurd (omega (arith, h))
  any-count p (x ∷ xs) h = ground (arith, any-count p xs)

  pub count-le :
      (p q : A → Bool)
      → ((x : A) → q x ≡ true → p x ≡ true)
      → (xs : List A) → count q xs ≤ count p xs
  unfolding count
  count-le p q less [] = omega arith
  count-le p q less (x ∷ xs) = ground (arith, less x, count-le p q less xs)

  pub count-update_where-le :
      (q p : A → Bool) (f : A → A)
      → ((x : A) → q (f x) ≡ true → q x ≡ true)
      → (xs : List A) → count q (update_where p f xs) ≤ count q xs
  unfolding count update_where
  count-update_where-le q p f less [] = omega arith
  count-update_where-le q p f less (x ∷ xs) =
      ground (arith, less x, count-update_where-le q p f less xs)

  -- the only selected row, selected by a narrower test
  pub count-narrow :
      (p q : A → Bool)
      → ((x : A) → q x ≡ true → p x ≡ true)
      → (xs : List A) (y : A) → count p xs ≡ 1
      → find p xs ≡ some y
      → q y ≡ true
      → count q xs ≡ 1
  unfolding count find
  count-narrow p q less [] y one found chosen = cc
  count-narrow p q less (x ∷ xs) y one found chosen =
      ground (arith, less x, count-le p q less xs, count-narrow p q less xs y)

  pub count-any-pos : (p : A → Bool) (xs : List A) → 0 < count p xs → any p xs ≡ true
  unfolding count any
  count-any-pos p [] h = absurd (omega (arith, h))
  count-any-pos p (x ∷ xs) h = ground (arith, count-any-pos p xs)

  pub count-any-false : (p : A → Bool) (xs : List A) → any p xs ≡ false → count p xs ≡ 0
  unfolding count any
  count-any-false p [] h = refl
  count-any-false p (x ∷ xs) h = ground (arith, count-any-false p xs)

  -- an update of the selected rows takes at most those from a count
  pub count-update_where-ge :
      (q p : A → Bool) (f : A → A) (xs : List A)
      → count q xs ≤ count q (update_where p f xs) + count p xs
  unfolding count update_where
  count-update_where-ge q p f [] = omega arith
  count-update_where-ge q p f (x ∷ xs) = ground (arith, count-update_where-ge q p f xs)

  pub update_where-none :
      (p : A → Bool) (f : A → A) (xs : List A) → count p xs ≡ 0 → update_where p f xs ≡ xs
  unfolding count update_where
  update_where-none p f [] h = refl
  update_where-none p f (x ∷ xs) h = ground (arith, update_where-none p f xs)

  -- an update of one row that a test does not select keeps what the test selects
  pub any-update_one :
      (q p : A → Bool) (f : A → A) (xs : List A) (y : A)
      → count p xs ≡ 1
      → find p xs ≡ some y
      → q y ≡ false
      → any q xs ≡ true
      → any q (update_where p f xs) ≡ true
  unfolding count find any update_where
  any-update_one q p f [] y one found out h = cc
  any-update_one q p f (x ∷ xs) y one found out h =
      ground (arith, any-update_one q p f xs y, update_where-none p f xs)

  pub any-update_grow :
      (q p : A → Bool) (f : A → A)
      → ((x : A) → q x ≡ true → q (f x) ≡ true)
      → (xs : List A) → any q xs ≡ true
      → any q (update_where p f xs) ≡ true
  unfolding any update_where
  any-update_grow q p f more [] h = cc
  any-update_grow q p f more (x ∷ xs) h = ground (arith, more x, any-update_grow q p f more xs)
