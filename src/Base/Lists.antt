-- ===== src/Base/Lists.antt =====
-- Lists with Boolean tests, and predicates on lists by recursion.
use Prim.Native.Nat.{ℕ, zero, suc, ◌+◌, min}
use mathlib.Core.Path.{◌≡◌, refl, ◌∙◌, fun_ext}
use mathlib.Core.Bool.{Bool, true, false, ◌||◌, not}
use mathlib.Core.Logic.{inl, inr}
use mathlib.Core.Option.{Option, none, some, map as map_option}
use mathlib.Core.List.{List, [], ◌∷◌, ◌++◌}
use native.Mathlib.Omega.{arith}
use watchpost.Base.Tests.{if◌then◌else◌, Bool-cases}

module _ {ℓ} {A : Type ℓ} where
  abbrev pub length : List A → ℕ
  length [] = 0
  length (x ∷ xs) = suc (length xs)

  abbrev pub take : ℕ → List A → List A
  take zero xs = []
  take (suc n) [] = []
  take (suc n) (x ∷ xs) = x ∷ take n xs

  -- the rows that a `WHERE` clause selects
  unfoldable pub filter : (A → Bool) → List A → List A
  filter p [] = []
  filter p (x ∷ xs) = let rest = filter p xs in if p x then x ∷ rest else rest

  -- the rows that a `DELETE … WHERE` clause leaves
  unfoldable pub remove : (A → Bool) → List A → List A
  unfolding filter
  remove p xs = filter (λ x. not (p x)) xs

  unfoldable pub any : (A → Bool) → List A → Bool
  any p [] = false
  any p (x ∷ xs) = p x || any p xs

  -- the first row that a `WHERE` clause selects
  unfoldable pub find : (A → Bool) → List A → Option A
  find p [] = none
  find p (x ∷ xs) = if p x then some x else find p xs

  unfoldable pub count : (A → Bool) → List A → ℕ
  count p [] = 0
  count p (x ∷ xs) = if p x then suc (count p xs) else count p xs

  -- `UPDATE … SET f WHERE p`
  unfoldable pub update_where : (A → Bool) → (A → A) → List A → List A
  update_where p f [] = []
  update_where p f (x ∷ xs) = (if p x then f x else x) ∷ update_where p f xs

  pub length-append : (xs ys : List A) → length (xs ++ ys) ≡ length xs + length ys
  length-append [] ys = omega arith
  length-append (x ∷ xs) ys = omega (arith, length-append xs ys)

  pub length-take : (n : ℕ) (xs : List A) → length (take n xs) ≡ min n (length xs)
  length-take zero xs = omega arith
  length-take (suc n) [] = omega arith
  length-take (suc n) (x ∷ xs) = omega (arith, length-take n xs)

  pub any-append : (p : A → Bool) (xs ys : List A) → any p (xs ++ ys) ≡ (any p xs || any p ys)
  unfolding any
  any-append p [] ys = refl
  any-append p (x ∷ xs) ys = ground (arith, any-append p xs ys)

  pub find-some : (p : A → Bool) (xs : List A) (x : A) → find p xs ≡ some x → p x ≡ true
  unfolding find
  find-some p [] y h = cc
  find-some p (x ∷ xs) y h = ground (arith, find-some p xs y)

  pub find-any : (p : A → Bool) (xs : List A) (x : A) → find p xs ≡ some x → any p xs ≡ true
  unfolding find any
  find-any p [] y h = cc
  find-any p (x ∷ xs) y h = ground (arith, find-any p xs y)

  pub find-none : (p : A → Bool) (xs : List A) → any p xs ≡ false → find p xs ≡ none
  unfolding find any
  find-none p [] h = refl
  find-none p (x ∷ xs) h = ground (arith, find-none p xs)

  -- the first selected row after an update of the selected rows
  pub find-update_where :
      (p : A → Bool) (f : A → A)
      → ((x : A) → p x ≡ true → p (f x) ≡ true)
      → (xs : List A) (y : A) → find p xs ≡ some y
      → find p (update_where p f xs) ≡ some (f y)
  unfolding find update_where
  find-update_where p f keep [] y h = cc
  find-update_where p f keep (x ∷ xs) y h = ground (arith, keep x, find-update_where p f keep xs y)

  -- what `UPDATE … SET f WHERE p` makes of a row
  abbrev pub adjust : (A → Bool) → (A → A) → A → A
  adjust p f x = if p x then f x else x

  -- the first selected row after an update that keeps the selection
  pub find-update_where-adjust :
      (q p : A → Bool) (f : A → A)
      → ((x : A) → q (f x) ≡ q x)
      → (xs : List A) → find q (update_where p f xs) ≡ map_option (adjust p f) (find q xs)
  unfolding find update_where
  find-update_where-adjust q p f same [] = refl
  find-update_where-adjust q p f same (x ∷ xs) =
      ground (arith, same x, find-update_where-adjust q p f same xs)

  pub any-update_where :
      (q p : A → Bool) (f : A → A)
      → ((x : A) → q (f x) ≡ q x)
      → (xs : List A) → any q (update_where p f xs) ≡ any q xs
  unfolding any update_where
  any-update_where q p f same [] = refl
  any-update_where q p f same (x ∷ xs) = ground (arith, same x, any-update_where q p f same xs)

  -- what holds of each element
  abbrev pub All {κ} : (A → Type κ) → List A → Type κ
  All P [] = Unit
  All P (x ∷ xs) = P x × All P xs

  -- the rows that a `WHERE` clause keeps, with what the clause says of them
  pub All-filter {κ μ} :
      (P : A → Type κ) (Q : A → Type μ) (p : A → Bool)
      → ((x : A) → P x → p x ≡ true → Q x)
      → (xs : List A) → All P xs
      → All Q (filter p xs)
  unfolding filter
  All-filter P Q p keep [] h = tt
  All-filter P Q p keep (x ∷ xs) h = elim (Bool-cases (p x)) [
    | inl e ↦ rw e (keep x h.0 e, All-filter P Q p keep xs h.1)
    | inr e ↦ rw e (All-filter P Q p keep xs h.1)
  ]

  pub All-map {κ μ} :
      (P : A → Type κ) (Q : A → Type μ)
      → ((x : A) → P x → Q x)
      → (xs : List A) → All P xs
      → All Q xs
  All-map P Q f [] h = tt
  All-map P Q f (x ∷ xs) h = (f x h.0, All-map P Q f xs h.1)

  pub All-append {κ} : (P : A → Type κ) (xs ys : List A) → All P xs → All P ys → All P (xs ++ ys)
  All-append P [] ys h k = k
  All-append P (x ∷ xs) ys h k = (h.0, All-append P xs ys h.1 k)

  pub All-update_where {κ} :
      (P : A → Type κ) (p : A → Bool) (f : A → A)
      → ((x : A) → P x → P (f x))
      → (xs : List A) → All P xs
      → All P (update_where p f xs)
  unfolding update_where
  All-update_where P p f keep [] h = tt
  All-update_where P p f keep (x ∷ xs) h = elim (Bool-cases (p x)) [
    | inl e ↦ rw e (keep x h.0, All-update_where P p f keep xs h.1)
    | inr e ↦ rw e (h.0, All-update_where P p f keep xs h.1)
  ]

  -- an update that keeps what holds of the rows that it selects
  pub All-update_hit {κ} :
      (P : A → Type κ) (p : A → Bool) (f : A → A)
      → ((x : A) → p x ≡ true → P x → P (f x))
      → (xs : List A) → All P xs
      → All P (update_where p f xs)
  unfolding update_where
  All-update_hit P p f keep [] h = tt
  All-update_hit P p f keep (x ∷ xs) h = elim (Bool-cases (p x)) [
    | inl e ↦ rw e (keep x e h.0, All-update_hit P p f keep xs h.1)
    | inr e ↦ rw e (h.0, All-update_hit P p f keep xs h.1)
  ]

  pub All-remove {κ μ} :
      (P : A → Type κ) (Q : A → Type μ) (p : A → Bool)
      → ((x : A) → P x → p x ≡ false → Q x)
      → (xs : List A) → All P xs
      → All Q (remove p xs)
  unfolding remove
  All-remove P Q p keep xs h =
      All-filter P Q (λ x. not (p x)) (λ x a e. keep x a (ground arith)) xs h

  -- what is removed is of no use to a test that holds of none of it
  pub any-remove :
      (q p : A → Bool)
      → ((x : A) → q x ≡ true → p x ≡ false)
      → (xs : List A) → any q (remove p xs) ≡ any q xs
  unfolding remove any filter
  any-remove q p h [] = refl
  any-remove q p h (x ∷ xs) = ground (arith, h x, any-remove q p h xs)

  -- nothing that the deletion selects is left
  pub any-remove_self : (p : A → Bool) (xs : List A) → any p (remove p xs) ≡ false
  unfolding remove any filter
  any-remove_self p [] = refl
  any-remove_self p (x ∷ xs) = ground (arith, any-remove_self p xs)

  pub any-filter_absorb :
      (q p : A → Bool)
      → ((x : A) → q x ≡ true → p x ≡ true)
      → (xs : List A) → any q (filter p xs) ≡ any q xs
  unfolding any filter
  any-filter_absorb q p h [] = refl
  any-filter_absorb q p h (x ∷ xs) = ground (arith, h x, any-filter_absorb q p h xs)

  pub any-filter-false :
      (q p : A → Bool) (xs : List A) → any q xs ≡ false → any q (filter p xs) ≡ false
  unfolding any filter
  any-filter-false q p [] h = refl
  any-filter-false q p (x ∷ xs) h = ground (arith, any-filter-false q p xs)

  pub any-remove-false :
      (q p : A → Bool) (xs : List A) → any q xs ≡ false → any q (remove p xs) ≡ false
  unfolding remove
  any-remove-false q p xs h = any-filter-false q (λ x. not (p x)) xs h

-- No two elements are the same row: the constraint of a primary key.
module _ {ℓ} {A : Type ℓ} where
  abbrev pub Distinct : (A → A → Bool) → List A → Type 0
  Distinct same [] = Unit
  Distinct same (x ∷ xs) = (any (same x) xs ≡ false) × Distinct same xs

  pub Distinct-remove :
      (same : A → A → Bool) (p : A → Bool) (xs : List A)
      → Distinct same xs
      → Distinct same (remove p xs)
  unfolding remove filter
  Distinct-remove same p [] h = tt
  Distinct-remove same p (x ∷ xs) h = elim (Bool-cases (p x)) [
    | inl e ↦ rw e (Distinct-remove same p xs h.1)
    | inr e ↦ rw e (any-remove-false (same x) p xs h.0, Distinct-remove same p xs h.1)
  ]

  pub Distinct-update_where :
      (same : A → A → Bool) (p : A → Bool) (f : A → A)
      → ((x y : A) → same x (f y) ≡ same x y)
      → ((x y : A) → same (f x) y ≡ same x y)
      → (xs : List A) → Distinct same xs
      → Distinct same (update_where p f xs)
  unfolding update_where
  Distinct-update_where same p f right left [] h = tt
  Distinct-update_where same p f right left (x ∷ xs) h =
      let rest = Distinct-update_where same p f right left xs h.1 in
      let other = any-update_where (same x) p f (right x) xs in
      elim (Bool-cases (p x)) [
        | inl e ↦ rw e ((rw (fun_ext (left x)) other ∙ h.0), rest)
        | inr e ↦ rw e ((other ∙ h.0), rest)
      ]
