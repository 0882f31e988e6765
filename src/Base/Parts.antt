-- ===== src/Base/Parts.antt =====
-- Parts of lists: the rows up to a limit, the rows that a clause selects, and those that it updates.
use Prim.Native.Nat.{ℕ, zero, suc}
use mathlib.Core.Path.{◌≡◌, refl}
use mathlib.Core.Logic.{inl, inr}
use mathlib.Core.Bool.{Bool, true, false}
use mathlib.Core.List.{List, [], ◌∷◌}
use native.Mathlib.Omega.{arith}
use watchpost.Base.Tests.{Bool-cases}
use watchpost.Base.Lists.{take, filter, any, update_where, All, Distinct, any-filter-false}

module _ {ℓ} {A : Type ℓ} where
  -- what `UPDATE … SET f WHERE p` makes of the rows, selected or not
  pub All-update_split {κ μ} :
      (P : A → Type κ) (Q : A → Type μ) (p : A → Bool) (f : A → A)
      → ((x : A) → p x ≡ true → P x → Q (f x))
      → ((x : A) → p x ≡ false → P x → Q x)
      → (xs : List A) → All P xs
      → All Q (update_where p f xs)
  unfolding update_where
  All-update_split P Q p f hit miss [] h = tt
  All-update_split P Q p f hit miss (x ∷ xs) h = elim (Bool-cases (p x)) [
    | inl e ↦ rw e (hit x e h.0, All-update_split P Q p f hit miss xs h.1)
    | inr e ↦ rw e (miss x e h.0, All-update_split P Q p f hit miss xs h.1)
  ]

  pub All-take {κ} : (P : A → Type κ) (n : ℕ) (xs : List A) → All P xs → All P (take n xs)
  All-take P zero xs h = tt
  All-take P (suc n) [] h = tt
  All-take P (suc n) (x ∷ xs) h = (h.0, All-take P n xs h.1)

  any-take-false :
      (p : A → Bool) (n : ℕ) (xs : List A) → any p xs ≡ false → any p (take n xs) ≡ false
  unfolding any
  any-take-false p zero xs h = refl
  any-take-false p (suc n) [] h = refl
  any-take-false p (suc n) (x ∷ xs) h = ground (arith, any-take-false p n xs)

  pub Distinct-take :
      (same : A → A → Bool) (n : ℕ) (xs : List A) → Distinct same xs → Distinct same (take n xs)
  Distinct-take same zero xs h = tt
  Distinct-take same (suc n) [] h = tt
  Distinct-take same (suc n) (x ∷ xs) h =
      (any-take-false (same x) n xs h.0, Distinct-take same n xs h.1)

  pub Distinct-filter :
      (same : A → A → Bool) (p : A → Bool) (xs : List A)
      → Distinct same xs
      → Distinct same (filter p xs)
  unfolding filter
  Distinct-filter same p [] h = tt
  Distinct-filter same p (x ∷ xs) h = elim (Bool-cases (p x)) [
    | inl e ↦ rw e (any-filter-false (same x) p xs h.0, Distinct-filter same p xs h.1)
    | inr e ↦ rw e (Distinct-filter same p xs h.1)
  ]
