-- ===== src/Replicated/Snapshot/Ordered.antt =====
-- `ORDER BY` keeps the rows, and so do the loops that insert them again.
use watchpost.Base.{
  Bool, false, ◌||◌, List, [], ◌∷◌, ◌≡◌, refl, ◌∙◌, inl, inr, arith, any, All, Distinct, Bool-cases,
}
use watchpost.Replicated.Snapshot.{insert_ordered, order_by}

module _ {ℓ} {A : Type ℓ} where
  -- the rows of `xs` on top of those of `ys`, the last one first
  abbrev pub rev_onto : List A → List A → List A
  rev_onto [] ys = ys
  rev_onto (x ∷ xs) ys = rev_onto xs (x ∷ ys)

  pub any-rev_onto :
      (q : A → Bool) (xs ys : List A) → any q (rev_onto xs ys) ≡ (any q xs || any q ys)
  unfolding any
  any-rev_onto q [] ys = refl
  any-rev_onto q (x ∷ xs) ys = ground (arith, any-rev_onto q xs (x ∷ ys))

  -- what no element meets fails at each
  pub All-any-false : (p : A → Bool) (xs : List A) → any p xs ≡ false → All (λ x. p x ≡ false) xs
  unfolding any
  All-any-false p [] h = tt
  All-any-false p (x ∷ xs) h = (ground arith, All-any-false p xs (ground arith))

  pub All-zip {κ μ} :
      (P : A → Type κ) (Q : A → Type μ) (xs : List A)
      → All P xs
      → All Q xs
      → All (λ x. P x × Q x) xs
  All-zip P Q [] h k = tt
  All-zip P Q (x ∷ xs) h k = ((h.0, k.0), All-zip P Q xs h.1 k.1)

module _ {ℓ} {A : Type ℓ} (before : A → A → Bool) where
  any-insert_ordered :
      (q : A → Bool) (x : A) (ys : List A) → any q (insert_ordered before x ys) ≡ (q x || any q ys)
  unfolding any insert_ordered
  any-insert_ordered q x [] = refl
  any-insert_ordered q x (y ∷ ys) = ground (arith, any-insert_ordered q x ys)

  pub any-order_by : (q : A → Bool) (xs : List A) → any q (order_by before xs) ≡ any q xs
  unfolding any order_by
  any-order_by q [] = refl
  any-order_by q (x ∷ xs) =
      ground (arith, any-insert_ordered q x (order_by before xs), any-order_by q xs)

  All-insert_ordered {κ} :
      (P : A → Type κ) (x : A) (ys : List A) → P x → All P ys → All P (insert_ordered before x ys)
  unfolding insert_ordered
  All-insert_ordered P x [] h k = (h, tt)
  All-insert_ordered P x (y ∷ ys) h k = elim (Bool-cases (before x y)) [
    | inl e ↦ rw e (h, k)
    | inr e ↦ rw e (k.0, All-insert_ordered P x ys h k.1)
  ]

  pub All-order_by {κ} : (P : A → Type κ) (xs : List A) → All P xs → All P (order_by before xs)
  unfolding order_by
  All-order_by P [] h = tt
  All-order_by P (x ∷ xs) h =
      All-insert_ordered P x (order_by before xs) h.0 (All-order_by P xs h.1)

  module _ (same : A → A → Bool) (comm : (x y : A) → same x y ≡ same y x) where
    Distinct-insert_ordered :
        (x : A) (ys : List A)
        → any (same x) ys ≡ false
        → Distinct same ys
        → Distinct same (insert_ordered before x ys)
    unfolding insert_ordered any
    Distinct-insert_ordered x [] h k = (refl, tt)
    Distinct-insert_ordered x (y ∷ ys) h k = elim (Bool-cases (before x y)) [
      | inl e ↦ rw e (h, k)
      | inr e ↦ rw e (
        ground (arith, any-insert_ordered (same y) x ys, comm x y),
        Distinct-insert_ordered x ys (ground arith) k.1,
      )
    ]

    pub Distinct-order_by : (xs : List A) → Distinct same xs → Distinct same (order_by before xs)
    unfolding order_by
    Distinct-order_by [] h = tt
    Distinct-order_by (x ∷ xs) h =
        Distinct-insert_ordered x (order_by before xs) (any-order_by (same x) xs ∙ h.0)
          (Distinct-order_by xs h.1)
