-- ===== src/Retention/Batches.antt =====
-- The loop over batches: how much a pass removes, and when nothing old is left.
use watchpost.Base.{
  remove, filter, sym, ◌∙◌, ℕ, zero, suc, ◌+◌, ◌*◌, ◌-◌, ◌≤◌, ◌<◌, ◌≡◌, refl, Bool, true, false,
  ◌&&◌, List, [], ◌∷◌, ltb, arith, any, count, if◌then◌else◌, inl, inr, ok, Bool-cases,
}
use watchpost.Retention.{Timed, delete_first, is_old, retain, max_passes, Pruned, bounded}

module _ {ℓ} {A : Type ℓ} (p : A → Bool) where
  pub delete_first-count :
      (n : ℕ) (xs : List A) → count p (delete_first p n xs).0 + (delete_first p n xs).1 ≡ count p xs
  unfolding delete_first count
  delete_first-count n [] = refl
  delete_first-count n (x ∷ xs) =
      ground (arith, delete_first-count (if p x && ltb 0 n then n - 1 else n) xs)

  pub delete_first-le : (n : ℕ) (xs : List A) → (delete_first p n xs).1 ≤ n
  unfolding delete_first
  delete_first-le n [] = omega arith
  delete_first-le n (x ∷ xs) =
      ground (arith, delete_first-le (if p x && ltb 0 n then n - 1 else n) xs)

  -- fewer rows than the limit were removed only if none is left
  pub delete_first-rest :
      (n : ℕ) (xs : List A) → (delete_first p n xs).1 < n → count p (delete_first p n xs).0 ≡ 0
  unfolding delete_first count
  delete_first-rest n [] h = refl
  delete_first-rest n (x ∷ xs) h =
      ground (arith, delete_first-rest (if p x && ltb 0 n then n - 1 else n) xs)

  pub delete_first-other :
      (q : A → Bool)
      → ((x : A) → q x ≡ true → p x ≡ false)
      → (n : ℕ) (xs : List A) → any q (delete_first p n xs).0 ≡ any q xs
  unfolding delete_first any
  delete_first-other q safe n [] = refl
  delete_first-other q safe n (x ∷ xs) =
      ground (arith, safe x, delete_first-other q safe (if p x && ltb 0 n then n - 1 else n) xs)

  -- what else is deleted makes no difference
  pub remove-delete_first : (n : ℕ) (xs : List A) → remove p (delete_first p n xs).0 ≡ remove p xs
  unfolding delete_first remove filter
  remove-delete_first n [] = refl
  remove-delete_first n (x ∷ xs) =
      ground (arith, remove-delete_first (if p x && ltb 0 n then n - 1 else n) xs)

  remove-none : (xs : List A) → count p xs ≡ 0 → remove p xs ≡ xs
  unfolding count remove filter
  remove-none [] h = refl
  remove-none (x ∷ xs) h = ground (arith, remove-none xs)

  -- fewer rows than the limit were removed, so all are
  pub delete_first-all :
      (n : ℕ) (xs : List A) → (delete_first p n xs).1 < n → (delete_first p n xs).0 ≡ remove p xs
  delete_first-all n xs h =
      sym (remove-none (delete_first p n xs).0 (delete_first-rest n xs h))
      ∙ remove-delete_first n xs

module _ (batch cutoff : ℕ) where
  retain-ok :
      (rows : List Timed)
      → 1 ≤ batch
      → batch ≤ 10000
      → retain batch cutoff rows ≡ ok (delete_first (is_old cutoff) batch rows)
  unfolding retain
  retain-ok rows some_rows few = ground arith

  -- the loop from any pass on
  bounded-drains :
      (passes total : ℕ) (rows : List Timed)
      → 1 ≤ batch
      → batch ≤ 10000
      → count (is_old cutoff) rows < passes * batch
      → (r : Pruned (List Timed)) × (bounded passes batch cutoff total rows ≡ ok r)
        × (r.truncated ≡ false)
        × (r.left ≡ remove (is_old cutoff) rows)
        × (r.removed ≡ total + count (is_old cutoff) rows)
  unfolding bounded
  bounded-drains zero total rows some_rows few below = absurd (omega (arith, below))
  bounded-drains (suc passes) total rows some_rows few below =
      let d = delete_first (is_old cutoff) batch rows in
      let size = delete_first-count (is_old cutoff) batch rows in
      let most = delete_first-le (is_old cutoff) batch rows in
      elim (Bool-cases (ltb d.1 batch)) [
        | inl last ↦ (
          record { left = d.0; removed = total + d.1; truncated = false },
          ground (arith, retain-ok rows some_rows few),
          refl,
          delete_first-all (is_old cutoff) batch rows (ground arith),
          ground (arith, delete_first-rest (is_old cutoff) batch rows, size),
        )
        | inr more ↦
            let (r, reached, whole, none_left, all) =
              bounded-drains passes (total + d.1) d.0 some_rows few (ground (arith, size, most)) in
            (
              r,
              ground (arith, retain-ok rows some_rows few),
              whole,
              none_left ∙ remove-delete_first (is_old cutoff) batch rows,
              ground (arith, size),
            )
      ]

  -- A pass over the observations ends and is complete: with a batch between 1 and 10,000 and fewer
  -- old rows than 250 batches, the loop leaves exactly the rows that are not old, in their order,
  -- counts the others, and does not report that it stopped at the cap. A row is old if the text of
  -- its time is before that of the cutoff.
  pub observations_drained :
      (rows : List Timed)
      → 1 ≤ batch
      → batch ≤ 10000
      → count (is_old cutoff) rows < max_passes * batch
      → (r : Pruned (List Timed)) × (bounded max_passes batch cutoff 0 rows ≡ ok r)
        × (r.truncated ≡ false)
        × (r.left ≡ remove (is_old cutoff) rows)
        × (r.removed ≡ count (is_old cutoff) rows)
  observations_drained rows some_rows few below =
      let (r, reached, whole, none_left, all) =
        bounded-drains max_passes 0 rows some_rows few below in
      (r, reached, whole, none_left, omega (arith, all))
