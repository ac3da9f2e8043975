-- ===== src/Prelude/Distinct.antt =====
-- JavaScript's `Set` of a list: its distinct items in the order of their first occurrence.
use Prim.Native.Nat.{◌+◌, ◌≤◌}
use mathlib.Core.Path.{◌≡◌, refl, ap, ◌∙◌}
use mathlib.Core.Bool.{Bool, true, false, not, ◌&&◌}
use mathlib.Core.List.{List, [], ◌∷◌}
use native.Mathlib.Omega.{arith}
use mpas.Prelude.Tests.{if◌then◌else◌}
use mpas.Prelude.Lists.{length, filter, length-filter-le}
use mpas.Prelude.Eq.{Eq, ◌==◌, includes}

module _ {ℓ} {A : Type ℓ} ⦃e : Eq A⦄ where
  abbrev pub without : A → List A → List A
  without a xs = filter (λ x. not (x == a)) xs

  unfoldable pub distinct : List A → List A
  distinct [] = []
  distinct (x ∷ xs) = x ∷ without x (distinct xs)

  -- No item stands twice.
  abbrev pub IsDistinct : List A → Type 0
  IsDistinct [] = Unit
  IsDistinct (x ∷ xs) = (includes x xs ≡ false) × IsDistinct xs

  pub includes-without :
      (a b : A) (xs : List A)
      → includes b (without a xs) ≡ (if a == b then false else includes b xs)
  includes-without a b [] = ground arith
  includes-without a b (x ∷ xs) =
      ground (arith, includes-without a b xs, e.decides x a, e.decides x b, e.decides a b)

  pub includes-distinct : (b : A) (xs : List A) → includes b (distinct xs) ≡ includes b xs
  unfolding distinct
  includes-distinct b [] = refl
  includes-distinct b (x ∷ xs) =
      ground (arith, includes-distinct b xs, includes-without x b (distinct xs), e.decides x b)

  pub includes-filter :
      (p : A → Bool) (b : A) (xs : List A) → includes b (filter p xs) ≡ (p b && includes b xs)
  includes-filter p b [] = ground arith
  includes-filter p b (x ∷ xs) = ground (arith, includes-filter p b xs, e.decides x b)

  pub filter-IsDistinct : (p : A → Bool) (xs : List A) → IsDistinct xs → IsDistinct (filter p xs)
  filter-IsDistinct p [] h = tt
  filter-IsDistinct p (x ∷ xs) h =
      ground (arith, filter-IsDistinct p xs h.1, includes-filter p x xs)

  pub distinct-IsDistinct : (xs : List A) → IsDistinct (distinct xs)
  unfolding distinct
  distinct-IsDistinct [] = tt
  distinct-IsDistinct (x ∷ xs) = (
    ground (arith, includes-without x x (distinct xs), e.decides x x),
    filter-IsDistinct _ (distinct xs) (distinct-IsDistinct xs),
  )

  without_absent : (a : A) (xs : List A) → includes a xs ≡ false → without a xs ≡ xs
  without_absent a [] h = refl
  without_absent a (x ∷ xs) h = ground (arith, without_absent a xs)

  pub distinct_of_IsDistinct : (xs : List A) → IsDistinct xs → distinct xs ≡ xs
  unfolding distinct
  distinct_of_IsDistinct [] h = refl
  distinct_of_IsDistinct (x ∷ xs) h =
      ap (λ (l : List A). x ∷ l)
        (ap (without x) (distinct_of_IsDistinct xs h.1) ∙ without_absent x xs h.0)

  pub length-without :
      (a : A) (xs : List A) → includes a xs ≡ true → length (without a xs) + 1 ≤ length xs
  length-without a [] h = absurd (ground arith)
  length-without a (x ∷ xs) h =
      ground (arith, length-without a xs, length-filter-le (λ y. not (y == a)) xs)

  subset_step :
      (x a : A) (ys xs : List A)
      → includes x xs ≡ false
      → includes a xs ≡ true
      → (includes a (x ∷ xs) ≡ true → includes a ys ≡ true)
      → includes a (without x ys) ≡ true
  subset_step x a ys xs d m h = ground (arith, includes-without x a ys, e.decides x a)

  -- A list without repetitions is no longer than a list that has all its items.
  pub length_le_of_subset :
      (xs ys : List A)
      → IsDistinct xs
      → ((a : A) → includes a xs ≡ true → includes a ys ≡ true)
      → length xs ≤ length ys
  length_le_of_subset [] ys d h = omega arith
  length_le_of_subset (x ∷ xs) ys d h =
      let shorter = length-without x ys (h x (ground (arith, e.decides x x))) in
      let rest =
        length_le_of_subset xs (without x ys) d.1 (λ a m. subset_step x a ys xs d.0 m (h a)) in
      omega (arith, shorter, rest)
