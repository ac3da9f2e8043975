-- ===== src/Prelude/Lists.antt =====
-- Lists measured by native numbers, and JavaScript's `filter`, `every`, `some` and `find`.
use Prim.Native.Nat.{ℕ, zero, suc, ◌+◌, ◌≤◌}
use mathlib.Core.Path.{◌≡◌, refl, ap, sym, ◌∙◌}
use mathlib.Core.Bool.{Bool, true, false, ◌&&◌, ◌||◌}
use mathlib.Core.Option.{some_inj, Option, none, some}
use mathlib.Core.List.{List, [], ◌∷◌, ◌++◌}
use native.Mathlib.Omega.{arith}
use mathlib.Core.Logic.{◌⊎◌, inl, inr}
use mpas.Prelude.Tests.{if◌then◌else◌, Bool-cases}

module _ {ℓ} {A : Type ℓ} where
  abbrev pub length : List A → ℕ
  length [] = 0
  length (x ∷ xs) = suc (length xs)

  pub length-append : (xs ys : List A) → length (xs ++ ys) ≡ length xs + length ys
  length-append [] ys = omega arith
  length-append (x ∷ xs) ys = omega (arith, length-append xs ys)

  abbrev pub is_empty : List A → Bool
  is_empty [] = true
  is_empty (x ∷ xs) = false

  abbrev pub get_elem? : List A → ℕ → Option A
  get_elem? [] i = none
  get_elem? (x ∷ xs) zero = some x
  get_elem? (x ∷ xs) (suc i) = get_elem? xs i

  -- A write out of bounds changes nothing.
  abbrev pub set : List A → ℕ → A → List A
  set [] i v = []
  set (x ∷ xs) zero v = v ∷ xs
  set (x ∷ xs) (suc i) v = x ∷ set xs i v

  abbrev pub take : ℕ → List A → List A
  take zero xs = []
  take (suc n) [] = []
  take (suc n) (x ∷ xs) = x ∷ take n xs

  abbrev pub filter : (A → Bool) → List A → List A
  filter p [] = []
  filter p (x ∷ xs) = let rest = filter p xs in if p x then x ∷ rest else rest

  abbrev pub every : (A → Bool) → List A → Bool
  every p [] = true
  every p (x ∷ xs) = p x && every p xs

  abbrev pub any : (A → Bool) → List A → Bool
  any p [] = false
  any p (x ∷ xs) = p x || any p xs

  abbrev pub find : (A → Bool) → List A → Option A
  find p [] = none
  find p (x ∷ xs) = let rest = find p xs in if p x then some x else rest

  abbrev pub All {κ} : (A → Type κ) → List A → Type κ
  All P [] = Unit
  All P (x ∷ xs) = P x × All P xs

  pub length-filter-le : (p : A → Bool) (xs : List A) → length (filter p xs) ≤ length xs
  length-filter-le p [] = omega arith
  length-filter-le p (x ∷ xs) = ground (arith, length-filter-le p xs)

  pub filter-append :
      (p : A → Bool) (xs ys : List A) → filter p (xs ++ ys) ≡ filter p xs ++ filter p ys
  filter-append p [] ys = refl
  filter-append p (x ∷ xs) ys = ground (arith, filter-append p xs ys)

  pub All-append {κ} :
      (Q : A → Type κ) (front back : List A) → All Q front → All Q back → All Q (front ++ back)
  All-append Q [] back none_left q = q
  All-append Q (a ∷ front) back (first, more) q = (first, All-append Q front back more q)

  pub All-map {κ μ} :
      {P : A → Type κ} {Q : A → Type μ}
      → ((a : A) → P a → Q a)
      → (xs : List A) → All P xs
      → All Q xs
  All-map f [] h = tt
  All-map f (x ∷ xs) h = (f x h.0, All-map f xs h.1)

  pub All-filter {κ} :
      (P : A → Type κ) (p : A → Bool) (xs : List A) → All P xs → All P (filter p xs)
  All-filter P p [] h = tt
  All-filter P p (x ∷ xs) h =
      elim (p x) as (λ b. All P (if b then x ∷ filter p xs else filter p xs)) [
        | true ↦ (h.0, All-filter P p xs h.1)
        | false ↦ All-filter P p xs h.1
      ]

  pub any_mono :
      (p q : A → Bool) (xs : List A)
      → ((a : A) → p a ≡ true → q a ≡ true)
      → any p xs ≡ true
      → any q xs ≡ true
  any_mono p q [] h e = cc
  any_mono p q (x ∷ xs) h e = ground (arith, h x, any_mono p q xs h)

  pub every_mono :
      (p q : A → Bool) (xs : List A)
      → ((a : A) → p a ≡ true → q a ≡ true)
      → every p xs ≡ true
      → every q xs ≡ true
  every_mono p q [] h e = refl
  every_mono p q (x ∷ xs) h e = ground (arith, h x, every_mono p q xs h)

  pub any_or :
      (p q r : A → Bool) (xs : List A)
      → ((a : A) → p a ≡ true → (q a || r a) ≡ true)
      → any p xs ≡ true
      → (any q xs || any r xs) ≡ true
  any_or p q r [] h e = cc
  any_or p q r (x ∷ xs) h e = ground (arith, h x, any_or p q r xs h)

true_ne_false : ¬ (true ≡ false)
true_ne_false h = cc

module _ {ℓ κ} {A : Type ℓ} (P : A → Type κ) (p : A → Bool) where
  abbrev kept : A → List A → Bool → List A
  kept x rest b = if b then x ∷ rest else rest

  pub All-of_filter : (xs : List A) → All P (filter p xs) → All (λ a. p a ≡ true → P a) xs
  All-of_filter [] h = tt
  All-of_filter (x ∷ xs) h = elim (Bool-cases (p x)) [
    | inl e ↦
        let g : All P (kept x (filter p xs) true) = rw e at h in (λ _. g.0, All-of_filter xs g.1)
    | inr e ↦
        let g : All P (kept x (filter p xs) false) = rw e at h in
        (λ e'. absurd (true_ne_false (sym e' ∙ e)), All-of_filter xs g)
  ]

  pub filter-All : (xs : List A) → All (λ a. p a ≡ true → P a) xs → All P (filter p xs)
  filter-All [] h = tt
  filter-All (x ∷ xs) (h, hs) = elim (Bool-cases (p x)) [
    | inl e ↦ rw e (h e, filter-All xs hs)
    | inr e ↦ rw e (filter-All xs hs)
  ]

module _ {ℓ} {A : Type ℓ} where
  pub get_elem?-set_self :
      (xs : List A) (i : ℕ) (a b : A) → get_elem? xs i ≡ some a → get_elem? (set xs i b) i ≡ some b
  get_elem?-set_self [] i a b h = cc
  get_elem?-set_self (x ∷ xs) zero a b h = refl
  get_elem?-set_self (x ∷ xs) (suc i) a b h = get_elem?-set_self xs i a b h

  -- What stands in a list after a write was written now or stood there before.
  pub get_elem?-set_cases :
      (xs : List A) (i j : ℕ) (b c : A)
      → get_elem? (set xs i b) j ≡ some c
      → ((i ≡ j) × (b ≡ c)) ⊎ (get_elem? xs j ≡ some c)
  get_elem?-set_cases [] i j b c h = inr h
  get_elem?-set_cases (x ∷ xs) zero zero b c h = inl (refl, cc)
  get_elem?-set_cases (x ∷ xs) zero (suc j) b c h = inr h
  get_elem?-set_cases (x ∷ xs) (suc i) zero b c h = inr h
  get_elem?-set_cases (x ∷ xs) (suc i) (suc j) b c h = elim (get_elem?-set_cases xs i j b c h) [
    | inl (e, f) ↦ inl (ap suc e, f)
    | inr e ↦ inr e
  ]

  -- What stood in a list is still there after a write, or was overwritten.
  pub get_elem?-set_or :
      (xs : List A) (i j : ℕ) (b c : A)
      → get_elem? xs j ≡ some c
      → ((i ≡ j) × (get_elem? (set xs i b) j ≡ some b)) ⊎ (get_elem? (set xs i b) j ≡ some c)
  get_elem?-set_or [] i j b c h = inr h
  get_elem?-set_or (x ∷ xs) zero zero b c h = inl (refl, refl)
  get_elem?-set_or (x ∷ xs) zero (suc j) b c h = inr h
  get_elem?-set_or (x ∷ xs) (suc i) zero b c h = inr h
  get_elem?-set_or (x ∷ xs) (suc i) (suc j) b c h = elim (get_elem?-set_or xs i j b c h) [
    | inl (e, f) ↦ inl (ap suc e, f)
    | inr e ↦ inr e
  ]

  pub get_elem?-append :
      (xs ys : List A) (i : ℕ) (a : A) → get_elem? xs i ≡ some a → get_elem? (xs ++ ys) i ≡ some a
  get_elem?-append [] ys i a h = cc
  get_elem?-append (x ∷ xs) ys zero a h = h
  get_elem?-append (x ∷ xs) ys (suc i) a h = get_elem?-append xs ys i a h

  pub get_elem?-append_cases :
      (xs : List A) (b : A) (i : ℕ) (a : A)
      → get_elem? (xs ++ b ∷ []) i ≡ some a
      → (get_elem? xs i ≡ some a) ⊎ (b ≡ a)
  get_elem?-append_cases [] b zero a h = inr cc
  get_elem?-append_cases [] b (suc i) a h = inl h
  get_elem?-append_cases (x ∷ xs) b zero a h = inl h
  get_elem?-append_cases (x ∷ xs) b (suc i) a h = get_elem?-append_cases xs b i a h

module _ {ℓ κ} {A : Type ℓ} (P : A → Type κ) where
  pub All-get_elem? : (xs : List A) → All P xs → (i : ℕ) (a : A) → get_elem? xs i ≡ some a → P a
  All-get_elem? [] h i a e = cc
  All-get_elem? (x ∷ xs) h zero a e = rw (← some_inj.0 e) h.0
  All-get_elem? (x ∷ xs) h (suc i) a e = All-get_elem? xs h.1 i a e

  pub All-of_positions :
      (xs : List A) → ((i : ℕ) (a : A) → get_elem? xs i ≡ some a → P a) → All P xs
  All-of_positions [] h = tt
  All-of_positions (x ∷ xs) h = (h 0 x refl, All-of_positions xs (λ i a e. h (suc i) a e))
