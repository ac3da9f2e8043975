-- ===== src/Prelude/Eq.antt =====
-- Types with a Boolean equality test, JavaScript's `===` on texts and enumerations.
use Prim.Native.String.{String}
use mathlib.Core.Path.{◌≡◌, refl}
use mathlib.Core.Logic.{◌↔◌}
use mathlib.Core.Bool.{Bool, true, false, ◌&&◌}
use mathlib.Core.Option.{Option, none, some}
use mathlib.Core.List.{List, [], ◌∷◌, map}
use Prim.Native.Nat.{ℕ, compare, Ordering}
use mpas.Prelude.Lists.{any, filter}
use native.Mathlib.Omega.{arith}
use text.Mathlib.Text.{◌==◌ as str_eq}
use text.Mathlib.TextEquality.{eq_iff}

pub record Eq {ℓ} (A : Type ℓ) : Type ℓ where
  pub equal : A → A → Bool
  pub decides : (a b : A) → (equal a b ≡ true) ↔ (a ≡ b)

infix 50 ◌==◌
abbrev pub ◌==◌ {ℓ} : {T : Type ℓ} ⦃test : Eq T⦄ → T → T → Bool
◌==◌ ⦃test⦄ = test.equal

instance abbrev pub string_eq : Eq String
string_eq = record { equal = str_eq; decides = eq_iff }

abbrev pub nat_beq : ℕ → ℕ → Bool
nat_beq a b = elim (compare a b) [ Ordering.eq ↦ true | _ ↦ false ]

pub nat_beq_iff : (a b : ℕ) → (nat_beq a b ≡ true) ↔ (a ≡ b)
nat_beq_iff a b = ground arith

instance abbrev pub nat_eq : Eq ℕ
nat_eq = record { equal = nat_beq; decides = nat_beq_iff }

module _ {ℓ} {A : Type ℓ} ⦃e : Eq A⦄ where
  pub ==_refl : (a : A) → (a == a) ≡ true
  ==_refl a = (e.decides a a).1 refl

  abbrev pub option_beq : Option A → Option A → Bool
  option_beq none none = true
  option_beq (some a) (some b) = a == b
  option_beq _ _ = false

  pub option_beq_iff : (a b : Option A) → (option_beq a b ≡ true) ↔ (a ≡ b)
  option_beq_iff none none = (λ _. refl, λ _. refl)
  option_beq_iff (some a) (some b) = ground (arith, e.decides a b)
  option_beq_iff none (some b) = (λ h. cc, λ h. cc)
  option_beq_iff (some a) none = (λ h. cc, λ h. cc)

instance abbrev pub option_eq {ℓ} : {A : Type ℓ} ⦃e : Eq A⦄ → Eq (Option A)
option_eq = record { equal = option_beq; decides = option_beq_iff }

module _ {ℓ} {A : Type ℓ} ⦃e : Eq A⦄ where
  abbrev pub list_beq : List A → List A → Bool
  list_beq [] [] = true
  list_beq (a ∷ as') (b ∷ bs) = (a == b) && list_beq as' bs
  list_beq _ _ = false

  pub list_beq_iff : (as' bs : List A) → (list_beq as' bs ≡ true) ↔ (as' ≡ bs)
  list_beq_iff [] [] = (λ _. refl, λ _. refl)
  list_beq_iff (a ∷ as') (b ∷ bs) = ground (arith, e.decides a b, list_beq_iff as' bs)
  list_beq_iff [] (b ∷ bs) = (λ h. cc, λ h. cc)
  list_beq_iff (a ∷ as') [] = (λ h. cc, λ h. cc)

instance abbrev pub list_eq {ℓ} : {A : Type ℓ} ⦃e : Eq A⦄ → Eq (List A)
list_eq = record { equal = list_beq; decides = list_beq_iff }

-- `xs.includes(a)`.
module _ {ℓ} {A : Type ℓ} ⦃e : Eq A⦄ where
  abbrev pub includes : A → List A → Bool
  includes a [] = false
  includes a (x ∷ xs) = elim (x == a) [ true ↦ true | false ↦ includes a xs ]

  pub includes-eq-any : (a : A) (xs : List A) → includes a xs ≡ any (λ x. x == a) xs
  includes-eq-any a [] = refl
  includes-eq-any a (x ∷ xs) = ground (arith, includes-eq-any a xs)

  -- The items of `xs` that pass `p`, seen through `f`.
  pub includes-map-filter {κ} :
      {B : Type κ} (a : A) (f : B → A) (p : B → Bool) (xs : List B)
      → includes a (map f (filter p xs)) ≡ any (λ x. (f x == a) && p x) xs
  includes-map-filter a f p [] = refl
  includes-map-filter a f p (x ∷ xs) = ground (arith, includes-map-filter a f p xs)
