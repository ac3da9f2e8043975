-- ===== src/Prelude/Assoc.antt =====
-- JavaScript's `Map`: entries in the order of their first insertion; `set` on a present key
-- replaces the value in place.
use mathlib.Core.Path.{◌≡◌, refl}
use mathlib.Core.Bool.{Bool}
use mathlib.Core.Logic.{◌⊎◌}
use mathlib.Core.Option.{Option, none, some}
use mathlib.Core.List.{List, [], ◌∷◌}
use native.Mathlib.Omega.{arith}
use mpas.Prelude.Tests.{if◌then◌else◌, is_some}
use mpas.Prelude.Eq.{Eq, ◌==◌}

abbrev pub Assoc {ℓ κ} : Type ℓ → Type κ → Type (ℓ ⊔ κ)
Assoc K V = List (K × V)

module _ {ℓ κ} {K : Type ℓ} {V : Type κ} ⦃e : Eq K⦄ where
  unfoldable pub lookup : K → Assoc K V → Option V
  lookup k [] = none
  lookup k ((j, v) ∷ m) = let rest = lookup k m in if j == k then some v else rest

  unfoldable pub insert : K → V → Assoc K V → Assoc K V
  insert k v [] = (k, v) ∷ []
  insert k v ((j, w) ∷ m) = let rest = insert k v m in if j == k then (j, v) ∷ m else (j, w) ∷ rest

  unfoldable pub erase : K → Assoc K V → Assoc K V
  erase k [] = []
  erase k ((j, v) ∷ m) = let rest = erase k m in if j == k then rest else (j, v) ∷ rest

  abbrev pub has : K → Assoc K V → Bool
  has k m = is_some (lookup k m)

  pub lookup-insert :
      (set_key read_key : K) (value : V) (m : Assoc K V)
      → lookup read_key (insert set_key value m)
        ≡ (if set_key == read_key then some value else lookup read_key m)
  unfolding lookup insert
  lookup-insert set_key read_key value [] = refl
  lookup-insert set_key read_key value ((i, w) ∷ m) = ground (
    arith,
    lookup-insert set_key read_key value m,
    e.decides set_key read_key,
    e.decides i set_key,
    e.decides i read_key,
  )

  pub lookup-insert_self : (k : K) (v : V) (m : Assoc K V) → lookup k (insert k v m) ≡ some v
  lookup-insert_self k v m = ground (arith, lookup-insert k k v m, e.decides k k)

  pub lookup-erase :
      (k j : K) (m : Assoc K V) → lookup j (erase k m) ≡ (if k == j then none else lookup j m)
  unfolding lookup erase
  lookup-erase k j [] = ground arith
  lookup-erase k j ((i, w) ∷ m) =
      ground (arith, e.decides k j, e.decides i k, e.decides i j, lookup-erase k j m)

  -- What stands in a map after an insertion was inserted now or stood there before.
  pub lookup-insert_cases :
      (k j : K) (v w : V) (m : Assoc K V)
      → lookup j (insert k v m) ≡ some w
      → ((k ≡ j) × (v ≡ w)) ⊎ (lookup j m ≡ some w)
  lookup-insert_cases k j v w m h = ground (arith, lookup-insert k j v m, e.decides k j)
