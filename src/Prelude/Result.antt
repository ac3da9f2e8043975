-- ===== src/Prelude/Result.antt =====
-- A value or a thrown error.
use mathlib.Core.Path.{◌≡◌, refl}
use mathlib.Core.Bool.{Bool, true, false}
use mathlib.Core.Logic.{◌↔◌}
use mpas.Prelude.Tests.{some_inj}
use mathlib.Core.Option.{Option, none, some}

pub data Result {ℓ κ} (E : Type ℓ) (A : Type κ) : Type (ℓ ⊔ κ) where
  ok : A → Result E A
  err : E → Result E A

infixl 5 ◌>>=◌ ◌>>◌
abbrev pub ◌>>=◌ {ℓ κ μ} :
    {E : Type ℓ} {A : Type κ} {B : Type μ} → Result E A → (A → Result E B) → Result E B
ok a >>= f = f a
err e >>= f = err e

abbrev pub ◌>>◌ {ℓ κ} : {E : Type ℓ} {B : Type κ} → Result E (Unit {0}) → Result E B → Result E B
m >> k = m >>= λ _. k

pub ok_inj {ℓ κ} :
    {E : Type ℓ} {A : Type κ} {a b : A} → ok a ≡ (let r : Result E A = ok b in r) → a ≡ b
ok_inj h = cc

-- A bind that returns, taken apart.
pub bind-eq-ok {ℓ κ μ} :
    {E : Type ℓ} {A : Type κ} {B : Type μ} (m : Result E A) (f : A → Result E B) {b : B}
    → (m >>= f) ≡ ok b
    → (a : A) × (m ≡ ok a) × (f a ≡ ok b)
bind-eq-ok (ok a) f h = (a, refl, h)
bind-eq-ok (err e) f h = cc

-- `if (!test) return error`.
abbrev pub ensure {ℓ} : {E : Type ℓ} → Bool → E → Result E (Unit {0})
ensure true e = ok tt
ensure false e = err e

abbrev pub or_error {ℓ κ} : {E : Type ℓ} {A : Type κ} → Option A → E → Result E A
or_error none e = err e
or_error (some a) e = ok a

abbrev pub map_error {ℓ κ μ} :
    {E : Type ℓ} {F : Type κ} {A : Type μ} → (E → F) → Result E A → Result F A
map_error f (ok a) = ok a
map_error f (err e) = err (f e)

-- `if (found) return error(found)`.
abbrev pub none_or {ℓ κ} : {A : Type ℓ} {E : Type κ} → (A → E) → Option A → Result E (Unit {0})
none_or f none = ok tt
none_or f (some a) = err (f a)

-- The facts that a step of a proof gives, for the rest of it.
pub given {ℓ κ} : {A : Type ℓ} {B : Type κ} → A → (A → B) → B
given a f = f a

-- A chain returns exactly when its first step does and the rest of it does.
module _ {ℓ κ μ} {E : Type ℓ} {A : Type κ} {B : Type μ} where
  pub bind-ok_iff :
      (m : Result E A) (f : A → Result E B) (b : B)
      → ((m >>= f) ≡ ok b) ↔ ((a : A) × (m ≡ ok a) × (f a ≡ ok b))
  bind-ok_iff m f b = (bind-eq-ok m f, λ (a, h, k). rw h k)

  pub or_error-ok_iff :
      (o : Option A) (e : E) (f : A → Result E B) (b : B)
      → ((or_error o e >>= f) ≡ ok b) ↔ ((a : A) × (o ≡ some a) × (f a ≡ ok b))
  or_error-ok_iff none e f b = (λ h. cc, λ (a, h, k). cc)
  or_error-ok_iff (some x) e f b = (λ h. (x, refl, h), λ (a, h, k). rw (some_inj h) k)

pub ensure_iff {ℓ} : {E : Type ℓ} (t : Bool) (e : E) → (ensure t e ≡ ok tt) ↔ (t ≡ true)
ensure_iff true e = (λ h. refl, λ h. refl)
ensure_iff false e = (λ h. cc, λ h. cc)

pub map_error_iff {ℓ κ μ} :
    {E : Type ℓ} {F : Type κ} {A : Type μ} (g : F → E) (m : Result F A) (a : A)
    → (map_error g m ≡ ok a) ↔ (m ≡ ok a)
map_error_iff g (ok x) a = (λ h. cc, λ h. cc)
map_error_iff g (err e) a = (λ h. cc, λ h. cc)

module _ {ℓ κ} {E : Type ℓ} {B : Type κ} where
  pub ensure-ok_iff :
      (t : Bool) (e : E) (m : Result E B) (b : B)
      → ((ensure t e >> m) ≡ ok b) ↔ ((t ≡ true) × (m ≡ ok b))
  ensure-ok_iff true e m b = (λ h. (refl, h), λ (t, h). h)
  ensure-ok_iff false e m b = (λ h. cc, λ (t, h). cc)

  pub none_or-ok_iff {μ} :
      {A : Type μ} (o : Option A) (g : A → E) (m : Result E B) (b : B)
      → ((none_or g o >> m) ≡ ok b) ↔ ((o ≡ none) × (m ≡ ok b))
  none_or-ok_iff none g m b = (λ h. (refl, h), λ (t, h). h)
  none_or-ok_iff (some a) g m b = (λ h. cc, λ (t, h). cc)

module _ {ℓ κ μ ν} {E : Type ℓ} {F : Type κ} {A : Type μ} {B : Type ν} where
  pub map_error-ok_iff :
      (g : F → E) (m : Result F A) (f : A → Result E B) (b : B)
      → ((map_error g m >>= f) ≡ ok b) ↔ ((a : A) × (m ≡ ok a) × (f a ≡ ok b))
  map_error-ok_iff g (ok x) f b = (λ h. (x, refl, h), λ (a, h, k). rw (ok_inj h) k)
  map_error-ok_iff g (err e) f b = (λ h. cc, λ (a, h, k). cc)
