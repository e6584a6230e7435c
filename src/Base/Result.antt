-- ===== src/Base/Result.antt =====
-- Results of code that may raise.
use mathlib.Core.Bool.{Bool, true, false}
use mathlib.Core.Option.{Option, none, some}
use mathlib.Core.Path.{◌≡◌, refl}
use mathlib.Core.Logic.{◌↔◌}
use native.Mathlib.Omega.{arith}

pub data Result {ℓ κ} (E : Type κ) (A : Type ℓ) : Type (ℓ ⊔ κ) where
  ok : A → Result E A
  err : E → Result E A

infixl 5 ◌>>=◌ ◌>>◌
abbrev pub ◌>>=◌ {ℓ κ μ} :
    {E : Type μ} {A : Type ℓ} {B : Type κ} → Result E A → (A → Result E B) → Result E B
ok a >>= f = f a
err e >>= f = err e

abbrev pub ◌>>◌ {ℓ μ} : {E : Type μ} {B : Type ℓ} → Result E (Unit {0}) → Result E B → Result E B
m >> k = m >>= λ _. k

-- `if not b: raise e`
abbrev pub guard {μ} : {E : Type μ} → Bool → E → Result E (Unit {0})
guard true e = ok tt
guard false e = err e

-- What an optional value holds, or the error of the code that finds nothing there.
abbrev pub present {ℓ κ} : {A : Type ℓ} {E : Type κ} → Option A → E → Result E A
present none e = err e
present (some a) e = ok a

abbrev pub lift_error {ℓ κ μ} :
    {A : Type ℓ} {E : Type κ} {F : Type μ} → (E → F) → Result E A → Result F A
lift_error f (ok a) = ok a
lift_error f (err e) = err (f e)

-- A chain that returns has returned at its first step, and the rest returned on what that gave.
pub >>=-eq-ok {ℓ κ μ} :
    {E : Type μ} {A : Type ℓ} {B : Type κ} (first : Result E A) (rest : A → Result E B)
    → {last : B} → (first >>= rest) ≡ ok last
    → (found : A) × (first ≡ ok found) × (rest found ≡ ok last)
>>=-eq-ok (err raised) rest returned = cc
>>=-eq-ok (ok found) rest returned = (found, refl, returned)

pub guard-eq-ok {μ} : {E : Type μ} (b : Bool) (e : E) → (guard b e ≡ ok tt) ↔ (b ≡ true)
guard-eq-ok true e = (λ h. refl, λ h. refl)
guard-eq-ok false e = ground arith

pub lift_error-eq-ok {ℓ κ μ} :
    {A : Type ℓ} {E : Type κ} {F : Type μ} (f : E → F) (m : Result E A) {a : A}
    → lift_error f m ≡ ok a
    → m ≡ ok a
lift_error-eq-ok f (ok b) h = cc
lift_error-eq-ok f (err e) h = cc

pub present-eq-ok {ℓ κ} :
    {A : Type ℓ} {E : Type κ} (o : Option A) (e : E) {a : A} → present o e ≡ ok a → o ≡ some a
present-eq-ok none e h = cc
present-eq-ok (some b) e h = cc

pub ok_injective {ℓ κ} :
    {A : Type ℓ} {E : Type κ} {a b : A} → ◌≡◌ {A = Result E A} (ok a) (ok b) → a ≡ b
ok_injective h = cc
