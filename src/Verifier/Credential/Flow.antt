-- ===== src/Verifier/Credential/Flow.antt =====
-- Inversion of the steps of `verify_vc_presentation`: what a step that went on has passed.
use blind_age.Base.{Bool, true, false, Option, none, some, ◌≡◌, string_eq, refl, option_eq}
use blind_age.Base.Int.{int_eq}
use blind_age.Schemas.Enums.{level_eq}
use blind_age.Verifier.Credential.{or_raise}
use blind_age.Verifier.Session.{
  Local, Flow, Step, go, deny_now, raise_now, proceed, require, require_some, conclude,
}
use blind_age.Verifier.Token.Gate.{allows}

module _ {ℓ κ} {A : Type ℓ} {B : Type κ} where
  pub proceed-eq-go :
      (m : Flow A) (f : A → Step B) {b : B} {k : Local}
      → proceed m f ≡ go b k
      → (a : A) × (l : Local) × (m ≡ go a l) × (f a l ≡ go b k)
  unfolding proceed
  proceed-eq-go (go a l) f h = (a, l, refl, h)
  proceed-eq-go (deny_now l) f h = cc
  proceed-eq-go (raise_now l) f h = cc

  pub proceed-go :
      (a : A) (l : Local) (f : A → Step B) {r : Flow B} → proceed (go a l) f ≡ r → f a l ≡ r
  unfolding proceed
  proceed-go a l f h = h

module _ {κ} {B : Type κ} where
  pub proceed-require :
      (b : Bool) (l : Local) (f : Unit {0} → Step B) {c : B} {k : Local}
      → proceed (require b l) f ≡ go c k
      → (b ≡ true) × (f tt l ≡ go c k)
  unfolding proceed
  proceed-require true l f h = (refl, h)
  proceed-require false l f h = cc

  pub proceed-require_some :
      {A : Type 0} (o : Option A) (l : Local) (f : A → Step B) {c : B} {k : Local}
      → proceed (require_some o l) f ≡ go c k
      → (a : A) × (o ≡ some a) × (f a l ≡ go c k)
  unfolding proceed
  proceed-require_some none l f h = cc
  proceed-require_some (some a) l f h = (a, refl, h)

  pub proceed-or_raise :
      {A : Type 0} (o : Option A) (l : Local) (f : A → Step B) {c : B} {k : Local}
      → proceed (or_raise o l) f ≡ go c k
      → (a : A) × (o ≡ some a) × (f a l ≡ go c k)
  unfolding proceed
  proceed-or_raise none l f h = cc
  proceed-or_raise (some a) l f h = (a, refl, h)

pub some_injective : {A : Type 0} {a b : A} → some a ≡ some b → a ≡ b
some_injective h = cc

pub require-eq-go :
    (b : Bool) (l : Local) {u : Unit {0}} {k : Local} → require b l ≡ go u k → (b ≡ true) × (l ≡ k)
require-eq-go true l h = (refl, cc)
require-eq-go false l h = cc

pub conclude-allows :
    (f : Flow (Unit {0})) → allows (conclude f).0 ≡ true → (l : Local) × (f ≡ go tt l)
conclude-allows (go u l) h = (l, refl)
conclude-allows (deny_now l) h = cc
conclude-allows (raise_now l) h = cc

pub or_raise-eq-go :
    {A : Type 0} (o : Option A) (l : Local) {a : A} {k : Local} → or_raise o l ≡ go a k → o ≡ some a
or_raise-eq-go none l h = cc
or_raise-eq-go (some b) l h = cc
