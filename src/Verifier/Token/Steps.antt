-- ===== src/Verifier/Token/Steps.antt =====
-- Whether a step goes on, and the local state in which it ends: laws of the bind.
use blind_age.Base.{Bool, true, false, ◌&&◌, ◌≡◌, refl, Option, none, some, if◌then◌else◌}
use blind_age.Verifier.Session.{
  Local, Flow, Step, go, deny_now, raise_now, proceed, require, require_some,
}

unfoldable pub went_on {ℓ} : {A : Type ℓ} → Flow A → Bool
went_on (go a l) = true
went_on (deny_now l) = false
went_on (raise_now l) = false

-- The local state in which a step ends.
unfoldable pub final {ℓ} : {A : Type ℓ} → Flow A → Local
final (go a l) = l
final (deny_now l) = l
final (raise_now l) = l

-- A step without a result goes on by itself, and then what follows goes on.
pub went_on-proceed :
    (r : Flow (Unit {0})) (f : Unit {0} → Step (Unit {0}))
    → went_on (proceed r f) ≡ (went_on r && went_on (f tt (final r)))
unfolding proceed went_on final
went_on-proceed (go a l) f = refl
went_on-proceed (deny_now l) f = refl
went_on-proceed (raise_now l) f = refl

pub final-proceed :
    (r : Flow (Unit {0})) (f : Unit {0} → Step (Unit {0}))
    → final (proceed r f) ≡ (if went_on r then final (f tt (final r)) else final r)
unfolding proceed went_on final
final-proceed (go a l) f = refl
final-proceed (deny_now l) f = refl
final-proceed (raise_now l) f = refl

pub went_on-require : (b : Bool) (l : Local) → went_on (require b l) ≡ b
unfolding went_on
went_on-require true l = refl
went_on-require false l = refl

pub final-require : (b : Bool) (l : Local) → final (require b l) ≡ l
unfolding final
final-require true l = refl
final-require false l = refl

pub went_on-go : (l : Local) → went_on {A = Unit {0}} (go tt l) ≡ true
unfolding went_on
went_on-go l = refl

pub final-go : (l : Local) → final {A = Unit {0}} (go tt l) ≡ l
unfolding final
final-go l = refl

unfoldable pub when_some {ℓ} : {A : Type ℓ} → Option A → (A → Bool) → Bool
when_some none p = false
when_some (some a) p = p a

pub went_on-require_some {ℓ} :
    {A : Type ℓ} (o : Option A) (l : Local) (f : A → Step (Unit {0}))
    → went_on (proceed (require_some o l) f) ≡ when_some o (λ a. went_on (f a l))
unfolding proceed went_on when_some
went_on-require_some none l f = refl
went_on-require_some (some a) l f = refl

-- Whether a step raises.
unfoldable pub raised {ℓ} : {A : Type ℓ} → Flow A → Bool
raised (go a l) = false
raised (deny_now l) = false
raised (raise_now l) = true

pub raised-proceed :
    (r : Flow (Unit {0})) (f : Unit {0} → Step (Unit {0}))
    → raised (proceed r f) ≡ (if went_on r then raised (f tt (final r)) else raised r)
unfolding proceed went_on final raised
raised-proceed (go a l) f = refl
raised-proceed (deny_now l) f = refl
raised-proceed (raise_now l) f = refl

pub raised-require : (b : Bool) (l : Local) → raised (require b l) ≡ false
unfolding raised
raised-require true l = refl
raised-require false l = refl

pub raised-require_some {ℓ} :
    {A : Type ℓ} (o : Option A) (l : Local) (f : A → Step (Unit {0}))
    → raised (proceed (require_some o l) f) ≡ when_some o (λ a. raised (f a l))
unfolding proceed raised when_some
raised-require_some none l f = refl
raised-require_some (some a) l f = refl

pub ruleset step_laws = (
  went_on-proceed, final-proceed, went_on-require, final-require, went_on-go, final-go,
  went_on-require_some,
)
