-- ===== src/Verifier/Session.antt =====
-- What a verifier keeps between calls, and how `verify` runs: each step may set flags, may change
-- the session, and may end the call by `return deny()` or by an exception.
use blind_age.Base.{Bool, true, false, Option, none, some}
use blind_age.Schemas.Enums.{AgeClaim, AssuranceLevel, allow, deny}
use blind_age.Schemas.Presentation.{Flags, VerifierDecision}
use blind_age.Verifier.Challenge.{ChallengeManager}
use blind_age.Verifier.Replay.{ReplayCache}

pub record Session : Type 0 where
  pub replay : ReplayCache
  pub challenges : ChallengeManager

-- The local variables that `deny` closes over, and the session.
pub record Local : Type 0 where
  pub flags : Flags
  pub claim : Option AgeClaim
  pub assurance : Option AssuranceLevel
  pub session : Session

-- `flags` as both verifiers start with them.
abbrev pub initial_flags : Flags
initial_flags = record {
  signature_valid = false;
  issuer_trusted = false;
  claim_satisfied = false;
  assurance_sufficient = false;
  expired = true;
  replayed = false;
  revoked = true;
  domain_binding_valid = false;
  challenge_valid = false;
}

abbrev pub start : Session → Local
start s = record { flags = initial_flags; claim = none; assurance = none; session = s }

abbrev pub denied : Local → VerifierDecision
denied l = record {
  valid = false;
  claim = l.claim;
  assurance_level = l.assurance;
  flags = l.flags;
  decision = deny;
}

abbrev pub allowed : Local → VerifierDecision
allowed l = record {
  valid = true;
  claim = l.claim;
  assurance_level = l.assurance;
  flags = l.flags;
  decision = allow;
}

-- How a step ends: the call goes on with a value, or returns `deny()`, or raises an exception that
-- no handler of the function catches.
pub data Flow {ℓ} (A : Type ℓ) : Type ℓ where
  go : A → Local → Flow A
  deny_now raise_now : Local → Flow A

abbrev pub Step {ℓ} : Type ℓ → Type ℓ
Step A = Local → Flow A

module _ {ℓ κ} {A : Type ℓ} {B : Type κ} where
  unfoldable pub proceed : Flow A → (A → Step B) → Flow B
  proceed (go a l) f = f a l
  proceed (deny_now l) f = deny_now l
  proceed (raise_now l) f = raise_now l

  infixl 5 ◌>>=◌
  abbrev pub ◌>>=◌ : Step A → (A → Step B) → Step B
  ◌>>=◌ m f l = proceed (m l) f

infixl 5 ◌>>◌
abbrev pub ◌>>◌ {ℓ} : {B : Type ℓ} → Step (Unit {0}) → Step B → Step B
m >> k = m >>= λ _. k

-- `if not b: return deny()`
abbrev pub require : Bool → Step (Unit {0})
require true l = go tt l
require false l = deny_now l

-- `if x is None: return deny()`
abbrev pub require_some {ℓ} : {A : Type ℓ} → Option A → Step A
require_some none l = deny_now l
require_some (some a) l = go a l

abbrev pub modify : (Local → Local) → Step (Unit {0})
modify f l = go tt (f l)

abbrev pub set_flags : (Flags → Flags) → Step (Unit {0})
set_flags f l = go tt (record l { flags = f l.flags })

-- What the caller sees: a decision, or an exception; and the session that is left.
pub data Outcome : Type 0 where
  returns : VerifierDecision → Outcome
  raises : Outcome

abbrev pub conclude : Flow (Unit {0}) → Outcome × Session
conclude (go _ l) = (returns (allowed l), l.session)
conclude (deny_now l) = (returns (denied l), l.session)
conclude (raise_now l) = (raises, l.session)
