-- ===== src/Site/Challenges.antt =====
-- What a call of either verifier does to the pending challenges.
use blind_age.Base.{
  String, Bool, true, false, Option, none, some, ◌≡◌, sym, subst, arith, string_eq, Bool-cases, inl,
  inr,
}
use blind_age.Base.Dict.{get, get-remove}
use blind_age.Base.Result.{Result}
use blind_age.Crypto.Primitives.{Primitives, CryptoError}
use blind_age.Registry.Store.{TrustRegistry}
use blind_age.Schemas.Issuer.{IssuerKey, Time}
use blind_age.Schemas.Presentation.{
  Presentation, DomainBinding, VerifierPolicy, VerifierChallenge, Flags,
}
use blind_age.Schemas.Token.{AgeToken}
use blind_age.Schemas.Vc.{VcPresentation}
use blind_age.Verifier.Challenge.{consume}
use blind_age.Verifier.Checks.{BlindAgeVerifier}
use blind_age.Verifier.Credential.{
  ProofSystem, vc_challenge, check_level, check_proof, vc_steps, or_raise,
}
use blind_age.Verifier.Session.{
  Session, Local, Flow, Step, go, deny_now, raise_now, proceed, ◌>>=◌, require, require_some,
  modify, set_flags,
}
use blind_age.Verifier.Token.{
  set_signature, record_signature, level_at_least, check_claim, check_expiry, consume_step,
  check_challenge, check_binding, insert_nonce, check_replay, verify_steps,
}

-- No challenge is pending under the identifier.
unfoldable pub Gone : String → Session → Type 0
Gone j s = get s.challenges.pending j ≡ none

-- The session in which a step ends.
unfoldable pub ending : {A : Type 0} → Flow A → Session
ending (go a l) = l.session
ending (deny_now l) = l.session
ending (raise_now l) = l.session

-- What is gone before the step is gone after it.
unfoldable pub Keeps : {A : Type 0} → String → Step A → Type 0
Keeps j m = (l : Local) → Gone j l.session → Gone j (ending (m l))

module _ (j : String) where
  proceed-Keeps :
      {A B : Type 0} (m : Flow A) (f : A → Step B)
      → Gone j (ending m)
      → ((a : A) → Keeps j (f a))
      → Gone j (ending (proceed m f))
  unfolding Gone ending Keeps proceed
  proceed-Keeps (go a l) f h k = k a l h
  proceed-Keeps (deny_now l) f h k = h
  proceed-Keeps (raise_now l) f h k = h

  pub bind-Keeps :
      {A B : Type 0} (m : Step A) (f : A → Step B)
      → Keeps j m
      → ((a : A) → Keeps j (f a))
      → Keeps j (m >>= f)
  unfolding Keeps
  bind-Keeps m f h k l g = proceed-Keeps (m l) f (h l g) k

  pub require-Keeps : (b : Bool) → Keeps j (require b)
  unfolding Keeps ending
  require-Keeps true l g = g
  require-Keeps false l g = g

  pub require_some-Keeps : {A : Type 0} (o : Option A) → Keeps j (require_some o)
  unfolding Keeps ending
  require_some-Keeps none l g = g
  require_some-Keeps (some a) l g = g

  pub or_raise-Keeps : {A : Type 0} (o : Option A) → Keeps j (or_raise o)
  unfolding Keeps ending
  or_raise-Keeps none l g = g
  or_raise-Keeps (some a) l g = g

  pub modify-Keeps :
      (f : Local → Local) → ((l : Local) → (f l).session ≡ l.session) → Keeps j (modify f)
  unfolding Keeps ending
  modify-Keeps f h l g = let same = h l in subst (Gone j) (sym same) g

  pub insert_nonce-Keeps : (h : String) → Keeps j (insert_nonce h)
  unfolding Keeps ending Gone insert_nonce
  insert_nonce-Keeps h l g = ground arith

  pub set_flags-Keeps : (f : Flags → Flags) → Keeps j (set_flags f)
  unfolding Keeps ending
  set_flags-Keeps f l g = g

  pub check_replay-Keeps :
      (c : Primitives) (policy : VerifierPolicy) (t : AgeToken) → Keeps j (check_replay c policy t)
  unfolding Keeps ending Gone check_replay insert_nonce
  check_replay-Keeps c policy t l g = ground arith

  pub record_signature-Keeps : (r : Result CryptoError Bool) → Keeps j (record_signature r)
  unfolding Keeps ending Gone record_signature set_signature
  record_signature-Keeps r l g = ground arith

  pub check_claim-Keeps :
      (policy : VerifierPolicy) (key : IssuerKey) → Keeps j (check_claim policy key)
  unfolding Keeps ending Gone check_claim level_at_least
  check_claim-Keeps policy key l g = ground arith

  pub check_expiry-Keeps : (key : IssuerKey) (now : Time) → Keeps j (check_expiry key now)
  unfolding Keeps ending Gone check_expiry
  check_expiry-Keeps key now l g = ground arith

  pub check_level-Keeps :
      (bbs : ProofSystem) (p : VcPresentation) (key : IssuerKey) (ch : VerifierChallenge)
      → Keeps j (check_level bbs p key ch)
  unfolding Keeps ending Gone check_level level_at_least proceed
  check_level-Keeps bbs p key ch l g = ground arith

  -- The consumed identifier is gone, and no other comes back.
  pub consume_step-Keeps : (b : DomainBinding) (now : Time) → Keeps j (consume_step b now)
  unfolding Keeps ending Gone consume_step consume
  consume_step-Keeps b now l g =
      rw (get-remove l.session.challenges.pending b.challenge_id j, g) (ground arith)

  pub check_challenge-Keeps :
      (policy : VerifierPolicy) (b : DomainBinding) (now : Time)
      → Keeps j (check_challenge policy b now)
  unfolding check_challenge
  check_challenge-Keeps policy b now =
      search (bind-Keeps, consume_step-Keeps, set_flags-Keeps, require-Keeps)

  pub check_binding-Keeps :
      (v : BlindAgeVerifier) (b : DomainBinding) (now : Time) → Keeps j (check_binding v b now)
  unfolding check_binding
  check_binding-Keeps v b now = elim (Bool-cases v.policy.require_domain_binding) [
    | inl e ↦
        rw (check_binding, e)
          (search (bind-Keeps, set_flags-Keeps, require-Keeps, check_challenge-Keeps))
    | inr e ↦ rw (check_binding, e) (search set_flags-Keeps)
  ]

  pub check_proof-Keeps :
      (bbs : ProofSystem) (p : VcPresentation) (key : IssuerKey) → Keeps j (check_proof bbs p key)
  unfolding check_proof
  check_proof-Keeps bbs p key = search (bind-Keeps, or_raise-Keeps, set_flags-Keeps, require-Keeps)

  pub vc_challenge-Keeps :
      (bbs : ProofSystem) (audience : String) (p : VcPresentation) (now : Time)
      → Keeps j (vc_challenge bbs audience p now)
  unfolding vc_challenge
  vc_challenge-Keeps bbs audience p now =
      search (bind-Keeps, or_raise-Keeps, set_flags-Keeps, require-Keeps, consume_step-Keeps) depth
        9

  pub verify_steps-Keeps :
      (c : Primitives) (v : BlindAgeVerifier) (p : Presentation) (now consume_now : Time)
      → Keeps j (verify_steps c v p now consume_now)
  unfolding verify_steps
  verify_steps-Keeps c v p now consume_now =
      search
        (
          bind-Keeps, set_flags-Keeps, require-Keeps, require_some-Keeps, modify-Keeps,
          record_signature-Keeps, check_claim-Keeps, check_expiry-Keeps, check_binding-Keeps,
          check_replay-Keeps,
        )
        depth 15

  pub vc_steps-Keeps :
      (bbs : ProofSystem) (registry : TrustRegistry) (trusted audience : String)
      (p : VcPresentation) (now consume_now : Time)
      → Keeps j (vc_steps bbs registry trusted audience p now consume_now)
  unfolding vc_steps
  vc_steps-Keeps bbs registry trusted audience p now consume_now =
      search
        (
          bind-Keeps, set_flags-Keeps, require-Keeps, require_some-Keeps, modify-Keeps,
          check_expiry-Keeps, vc_challenge-Keeps, check_level-Keeps, check_proof-Keeps,
        )
        depth 15
