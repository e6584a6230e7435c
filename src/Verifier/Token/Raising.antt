-- ===== src/Verifier/Token/Raising.antt =====
-- When `verify` raises: the exceptions that its handler does not name.
use blind_age.Base.{
  Bool, true, false, Option, none, some, ◌||◌, option_eq, ◌&&◌, ◌≡◌, ◌↔◌, refl, ◌∙◌, arith,
  contains, string_eq, if◌then◌else◌, sym, &&-eq-true, Option-cases, inl, inr,
}
use mathlib.Core.Path.{subst}
use blind_age.Base.Result.{Result}
use blind_age.Crypto.Primitives.{Primitives, CryptoError}
use blind_age.Registry.Store.{get_issuer, get_token_key}
use blind_age.Schemas.Enums.{AssuranceLevel, active, claim_eq}
use blind_age.Schemas.Issuer.{IssuerKey, IssuerMetadata, Time}
use blind_age.Schemas.Presentation.{Presentation, DomainBinding, VerifierPolicy}
use blind_age.Schemas.Token.{AgeToken}
use blind_age.Verifier.Checks.{BlindAgeVerifier, issuer_is_trusted, try_signature, advisory_agrees}
use blind_age.Verifier.Session.{
  Session, Local, Flow, Outcome, returns, raises, go, deny_now, raise_now, conclude, start,
}
use blind_age.Verifier.Token.{
  check_replay, insert_nonce, record_signature, check_claim, level_at_least, within, record_expiry,
  check_expiry, check_binding, check_challenge, consume_step, verify_steps, verify,
}
use blind_age.Verifier.Token.Acceptance.{issuer_is_trusted-eq-true}
use blind_age.Verifier.Token.Escapes.{escapes, no_order, stops, Raises, Raises_iff}
use blind_age.Verifier.Token.Gate.{steps, signature_ok, expiry_ok}
use blind_age.Verifier.Token.Steps.{
  raised, when_some, raised-proceed, raised-require, raised-require_some,
}

abbrev pub is_raise : Outcome → Bool
is_raise (returns d) = false
is_raise raises = true

raised-go : (l : Local) → raised {A = Unit {0}} (go tt l) ≡ false
unfolding raised
raised-go l = refl

raised-record_signature :
    (r : Result CryptoError Bool) (l : Local) → raised (record_signature r l) ≡ escapes r
unfolding raised record_signature escapes
raised-record_signature r l = ground arith

no_level : Option AssuranceLevel → Bool
no_level none = true
no_level (some level) = false

raised-check_claim :
    (policy : VerifierPolicy) (key : IssuerKey) (l : Local)
    → raised (check_claim policy key l) ≡ no_level key.assurance_level
unfolding raised check_claim level_at_least no_level
raised-check_claim policy key l = ground arith

raised-check_expiry :
    (key : IssuerKey) (now : Time) (l : Local)
    → raised (check_expiry key now l) ≡ no_order (within key.valid_from key.valid_until now)
unfolding raised check_expiry record_expiry no_order
raised-check_expiry key now l = ground arith

raised-check_binding :
    (v : BlindAgeVerifier) (b : DomainBinding) (now : Time) (l : Local)
    → raised (check_binding v b now l) ≡ false
unfolding raised check_binding check_challenge consume_step
raised-check_binding v b now l = ground arith

raised-check_replay :
    (c : Primitives) (policy : VerifierPolicy) (t : AgeToken) (l : Local)
    → raised (check_replay c policy t l) ≡ false
unfolding raised check_replay insert_nonce
raised-check_replay c policy t l = ground arith

ruleset raised_laws = (
  raised-proceed, raised-require, raised-require_some, raised-go, raised-record_signature,
  raised-check_claim, raised-check_expiry, raised-check_binding, raised-check_replay,
)

is_raise-conclude : (r : Flow (Unit {0})) → is_raise (conclude r).0 ≡ raised r
unfolding raised
is_raise-conclude (go u l) = refl
is_raise-conclude (deny_now l) = refl
is_raise-conclude (raise_now l) = refl

-- Fields that agree leave no level open, so the claim check does not raise.
no_level-advisory :
    (t : AgeToken) (key : IssuerKey)
    → advisory_agrees t key ≡ true
    → no_level key.assurance_level ≡ false
unfolding no_level advisory_agrees
no_level-advisory t key h = ground arith

signature_ok-escapes : (r : Result CryptoError Bool) → signature_ok r ≡ true → escapes r ≡ false
unfolding signature_ok escapes
signature_ok-escapes r h = ground arith

key_raises : Primitives → VerifierPolicy → AgeToken → IssuerKey → Time → Bool
key_raises c policy t key now =
    contains policy.allowed_algorithms key.algorithm
    && (escapes (try_signature c key t) || stops (try_signature c key t) policy t key now)

-- The tests in a row: the second and the fourth may lead to an exception.
ladder :
    (t₁ t₂ t₃ t₄ t₅ t₆ t₇ escape open' stop : Bool)
    → (t₃ ≡ true → escape ≡ false)
    → (t₄ ≡ true → open' ≡ false)
    → (t₆ ≡ true → stop ≡ false)
    → (if t₁
        then if t₂
          then if t₃
            then if t₄
              then if t₅ then if t₆ then if t₇ then false else false else stop else open'
              else false
            else escape
          else false
        else false)
      ≡ (t₁ && (t₂ && (escape || (t₃ && (t₄ && (t₅ && stop))))))
ladder t₁ t₂ t₃ t₄ t₅ t₆ t₇ escape open' stop signed level order = ground arith

expiry_ok-order : (o : Option Bool) → expiry_ok o ≡ true → no_order o ≡ false
unfolding expiry_ok no_order
expiry_ok-order o h = ground arith

no_key : (t : Bool) → (if t then false else false) ≡ (t && false)
no_key t = ground arith

when_some-eq-true :
    (o : Option IssuerKey) (q : IssuerKey → Bool)
    → (when_some o q ≡ true) ↔ ((k : IssuerKey) × (o ≡ some k) × (q k ≡ true))
unfolding when_some
when_some-eq-true none q = (λ h. absurd (ground arith), λ (k, e, h). absurd (ground arith))
when_some-eq-true (some k) q =
    (λ h. (k, refl, h), λ (j, e, h). subst (λ x. q x ≡ true) (some-inj e) h)
  where
    some-inj : {a b : IssuerKey} → some a ≡ some b → b ≡ a
    some-inj e = cc

module _ (c : Primitives) (v : BlindAgeVerifier) (s : Session) (p : Presentation)
    (now consume_now : Time) where
  raised-verify_steps : raised (verify_steps c v p now consume_now (start s)) ≡ (
      issuer_is_trusted (get_issuer v.registry p.token.issuer_id) v.policy p.token.issuer_id
      && when_some
          (get_token_key v.registry p.token.issuer_id p.token.issuer_key_id)
          (λ key. key_raises c v.policy p.token key now))
  unfolding verify_steps when_some key_raises stops
  raised-verify_steps =
      simp (raised_laws, steps)
        (elim (Option-cases (get_token_key v.registry p.token.issuer_id p.token.issuer_key_id)) [
          | inl e ↦ rw e (search no_key)
          | inr (key, e) ↦ rw e (
              search (
                ladder,
                signature_ok-escapes (try_signature c key p.token),
                no_level-advisory p.token key,
                expiry_ok-order (within key.valid_from key.valid_until now),
              ))
        ])

  is_raise-verify : is_raise (verify c v s p now consume_now).0 ≡ (
      issuer_is_trusted (get_issuer v.registry p.token.issuer_id) v.policy p.token.issuer_id
      && when_some
          (get_token_key v.registry p.token.issuer_id p.token.issuer_key_id)
          (λ key. key_raises c v.policy p.token key now))
  unfolding verify
  is_raise-verify =
      is_raise-conclude (verify_steps c v p now consume_now (start s)) ∙ raised-verify_steps

  -- `verify` raises exactly when a trusted issuer's registered key of an allowed algorithm makes the
  -- verifier raise a `BlindSignatureError`, or its material makes the library raise
  -- `UnsupportedAlgorithm`, or the key verifies and binds a token that meets the policy's claim and
  -- level and the comparison of its times with the clock gets to a naive one.
  pub verify-raises_iff : (is_raise (verify c v s p now consume_now).0 ≡ true) ↔ (
      (issuer : IssuerMetadata) × (get_issuer v.registry p.token.issuer_id ≡ some issuer)
      × (issuer.status ≡ active)
      × (contains v.policy.trusted_issuers p.token.issuer_id ≡ true)
      × (key : IssuerKey) × (get_token_key v.registry p.token.issuer_id p.token.issuer_key_id
          ≡ some key)
      × (contains v.policy.allowed_algorithms key.algorithm ≡ true)
      × Raises c v.policy p.token key now)
  unfolding key_raises when_some issuer_is_trusted
  verify-raises_iff = (
    λ h.
        let (trusted, with_key) = &&-eq-true _ _ (sym is_raise-verify ∙ h) in
        let (issuer, registered, act, listed) =
          issuer_is_trusted-eq-true _ v.policy p.token.issuer_id trusted in
        let (key, found, raising) = (when_some-eq-true _ _).0 with_key in
        let (allowed, raises_) = &&-eq-true _ _ raising in
        (
          issuer,
          registered,
          act,
          listed,
          key,
          found,
          allowed,
          (Raises_iff c v.policy p.token key now).0 raises_,
        ),
    λ (issuer, registered, act, listed, key, found, allowed, r).
        is_raise-verify
        ∙ rw (registered, issuer_is_trusted, act, listed, found, when_some, key_raises, allowed)
            ((Raises_iff c v.policy p.token key now).1 r),
  )
