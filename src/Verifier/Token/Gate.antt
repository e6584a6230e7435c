-- ===== src/Verifier/Token/Gate.antt =====
-- The tests of `verify` as one Boolean, with the local variables gone.
use blind_age.Base.{
  Bool, true, false, Option, none, some, not, ◌&&◌, ◌≡◌, refl, ◌∙◌, arith, contains, string_eq,
  option_eq, ◌==◌,
}
use blind_age.Base.Result.{Result, ok, err}
use blind_age.Crypto.Primitives.{Primitives, CryptoError}
use blind_age.Registry.Store.{get_issuer, get_token_key}
use blind_age.Schemas.Enums.{AssuranceLevel, assurance_at_least, claim_eq, level_eq}
use blind_age.Schemas.Issuer.{IssuerKey, Time}
use blind_age.Schemas.Presentation.{Presentation, DomainBinding, VerifierPolicy}
use blind_age.Schemas.Token.{AgeToken}
use blind_age.Verifier.Challenge.{ChallengeManager, consume}
use blind_age.Verifier.Checks.{
  BlindAgeVerifier, issuer_is_trusted, advisory_agrees, try_signature, sha256_hex,
}
use blind_age.Verifier.Replay.{ReplayCache, check_and_insert}
use blind_age.Verifier.Session.{
  Session, Local, Flow, Outcome, returns, raises, go, deny_now, raise_now, conclude, start,
}
use blind_age.Verifier.Token.{
  record_signature, level_at_least, check_claim, within, record_expiry, check_expiry,
  challenge_matches, consume_step, check_challenge, check_binding, insert_nonce, check_replay,
  verify_steps, verify,
}
use blind_age.Verifier.Token.Steps.{went_on, final, when_some, step_laws}

-- The decision that a call returns is `valid`.
abbrev pub allows : Outcome → Bool
allows (returns d) = d.valid
allows raises = false

unfoldable pub key_level_ok : VerifierPolicy → Option AssuranceLevel → Bool
key_level_ok policy none = false
key_level_ok policy (some level) = assurance_at_least level policy.minimum_assurance_level

unfoldable pub binding_ok : BlindAgeVerifier → DomainBinding → Time → ChallengeManager → Bool
binding_ok v b now m = elim v.policy.require_domain_binding [
  | true ↦
      (b.audience == v.audience)
      && challenge_matches (consume m b.challenge_id b.challenge now).1 v.policy.required_claim
  | false ↦ true
]

unfoldable pub replay_ok : Primitives → VerifierPolicy → AgeToken → ReplayCache → Bool
replay_ok c policy t r = elim policy.require_single_use [
  | true ↦ not (contains r.spent (sha256_hex c t.nonce))
  | false ↦ true
]

unfoldable pub signature_ok : Result CryptoError Bool → Bool
signature_ok (ok b) = b
signature_ok (err e) = false

unfoldable pub expiry_ok : Option Bool → Bool
expiry_ok none = false
expiry_ok (some live) = live

module _ (r : Result CryptoError Bool) (l : Local) where
  pub went_on-record_signature : went_on (record_signature r l) ≡ signature_ok r
  unfolding signature_ok record_signature went_on
  went_on-record_signature = ground arith

  pub session-record_signature : (final (record_signature r l)).session ≡ l.session
  unfolding record_signature final
  session-record_signature = ground arith

module _ (policy : VerifierPolicy) (key : IssuerKey) (l : Local) where
  pub went_on-check_claim :
      went_on (check_claim policy key l)
      ≡ ((key.claim == some policy.required_claim) && key_level_ok policy key.assurance_level)
  unfolding check_claim level_at_least went_on key_level_ok
  went_on-check_claim = ground arith

  pub session-check_claim : (final (check_claim policy key l)).session ≡ l.session
  unfolding check_claim level_at_least final
  session-check_claim = ground arith

module _ (key : IssuerKey) (now : Time) (l : Local) where
  pub went_on-check_expiry :
      went_on (check_expiry key now l) ≡ expiry_ok (within key.valid_from key.valid_until now)
  unfolding check_expiry record_expiry expiry_ok went_on
  went_on-check_expiry = ground arith

  pub session-check_expiry : (final (check_expiry key now l)).session ≡ l.session
  unfolding check_expiry record_expiry final
  session-check_expiry = ground arith

module _ (v : BlindAgeVerifier) (b : DomainBinding) (now : Time) (l : Local) where
  pub went_on-check_binding :
      went_on (check_binding v b now l) ≡ binding_ok v b now l.session.challenges
  unfolding check_binding check_challenge consume_step binding_ok went_on
  went_on-check_binding = ground arith

  pub replay-check_binding : (final (check_binding v b now l)).session.replay ≡ l.session.replay
  unfolding check_binding check_challenge consume_step final
  replay-check_binding = ground arith

module _ (c : Primitives) (policy : VerifierPolicy) (t : AgeToken) (l : Local) where
  pub went_on-check_replay :
      went_on (check_replay c policy t l) ≡ replay_ok c policy t l.session.replay
  unfolding check_replay insert_nonce check_and_insert replay_ok went_on
  went_on-check_replay = ground arith

module _ (c : Primitives) (v : BlindAgeVerifier) (s : Session) (p : Presentation)
    (now consume_now : Time) where
  unfoldable pub key_ok : IssuerKey → Bool
  key_ok key =
      contains v.policy.allowed_algorithms key.algorithm
      && (signature_ok (try_signature c key p.token)
          && (advisory_agrees p.token key
              && (((key.claim == some v.policy.required_claim)
                    && key_level_ok v.policy key.assurance_level)
                  && (expiry_ok (within key.valid_from key.valid_until now)
                      && (binding_ok v p.domain_binding consume_now s.challenges
                          && replay_ok c v.policy p.token s.replay)))))

  unfoldable pub all_ok : Bool
  all_ok =
      issuer_is_trusted (get_issuer v.registry p.token.issuer_id) v.policy p.token.issuer_id
      && when_some (get_token_key v.registry p.token.issuer_id p.token.issuer_key_id) key_ok

  pub ruleset steps = (
    step_laws, went_on-record_signature, session-record_signature, went_on-check_claim,
    session-check_claim, went_on-check_expiry, session-check_expiry, went_on-check_binding,
    replay-check_binding, went_on-check_replay,
  )

  pub went_on-verify_steps : went_on (verify_steps c v p now consume_now (start s)) ≡ all_ok
  unfolding verify_steps all_ok key_ok
  went_on-verify_steps = simp steps

  allows-conclude : (r : Flow (Unit {0})) → allows (conclude r).0 ≡ went_on r
  unfolding went_on
  allows-conclude (go u l) = refl
  allows-conclude (deny_now l) = refl
  allows-conclude (raise_now l) = refl

  pub allows-verify : allows (verify c v s p now consume_now).0 ≡ all_ok
  unfolding verify
  allows-verify = allows-conclude _ ∙ went_on-verify_steps
