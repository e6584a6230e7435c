-- ===== src/Verifier/Credential/Disclosure.antt =====
-- When `verify_vc_presentation` allows a presentation.
use blind_age.Base.{
  String, Bool, true, Option, none, some, ◌&&◌, ◌≡◌, ◌==◌, string_eq, refl, eq_iff, ap, ◌∙◌, sym,
  ◌≤◌, [], ◌∷◌, arith, option_eq, &&-eq-true, ◌↔◌,
}
use blind_age.Base.Int.{int_eq}
use blind_age.Base.Result.{ok}
use blind_age.Base.Text.{Bytes, encode}
use blind_age.Crypto.Base64.{b64u_decode}
use blind_age.Crypto.Verifiers.{bbs_algorithm}
use blind_age.Registry.Store.{TrustRegistry, get_issuer, get_vc_key}
use blind_age.Schemas.Enums.{
  AssuranceLevel, assurance_order, assurance_at_least, assurance_value, claim_value, level_eq,
}
use blind_age.Schemas.Issuer.{IssuerKey, Time}
use blind_age.Schemas.Presentation.{VerifierChallenge}
use blind_age.Schemas.Vc.{VcPresentation, vc_header, vc_presentation_header}
use blind_age.Verifier.Challenge.{ChallengeManager, consume}
use blind_age.Verifier.Challenge.Laws.{consume-eq-some_iff}
use blind_age.Verifier.Credential.{
  ProofSystem, vc_issuer_is_trusted, well_shaped, disclosed_messages, proof_holds, check_level,
  vc_challenge, check_proof, vc_steps, verify_vc_presentation,
}
use blind_age.Verifier.Session.{Session, Local, go, proceed, start}
use blind_age.Verifier.Token.{
  check_expiry, consume_step, within, record_expiry, level_at_least, challenge_matches,
}
use blind_age.Verifier.Token.Acceptance.{
  Within, Answers, expiry_ok-within, challenge_matches-eq-true,
}
use blind_age.Verifier.Token.Gate.{allows, expiry_ok}
use blind_age.Verifier.Credential.Flow.{
  proceed-eq-go, proceed-go, proceed-require, proceed-require_some, proceed-or_raise,
  some_injective, require-eq-go, or_raise-eq-go, conclude-allows,
}
use blind_age.Verifier.Credential.Shown.{
  Shows, well_shaped-indexes, trusted_issuer, named_binding, accepted_proof, issuer_passes,
  indexes_pass, binding_passes, expiry_passes, challenge_passes, claim_passes, level_passes,
  messages_pass, proof_passes,
}

record_expiry-live :
    (o : Option Bool) (l : Local) {u : Unit {0}} {k : Local}
    → record_expiry o l ≡ go u k
    → (expiry_ok o ≡ true) × (l.session ≡ k.session)
unfolding record_expiry proceed expiry_ok
record_expiry-live none l h = cc
record_expiry-live (some live) l h =
    let (e, same) = require-eq-go live _ h in (e, ap (λ x. x.session) same)

check_expiry-Within :
    (key : IssuerKey) (now : Time) (l : Local) {u : Unit {0}} {k : Local}
    → check_expiry key now l ≡ go u k
    → Within key.valid_from key.valid_until now × (l.session ≡ k.session)
unfolding check_expiry
check_expiry-Within key now l h =
    let (live, same) = record_expiry-live (within key.valid_from key.valid_until now) l h in
    ((expiry_ok-within key.valid_from key.valid_until now).0 live, same)

vc_challenge-Answers :
    (bbs : ProofSystem) (audience : String) (p : VcPresentation) (consume_now : Time) (l : Local)
    (m : ChallengeManager) {challenge : VerifierChallenge} {k : Local}
    → l.session.challenges ≡ m
    → vc_challenge bbs audience p consume_now l ≡ go challenge k
    → (p.domain_binding.audience ≡ audience)
      × (answers : Answers m p.domain_binding p.required_claim consume_now) × (answers.challenge
          ≡ challenge)
unfolding vc_challenge consume_step
vc_challenge-Answers bbs audience p consume_now l m e h =
    let b = p.domain_binding in
    let found = (consume l.session.challenges b.challenge_id b.challenge consume_now).1 in
    let h₁ = proceed-go tt _ _ h in
    let (same, h₂) = proceed-require (b.audience == audience) _ _ h₁ in
    let h₃ = proceed-go _ _ _ h₂ in
    let h₄ = proceed-go tt _ _ h₃ in
    let (matches, h₅) = proceed-require (challenge_matches found p.required_claim) _ _ h₄ in
    let (challenge, taken, claim) = challenge_matches-eq-true found p.required_claim matches in
    (
      (eq_iff b.audience audience).0 same,
      record {
        challenge = challenge;
        redeems =
            (consume-eq-some_iff m b.challenge_id b.challenge consume_now challenge).0
              (rw e at taken);
        same_claim = claim;
      },
      some_injective (sym taken ∙ or_raise-eq-go _ _ h₅),
    )

check_level-enough :
    (bbs : ProofSystem) (p : VcPresentation) (key : IssuerKey) (challenge : VerifierChallenge)
    (l : Local) (level : AssuranceLevel) {u : Unit {0}} {k : Local}
    → check_level bbs p key challenge l ≡ go u k
    → key.assurance_level ≡ some level
    → assurance_order challenge.minimum_assurance_level ≤ assurance_order level
unfolding check_level level_at_least assurance_at_least
check_level-enough bbs p key challenge l level h e =
    let claim_ok = challenge_matches (some challenge) p.required_claim in
    let level_ok = assurance_at_least level challenge.minimum_assurance_level in
    let h₁ = proceed-go _ _ _ (rw (check_level, e, level_at_least) at h) in
    let (both, _) = require-eq-go (claim_ok && level_ok) _ (proceed-go tt _ _ h₁) in
    let (_, enough) = &&-eq-true claim_ok level_ok both in ground arith

check_proof-holds :
    (bbs : ProofSystem) (p : VcPresentation) (key : IssuerKey) (l : Local) {k : Local}
    → check_proof bbs p key l ≡ go tt k
    → key.assurance_level ≡ some p.assurance_level
    → key.epoch ≡ some p.epoch
    → (proof : Bytes) × (b64u_decode p.proof ≡ ok proof)
      × (bbs.proof_verify key.public_key proof vc_header
            (vc_presentation_header bbs.dump_time p.domain_binding)
            (encode p.issuer_id
              ∷ encode (assurance_value p.assurance_level)
              ∷ encode p.epoch
              ∷ encode (claim_value p.required_claim)
              ∷ [])
            p.disclosed_indexes
          ≡ some true)
unfolding check_proof disclosed_messages proof_holds
check_proof-holds bbs p key l h level epoch =
    let (messages, disclosed, h₁) =
      proceed-or_raise (disclosed_messages p key.assurance_level key.epoch) l _ h in
    let (holds, _) = require-eq-go (proof_holds bbs p key messages) _ (proceed-go tt _ _ h₁) in
    let same = some_injective (rw (disclosed_messages, level, epoch) at disclosed) in
    accepted_proof (b64u_decode p.proof) _ (rw (← same) at holds)

vc_steps-Shows :
    (bbs : ProofSystem) (registry : TrustRegistry) (trusted audience : String) (s : Session)
    (p : VcPresentation) (now consume_now : Time) {k : Local}
    → vc_steps bbs registry trusted audience p now consume_now (start s) ≡ go tt k
    → Shows bbs registry trusted audience s p now consume_now
unfolding vc_steps
vc_steps-Shows bbs registry trusted audience s p now consume_now h =
    let (trust, h₁) =
      proceed-require (vc_issuer_is_trusted (get_issuer registry p.issuer_id) p.issuer_id trusted)
        (start s) _ h in
    let h₂ = proceed-go tt _ _ h₁ in
    let (key, has_key, h₃) =
      proceed-require_some (get_vc_key registry p.issuer_id p.issuer_key_id) _ _ h₂ in
    let (algorithm, h₄) = proceed-require (key.algorithm == bbs_algorithm) _ _ h₃ in
    let (shape, h₅) = proceed-require (well_shaped p.disclosed_indexes) _ _ h₄ in
    let h₆ = proceed-go tt _ _ h₅ in
    let (named, h₇) =
      proceed-require
        ((some p.assurance_level == key.assurance_level) && (some p.epoch == key.epoch)) _ _ h₆ in
    let h₈ = proceed-go tt _ _ h₇ in
    let (_, l, expiry, h₉) = proceed-eq-go (check_expiry key now _) _ h₈ in
    let (live, same_session) = check_expiry-Within key now _ expiry in
    let (challenge, l', found, h₁₀) =
      proceed-eq-go (vc_challenge bbs audience p consume_now l) _ h₉ in
    let (same, answers, asked) =
      vc_challenge-Answers bbs audience p consume_now l s.challenges
        (sym (ap (λ x. x.challenges) same_session)) found in
    let (_, l'', fits, h₁₁) = proceed-eq-go (check_level bbs p key challenge l') _ h₁₀ in
    let (issuer, registered, act, is_trusted) =
      trusted_issuer (get_issuer registry p.issuer_id) p.issuer_id trusted trust in
    let (last_index, indexes) = well_shaped-indexes p.disclosed_indexes shape in
    let (level, epoch) = named_binding p key named in
    let (proof, decoded, holds) = check_proof-holds bbs p key l'' h₁₁ level epoch in
    record {
      issuer = issuer;
      registered = registered;
      is_active = act;
      is_trusted = is_trusted;
      key = key;
      has_key = has_key;
      has_algorithm = (eq_iff key.algorithm bbs_algorithm).0 algorithm;
      last_index = last_index;
      indexes = indexes;
      binds_level = level;
      binds_epoch = epoch;
      valid_now = live;
      for_site = same;
      answers = answers;
      enough = rw asked (check_level-enough bbs p key challenge l' p.assurance_level fits level);
      proof = proof;
      decoded = decoded;
      holds = holds;
    }

module _ (bbs : ProofSystem) (registry : TrustRegistry) (trusted audience : String) (s : Session)
    (p : VcPresentation) (now consume_now : Time) where
  Shows-allowed :
      Shows bbs registry trusted audience s p now consume_now
      → allows (verify_vc_presentation bbs registry trusted audience s p now consume_now).0 ≡ true
  unfolding verify_vc_presentation vc_steps check_expiry record_expiry vc_challenge check_level
      check_proof consume_step proceed
  Shows-allowed a =
      rw
        (
          verify_vc_presentation,
          vc_steps,
          issuer_passes a,
          a.has_key,
          (eq_iff a.key.algorithm bbs_algorithm).1 a.has_algorithm,
          indexes_pass a,
          binding_passes a,
          check_expiry,
          expiry_passes a,
          record_expiry,
          vc_challenge,
          (eq_iff p.domain_binding.audience audience).1 a.for_site,
          consume_step,
          challenge_passes a,
          claim_passes a,
          check_level,
          claim_passes a,
          level_passes a,
          check_proof,
          messages_pass a,
          proof_passes a,
        )
        refl

  -- `verify_vc_presentation` allows a credential presentation exactly when it comes from the trusted,
  -- active issuer, is bound to the audience, has four indexes of which the first three are 0, 1 and
  -- 2, redeems a pending challenge that is not past, asks for its claim and for no more than its
  -- level, and carries a proof that the proof system accepts under the issuer's registered BBS key,
  -- which is valid now and of the presentation's level and epoch, over the issuer, level, epoch and
  -- claim.
  pub verify_vc_presentation-Shows :
      (allows (verify_vc_presentation bbs registry trusted audience s p now consume_now).0 ≡ true)
      ↔ Shows bbs registry trusted audience s p now consume_now
  unfolding verify_vc_presentation
  verify_vc_presentation-Shows = (
    λ h.
        let (l, e) =
          conclude-allows (vc_steps bbs registry trusted audience p now consume_now (start s)) h in
        vc_steps-Shows bbs registry trusted audience s p now consume_now e,
    Shows-allowed,
  )
