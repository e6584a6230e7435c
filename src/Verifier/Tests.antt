-- ===== src/Verifier/Tests.antt =====
-- The verifier on small inputs.
use blind_age.Base.{
  String, true, false, none, some, [], ◌∷◌, ◌≡◌, ◌↔◌, ◌&&◌, ◌==◌, string_eq, if◌then◌else◌, refl,
  contains, leb→le,
}
use blind_age.Registry.Store.{get_issuer, get_token_key}
use blind_age.Crypto.Base64.{b64u_decode}
use blind_age.Base.Int.{pos}
use blind_age.Registry.Store.{TrustRegistry, get_vc_key}
use blind_age.Schemas.Issuer.{vc_signing}
use blind_age.Schemas.Enums.{aal2}
use blind_age.Schemas.Vc.{VcPresentation}
use blind_age.Verifier.Credential.{
  ProofSystem, vc_issuer_is_trusted, well_shaped, disclosed_messages, proof_holds, check_level,
  vc_challenge, check_proof, vc_steps, verify_vc_presentation,
}
use blind_age.Verifier.Credential.Disclosure.{verify_vc_presentation-Shows}
use blind_age.Verifier.Credential.Shown.{Shows}
use blind_age.Samples.{
  toy_issuer, toy_key, toy, toy_registry, toy_policy, toy_token, toy_challenge, toy_presentation,
}
use blind_age.Schemas.Enums.{active, age_over_18, aal1}
use blind_age.Schemas.Issuer.{IssuerKey, IssuerMetadata, naive}
use blind_age.Verifier.Challenge.{ChallengeManager, create, consume}
use blind_age.Verifier.Challenge.Refines.{
  redeem, abstraction, code_run, spec_run, code_run-spec_run,
}
use blind_age.Verifier.Challenge.Laws.{Redeems, consume-eq-some_iff, consume-create}
use blind_age.Verifier.Checks.{
  BlindAgeVerifier, issuer_is_trusted, advisory_agrees, try_signature, sha256_hex,
}
use blind_age.Verifier.Replay.{empty_cache, check_and_insert}
use blind_age.Verifier.Session.{Session, conclude, proceed}
use blind_age.Verifier.Token.{
  verify, verify_steps, set_signature, record_signature, level_at_least, check_claim, within,
  record_expiry, check_expiry, challenge_matches, consume_step, check_challenge, check_binding,
  insert_nonce, check_replay,
}
use blind_age.Verifier.Token.Acceptance.{Accepts, verify-Accepts}
use blind_age.Verifier.Token.Effects.{replay-verify}
use blind_age.Verifier.Token.Gate.{allows}
use blind_age.Verifier.Token.Raising.{is_raise, verify-raises_iff}
use blind_age.Verifier.Token.Escapes.{Raises}
use blind_age.Verifier.Token.Replay.{here, no_double_spend}

abbrev site : BlindAgeVerifier
site = record { registry = toy_registry; policy = toy_policy; audience = "a" }

abbrev pending : ChallengeManager
pending = record { audience = "a"; ttl = 300; pending = ("c", toy_challenge) ∷ [] }

abbrev session : Session
session = record { replay = empty_cache; challenges = pending }

verify-Accepts_example :
    (allows (verify toy site session toy_presentation 50 60).0 ≡ true)
    ↔ Accepts toy site session toy_presentation 50 60
verify-Accepts_example = verify-Accepts toy site session toy_presentation 50 60

replay-verify_example : (verify toy site session toy_presentation 50 60).1.replay ≡ (
    if allows (verify toy site session toy_presentation 50 60).0 && site.policy.require_single_use
    then record { spent = sha256_hex toy toy_presentation.token.nonce ∷ session.replay.spent }
    else session.replay)
replay-verify_example = replay-verify toy site session toy_presentation 50 60

abbrev text : String → String
text t = t

allowed : allows (verify toy site session toy_presentation 50 60).0 ≡ true
unfolding verify verify_steps conclude proceed set_signature record_signature level_at_least
    check_claim check_expiry within record_expiry challenge_matches consume_step check_challenge
    check_binding insert_nonce check_replay get_issuer get_token_key issuer_is_trusted contains
    try_signature advisory_agrees sha256_hex consume check_and_insert b64u_decode
allowed = refl

no_double_spend_example :
    allows
      (verify toy site (verify toy site session toy_presentation 50 60).1 toy_presentation 70 80).0
    ≡ false
no_double_spend_example =
    no_double_spend toy site session toy_presentation 50 60 refl allowed here toy_presentation 70 80
      refl

abbrev naive_issuer : IssuerMetadata
naive_issuer = record toy_issuer { keys = record toy_key { valid_until = naive 100 } ∷ [] }

abbrev naive_site : BlindAgeVerifier
naive_site = record site { registry = record { issuers = ("i", naive_issuer) ∷ [] } }

verify-raises_iff_example :
    (is_raise (verify toy naive_site session toy_presentation 50 60).0 ≡ true) ↔ (
      (issuer : IssuerMetadata) × (get_issuer naive_site.registry "i" ≡ some issuer)
      × (issuer.status ≡ active)
      × (contains toy_policy.trusted_issuers "i" ≡ true)
      × (key : IssuerKey) × (get_token_key naive_site.registry "i" "k" ≡ some key)
      × (contains toy_policy.allowed_algorithms key.algorithm ≡ true)
      × Raises toy toy_policy toy_token key 50)
verify-raises_iff_example = verify-raises_iff toy naive_site session toy_presentation 50 60

consume-eq-some_iff_example :
    ((consume pending "c" "v" 60).1 ≡ some toy_challenge) ↔ Redeems pending "c" "v" 60 toy_challenge
consume-eq-some_iff_example = consume-eq-some_iff pending "c" "v" 60 toy_challenge

consume-create_example :
    (consume (create pending age_over_18 aal1 "u" (1 ∷ []) 10).0 "u" "AQ" 20).1 ≡ (
      if text "u" == "u"
      then if (create pending age_over_18 aal1 "u" (1 ∷ []) 10).1.challenge == text "AQ"
        then some (create pending age_over_18 aal1 "u" (1 ∷ []) 10).1
        else none
      else (consume pending "u" "AQ" 20).1)
unfolding create
consume-create_example =
    consume-create pending age_over_18 aal1 "u" (1 ∷ []) 10 20 (leb→le 20 300000010 refl) "u" "AQ"

abbrev vc_key : IssuerKey
vc_key = record toy_key { purpose = vc_signing; algorithm = "bbs-bls12381-sha256"; claim = none }

abbrev vc_registry : TrustRegistry
vc_registry = record { issuers = ("i", record toy_issuer { keys = vc_key ∷ [] }) ∷ [] }

abbrev vc : VcPresentation
vc = record {
  version = "1.0";
  presentation_type = "blindage.vc";
  required_claim = age_over_18;
  issuer_id = "i";
  issuer_key_id = "k";
  assurance_level = aal2;
  epoch = "e";
  proof = "AA";
  disclosed_indexes = pos 0 ∷ pos 1 ∷ pos 2 ∷ pos 3 ∷ [];
  domain_binding = toy_presentation.domain_binding;
}

abbrev bbs : ProofSystem
bbs = record { proof_verify = λ k p h ph m d. some true; dump_time = λ t. "t" }

vc_allowed : allows (verify_vc_presentation bbs vc_registry "i" "a" session vc 50 60).0 ≡ true
unfolding verify_vc_presentation vc_steps vc_challenge check_proof check_level proof_holds
    disclosed_messages well_shaped vc_issuer_is_trusted proceed check_expiry within record_expiry
    consume_step challenge_matches level_at_least get_issuer get_vc_key consume b64u_decode
vc_allowed = refl

verify_vc_presentation-Shows_example :
    (allows (verify_vc_presentation bbs vc_registry "i" "a" session vc 50 60).0 ≡ true)
    ↔ Shows bbs vc_registry "i" "a" session vc 50 60
verify_vc_presentation-Shows_example =
    verify_vc_presentation-Shows bbs vc_registry "i" "a" session vc 50 60

code_run-spec_run_example :
    code_run pending (redeem "c" "v" 60 ∷ redeem "c" "v" 61 ∷ [])
    ≡ spec_run (abstraction pending) (redeem "c" "v" 60 ∷ redeem "c" "v" 61 ∷ [])
code_run-spec_run_example = code_run-spec_run pending (redeem "c" "v" 60 ∷ redeem "c" "v" 61 ∷ [])
