-- ===== src/Site/Tests.antt =====
-- The site with one issuer, and one visitor.
use blind_age.Base.{true, false, some, [], ◌∷◌, ◌≡◌, refl, arith, contains}
use blind_age.Crypto.Base64.{b64u_encode, b64u_decode}
use blind_age.Registry.Store.{TrustRegistry, get_issuer, get_token_key}
use blind_age.Samples.{toy, toy_key, toy_issuer, toy_presentation}
use blind_age.Schemas.Issuer.{IssuerKey}
use blind_age.Schemas.Presentation.{Presentation}
use blind_age.Verifier.Challenge.{create, consume}
use blind_age.Verifier.Checks.{issuer_is_trusted, advisory_agrees, try_signature, sha256_hex}
use blind_age.Verifier.Credential.{ProofSystem}
use blind_age.Verifier.Replay.{check_and_insert}
use blind_age.Verifier.Session.{Session, conclude, proceed}
use blind_age.Verifier.Token.{
  verify, verify_steps, set_signature, record_signature, level_at_least, check_claim, check_expiry,
  challenge_matches, consume_step, check_challenge, check_binding, insert_nonce, check_replay,
}
use blind_age.Verifier.Token.Acceptance.{Vouches}
use blind_age.Site.{Site, site_policy, site_verifier, create_site, challenge, redeem}
use blind_age.Site.Fresh.{AnswersFresh, redeem-fresh_challenge}
use blind_age.Site.Visits.{admitted, by_token, attempt, here, no_challenge_twice}

abbrev blind_key : IssuerKey
blind_key = record toy_key { algorithm = "rsabssa-sha384-pss-deterministic" }

abbrev blind_registry : TrustRegistry
blind_registry = record { issuers = ("i", record toy_issuer { keys = blind_key ∷ [] }) ∷ [] }

abbrev site : Site
site = record {
  registry = blind_registry;
  trusted_issuer = "i";
  audience = "a";
  challenge_ttl_seconds = 1800;
}

abbrev proofs : ProofSystem
proofs = record { proof_verify = λ k p h ph m d. some true; dump_time = λ t. "t" }

abbrev asked : Session
unfolding create_site challenge
asked = (challenge (create_site site) "u" (1 ∷ []) 10).0

abbrev answer : Presentation
answer = record toy_presentation {
  domain_binding = record { audience = "a"; challenge = "AQ"; challenge_id = "u"; timestamp = 40 };
}

admitted_once : admitted (attempt toy proofs site asked (by_token answer) 50 60).0 ≡ true
unfolding attempt redeem site_verifier site_policy verify verify_steps conclude proceed
    set_signature record_signature level_at_least check_claim check_expiry challenge_matches
    consume_step check_challenge check_binding insert_nonce check_replay get_issuer get_token_key
    issuer_is_trusted contains try_signature advisory_agrees sha256_hex consume check_and_insert
    b64u_decode b64u_encode create_site challenge
admitted_once = refl

no_challenge_twice_example :
    admitted
      (attempt toy proofs site
        (attempt toy proofs site asked (by_token answer) 50 60).1
        (by_token answer)
        70
        80).0
    ≡ false
no_challenge_twice_example =
    no_challenge_twice toy proofs site asked (by_token answer) 50 60 admitted_once here
      (by_token answer) 70 80 refl

vouched : Vouches toy (site_verifier site) answer.token 50
unfolding site_verifier site_policy get_issuer get_token_key contains try_signature b64u_decode
vouched = record {
  issuer = record toy_issuer { keys = blind_key ∷ [] };
  registered = refl;
  is_active = refl;
  is_trusted = refl;
  key = blind_key;
  has_key = refl;
  algorithm_allowed = refl;
  signed = refl;
  binds_claim = refl;
  binds_level = refl;
  binds_epoch = refl;
  start = 0;
  end = 100;
  starts_at = refl;
  ends_at = refl;
  begun = omega arith;
  not_over = omega arith;
}

fresh : AnswersFresh toy site (create_site site) "u" (1 ∷ []) 10 answer 60
unfolding create_site challenge create b64u_encode
fresh = record { for_site = refl; same_id = refl; same_value = refl; in_time = omega arith }

redeem-fresh_challenge_example :
    admitted (redeem toy site (challenge (create_site site) "u" (1 ∷ []) 10).0 answer 50 60).0
    ≡ true
unfolding create_site contains
redeem-fresh_challenge_example =
    redeem-fresh_challenge toy site (create_site site) "u" (1 ∷ []) 10 answer 50 60 fresh vouched
      refl (omega arith) refl
