-- ===== src/Site.antt =====
-- The age-gated site (blindage/example_site/app.py): what its endpoints answer and keep. The clock,
-- the UUIDs, the random bytes and the proof system are arguments.
pub mod Challenges
pub mod Consumed
pub mod Visits
pub mod Fresh
pub mod Tests
use blind_age.Base.{ℕ, String, Bool, true, false, Option, none, some, List, [], ◌∷◌}
use blind_age.Base.Text.{Bytes}
use blind_age.Crypto.Primitives.{Primitives}
use blind_age.Crypto.Verifiers.{rsabssa_algorithm}
use blind_age.Registry.Store.{TrustRegistry}
use blind_age.Schemas.Enums.{age_over_18, aal2}
use blind_age.Schemas.Issuer.{Time}
use blind_age.Schemas.Presentation.{
  Presentation, VerifierPolicy, VerifierDecision, VerifierChallenge,
}
use blind_age.Schemas.Vc.{VcPresentation}
use blind_age.Verifier.Challenge.{ChallengeManager, create}
use blind_age.Verifier.Checks.{BlindAgeVerifier}
use blind_age.Verifier.Credential.{ProofSystem, verify_vc_presentation}
use blind_age.Verifier.Replay.{empty_cache}
use blind_age.Verifier.Session.{Session, Outcome, returns, raises}
use blind_age.Verifier.Token.{verify}

-- The arguments of `create_site`.
pub record Site : Type 0 where
  pub registry : TrustRegistry
  pub trusted_issuer : String
  pub audience : String
  pub challenge_ttl_seconds : ℕ

-- `policy`, with the defaults of `VerifierPolicy`.
unfoldable pub site_policy : Site → VerifierPolicy
site_policy site = record {
  policy_id = "example-age18";
  required_claim = age_over_18;
  minimum_assurance_level = aal2;
  trusted_issuers = site.trusted_issuer ∷ [];
  require_domain_binding = true;
  require_single_use = true;
  maximum_token_age_seconds = none;
  allowed_algorithms = rsabssa_algorithm ∷ [];
}

-- `verifier`
unfoldable pub site_verifier : Site → BlindAgeVerifier
unfolding site_policy
site_verifier site = record {
  registry = site.registry;
  policy = site_policy site;
  audience = site.audience;
}

-- What the site keeps when it starts: no nonce is spent, no challenge pending.
unfoldable pub create_site : Site → Session
create_site site = record {
  replay = empty_cache;
  challenges = record { audience = site.audience; ttl = site.challenge_ttl_seconds; pending = [] };
}

-- POST /api/challenge
unfoldable pub challenge :
    Session → (uuid : String) (token_bytes : Bytes) (now : Time) → Session × VerifierChallenge
unfolding create
challenge s uuid token_bytes now =
    let (challenges, ch) = create s.challenges age_over_18 aal2 uuid token_bytes now in
    (record s { challenges = challenges }, ch)

-- A `JSONResponse` with its status and decision, or an exception that the handler does not catch.
pub data SiteReply : Type 0 where
  json_response : ℕ → VerifierDecision → SiteReply
  server_error : SiteReply

-- `status = 200 if decision.valid else 403`
unfoldable pub respond : Outcome → SiteReply
respond raises = server_error
respond (returns decision) = elim decision.valid [
  | true ↦ json_response 200 decision
  | false ↦ json_response 403 decision
]

-- POST /api/redeem
unfoldable pub redeem :
    Primitives → Site → Session → Presentation → (now consume_now : Time) → SiteReply × Session
unfolding site_verifier verify respond
redeem c site s p now consume_now =
    let (outcome, s') = verify c (site_verifier site) s p now consume_now in (respond outcome, s')

-- POST /api/redeem-vc
unfoldable pub redeem_vc :
    ProofSystem → Site → Session → VcPresentation → (now consume_now : Time) → SiteReply × Session
unfolding verify_vc_presentation respond
redeem_vc bbs site s p now consume_now =
    let (outcome, s') =
      verify_vc_presentation bbs site.registry site.trusted_issuer site.audience s p now
        consume_now in
    (respond outcome, s')
