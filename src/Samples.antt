-- ===== src/Samples.antt =====
-- Small concrete data for the examples in the modules named Tests.
use blind_age.Base.{true, none, some, [], ◌∷◌}
use blind_age.Crypto.Primitives.{Primitives, rsa, PublicNumbers}
use blind_age.Issuer.Eligibility.{Date}
use blind_age.Registry.Store.{TrustRegistry}
use blind_age.Schemas.Enums.{age_over_18, aal1, aal2, active}
use blind_age.Schemas.Issuer.{aware, IssuerKey, IssuerMetadata, token_signing}
use blind_age.Schemas.Presentation.{Presentation, VerifierChallenge, VerifierPolicy}
use blind_age.Schemas.Token.{AgeToken}

abbrev pub toy_numbers : PublicNumbers
toy_numbers = record { n = 33; e = 3 }

-- Hashes and MACs that return the message, tests that accept, and the RSA key 33 with exponents 3, 7.
abbrev pub toy : Primitives
toy = record {
  sha256 = λ m. m;
  sha384 = λ m. m;
  hmac_sha256 = λ s m. m;
  ed25519_is_key = λ k. true;
  ed25519_verify = λ k s m. true;
  ed25519_is_private_key = λ k. true;
  ed25519_sign = λ k m. m;
  load_der_public_key = λ d. rsa toy_numbers;
  load_der_private_key = λ d. rsa (record { public_numbers = toy_numbers; d = 7 });
  pss_verify = λ k s m. true;
  mldsa_is_key = λ k. true;
  mldsa_verify = λ k s m. true;
}

abbrev pub toy_key : IssuerKey
toy_key = record {
  key_id = "k";
  purpose = token_signing;
  algorithm = "mock-hmac-sha256";
  public_key = "AA";
  claim = some age_over_18;
  assurance_level = some aal2;
  epoch = some "e";
  valid_from = aware 0;
  valid_until = aware 100;
}

abbrev pub toy_issuer : IssuerMetadata
toy_issuer = record {
  version = "1.0";
  issuer_id = "i";
  legal_name = "Issuer";
  jurisdiction = "US";
  endpoint = none;
  supported_claims = age_over_18 ∷ [];
  assurance_levels = aal2 ∷ [];
  keys = toy_key ∷ [];
  status = active;
  valid_from = aware 0;
  valid_until = aware 100;
}

abbrev pub toy_registry : TrustRegistry
toy_registry = record { issuers = ("i", toy_issuer) ∷ [] }

abbrev pub toy_policy : VerifierPolicy
toy_policy = record {
  policy_id = "p";
  required_claim = age_over_18;
  minimum_assurance_level = aal1;
  trusted_issuers = "i" ∷ [];
  require_domain_binding = true;
  require_single_use = true;
  maximum_token_age_seconds = none;
  allowed_algorithms = "mock-hmac-sha256" ∷ [];
}

-- "bg" is the nonce in base64url.
abbrev pub toy_token : AgeToken
toy_token = record {
  version = "1.0";
  claim = age_over_18;
  assurance_level = aal2;
  epoch = "e";
  issuer_id = "i";
  issuer_key_id = "k";
  nonce = "n";
  signature = "bg";
}

abbrev pub toy_challenge : VerifierChallenge
toy_challenge = record {
  version = "1.0";
  challenge_id = "c";
  required_claim = age_over_18;
  minimum_assurance_level = aal1;
  audience = "a";
  challenge = "v";
  issued_at = 0;
  expires_at = 90;
}

abbrev pub toy_presentation : Presentation
toy_presentation = record {
  version = "1.0";
  presentation_type = "blindage.age_token";
  required_claim = age_over_18;
  token = toy_token;
  domain_binding = record { audience = "a"; challenge = "v"; challenge_id = "c"; timestamp = 40 };
}

abbrev pub born : Date
born = record { year = 2000; month = 2; day = 29 }

abbrev pub today : Date
today = record { year = 2018; month = 3; day = 1 }
