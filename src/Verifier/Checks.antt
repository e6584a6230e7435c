-- ===== src/Verifier/Checks.antt =====
-- The tests that `BlindAgeVerifier.verify` makes (blindage/verifier/verify.py), and its constructor.
use blind_age.Base.{
  String, Bool, false, Option, none, some, ◌&&◌, ◌==◌, string_eq, option_eq, contains,
}
use blind_age.Base.Result.{Result, ok, err, ◌>>=◌}
use blind_age.Base.Text.{Bytes, encode, hexdigest}
use blind_age.Crypto.Base64.{b64u_decode}
use blind_age.Crypto.Primitives.{Primitives, CryptoError, lift_decode}
use blind_age.Crypto.Verifiers.{verifier_from_issuer_key, verify_token}
use blind_age.Registry.Store.{TrustRegistry}
use blind_age.Schemas.Enums.{claim_eq, level_eq, status_is_active}
use blind_age.Schemas.Issuer.{IssuerKey, IssuerMetadata}
use blind_age.Schemas.Presentation.{VerifierPolicy}
use blind_age.Schemas.Token.{AgeToken}

pub record BlindAgeVerifier : Type 0 where
  pub registry : TrustRegistry
  pub policy : VerifierPolicy
  pub audience : String

pub data InitError : Type 0 where
  maximum_age_unsupported : InitError

-- `__init__`, without the session that it also keeps
unfoldable pub init : TrustRegistry → VerifierPolicy → String → Result InitError BlindAgeVerifier
init registry policy audience = elim policy.maximum_token_age_seconds [
  | none ↦ ok (record { registry = registry; policy = policy; audience = audience })
  | some _ ↦ err maximum_age_unsupported
]

-- `token_message`
unfoldable pub token_message : String → Bytes
token_message nonce = encode nonce

-- The first test: the issuer is registered, active, and trusted by the policy.
unfoldable pub issuer_is_trusted : Option IssuerMetadata → VerifierPolicy → String → Bool
unfolding contains
issuer_is_trusted none policy issuer_id = false
issuer_is_trusted (some issuer) policy issuer_id =
    status_is_active issuer.status && contains policy.trusted_issuers issuer_id

-- The comparison of the advisory fields with the registry's.
unfoldable pub advisory_agrees : AgeToken → IssuerKey → Bool
advisory_agrees token key =
    (some token.claim == key.claim)
    && (some token.assurance_level == key.assurance_level)
    && (some token.epoch == key.epoch)

module _ (c : Primitives) where
  -- The body of the `try`.
  unfoldable pub try_signature : IssuerKey → AgeToken → Result CryptoError Bool
  unfolding verifier_from_issuer_key verify_token lift_decode token_message
  try_signature key token = do
    verifier ← verifier_from_issuer_key c key
    signature ← lift_decode (b64u_decode token.signature)
    ok (verify_token c verifier (token_message token.nonce) signature)

  unfoldable pub sha256_hex : String → String
  unfolding hexdigest encode
  sha256_hex t = hexdigest (c.sha256 (encode t))
