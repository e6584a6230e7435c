-- ===== src/Crypto/Verifiers.antt =====
-- The token verifiers and their factory: blindage/crypto/{ed25519,mock,rsabssa,factory}.py.
use blind_age.Base.{String, Bool, if◌then◌else◌, ◌==◌, string_eq, list_eq, nat_eq}
use blind_age.Base.Text.{Bytes}
use blind_age.Base.Result.{Result, ok, err, ◌>>=◌}
use blind_age.Crypto.Base64.{b64u_decode}
use blind_age.Crypto.Primitives.{
  Primitives, PublicNumbers, Loaded, rsa, other_kind, malformed, CryptoError, value_error,
  unsupported_algorithm, blind_signature_error, unsupported_key, unsupported, lift_decode,
}
use blind_age.Schemas.Issuer.{IssuerKey}

abbrev pub mock_algorithm : String
mock_algorithm = "mock-hmac-sha256"

abbrev pub ed25519_algorithm : String
ed25519_algorithm = "ed25519"

abbrev pub rsabssa_algorithm : String
rsabssa_algorithm = "rsabssa-sha384-pss-deterministic"

abbrev pub bbs_algorithm : String
bbs_algorithm = "bbs-bls12381-sha256"

-- The classes that implement the protocol `TokenVerifier`, with what each holds.
pub data TokenVerifier : Type 0 where
  ed25519 mock : String → Bytes → TokenVerifier
  rsabssa : String → PublicNumbers → TokenVerifier

module _ (c : Primitives) where
  abbrev rsa_public : Loaded PublicNumbers → Result CryptoError PublicNumbers
  rsa_public (rsa k) = ok k
  rsa_public other_kind = err blind_signature_error
  rsa_public malformed = err blind_signature_error
  rsa_public unsupported = err unsupported_key

  -- `_load_public`; a text that is no base64 raises a `ValueError`, which it turns into its own.
  unfoldable pub load_public : String → Result CryptoError PublicNumbers
  load_public key = elim (b64u_decode key) [
    | ok der ↦ rsa_public (c.load_der_public_key der)
    | err e ↦ err blind_signature_error
  ]

  -- `Ed25519TokenVerifier.__init__`
  unfoldable pub ed25519_verifier : String → String → Result CryptoError TokenVerifier
  unfolding lift_decode
  ed25519_verifier key_id key = do
    raw ← lift_decode (b64u_decode key)
    if c.ed25519_is_key raw then ok (ed25519 key_id raw) else err value_error

  unfoldable pub mock_verifier_from_public_key : String → String → Result CryptoError TokenVerifier
  unfolding lift_decode
  mock_verifier_from_public_key key_id key = do
    secret ← lift_decode (b64u_decode key)
    ok (mock key_id secret)

  -- `RsabssaTokenVerifier.__init__`
  unfoldable pub rsabssa_verifier : String → String → Result CryptoError TokenVerifier
  unfolding load_public
  rsabssa_verifier key_id key = do numbers ← load_public key; ok (rsabssa key_id numbers)

  unfoldable pub verifier_from_issuer_key : IssuerKey → Result CryptoError TokenVerifier
  unfolding ed25519_verifier mock_verifier_from_public_key rsabssa_verifier
  verifier_from_issuer_key key =
      if key.algorithm == ed25519_algorithm
      then ed25519_verifier key.key_id key.public_key
      else if key.algorithm == mock_algorithm
      then mock_verifier_from_public_key key.key_id key.public_key
      else if key.algorithm == rsabssa_algorithm
      then rsabssa_verifier key.key_id key.public_key
      else err unsupported_algorithm

  -- `verify(message, signature)` of each class
  unfoldable pub verify_token : TokenVerifier → (message signature : Bytes) → Bool
  verify_token (ed25519 _ key) message signature = c.ed25519_verify key signature message
  verify_token (mock _ secret) message signature = c.hmac_sha256 secret message == signature
  verify_token (rsabssa _ numbers) message signature = c.pss_verify numbers signature message
