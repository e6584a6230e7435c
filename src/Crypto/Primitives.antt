-- ===== src/Crypto/Primitives.antt =====
-- What the program takes from `cryptography`, `hashlib` and `hmac`, and the exceptions of the
-- layer above it.
use blind_age.Base.{ℕ, Bool, true, false}
use blind_age.Base.Text.{Bytes}
use blind_age.Base.Result.{Result, ok, err}
use blind_age.Crypto.Base64.{DecodeError}

-- What DER key material holds: an RSA key by its numbers, a key of another kind, or nothing;
-- `unsupported` is where the library raises `UnsupportedAlgorithm`.
pub data Loaded (K : Type 0) : Type 0 where
  rsa : K → Loaded K
  other_kind malformed unsupported : Loaded K

pub record PublicNumbers : Type 0 where
  pub n : ℕ
  pub e : ℕ

pub record PrivateNumbers : Type 0 where
  pub public_numbers : PublicNumbers
  pub d : ℕ

-- `ed25519_is_key` says whether the octets are accepted as a public key, in a build of the
-- library that has Ed25519. The tests answer false where the library raises `InvalidSignature`.
-- Tests take the key, the signature, the message.
pub record Primitives : Type 0 where
  pub sha256 : Bytes → Bytes
  pub sha384 : Bytes → Bytes
  pub hmac_sha256 : Bytes → Bytes → Bytes
  pub ed25519_is_key : Bytes → Bool
  pub ed25519_verify : Bytes → Bytes → Bytes → Bool
  pub ed25519_is_private_key : Bytes → Bool
  pub ed25519_sign : Bytes → Bytes → Bytes
  pub load_der_public_key : Bytes → Loaded PublicNumbers
  pub load_der_private_key : Bytes → Loaded PrivateNumbers
  pub pss_verify : PublicNumbers → Bytes → Bytes → Bool
  pub mldsa_is_key : Bytes → Bool
  pub mldsa_verify : Bytes → Bytes → Bytes → Bool

pub data CryptoError : Type 0 where
  decode_error : DecodeError → CryptoError
  value_error unsupported_algorithm blind_signature_error unsupported_key : CryptoError

-- Whether `except (binascii.Error, ValueError)` catches it. `BlindSignatureError` is a plain
-- `Exception`, and so is the library's `UnsupportedAlgorithm`, which is `unsupported_key`.
unfoldable pub is_value_error : CryptoError → Bool
is_value_error blind_signature_error = false
is_value_error unsupported_key = false
is_value_error _ = true

unfoldable pub lift_decode : {A : Type 0} → Result DecodeError A → Result CryptoError A
lift_decode (ok a) = ok a
lift_decode (err e) = err (decode_error e)
