-- ===== src/Registry/Signing.antt =====
-- Signatures on the registry and the hybrid policy (blindage/registry/signing.py).
pub mod Policy
use blind_age.Base.{String, Bool, true, false, Option, none, some, ◌&&◌, not, if◌then◌else◌}
use blind_age.Base.Text.{Bytes}
use blind_age.Base.Result.{Result, ok, err, guard, ◌>>=◌, ◌>>◌}
use blind_age.Canonical.{Json, canonical_json_bytes}
use blind_age.Crypto.Base64.{DecodeError, b64u_decode}
use blind_age.Crypto.Primitives.{Primitives}

pub data RegistryPolicy : Type 0 where
  classical_only hybrid_preferred hybrid_required : RegistryPolicy

-- The reasons of a `HybridVerificationError`.
pub data HybridError : Type 0 where
  ed25519_invalid mldsa_key_missing mldsa_signature_missing mldsa_invalid : HybridError

-- What a key object of a scheme offers: whether octets are a key, and the test of a signature.
pub record Scheme : Type 0 where
  pub is_key : Bytes → Bool
  pub verify : Bytes → Bytes → Bytes → Bool

abbrev pub ed25519_scheme : Primitives → Scheme
ed25519_scheme c = record { is_key = c.ed25519_is_key; verify = c.ed25519_verify }

abbrev pub mldsa_scheme : Primitives → Scheme
mldsa_scheme c = record { is_key = c.mldsa_is_key; verify = c.mldsa_verify }

-- The `try` of both functions: the key is read before the signature, and whatever is raised on the
-- way gives false.
abbrev signature_checks :
    Scheme → Result DecodeError Bytes → Result DecodeError Bytes → Bytes → Bool
signature_checks s (ok key) (ok signature) message = s.is_key key && s.verify key signature message
signature_checks s _ _ message = false

module _ (c : Primitives) where
  unfoldable pub verify_registry_signature : Json → (signature public_key : String) → Bool
  unfolding canonical_json_bytes
  verify_registry_signature data_ signature public_key =
      signature_checks (ed25519_scheme c) (b64u_decode public_key) (b64u_decode signature)
        (canonical_json_bytes data_)

  unfoldable pub verify_registry_mldsa : Json → (signature public_key : String) → Bool
  unfolding canonical_json_bytes
  verify_registry_mldsa data_ signature public_key =
      signature_checks (mldsa_scheme c) (b64u_decode public_key) (b64u_decode signature)
        (canonical_json_bytes data_)

  -- The checks that follow when an ML-DSA root key is pinned.
  unfoldable pub check_mldsa : Json → Option String → String → Result HybridError (Unit {0})
  check_mldsa data_ none key = err mldsa_signature_missing
  check_mldsa data_ (some signature) key =
      guard (verify_registry_mldsa data_ signature key) mldsa_invalid

  -- The branches on the policy, after the Ed25519 signature.
  unfoldable pub check_policy :
      RegistryPolicy → Json → (signature key : Option String) → Result HybridError (Unit {0})
  unfolding check_mldsa
  check_policy classical_only data_ signature key = ok tt
  check_policy hybrid_required data_ signature none = err mldsa_key_missing
  check_policy hybrid_preferred data_ signature none = ok tt
  check_policy hybrid_required data_ signature (some key) = check_mldsa data_ signature key
  check_policy hybrid_preferred data_ signature (some key) = check_mldsa data_ signature key

  unfoldable pub verify_registry_hybrid :
      Json
      → (ed_signature ed_public_key : String) → (mldsa_signature mldsa_public_key : Option String)
      → RegistryPolicy
      → Result HybridError (Unit {0})
  unfolding check_policy
  verify_registry_hybrid data_ ed_signature ed_public_key mldsa_signature mldsa_public_key policy =
      do
        guard (verify_registry_signature data_ ed_signature ed_public_key) ed25519_invalid
        check_policy policy data_ mldsa_signature mldsa_public_key
