-- ===== src/Registry/Load.antt =====
-- `TrustRegistry.load` (blindage/registry/store.py). The files' texts, the JSON they hold, its
-- reading by pydantic and keccak are parameters.
pub mod Gates
use blind_age.Base.{
  String, Bool, true, false, Option, none, some, ◌==◌, ◌||◌, not, list_eq, nat_eq, if◌then◌else◌,
}
use blind_age.Base.Text.{Bytes}
use blind_age.Base.Result.{Result, ok, err, present, lift_error, guard, ◌>>=◌, ◌>>◌}
use blind_age.Canonical.{Json, canonical_json_bytes}
use blind_age.Crypto.Primitives.{Primitives}
use blind_age.Registry.Signing.{
  RegistryPolicy, classical_only, hybrid_preferred, hybrid_required, HybridError,
  verify_registry_signature, verify_registry_hybrid,
}
use blind_age.Registry.Store.{TrustRegistry, RegistryError, Fields, from_dict}

-- The messages of the `RegistryError` that `load` raises.
pub data LoadError : Type 0 where
  unreadable malformed_json invalid_input bad_signature : LoadError
  hybrid_error : HybridError → LoadError
  anchor_unavailable anchor_mismatch : LoadError
  contents : RegistryError → LoadError

-- What `read_text` makes of a file: its text, an `OSError`, or the `ValueError` of octets that are not
-- UTF-8.
pub data FileText : Type 0 where
  text : String → FileText
  missing undecodable : FileText

unfoldable pub read_file : FileText → Result LoadError String
read_file (text t) = ok t
read_file missing = err unreadable
read_file undecodable = err invalid_input

-- The ML-DSA signature file: an `OSError` passes for no file.
unfoldable pub optional_file :
    (strip : String → String) → FileText → Result LoadError (Option String)
optional_file strip (text t) = ok (some (strip t))
optional_file strip missing = ok none
optional_file strip undecodable = err invalid_input

-- `parse` is `json.loads`, `strip` is the
-- method of a text, `fields` is what pydantic reads of the data.
pub record Environment : Type 0 where
  pub read_text : String → FileText
  pub parse : String → Option Json
  pub strip : String → String
  pub fields : Json → Fields
  pub keccak : Bytes → Bytes

pub record Arguments : Type 0 where
  pub registry_path : String
  pub signature_path : String
  pub root_public_key : String
  pub mldsa_signature_path : Option String
  pub mldsa_root_public_key : Option String
  pub policy : RegistryPolicy

-- What the argument `anchor` is: none, or a client with the answer of `current`, where none is an
-- `AnchorError`.
pub data Anchor : Type 0 where
  no_anchor : Anchor
  anchored : Option Bytes → Anchor

abbrev is_some : {A : Type 0} → Option A → Bool
is_some none = false
is_some (some a) = true

abbrev pub is_classical : RegistryPolicy → Bool
is_classical classical_only = true
is_classical hybrid_preferred = false
is_classical hybrid_required = false

unfoldable pub hybrid_engaged : RegistryPolicy → Option String → Bool
hybrid_engaged policy mldsa_root_public_key =
    not (is_classical policy) || is_some mldsa_root_public_key

module _ (v : Environment) (c : Primitives) where
  -- `registry_keccak`
  unfoldable pub registry_keccak : Json → Bytes
  unfolding canonical_json_bytes
  registry_keccak data_ = v.keccak (canonical_json_bytes data_)

  -- The ML-DSA signature is read only when it exists.
  unfoldable pub read_mldsa_signature : Option String → Result LoadError (Option String)
  unfolding optional_file
  read_mldsa_signature none = ok none
  read_mldsa_signature (some path) = optional_file v.strip (v.read_text path)

  -- The branch with the hybrid policy.
  unfoldable pub check_hybrid : Arguments → Json → String → Result LoadError (Unit {0})
  unfolding read_mldsa_signature
  check_hybrid a data_ signature = do
    mldsa_signature ← read_mldsa_signature a.mldsa_signature_path
    lift_error hybrid_error (
        verify_registry_hybrid c data_ signature a.root_public_key mldsa_signature
          a.mldsa_root_public_key a.policy)

  unfoldable pub check_signatures : Arguments → Json → String → Result LoadError (Unit {0})
  unfolding check_hybrid hybrid_engaged
  check_signatures a data_ signature = elim (hybrid_engaged a.policy a.mldsa_root_public_key) [
    | true ↦ check_hybrid a data_ signature
    | false ↦ guard (verify_registry_signature c data_ signature a.root_public_key) bad_signature
  ]

  unfoldable pub check_anchor : Anchor → Json → Result LoadError (Unit {0})
  check_anchor no_anchor data_ = ok tt
  check_anchor (anchored none) data_ = err anchor_unavailable
  check_anchor (anchored (some onchain)) data_ =
      guard (registry_keccak data_ == onchain) anchor_mismatch

  unfoldable pub load : Arguments → Anchor → Result LoadError TrustRegistry
  unfolding read_file check_signatures check_anchor
  load a anchor = do
    source ← read_file (v.read_text a.registry_path)
    data_ ← present (v.parse source) malformed_json
    signature ← read_file (v.read_text a.signature_path)
    check_signatures a data_ (v.strip signature)
    check_anchor anchor data_
    lift_error contents (from_dict (v.fields data_))
