-- ===== src/Registry/Store.antt =====
-- `TrustRegistry` (blindage/registry/store.py): the checks of `from_dict`, and the lookups.
pub mod Accumulate
pub mod Keys
pub mod Validity
pub mod Lookup
use blind_age.Base.{
  String, Bool, true, Option, none, some, List, [], ◌∷◌, ◌&&◌, ◌↔◌, ◌≡◌, arith, not, ◌==◌,
  string_eq, option_eq, contains, find, Eq,
}
use blind_age.Base.Dict.{Dict, get, put}
use blind_age.Base.Equality.{option_beq_iff}
use blind_age.Base.Result.{Result, ok, err, ◌>>=◌, ◌>>◌, guard}
use blind_age.Schemas.Enums.{AgeClaim, AssuranceLevel, claim_eq, level_eq}
use blind_age.Schemas.Issuer.{
  IssuerKey, IssuerMetadata, Purpose, token_signing, vc_signing, registry, purpose_eq,
  token_keys_need_binding,
}

pub record TrustRegistry : Type 0 where
  pub issuers : Dict IssuerMetadata

-- Why a registry is refused: the messages of `RegistryError`, and the `TypeError` that data of the
-- wrong shape raises.
pub data RegistryError : Type 0 where
  wrong_type invalid_contents duplicate_issuer_id duplicate_key_id : RegistryError
  duplicate_binding material_reuse cross_purpose_collision : RegistryError

-- The tuple `(claim, assurance, epoch)` that a token key binds.
pub record Binding : Type 0 where
  pub claim : Option AgeClaim
  pub assurance_level : Option AssuranceLevel
  pub epoch : Option String

abbrev binding_beq : Binding → Binding → Bool
binding_beq a b =
    (a.claim == b.claim) && (a.assurance_level == b.assurance_level) && (a.epoch == b.epoch)

pub binding_beq_iff : (a b : Binding) → (binding_beq a b ≡ true) ↔ (a ≡ b)
binding_beq_iff a b = ground (
  arith,
  option_beq_iff a.claim b.claim,
  option_beq_iff a.assurance_level b.assurance_level,
  option_beq_iff a.epoch b.epoch,
)

instance abbrev pub binding_eq : Eq Binding
binding_eq = record { beq = binding_beq; beq_iff = binding_beq_iff }

abbrev pub binding : IssuerKey → Binding
binding k = record { claim = k.claim; assurance_level = k.assurance_level; epoch = k.epoch }

-- The sets that the loops fill: `seen_ids` and `seen_tuples` of one issuer, `seen_material` of all.
pub record Seen : Type 0 where
  pub ids : List String
  pub tuples : List Binding
  pub material : List String

unfoldable pub check_material : Seen → IssuerKey → Result RegistryError Seen
unfolding contains
check_material s key = do
  guard (not (contains s.material key.public_key)) material_reuse
  ok (record s { material = key.public_key ∷ s.material })

unfoldable pub check_binding : Seen → IssuerKey → Result RegistryError Seen
unfolding contains
check_binding s key = do
  guard (not (contains s.tuples (binding key))) duplicate_binding
  ok (record s { tuples = binding key ∷ s.tuples })

-- The `if`/`elif` on the purpose.
unfoldable pub check_purpose : Purpose → Seen → IssuerKey → Result RegistryError Seen
unfolding check_binding check_material
check_purpose token_signing s key = do s' ← check_binding s key; check_material s' key
check_purpose vc_signing s key = check_material s key
check_purpose registry s key = ok s

unfoldable pub check_key : Seen → IssuerKey → Result RegistryError Seen
unfolding contains check_purpose
check_key s key = do
  guard (not (contains s.ids key.key_id)) duplicate_key_id
  check_purpose key.purpose (record s { ids = key.key_id ∷ s.ids }) key

-- `for key in issuer.keys`
unfoldable pub check_keys : Seen → List IssuerKey → Result RegistryError Seen
unfolding check_key
check_keys s [] = ok s
check_keys s (key ∷ keys) = do s' ← check_key s key; check_keys s' keys

-- The first loop over the issuers; it ends with the signing material of all.
unfoldable pub check_issuers :
    (ids material : List String) → List IssuerMetadata → Result RegistryError (List String)
unfolding contains check_keys
check_issuers ids material [] = ok material
check_issuers ids material (issuer ∷ issuers) = do
  guard (not (contains ids issuer.issuer_id)) duplicate_issuer_id
  s ← check_keys (record { ids = []; tuples = []; material = material }) issuer.keys
  check_issuers (issuer.issuer_id ∷ ids) s.material issuers

unfoldable pub check_collisions : List String → List IssuerKey → Result RegistryError (Unit {0})
unfolding contains
check_collisions material [] = ok tt
check_collisions material (key ∷ keys) = do
  guard (not ((key.purpose == registry) && contains material key.public_key))
      cross_purpose_collision
  check_collisions material keys

-- The second loop over the issuers.
unfoldable pub check_registry_keys :
    List String → List IssuerMetadata → Result RegistryError (Unit {0})
unfolding check_collisions
check_registry_keys material [] = ok tt
check_registry_keys material (issuer ∷ issuers) = do
  check_collisions material issuer.keys
  check_registry_keys material issuers

-- `{i.issuer_id: i for i in issuers}`
unfoldable pub by_id : Dict IssuerMetadata → List IssuerMetadata → Dict IssuerMetadata
unfolding put
by_id d [] = d
by_id d (i ∷ is) = by_id (put d i.issuer_id i) is

-- The model validator on every key of one issuer.
unfoldable pub validate_keys : List IssuerKey → Result RegistryError (Unit {0})
unfolding token_keys_need_binding
validate_keys [] = ok tt
validate_keys (key ∷ keys) = elim (token_keys_need_binding key) [
  | ok _ ↦ validate_keys keys
  | err _ ↦ err invalid_contents
]

unfoldable pub validate_issuers : List IssuerMetadata → Result RegistryError (Unit {0})
unfolding validate_keys
validate_issuers [] = ok tt
validate_issuers (issuer ∷ issuers) = do validate_keys issuer.keys; validate_issuers issuers

-- What pydantic reads from `data["issuers"]`, before the model validator runs.
pub data Fields : Type 0 where
  issuers_of : List IssuerMetadata → Fields
  invalid_fields not_a_mapping : Fields

unfoldable pub from_issuers : List IssuerMetadata → Result RegistryError TrustRegistry
unfolding validate_issuers check_issuers check_registry_keys by_id
from_issuers issuers = do
  validate_issuers issuers
  material ← check_issuers [] [] issuers
  check_registry_keys material issuers
  ok (record { issuers = by_id [] issuers })

unfoldable pub from_dict : Fields → Result RegistryError TrustRegistry
unfolding from_issuers
from_dict (issuers_of issuers) = from_issuers issuers
from_dict invalid_fields = err invalid_contents
from_dict not_a_mapping = err wrong_type

unfoldable pub get_issuer : TrustRegistry → String → Option IssuerMetadata
unfolding get
get_issuer r issuer_id = get r.issuers issuer_id

-- The loop of a lookup by key id and purpose.
unfoldable pub key_of : Purpose → Option IssuerMetadata → String → Option IssuerKey
unfolding find
key_of p none key_id = none
key_of p (some issuer) key_id = find (λ k. (k.key_id == key_id) && (k.purpose == p)) issuer.keys

unfoldable pub get_token_key : TrustRegistry → String → String → Option IssuerKey
unfolding key_of get_issuer
get_token_key r issuer_id key_id = key_of token_signing (get_issuer r issuer_id) key_id

unfoldable pub get_vc_key : TrustRegistry → String → String → Option IssuerKey
unfolding key_of get_issuer
get_vc_key r issuer_id key_id = key_of vc_signing (get_issuer r issuer_id) key_id
