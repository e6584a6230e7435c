-- ===== src/Issuer/Keys.antt =====
-- `IssuerKeyStore` (blindage/issuer/keys.py). An entry of the JSON file may lack any of the fields.
use blind_age.Base.{
  String, Bool, true, false, Option, none, some, List, [], ◌∷◌, ◌++◌, ◌&&◌, ◌==◌, ◌↔◌, ◌≡◌, arith,
  string_eq, option_eq, find, map, if◌then◌else◌, Eq, contains,
}
use blind_age.Base.Dict.{Dict, get, put, values}
use blind_age.Base.Result.{Result, ok, err, present, lift_error, guard, ◌>>=◌, ◌>>◌}
use blind_age.Base.Text.{Bytes}
use blind_age.Crypto.Base64.{b64u_decode}
use blind_age.Crypto.Primitives.{Primitives, CryptoError, value_error, lift_decode}
use blind_age.Crypto.Verifiers.{mock_algorithm, ed25519_algorithm, rsabssa_algorithm, bbs_algorithm}
use blind_age.Schemas.Enums.{
  AgeClaim, age_over_13, age_over_16, age_over_18, age_over_21, claim_eq, claim_value,
  AssuranceLevel, aal0, aal1, aal2, aal3, level_eq, assurance_value, claim_beq_iff, level_beq_iff,
}

pub record Entry : Type 0 where
  pub key_id : Option String
  pub purpose : Option String
  pub algorithm : Option String
  pub public_key_b64 : Option String
  pub private_key_b64 : Option String
  pub secret_b64 : Option String
  pub claim : Option String
  pub assurance_level : Option String
  pub epoch : Option String
  pub valid_until : Option String

pub data KeyStoreError : Type 0 where
  vc_key_not_bbs duplicate_vc_key_id unsupported_algorithm duplicate_tuple : KeyStoreError
  missing_field invalid_enum : KeyStoreError
  bad_material : CryptoError → KeyStoreError

-- The tuple `(claim, assurance_level, epoch)` of a token key.
pub record KeyTuple : Type 0 where
  pub claim : AgeClaim
  pub assurance_level : AssuranceLevel
  pub epoch : String

abbrev key_tuple_beq : KeyTuple → KeyTuple → Bool
key_tuple_beq a b =
    (a.claim == b.claim) && (a.assurance_level == b.assurance_level) && (a.epoch == b.epoch)

pub key_tuple_beq_iff : (a b : KeyTuple) → (key_tuple_beq a b ≡ true) ↔ (a ≡ b)
key_tuple_beq_iff a b = ground (
  arith,
  claim_beq_iff a.claim b.claim,
  level_beq_iff a.assurance_level b.assurance_level,
  string_eq.beq_iff a.epoch b.epoch,
)

instance abbrev pub key_tuple_eq : Eq KeyTuple
key_tuple_eq = record { beq = key_tuple_beq; beq_iff = key_tuple_beq_iff }

pub record IssuerKeyStore : Type 0 where
  pub by_tuple : List (KeyTuple × Entry)
  pub vc_by_key_id : Dict Entry

-- `entry["..."]`
abbrev pub field_of : Option String → Result KeyStoreError String
field_of f = present f missing_field

-- `_entry_algorithm`
unfoldable pub entry_algorithm : Entry → String
entry_algorithm entry = elim entry.algorithm [ none ↦ mock_algorithm | some a ↦ a ]

unfoldable pub public_material : Entry → Result KeyStoreError (String × String)
unfolding contains entry_algorithm
public_material entry =
    let algorithm = entry_algorithm entry in
    let public_ = present entry.public_key_b64 missing_field >>= λ key. ok (algorithm, key) in
    let secret = present entry.secret_b64 missing_field >>= λ key. ok (algorithm, key) in
    if contains (ed25519_algorithm ∷ rsabssa_algorithm ∷ bbs_algorithm ∷ []) algorithm
    then public_
    else secret

-- `AgeClaim(text)`
unfoldable pub parse_claim : String → Result KeyStoreError AgeClaim
unfolding find claim_value
parse_claim t =
    present
      (find (λ c. claim_value c == t) (age_over_13 ∷ age_over_16 ∷ age_over_18 ∷ age_over_21 ∷ []))
      invalid_enum

-- `AssuranceLevel(text)`
unfoldable pub parse_level : String → Result KeyStoreError AssuranceLevel
unfolding find assurance_value
parse_level t =
    present (find (λ l. assurance_value l == t) (aal0 ∷ aal1 ∷ aal2 ∷ aal3 ∷ [])) invalid_enum

unfoldable pub tuple_of : Entry → Result KeyStoreError KeyTuple
unfolding parse_claim parse_level
tuple_of entry = do
  claim ← field_of entry.claim
  claim' ← parse_claim claim
  level ← field_of entry.assurance_level
  level' ← parse_level level
  epoch ← field_of entry.epoch
  ok (record { claim = claim'; assurance_level = level'; epoch = epoch })

-- `_by_tuple.get(tuple)`
unfoldable pub entry_for : List (KeyTuple × Entry) → KeyTuple → Option Entry
entry_for [] t = none
entry_for ((u, entry) ∷ rest) t = if u == t then some entry else entry_for rest t

abbrev is_none : {A : Type 0} → Option A → Bool
is_none none = true
is_none (some a) = false

unfoldable pub add_vc_entry : IssuerKeyStore → Entry → Result KeyStoreError IssuerKeyStore
unfolding entry_algorithm get put
add_vc_entry store entry = do
  guard (entry_algorithm entry == bbs_algorithm) vc_key_not_bbs
  key_id ← field_of entry.key_id
  guard (is_none (get store.vc_by_key_id key_id)) duplicate_vc_key_id
  ok (record store { vc_by_key_id = put store.vc_by_key_id key_id entry })

unfoldable pub add_token_entry : IssuerKeyStore → Entry → Result KeyStoreError IssuerKeyStore
unfolding entry_algorithm contains tuple_of entry_for
add_token_entry store entry = do
  guard
      (contains (ed25519_algorithm ∷ mock_algorithm ∷ rsabssa_algorithm ∷ [])
        (entry_algorithm entry))
      unsupported_algorithm
  t ← tuple_of entry
  guard (is_none (entry_for store.by_tuple t)) duplicate_tuple
  ok (record store { by_tuple = store.by_tuple ++ (t, entry) ∷ [] })

-- One turn of the loop of `__init__`.
unfoldable pub add_entry : IssuerKeyStore → Entry → Result KeyStoreError IssuerKeyStore
unfolding add_vc_entry add_token_entry
add_entry store entry = elim (entry.purpose == some "vc_signing") [
  | true ↦ add_vc_entry store entry
  | false ↦ add_token_entry store entry
]

unfoldable pub add_entries : IssuerKeyStore → List Entry → Result KeyStoreError IssuerKeyStore
unfolding add_entry
add_entries store [] = ok store
add_entries store (entry ∷ entries) = do store' ← add_entry store entry; add_entries store' entries

-- `IssuerKeyStore(keys)`
unfoldable pub key_store : List Entry → Result KeyStoreError IssuerKeyStore
unfolding add_entries
key_store keys = add_entries (record { by_tuple = []; vc_by_key_id = [] }) keys

-- The signers of plain tokens, with what each holds: `Ed25519TokenSigner` and `MockTokenSigner`.
pub data TokenSigner : Type 0 where
  ed25519_signer mock_signer : String → Bytes → TokenSigner

unfoldable pub algorithm_for : IssuerKeyStore → KeyTuple → Option String
unfolding entry_for entry_algorithm
algorithm_for store t = elim (entry_for store.by_tuple t) [
  | none ↦ none
  | some entry ↦ some (entry_algorithm entry)
]

abbrev pub BlindSigner : Type 0
BlindSigner = String × String × String

abbrev blind_signer_of : Entry → Result KeyStoreError (Option BlindSigner)
blind_signer_of entry = do
  key_id ← field_of entry.key_id
  private_key ← field_of entry.private_key_b64
  valid_until ← field_of entry.valid_until
  ok (some (key_id, private_key, valid_until))

unfoldable pub blind_signer_for :
    IssuerKeyStore → KeyTuple → Result KeyStoreError (Option BlindSigner)
unfolding entry_for entry_algorithm
blind_signer_for store t = elim (entry_for store.by_tuple t) [
  | none ↦ ok none
  | some entry ↦ elim (entry_algorithm entry == rsabssa_algorithm) [
    | true ↦ blind_signer_of entry
    | false ↦ ok none
  ]
]

abbrev pub VcSigner : Type 0
VcSigner = String × String × String × String

-- The first configured vc key.
unfoldable pub vc_signer_for : IssuerKeyStore → Result KeyStoreError (Option VcSigner)
vc_signer_for store = elim (values store.vc_by_key_id) [
  | [] ↦ ok none
  | entry ∷ _ ↦ (do
    key_id ← field_of entry.key_id
    private_key ← field_of entry.private_key_b64
    level ← field_of entry.assurance_level
    epoch ← field_of entry.epoch
    ok (some (key_id, private_key, level, epoch)))
]

abbrev pub vc_entries : IssuerKeyStore → List Entry
vc_entries store = values store.vc_by_key_id

abbrev pub all_entries : IssuerKeyStore → List Entry
all_entries store = map (λ e. e.1) store.by_tuple

module _ (c : Primitives) where
  -- `Ed25519TokenSigner.__init__`
  unfoldable pub ed25519_token_signer : String → String → Result CryptoError TokenSigner
  unfolding lift_decode
  ed25519_token_signer key_id private_key = do
    raw ← lift_decode (b64u_decode private_key)
    if c.ed25519_is_private_key raw then ok (ed25519_signer key_id raw) else err value_error

  abbrev signer_of : Entry → Result KeyStoreError TokenSigner
  signer_of entry = do
    key_id ← field_of entry.key_id
    elim (entry_algorithm entry == ed25519_algorithm) [
      | true ↦ (do
        private_key ← field_of entry.private_key_b64
        lift_error bad_material (ed25519_token_signer key_id private_key))
      | false ↦ (do
        secret ← field_of entry.secret_b64
        raw ← lift_error bad_material (lift_decode (b64u_decode secret))
        ok (mock_signer key_id raw))
    ]

  abbrev signer_until : Entry → Result KeyStoreError (Option (TokenSigner × String))
  signer_until entry = do
    signer ← signer_of entry
    valid_until ← field_of entry.valid_until
    ok (some (signer, valid_until))

  unfoldable pub signer_for :
      IssuerKeyStore → KeyTuple → Result KeyStoreError (Option (TokenSigner × String))
  unfolding entry_for entry_algorithm ed25519_token_signer lift_decode
  signer_for store t = elim (entry_for store.by_tuple t) [
    | none ↦ ok none
    | some entry ↦ elim (entry_algorithm entry == rsabssa_algorithm) [
      | true ↦ ok none
      | false ↦ signer_until entry
    ]
  ]

  -- `sign(message)` of each class
  unfoldable pub sign : TokenSigner → Bytes → Bytes
  sign (ed25519_signer _ key) message = c.ed25519_sign key message
  sign (mock_signer _ secret) message = c.hmac_sha256 secret message

abbrev pub signer_key_id : TokenSigner → String
signer_key_id (ed25519_signer key_id _) = key_id
signer_key_id (mock_signer key_id _) = key_id
