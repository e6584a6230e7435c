-- ===== src/Registry/Store/Keys.antt =====
-- The loop of `from_dict` over the keys of one issuer.
use blind_age.Base.{
  String, false, List, [], ◌∷◌, ◌++◌, ◌≡◌, ◌↔◌, refl, ◌∙◌, arith, contains, not, string_eq,
}
use blind_age.Base.Result.{Result, ok, guard, ◌>>◌, >>=-eq-ok}
use blind_age.Registry.Store.{
  RegistryError, duplicate_key_id, Binding, binding, binding_eq, Seen, check_material,
  check_binding, check_purpose, check_keys,
}
use blind_age.Registry.Store.Accumulate.{push_all, Fresh}
use blind_age.Schemas.Issuer.{
  IssuerKey, IssuerMetadata, Purpose, token_signing, vc_signing, registry, purpose_eq,
}

-- What the keys of an issuer contribute, key by key.
abbrev pub binding_of : Purpose → IssuerKey → List Binding → List Binding
binding_of token_signing k bs = binding k ∷ bs
binding_of vc_signing k bs = bs
binding_of registry k bs = bs

abbrev pub bindings : List IssuerKey → List Binding
bindings [] = []
bindings (k ∷ ks) = binding_of k.purpose k (bindings ks)

abbrev pub material_of : Purpose → IssuerKey → List String → List String
material_of token_signing k ms = k.public_key ∷ ms
material_of vc_signing k ms = k.public_key ∷ ms
material_of registry k ms = ms

-- The public keys that sign tokens or credentials.
abbrev pub signing_material : List IssuerKey → List String
signing_material [] = []
signing_material (k ∷ ks) = material_of k.purpose k (signing_material ks)

abbrev pub all_material : List IssuerMetadata → List String
all_material [] = []
all_material (i ∷ is) = signing_material i.keys ++ all_material is

abbrev pub key_ids : List IssuerKey → List String
key_ids [] = []
key_ids (k ∷ ks) = k.key_id ∷ key_ids ks

abbrev pub issuer_ids : List IssuerMetadata → List String
issuer_ids [] = []
issuer_ids (i ∷ is) = i.issuer_id ∷ issuer_ids is

-- The keys `k ∷ ks` with `p` for the purpose of `k`.
abbrev FreshAt : Purpose → Seen → IssuerKey → List IssuerKey → Type 0
FreshAt p s k ks =
    Fresh s.ids (k.key_id ∷ key_ids ks)
    × Fresh s.tuples (binding_of p k (bindings ks))
    × Fresh s.material (material_of p k (signing_material ks))

abbrev pub FreshKeys : Seen → List IssuerKey → Type 0
FreshKeys s ks =
    Fresh s.ids (key_ids ks) × Fresh s.tuples (bindings ks) × Fresh s.material (signing_material ks)

abbrev pub after_keys : Seen → List IssuerKey → Seen
after_keys s ks = record {
  ids = push_all s.ids (key_ids ks);
  tuples = push_all s.tuples (bindings ks);
  material = push_all s.material (signing_material ks);
}

-- What one key of a purpose adds to the sets, and the tests that it must pass.
abbrev next : Purpose → Seen → IssuerKey → Seen
next token_signing s k = record {
  ids = k.key_id ∷ s.ids;
  tuples = binding k ∷ s.tuples;
  material = k.public_key ∷ s.material;
}
next vc_signing s k = record s { ids = k.key_id ∷ s.ids; material = k.public_key ∷ s.material }
next registry s k = record s { ids = k.key_id ∷ s.ids }

abbrev Passes : Purpose → Seen → IssuerKey → Type 0
Passes token_signing s k =
    (contains s.ids k.key_id ≡ false)
    × (contains s.tuples (binding k) ≡ false)
    × (contains s.material k.public_key ≡ false)
Passes vc_signing s k =
    (contains s.ids k.key_id ≡ false) × (contains s.material k.public_key ≡ false) × Unit {0}
Passes registry s k = (contains s.ids k.key_id ≡ false) × Unit {0} × Unit {0}

abbrev key_result : Purpose → Seen → IssuerKey → Result RegistryError Seen
key_result p s k =
    unfold check_purpose check_material check_binding in
    do
      guard (not (contains s.ids k.key_id)) duplicate_key_id
      check_purpose p (record s { ids = k.key_id ∷ s.ids }) k

key_result-eq-ok :
    (p : Purpose) (s : Seen) (k : IssuerKey) {t : Seen}
    → key_result p s k ≡ ok t
    → Passes p s k × (t ≡ next p s k)
unfolding check_purpose check_binding check_material
key_result-eq-ok token_signing s k h = ground arith
key_result-eq-ok vc_signing s k h = ground arith
key_result-eq-ok registry s k h = ground arith

key_result_ok :
    (p : Purpose) (s : Seen) (k : IssuerKey) → Passes p s k → key_result p s k ≡ ok (next p s k)
unfolding check_purpose check_binding check_material
key_result_ok token_signing s k h = ground arith
key_result_ok vc_signing s k h = ground arith
key_result_ok registry s k h = ground arith

FreshAt-iff :
    (p : Purpose) (s : Seen) (k : IssuerKey) (ks : List IssuerKey)
    → FreshAt p s k ks ↔ (Passes p s k × FreshKeys (next p s k) ks)
FreshAt-iff token_signing s k ks = (
  λ h. ((h.0.0, h.1.0, h.2.0), (h.0.1, h.1.1, h.2.1)),
  λ h. ((h.0.0, h.1.0), (h.0.1, h.1.1), (h.0.2, h.1.2)),
)
FreshAt-iff vc_signing s k ks =
    (λ h. ((h.0.0, h.2.0, tt), (h.0.1, h.1, h.2.1)), λ h. ((h.0.0, h.1.0), h.1.1, (h.0.1, h.1.2)))
FreshAt-iff registry s k ks =
    (λ h. ((h.0.0, tt, tt), (h.0.1, h.1, h.2)), λ h. ((h.0.0, h.1.0), h.1.1, h.1.2))

abbrev after_at : Purpose → Seen → IssuerKey → List IssuerKey → Seen
after_at p s k ks = record {
  ids = push_all s.ids (k.key_id ∷ key_ids ks);
  tuples = push_all s.tuples (binding_of p k (bindings ks));
  material = push_all s.material (material_of p k (signing_material ks));
}

after-next :
    (p : Purpose) (s : Seen) (k : IssuerKey) (ks : List IssuerKey)
    → after_keys (next p s k) ks ≡ after_at p s k ks
after-next token_signing s k ks = refl
after-next vc_signing s k ks = refl
after-next registry s k ks = refl

pub check_keys_sound :
    (ks : List IssuerKey) (s t : Seen)
    → check_keys s ks ≡ ok t
    → FreshKeys s ks × (t ≡ after_keys s ks)
unfolding check_keys
check_keys_sound [] s t h = ((tt, tt, tt), ground arith)
check_keys_sound (k ∷ ks) s t h =
    let (s', here, rest) = >>=-eq-ok (key_result k.purpose s k) (λ u. check_keys u ks) h in
    let (passes, e) = key_result-eq-ok k.purpose s k here in
    let (fresh, last) = check_keys_sound ks (next k.purpose s k) t (rw e at rest) in
    ((FreshAt-iff k.purpose s k ks).1 (passes, fresh), last ∙ after-next k.purpose s k ks)

pub check_keys_complete :
    (ks : List IssuerKey) (s : Seen) → FreshKeys s ks → check_keys s ks ≡ ok (after_keys s ks)
unfolding check_keys
check_keys_complete [] s h = refl
check_keys_complete (k ∷ ks) s h =
    let (passes, fresh) = (FreshAt-iff k.purpose s k ks).0 h in
    rw (key_result_ok k.purpose s k passes, ← after-next k.purpose s k ks)
      (check_keys_complete ks (next k.purpose s k) fresh)
