-- ===== src/Registry/Store/Validity.antt =====
-- Which registries `from_dict` accepts: the loops of the code, against conditions on the whole.
use blind_age.Base.{
  String, false, List, [], ◌∷◌, ◌||◌, ◌≡◌, ◌↔◌, refl, sym, ◌∙◌, ap, arith, contains, All, not,
  string_eq,
}
use blind_age.Base.Result.{ok, guard, >>=-eq-ok}
use blind_age.Registry.Store.{
  Seen, binding_eq, duplicate_issuer_id, check_keys, check_issuers, check_collisions,
  check_registry_keys, by_id, validate_keys, validate_issuers, from_issuers,
}
use blind_age.Registry.Store.Accumulate.{
  Distinct, push_all, push_all-append, Fresh, Fresh-append, Fresh-nil,
}
use blind_age.Registry.Store.Keys.{
  bindings, signing_material, all_material, key_ids, issuer_ids, FreshKeys, check_keys_sound,
  check_keys_complete,
}
use blind_age.Schemas.Issuer.{
  IssuerKey, IssuerMetadata, registry, purpose_eq, token_keys_need_binding, purpose_beq_iff,
}

abbrev start_of : List String → Seen
start_of material = record { ids = []; tuples = []; material = material }

abbrev FreshIssuers : List String → List String → List IssuerMetadata → Type 0
FreshIssuers ids material [] = Unit
FreshIssuers ids material (i ∷ is) =
    (contains ids i.issuer_id ≡ false)
    × FreshKeys (start_of material) i.keys
    × FreshIssuers (i.issuer_id ∷ ids) (push_all material (signing_material i.keys)) is

check_issuers_sound :
    (is : List IssuerMetadata) (ids material m : List String)
    → check_issuers ids material is ≡ ok m
    → FreshIssuers ids material is × (m ≡ push_all material (all_material is))
unfolding check_issuers
check_issuers_sound [] ids material m h = (tt, ground arith)
check_issuers_sound (i ∷ is) ids material m h =
    let (_, new, rest) =
      >>=-eq-ok (guard (not (contains ids i.issuer_id)) duplicate_issuer_id) _ h in
    let (s, keys, others) = >>=-eq-ok (check_keys (start_of material) i.keys) _ rest in
    let (fresh, e) = check_keys_sound i.keys (start_of material) s keys in
    let (ih, last) =
      check_issuers_sound is (i.issuer_id ∷ ids) (push_all material (signing_material i.keys)) m
        (rw e at others) in
    (
      (ground arith, fresh, ih),
      last ∙ sym (push_all-append material (signing_material i.keys) (all_material is)),
    )

check_issuers_complete :
    (is : List IssuerMetadata) (ids material : List String)
    → FreshIssuers ids material is
    → check_issuers ids material is ≡ ok (push_all material (all_material is))
unfolding check_issuers
check_issuers_complete [] ids material h = refl
check_issuers_complete (i ∷ is) ids material h =
    rw (h.0, check_keys_complete i.keys (start_of material) h.1)
      (check_issuers_complete is (i.issuer_id ∷ ids) (push_all material (signing_material i.keys))
          h.2
        ∙ ap ok (sym (push_all-append material (signing_material i.keys) (all_material is))))

-- Every issuer's own keys repeat no identifier and no binding.
abbrev pub KeysDistinct : List IssuerMetadata → Type 0
KeysDistinct [] = Unit
KeysDistinct (i ∷ is) = (Distinct (key_ids i.keys) × Distinct (bindings i.keys)) × KeysDistinct is

FreshIssuers-iff :
    (is : List IssuerMetadata) (ids material : List String)
    → FreshIssuers ids material is
      ↔ (Fresh ids (issuer_ids is) × KeysDistinct is × Fresh material (all_material is))
FreshIssuers-iff [] ids material = (λ h. (tt, tt, tt), λ h. tt)
FreshIssuers-iff (i ∷ is) ids material =
    let ih =
      FreshIssuers-iff is (i.issuer_id ∷ ids) (push_all material (signing_material i.keys)) in
    let split = Fresh-append material (signing_material i.keys) (all_material is) in
    let own = Fresh-nil (key_ids i.keys) in
    let tuples = Fresh-nil (bindings i.keys) in
    (
      λ h.
          let (rest, keys, more) = ih.0 h.2 in
          ((h.0, rest), ((own.0 h.1.0, tuples.0 h.1.1), keys), split.1 (h.1.2, more)),
      λ h.
          let (here, more) = split.0 h.2 in
          (h.0.0, (own.1 h.1.0.0, tuples.1 h.1.0.1, here), ih.1 (h.0.1, h.1.1, more)),
    )

contains-push_all :
    (seen xs : List String) (x : String)
    → contains (push_all seen xs) x ≡ (contains xs x || contains seen x)
unfolding contains
contains-push_all seen [] x = refl
contains-push_all seen (y ∷ ys) x = contains-push_all (y ∷ seen) ys x ∙ ground arith

-- No registry key shares its material with a signing key.
abbrev pub NoCollision : List String → List IssuerKey → Type 0
NoCollision material [] = Unit
NoCollision material (k ∷ ks) =
    (k.purpose ≡ registry → contains material k.public_key ≡ false) × NoCollision material ks

abbrev pub NoCollisions : List String → List IssuerMetadata → Type 0
NoCollisions material [] = Unit
NoCollisions material (i ∷ is) = NoCollision material i.keys × NoCollisions material is

check_collisions_iff :
    (ks : List IssuerKey) (m n : List String)
    → ((x : String) → contains m x ≡ contains n x)
    → (check_collisions m ks ≡ ok tt) ↔ NoCollision n ks
unfolding check_collisions
check_collisions_iff [] m n e = (λ h. tt, λ h. refl)
check_collisions_iff (k ∷ ks) m n e =
    let ih = check_collisions_iff ks m n e in
    ground (arith, ih, e k.public_key, purpose_beq_iff k.purpose registry)

check_registry_keys_iff :
    (is : List IssuerMetadata) (m n : List String)
    → ((x : String) → contains m x ≡ contains n x)
    → (check_registry_keys m is ≡ ok tt) ↔ NoCollisions n is
unfolding check_registry_keys
check_registry_keys_iff [] m n e = (λ h. tt, λ h. refl)
check_registry_keys_iff (i ∷ is) m n e =
    let here = check_collisions_iff i.keys m n e in
    let ih = check_registry_keys_iff is m n e in
    (
      λ h.
          let (_, first, rest) = >>=-eq-ok (check_collisions m i.keys) _ h in
          (here.0 first, ih.0 rest),
      λ h. rw (here.1 h.0) (ih.1 h.1),
    )

-- Every key binds what its purpose asks for.
abbrev pub KeysBound : List IssuerMetadata → Type 0
KeysBound [] = Unit
KeysBound (i ∷ is) = All (λ k. token_keys_need_binding k ≡ ok tt) i.keys × KeysBound is

validate_keys_iff :
    (ks : List IssuerKey)
    → (validate_keys ks ≡ ok tt) ↔ All (λ k. token_keys_need_binding k ≡ ok tt) ks
unfolding validate_keys
validate_keys_iff [] = (λ h. tt, λ h. refl)
validate_keys_iff (k ∷ ks) = let ih = validate_keys_iff ks in ground (arith, ih)

validate_issuers_iff : (is : List IssuerMetadata) → (validate_issuers is ≡ ok tt) ↔ KeysBound is
unfolding validate_issuers
validate_issuers_iff [] = (λ h. tt, λ h. refl)
validate_issuers_iff (i ∷ is) =
    let here = validate_keys_iff i.keys in
    let ih = validate_issuers_iff is in
    (
      λ h. let (_, first, rest) = >>=-eq-ok (validate_keys i.keys) _ h in (here.0 first, ih.0 rest),
      λ h. rw (here.1 h.0) (ih.1 h.1),
    )

-- The conditions that a registry meets: each key binds what its purpose asks for, issuer identifiers
-- are distinct, an issuer's key identifiers and bindings are distinct, no two signing keys of the
-- registry share their material, and no registry key shares it with a signing key.
abbrev pub IsWellFormed : List IssuerMetadata → Type 0
IsWellFormed is =
    KeysBound is
    × Distinct (issuer_ids is)
    × KeysDistinct is
    × Distinct (all_material is)
    × NoCollisions (all_material is) is

contains-material :
    (is : List IssuerMetadata) (x : String)
    → contains (push_all [] (all_material is)) x ≡ contains (all_material is) x
unfolding contains
contains-material is x = let e = contains-push_all [] (all_material is) x in ground (arith, e)

-- `from_issuers` accepts a list of issuers, with the index by identifier as its result, exactly when
-- the list is well formed.
pub from_issuers-IsWellFormed :
    (is : List IssuerMetadata)
    → (from_issuers is ≡ ok (record { issuers = by_id [] is })) ↔ IsWellFormed is
unfolding from_issuers
from_issuers-IsWellFormed is =
    let bound = validate_issuers_iff is in
    let fresh = FreshIssuers-iff is [] [] in
    let own = Fresh-nil (issuer_ids is) in
    let material = Fresh-nil (all_material is) in
    let collisions =
      check_registry_keys_iff is (push_all [] (all_material is)) (all_material is)
        (contains-material is) in
    (
      λ h.
          let (_, first, rest) = >>=-eq-ok (validate_issuers is) _ h in
          let (m, second, others) = >>=-eq-ok (check_issuers [] [] is) _ rest in
          let (all_fresh, e) = check_issuers_sound is [] [] m second in
          let (_, third, _) = >>=-eq-ok (check_registry_keys m is) _ others in
          let (ids, keys, shared) = fresh.0 all_fresh in
          (bound.0 first, own.0 ids, keys, material.0 shared, collisions.0 (rw e at third)),
      λ h.
          let (keys, ids, distinct, shared, apart) = h in
          rw
            (
              bound.1 keys,
              check_issuers_complete is [] [] (fresh.1 (own.1 ids, distinct, material.1 shared)),
              collisions.1 apart,
            )
            refl,
    )
