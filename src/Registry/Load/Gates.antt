-- ===== src/Registry/Load/Gates.antt =====
-- What a registry that loads has passed.
use blind_age.Base.{
  String, true, false, Option, none, some, ◌==◌, ◌≡◌, list_eq, nat_eq, arith, Bool-cases, inl, inr,
  ap, sym, refl, ◌⊎◌,
}
use blind_age.Base.Equality.{list_beq_iff}
use blind_age.Base.Result.{
  ok, present, present-eq-ok, lift_error-eq-ok, ok_injective, >>=-eq-ok, guard-eq-ok,
}
use blind_age.Canonical.{Json}
use blind_age.Crypto.Primitives.{Primitives}
use blind_age.Registry.Load.{
  Environment, Arguments, Anchor, no_anchor, anchored, load, check_signatures, check_anchor,
  registry_keccak, FileText, text, missing, undecodable, read_file, check_hybrid, malformed_json,
  contents, bad_signature, hybrid_error, hybrid_engaged, anchor_mismatch, read_mldsa_signature,
}
use blind_age.Registry.Signing.{
  RegistryPolicy, classical_only, hybrid_preferred, hybrid_required, verify_registry_signature,
}
use blind_age.Registry.Signing.Policy.{SatisfiesPolicy, verify_registry_hybrid-SatisfiesPolicy}
use blind_age.Registry.Store.{TrustRegistry, from_dict}

-- The anchor, where there is one, was read and holds the hash of the data.
abbrev pub MatchesAnchor : Environment → Primitives → Anchor → Json → Type 0
MatchesAnchor v c no_anchor data_ = Unit
MatchesAnchor v c (anchored onchain) data_ = onchain ≡ some (registry_keccak v c data_)

check_anchor-MatchesAnchor :
    (v : Environment) (c : Primitives) (anchor : Anchor) (data_ : Json)
    → check_anchor v c anchor data_ ≡ ok tt
    → MatchesAnchor v c anchor data_
unfolding check_anchor
check_anchor-MatchesAnchor v c no_anchor data_ h = tt
check_anchor-MatchesAnchor v c (anchored none) data_ h = cc
check_anchor-MatchesAnchor v c (anchored (some onchain)) data_ h =
    let same = (guard-eq-ok (registry_keccak v c data_ == onchain) anchor_mismatch).0 h in
    ap some (sym ((list_beq_iff (registry_keccak v c data_) onchain).0 same))

unengaged :
    (policy : RegistryPolicy) (key : Option String)
    → hybrid_engaged policy key ≡ false
    → (policy ≡ classical_only) × (key ≡ none)
unfolding hybrid_engaged
unengaged classical_only none h = (refl, refl)
unengaged classical_only (some key) h = cc
unengaged hybrid_preferred key h = absurd (ground arith)
unengaged hybrid_required key h = absurd (ground arith)

read_file-eq-ok : (f : FileText) {t : String} → read_file f ≡ ok t → f ≡ text t
unfolding read_file
read_file-eq-ok (text s) h = ap text (ok_injective h)
read_file-eq-ok missing h = cc
read_file-eq-ok undecodable h = cc

-- Without a policy or a key for ML-DSA only the Ed25519 signature counts; else the ML-DSA signature
-- was read, or its file is missing, and is what the policy asks for.

abbrev pub SignaturesPass : Environment → Primitives → Arguments → Json → String → Type 0
SignaturesPass v c a data_ signature =
    (verify_registry_signature c data_ signature a.root_public_key ≡ true)
    × (((a.policy ≡ classical_only) × (a.mldsa_root_public_key ≡ none))
        ⊎ ((pq : Option String) × (read_mldsa_signature v c a.mldsa_signature_path ≡ ok pq)
            × SatisfiesPolicy c data_ a.policy pq a.mldsa_root_public_key))

check_signatures-SignaturesPass :
    (v : Environment) (c : Primitives) (a : Arguments) (data_ : Json) (signature : String)
    → check_signatures v c a data_ signature ≡ ok tt
    → SignaturesPass v c a data_ signature
unfolding check_signatures check_hybrid
check_signatures-SignaturesPass v c a data_ signature h =
    let pinned = a.mldsa_root_public_key in
    let ed = verify_registry_signature c data_ signature a.root_public_key in
    elim (Bool-cases (hybrid_engaged a.policy pinned)) [
      | inl e ↦
          let (pq, found, passed) =
            >>=-eq-ok (read_mldsa_signature v c a.mldsa_signature_path) _
              (rw (check_signatures, e) at h) in
          let (verified, satisfied) =
            (verify_registry_hybrid-SatisfiesPolicy c data_ signature a.root_public_key pq pinned
                a.policy).0
              (lift_error-eq-ok hybrid_error _ passed) in
          (verified, inr (pq, found, satisfied))
      | inr e ↦ (
        (guard-eq-ok ed bad_signature).0 (rw (check_signatures, e) at h),
        inl (unengaged a.policy pinned e),
      )
    ]

-- A registry that `load` returns was read from files that exist and parse; the Ed25519 signature
-- verifies over the parsed data under the root key, the ML-DSA signature is what the policy asks
-- for, unless neither the policy nor a pinned key asks for one, the anchor, where one is given, was available and matches, and `from_dict` accepts the data.
pub load-passes :
    (v : Environment) (c : Primitives) (a : Arguments) (anchor : Anchor) (r : TrustRegistry)
    → load v c a anchor ≡ ok r
    → (source : String) × (v.read_text a.registry_path ≡ text source)
      × (data_ : Json) × (v.parse source ≡ some data_)
      × (signature : String) × (v.read_text a.signature_path ≡ text signature)
      × SignaturesPass v c a data_ (v.strip signature)
      × MatchesAnchor v c anchor data_
      × (from_dict (v.fields data_) ≡ ok r)
unfolding load
load-passes v c a anchor r h =
    let (source, first, h₁) = >>=-eq-ok (read_file (v.read_text a.registry_path)) _ h in
    let (data_, second, h₂) = >>=-eq-ok (present (v.parse source) malformed_json) _ h₁ in
    let (signature, third, h₃) = >>=-eq-ok (read_file (v.read_text a.signature_path)) _ h₂ in
    let (_, fourth, h₄) = >>=-eq-ok (check_signatures v c a data_ (v.strip signature)) _ h₃ in
    let (_, fifth, sixth) = >>=-eq-ok (check_anchor v c anchor data_) _ h₄ in
    (
      source,
      read_file-eq-ok _ first,
      data_,
      present-eq-ok _ _ second,
      signature,
      read_file-eq-ok _ third,
      check_signatures-SignaturesPass v c a data_ (v.strip signature) fourth,
      check_anchor-MatchesAnchor v c anchor data_ fifth,
      lift_error-eq-ok contents _ sixth,
    )
