-- ===== src/Registry/Signing/Policy.antt =====
-- The table of the hybrid policies, row by row.
use blind_age.Base.{String, true, Option, none, some, ◌≡◌, ◌↔◌, arith, refl, sym, subst}
use blind_age.Base.Result.{ok, guard, >>=-eq-ok, guard-eq-ok}
use blind_age.Canonical.{Json}
use blind_age.Crypto.Primitives.{Primitives}
use blind_age.Registry.Signing.{
  RegistryPolicy, classical_only, hybrid_preferred, hybrid_required, verify_registry_signature,
  verify_registry_mldsa, verify_registry_hybrid, check_policy, check_mldsa, mldsa_invalid,
  ed25519_invalid,
}

-- What each policy asks of the ML-DSA signature.
abbrev pub SatisfiesPolicy :
    Primitives → Json → RegistryPolicy → (signature key : Option String) → Type 0
SatisfiesPolicy c data_ classical_only signature key = Unit
SatisfiesPolicy c data_ hybrid_preferred signature key =
    (k : String)
    → key ≡ some k
    → (s : String) × (signature ≡ some s) × (verify_registry_mldsa c data_ s k ≡ true)
SatisfiesPolicy c data_ hybrid_required signature key =
    (k : String) × (key ≡ some k)
    × (s : String) × (signature ≡ some s)
    × (verify_registry_mldsa c data_ s k ≡ true)

some_injective : {x y : String} → some x ≡ some y → x ≡ y
some_injective e = cc

check_mldsa_iff :
    (c : Primitives) (data_ : Json) (signature : Option String) (k : String)
    → (check_mldsa c data_ signature k ≡ ok tt)
      ↔ ((s : String) × (signature ≡ some s) × (verify_registry_mldsa c data_ s k ≡ true))
unfolding check_mldsa
check_mldsa_iff c data_ none k = ground arith
check_mldsa_iff c data_ (some s) k =
    let test = guard-eq-ok (verify_registry_mldsa c data_ s k) mldsa_invalid in
    (
      λ h. (s, refl, test.0 h),
      λ h.
          let (x, e, verified) = h in
          test.1 (
            subst (λ y. verify_registry_mldsa c data_ y k ≡ true) (sym (some_injective e))
              verified),
    )

check_policy_iff :
    (c : Primitives) (policy : RegistryPolicy) (data_ : Json) (signature key : Option String)
    → (check_policy c policy data_ signature key ≡ ok tt)
      ↔ SatisfiesPolicy c data_ policy signature key
unfolding check_policy
check_policy_iff c classical_only data_ signature key = (λ h. tt, λ h. refl)
check_policy_iff c hybrid_required data_ signature none = (λ h. ground arith, λ h. ground arith)
check_policy_iff c hybrid_preferred data_ signature none = (λ h k e. ground arith, λ h. refl)
check_policy_iff c hybrid_required data_ signature (some key) =
    let pq = check_mldsa_iff c data_ signature key in
    (
      λ h. let (s, present, verified) = pq.0 h in (key, refl, s, present, verified),
      λ h.
          let (k, e, s, present, verified) = h in
          pq.1 (
            s,
            present,
            subst (λ y. verify_registry_mldsa c data_ s y ≡ true) (sym (some_injective e)) verified,
          ),
    )
check_policy_iff c hybrid_preferred data_ signature (some key) =
    let pq = check_mldsa_iff c data_ signature key in
    (
      λ h k e.
          subst
            (λ y. (s : String) × (signature ≡ some s) × (verify_registry_mldsa c data_ s y ≡ true))
            (some_injective e) (pq.0 h),
      λ h. pq.1 (h key refl),
    )

-- `verify_registry_hybrid` returns exactly when the Ed25519 signature verifies and the ML-DSA
-- signature is what the policy asks for: nothing for classical-only, a verified one under a pinned
-- key for hybrid-required, and for hybrid-preferred a verified one where a key is pinned.
pub verify_registry_hybrid-SatisfiesPolicy :
    (c : Primitives) (data_ : Json)
    → (ed_signature ed_public_key : String) (mldsa_signature mldsa_public_key : Option String)
    → (policy : RegistryPolicy)
    → (verify_registry_hybrid c data_ ed_signature ed_public_key mldsa_signature mldsa_public_key
          policy
        ≡ ok tt)
      ↔ ((verify_registry_signature c data_ ed_signature ed_public_key ≡ true)
          × SatisfiesPolicy c data_ policy mldsa_signature mldsa_public_key)
unfolding verify_registry_hybrid
verify_registry_hybrid-SatisfiesPolicy c data_ ed_signature ed_public_key signature key policy =
    let first =
      guard-eq-ok (verify_registry_signature c data_ ed_signature ed_public_key) ed25519_invalid in
    let second = check_policy_iff c policy data_ signature key in
    (
      λ h.
          let (_, here, rest) =
            >>=-eq-ok
              (guard (verify_registry_signature c data_ ed_signature ed_public_key) ed25519_invalid)
              _ h in
          (first.0 here, second.0 rest),
      λ h. rw (h.0) (second.1 h.1),
    )
