-- ===== src/Crypto/Bbs/Indexes.antt =====
-- The indexes that `bbs_proof_gen` accepts (blindage/crypto/bbs.py).
use blind_age.Base.{
  ℕ, true, false, String, List, [], ◌∷◌, ◌<◌, ◌≤◌, ◌≡◌, ◌&&◌, subst, All, refl, ap, arith, length,
  map, not, ltb, &&-eq-true,
}
use blind_age.Base.Int.{ℤ, pos, negsuc, leb_ℤ}
use blind_age.Base.Result.{ok, guard, >>=-eq-ok, guard-eq-ok, ok_injective}
use blind_age.Base.Text.{Bytes}
use blind_age.Crypto.Bbs.Curve.{Curve, bbs_error}
use blind_age.Crypto.Bbs.Encoding.{octets_to_pubkey}
use blind_age.Crypto.Bbs.Blocks.{decode_text}
use blind_age.Crypto.Bbs.Proof.{octets_to_signature}
use blind_age.Crypto.Bbs.Generate.{Draws, check_indexes, bbs_proof_gen}

-- Each number is above the one before.
unfoldable pub Increasing : List ℕ → Type 0
Increasing [] = Unit
Increasing (i ∷ is) = All (λ j. i < j) is × Increasing is

Above : ℤ → ℕ → Type 0
Above prev j = leb_ℤ (pos j) prev ≡ false

weaken : {P Q : ℕ → Type 0} (js : List ℕ) → ((j : ℕ) → P j → Q j) → All P js → All Q js
weaken [] f h = tt
weaken (j ∷ js) f h = (f j h.0, weaken js f h.1)

Above-pos : (i j : ℕ) → Above (pos i) j → i < j
unfolding Above
Above-pos i j h = ground arith

Above-trans : (prev : ℤ) (i j : ℕ) → Above prev i → i < j → Above prev j
unfolding Above
Above-trans (pos p) i j h lt = ground arith
Above-trans (negsuc p) i j h lt = ground arith

not-Above : (prev : ℤ) (i : ℕ) → not (leb_ℤ (pos i) prev) ≡ true → Above prev i
unfolding Above
not-Above prev i h = ground arith

negative : (i : ℕ) → leb_ℤ (pos 0) (negsuc i) ≡ false
negative i = ground arith

below_bound : (i n : ℕ) → ltb i n ≡ true → i < n
below_bound i n h = ground arith

-- What is known of the indexes that the loop passes.
abbrev Passed : ℕ → ℤ → List ℤ → List ℕ → Type 0
Passed n prev indexes js =
    (indexes ≡ map (λ j. pos j) js) × All (λ j. j < n) js × All (Above prev) js × Increasing js

Passed-cons :
    (n : ℕ) (prev : ℤ) (i : ℕ) (is : List ℤ) (js : List ℕ)
    → i < n
    → Above prev i
    → Passed n (pos i) is js
    → Passed n prev (pos i ∷ is) (i ∷ js)
unfolding Increasing
Passed-cons n prev i is js lt up (same, below, above, increasing) =
    let greater = weaken js (Above-pos i) above in
    (
      ap (◌∷◌ (pos i)) same,
      (lt, below),
      (up, weaken js (λ j. Above-trans prev i j up) greater),
      (greater, increasing),
    )

check_indexes-Passed :
    (n : ℕ) (prev : ℤ) (indexes : List ℤ) (js : List ℕ)
    → check_indexes n prev indexes ≡ ok js
    → Passed n prev indexes js
unfolding check_indexes Increasing
check_indexes-Passed n prev [] js h = let e = ok_injective h in rw (← e) (refl, tt, tt, tt)
check_indexes-Passed n prev (negsuc i ∷ is) js h =
    let h' = rw (check_indexes, negative i) at h in cc
check_indexes-Passed n prev (pos i ∷ is) js h =
    let ranged = leb_ℤ (pos 0) (pos i) && ltb i n in
    let (_, first, h₁) = >>=-eq-ok (guard ranged bbs_error) _ h in
    let (_, second, h₂) = >>=-eq-ok (guard (not (leb_ℤ (pos i) prev)) bbs_error) _ h₁ in
    let (rest, checked, last) = >>=-eq-ok (check_indexes n (pos i) is) _ h₂ in
    let (_, lt) =
      &&-eq-true (leb_ℤ (pos 0) (pos i)) (ltb i n) ((guard-eq-ok ranged bbs_error).0 first) in
    let up = not-Above prev i ((guard-eq-ok (not (leb_ℤ (pos i) prev)) bbs_error).0 second) in
    let e : i ∷ rest ≡ js = ok_injective last in
    subst (Passed n prev (pos i ∷ is)) e (
      Passed-cons n prev i is rest (below_bound i n lt) up
        (check_indexes-Passed n (pos i) is rest checked))

few_enough : (r n : ℕ) → not (ltb n r) ≡ true → r ≤ n
few_enough r n h = ground arith

module _ (k : Curve) where
  -- When `bbs_proof_gen` returns a proof, the key decodes to a public key, the signature is a point
  -- and a scalar, and the disclosed indexes are positions of the messages in strictly increasing
  -- order, not more than the messages.
  pub bbs_proof_gen-Increasing :
      (p1 : k.G1) (public : String) (signature header ph proof : Bytes) (messages : List Bytes)
      (indexes : List ℤ) (draws : Draws)
      → bbs_proof_gen k p1 public signature header ph messages indexes draws ≡ ok proof
      → (pk_octets : Bytes) × (w : k.G2) × (parts : k.G1 × ℕ) × (js : List ℕ) × (decode_text public
          ≡ ok pk_octets)
        × (octets_to_pubkey k pk_octets ≡ ok w)
        × (octets_to_signature k signature ≡ ok parts)
        × (length indexes ≤ length messages)
        × (indexes ≡ map (λ j. pos j) js)
        × All (λ j. j < length messages) js
        × Increasing js
  unfolding bbs_proof_gen
  bbs_proof_gen-Increasing p1 public signature header ph proof messages indexes draws h =
      let count = not (ltb (length messages) (length indexes)) in
      let (pk_octets, text, h₁) = >>=-eq-ok (decode_text public) _ h in
      let (w, key, h₂) = >>=-eq-ok (octets_to_pubkey k pk_octets) _ h₁ in
      let (parts, signed, h₃) = >>=-eq-ok (octets_to_signature k signature) _ h₂ in
      let (_, few, h₄) = >>=-eq-ok (guard count bbs_error) _ h₃ in
      let (js, checked, _) = >>=-eq-ok (check_indexes (length messages) (negsuc 0) indexes) _ h₄ in
      let (same, below, _, increasing) =
        check_indexes-Passed (length messages) (negsuc 0) indexes js checked in
      (
        pk_octets,
        w,
        parts,
        js,
        text,
        key,
        signed,
        few_enough (length indexes) (length messages) ((guard-eq-ok count bbs_error).0 few),
        same,
        below,
        increasing,
      )
