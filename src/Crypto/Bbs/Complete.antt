-- ===== src/Crypto/Bbs/Complete.antt =====
-- What `bbs_sign` returns verifies (blindage/crypto/bbs.py).
use blind_age.Base.{
  ℕ, zero, suc, Bool, true, false, some, List, [], ◌∷◌, ◌++◌, ◌+◌, ◌*◌, ◌%◌, ◌<◌, ◌≡◌, ◌≢◌, ◌∙◌,
  All, refl, sym, ap, arith, length, nat_beq, leb, not, ◌||◌, length-append, take-append,
  drop-append, find-holds, nat_beq_iff,
}
use native.Mathlib.Nat.{mul_comm, mod-lt}
use blind_age.Base.Result.{ok, present, guard, >>=-eq-ok, guard-eq-ok, present-eq-ok, ok_injective}
use blind_age.Base.Residues.{mod-mul-mod}
use blind_age.Base.Text.{Bytes}
use blind_age.Crypto.Octets.{os2ip}
use blind_age.Crypto.Rsabssa.{mod_inverse}
use blind_age.Crypto.Bbs.Curve.{Curve, bbs_error, not_invertible}
use blind_age.Crypto.Bbs.Group.{
  CurveLaws, InSubgroup, add-InSubgroup, multiply-InSubgroup, multiply_inverse,
}
use blind_age.Crypto.Bbs.Encoding.{
  h2s_dst, octet_scalar_length, octet_point_length, generator_dst, seed_dst, expand_len,
  generator_seed, to_octets, point_to_octets, octets_to_point,
}
use blind_age.Crypto.Bbs.Blocks.{
  generators_from, create_generators, first_and_rest, message_generators, weighted, b_value,
  calculate_domain, messages_to_scalars, hash_to_scalar, concat_octets,
}
use blind_age.Crypto.Bbs.Keys.{to_octets_lem}
use blind_age.Crypto.Bbs.Sign.{
  scalar_octets, commit, signature_scalar, signature_point, split_signature, pairing_holds,
  verify_parts,
}

pub mod_inverse-holds : (r n : ℕ) {inv : ℕ} → mod_inverse r n ≡ some inv → r * inv % n ≡ 1 % n
unfolding mod_inverse
mod_inverse-holds r n {inv} h =
    let p = λ (x : ℕ). nat_beq (r * x % n) (1 % n) in
    let found = find-holds p _ h in (nat_beq_iff (r * inv % n) (1 % n)).0 found

not-true : (b : Bool) → not b ≡ true → b ≡ false
not-true b h = ground arith

module _ (k : Curve) (laws : CurveLaws k) where
  open k use {
    G1, G2, curve_order, add, multiply, is_inf, generator_g2, add_g2, multiply_g2, neg_g2, pairing,
    times, is_one, hash_to_g1, expand_message_xmd, compress, decompress,
  }

  abbrev AllInSubgroup : List G1 → Type 0
  AllInSubgroup = All (InSubgroup k laws)

  generators_from-AllInSubgroup :
      (rounds i : ℕ) (v : Bytes) (points : List G1)
      → generators_from k rounds i v ≡ ok points
      → AllInSubgroup points
  unfolding generators_from
  generators_from-AllInSubgroup zero i v points h = let e = ok_injective h in rw (← e) tt
  generators_from-AllInSubgroup (suc rounds) i v points h =
      let (octets, first, rest) = >>=-eq-ok (to_octets i 8) _ h in
      let v' = expand_message_xmd (v ++ octets) seed_dst expand_len in
      let (others, second, last) = >>=-eq-ok (generators_from k rounds (suc i) v') _ rest in
      let e = ok_injective last in
      let ih = generators_from-AllInSubgroup rounds (suc i) v' others second in
      rw (← e) (laws.hash_order v' generator_dst, ih)

  split_orders :
      (generators : List G1) (q_1 : G1) (points : List G1)
      → AllInSubgroup generators
      → first_and_rest k generators ≡ ok (q_1, points)
      → InSubgroup k laws q_1 × AllInSubgroup points
  split_orders [] q_1 points orders h = cc
  split_orders (g ∷ gs) q_1 points orders h =
      let same : ◌≡◌ {A = G1 × List G1} (g, gs) (q_1, points) = ok_injective h in
      (rw (← ap (λ p. p.0) same) orders.0, rw (← ap (λ p. p.1) same) orders.1)

  -- Every generator lies in the subgroup.
  pub message_generators-AllInSubgroup :
      (count : ℕ) (q_1 : G1) (points : List G1)
      → message_generators k count ≡ ok (q_1, points)
      → InSubgroup k laws q_1 × AllInSubgroup points
  unfolding message_generators create_generators
  message_generators-AllInSubgroup count q_1 points h =
      let v = expand_message_xmd generator_seed seed_dst expand_len in
      let (generators, first, rest) = >>=-eq-ok (generators_from k (suc count) 1 v) _ h in
      let orders = generators_from-AllInSubgroup (suc count) 1 v generators first in
      split_orders generators q_1 points orders rest

  pub weighted-InSubgroup :
      (b : G1) (points : List G1) (scalars : List ℕ)
      → InSubgroup k laws b
      → AllInSubgroup points
      → InSubgroup k laws (weighted k b points scalars)
  unfolding weighted
  weighted-InSubgroup b [] scalars h hs = h
  weighted-InSubgroup b (p ∷ ps) [] h hs = h
  weighted-InSubgroup b (p ∷ ps) (m ∷ ms) h hs =
      weighted-InSubgroup (add b (multiply p m)) ps ms
        (add-InSubgroup k laws b (multiply p m) h (multiply-InSubgroup k laws p m hs.0)) hs.1

  -- B lies in the subgroup when P1 does.
  pub commit-InSubgroup :
      (p1 : G1) (pk_octets header : Bytes) (scalars : List ℕ) (domain : ℕ) (b : G1)
      → InSubgroup k laws p1
      → commit k p1 pk_octets header scalars ≡ ok (domain, b)
      → InSubgroup k laws b
  unfolding commit b_value
  commit-InSubgroup p1 pk_octets header scalars domain b order h =
      let (generators, first, rest) = >>=-eq-ok (message_generators k (length scalars)) _ h in
      let q_1 = generators.0 in
      let points = generators.1 in
      let (d, second, last) = >>=-eq-ok (calculate_domain k pk_octets q_1 points header) _ rest in
      let (first_order, orders) =
        message_generators-AllInSubgroup (length scalars) q_1 points first in
      let start = add p1 (multiply q_1 d) in
      let same : ◌≡◌ {A = ℕ × G1} (d, weighted k start points scalars) (domain, b) =
        ok_injective last in
      rw (← ap (λ p. p.1) same) (
        weighted-InSubgroup start points scalars
          (add-InSubgroup k laws p1 (multiply q_1 d) order
            (multiply-InSubgroup k laws q_1 d first_order))
          orders)

  -- The pairing equation of a signature: A times SK + e is B.
  pairing_holds-multiple :
      (sk e : ℕ) (a_point b : G1)
      → multiply a_point (sk + e) ≡ b
      → pairing_holds k (multiply_g2 generator_g2 sk) e a_point b ≡ true
  unfolding pairing_holds
  pairing_holds-multiple sk e a_point b h =
      rw
        (
          pairing_holds,
          laws.generator_sum sk e,
          laws.pairing_multiply generator_g2 a_point (sk + e),
          h,
        )
        (laws.pairing_neg generator_g2 b)

  -- A signature point is in the subgroup, not the identity, and satisfies the equation.
  signature_point_lem :
      (sk e : ℕ) (b a_point : G1)
      → InSubgroup k laws b
      → signature_point k sk e b ≡ ok a_point
      → InSubgroup k laws a_point × (is_inf a_point ≡ false) × (multiply a_point (sk + e) ≡ b)
  unfolding signature_point
  signature_point_lem sk e b a_point order h =
      let s = (sk + e) % curve_order in
      let (inv, first, rest) = >>=-eq-ok (present (mod_inverse s curve_order) not_invertible) _ h in
      let (_, second, last) = >>=-eq-ok (guard (not (is_inf (multiply b inv))) bbs_error) _ rest in
      let same : multiply b inv ≡ a_point = ok_injective last in
      let inverse =
        mod_inverse-holds s curve_order
          (present-eq-ok (mod_inverse s curve_order) not_invertible first) in
      let undone : multiply (multiply b inv) (sk + e) ≡ b =
        multiply_inverse k laws b inv (sk + e) order (
          ap (λ x. x % curve_order) (mul_comm inv (sk + e))
          ∙ sym (mod-mul-mod (sk + e) inv curve_order)
          ∙ inverse) in
      let proper =
        not-true (is_inf (multiply b inv))
          ((guard-eq-ok (not (is_inf (multiply b inv))) bbs_error).0 second) in
      rw (← same) (multiply-InSubgroup k laws b inv order, proper, undone)

  -- The octets of a point of the subgroup and of a scalar are split into the two.
  pub split_signature-octets :
      (a_point : G1) (e : ℕ) (first last : Bytes)
      → InSubgroup k laws a_point
      → point_to_octets k a_point ≡ ok first
      → scalar_octets e ≡ ok last
      → split_signature k (first ++ last) ≡ ok (a_point, e)
  unfolding split_signature point_to_octets octets_to_point
  split_signature-octets a_point e first last order h h' =
      let (value, size, _) = to_octets_lem (compress a_point) octet_point_length first h in
      let (value', size', _) = to_octets_lem e octet_scalar_length last h' in
      let total : length (first ++ last) ≡ 80 = length-append first last ∙ rw (size, size') refl in
      rw
        (
          total,
          take-append first last octet_point_length size,
          drop-append first last octet_point_length size,
          size,
          value,
          value',
          laws.decompress_compress a_point,
          order,
        )
        refl

  pub hash_to_scalar-below :
      (message dst : Bytes) (e : ℕ)
      → 0 < curve_order
      → hash_to_scalar k message dst ≡ ok e
      → e < curve_order
  unfolding hash_to_scalar
  hash_to_scalar-below message dst e positive h =
      let octets = expand_message_xmd message dst expand_len in
      let (_, _, last) = >>=-eq-ok (guard (leb (length dst) 255) bbs_error) _ h in
      let same : os2ip octets % curve_order ≡ e = ok_injective last in
      rw (← same) (mod-lt (os2ip octets) positive)

  signature_scalar-below :
      (sk : ℕ) (scalars : List ℕ) (domain e : ℕ)
      → 0 < curve_order
      → signature_scalar k sk scalars domain ≡ ok e
      → e < curve_order
  unfolding signature_scalar
  signature_scalar-below sk scalars domain e positive h =
      let (first, _, h₁) = >>=-eq-ok (scalar_octets sk) _ h in
      let (middle, _, h₂) = >>=-eq-ok (concat_octets scalar_octets scalars) _ h₁ in
      let (last, _, h₃) = >>=-eq-ok (scalar_octets domain) _ h₂ in
      hash_to_scalar-below (first ++ middle ++ last) h2s_dst e positive h₃

  judged :
      (e : ℕ) (inf : Bool)
      → e ≢ 0
      → e < curve_order
      → inf ≡ false
      → (nat_beq e 0 || leb curve_order e || inf) ≡ false
  judged e inf h lt proper = ground arith

  -- The rest of `bbs_verify` accepts what the steps of `bbs_sign` made.
  pub verify_parts-signed :
      (p1 : G1) (pk_octets header : Bytes) (messages : List Bytes) (sk : ℕ) (scalars : List ℕ)
      (domain e : ℕ) (b a_point : G1)
      → InSubgroup k laws p1
      → 0 < curve_order
      → e ≢ 0
      → messages_to_scalars k messages ≡ ok scalars
      → commit k p1 pk_octets header scalars ≡ ok (domain, b)
      → signature_scalar k sk scalars domain ≡ ok e
      → signature_point k sk e b ≡ ok a_point
      → InSubgroup k laws a_point
        × (verify_parts k p1 pk_octets (multiply_g2 generator_g2 sk) header messages (a_point, e)
            ≡ ok true)
  unfolding verify_parts
  verify_parts-signed p1 pk_octets header messages sk scalars domain e b a_point order positive
        nonzero mapped committed hashed signed =
      let b_order = commit-InSubgroup p1 pk_octets header scalars domain b order committed in
      let (a_order, proper, multiple) = signature_point_lem sk e b a_point b_order signed in
      let lt = signature_scalar-below sk scalars domain e positive hashed in
      let accepted = judged e (is_inf a_point) nonzero lt proper in
      (
        a_order,
        rw
            (
              verify_parts,
              accepted,
              mapped,
              committed,
              pairing_holds-multiple sk e a_point b multiple,
            )
            refl,
      )
