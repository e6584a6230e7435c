-- ===== src/Crypto/Bbs/Group.antt =====
-- What is documented of BLS12-381 and its pairing, and the subgroup of prime order.
use blind_age.Base.{ℕ, true, false, some, ◌+◌, ◌*◌, ◌/◌, ◌%◌, ◌<◌, ◌≡◌, ◌∙◌, sym, ap}
use native.Mathlib.Nat.{mul_comm, div-add-mod}
use blind_age.Base.Text.{Bytes}
use blind_age.Crypto.Bbs.Curve.{Curve}

-- Scalar multiplication, the identity, the cofactor-cleared hash, compression, and a pairing that is
-- linear on both sides. `generator_g2` has order `curve_order`.
pub record CurveLaws (k : Curve) : Type 0 where
  pub multiply_one : (p : k.G1) → k.multiply p 1 ≡ p
  pub multiply_multiply :
      (p : k.G1) (a b : ℕ) → k.multiply (k.multiply p a) b ≡ k.multiply p (a * b)
  pub multiply_sum :
      (p : k.G1) (a b : ℕ) → k.multiply p (a + b) ≡ k.add (k.multiply p a) (k.multiply p b)
  pub multiply_add :
      (p q : k.G1) (a : ℕ) → k.multiply (k.add p q) a ≡ k.add (k.multiply p a) (k.multiply q a)
  pub add_inf : (p q : k.G1) → k.is_inf p ≡ true → k.add p q ≡ q
  pub multiply_inf : (p : k.G1) (a : ℕ) → k.is_inf p ≡ true → k.is_inf (k.multiply p a) ≡ true
  pub hash_order :
      (message dst : Bytes) → k.is_inf (k.multiply (k.hash_to_g1 message dst) k.curve_order) ≡ true
  pub decompress_compress : (p : k.G1) → k.decompress (k.compress p) ≡ some p
  pub decompress_compress_g2 :
      (q : k.G2) → let (c0, c1) = k.compress_g2 q in k.decompress_g2 c0 c1 ≡ some q
  pub generator_sum :
      (a b : ℕ)
      → k.add_g2 (k.multiply_g2 k.generator_g2 a) (k.multiply_g2 k.generator_g2 b)
        ≡ k.multiply_g2 k.generator_g2 (a + b)
  pub generator_order :
      (a : ℕ) → k.is_inf_g2 (k.multiply_g2 (k.multiply_g2 k.generator_g2 a) k.curve_order) ≡ true
  pub generator_multiple :
      (a : ℕ) → 0 < a → a < k.curve_order → k.is_inf_g2 (k.multiply_g2 k.generator_g2 a) ≡ false
  pub pairing_multiply :
      (q : k.G2) (p : k.G1) (a : ℕ) → k.pairing (k.multiply_g2 q a) p ≡ k.pairing q (k.multiply p a)
  pub pairing_neg :
      (q : k.G2) (p : k.G1) → k.is_one (k.times (k.pairing q p) (k.pairing (k.neg_g2 q) p)) ≡ true

module _ (k : Curve) (laws : CurveLaws k) where
  open k use {G1, curve_order, add, multiply, is_inf}
  open laws use {multiply_one, multiply_multiply, multiply_sum, multiply_add, add_inf, multiply_inf}

  -- The points of the subgroup of order `curve_order`.
  abbrev pub InSubgroup : G1 → Type 0
  InSubgroup p = is_inf (multiply p curve_order) ≡ true

  pub add-InSubgroup : (p q : G1) → InSubgroup p → InSubgroup q → InSubgroup (add p q)
  add-InSubgroup p q h h' =
      rw (multiply_add p q curve_order, add_inf (multiply p curve_order) (multiply q curve_order) h)
        h'

  pub multiply-InSubgroup : (p : G1) (a : ℕ) → InSubgroup p → InSubgroup (multiply p a)
  multiply-InSubgroup p a h =
      let swapped =
        multiply_multiply p a curve_order
        ∙ ap (multiply p) (mul_comm a curve_order)
        ∙ sym (multiply_multiply p curve_order a) in
      rw swapped (multiply_inf (multiply p curve_order) a h)

  -- In the subgroup a scalar counts modulo the order.
  pub multiply-mod : (p : G1) (a : ℕ) → InSubgroup p → multiply p (a % curve_order) ≡ multiply p a
  multiply-mod p a h =
      let whole = multiply p curve_order in
      let times = a / curve_order in
      let split =
        ap (multiply p) (sym (div-add-mod a curve_order))
        ∙ multiply_sum p (curve_order * times) (a % curve_order) in
      let gone =
        add_inf (multiply p (curve_order * times)) (multiply p (a % curve_order))
          (rw (← multiply_multiply p curve_order times) (multiply_inf whole times h)) in
      sym (split ∙ gone)

  -- Scalars that agree modulo the order give the same multiple.
  pub multiply_congruent :
      (p : G1) (a b : ℕ)
      → InSubgroup p
      → a % curve_order ≡ b % curve_order
      → multiply p a ≡ multiply p b
  multiply_congruent p a b h e = sym (multiply-mod p a h) ∙ ap (multiply p) e ∙ multiply-mod p b h

  -- Multiplying by an inverse undoes a multiplication.
  pub multiply_inverse :
      (p : G1) (a b : ℕ)
      → InSubgroup p
      → a * b % curve_order ≡ 1 % curve_order
      → multiply (multiply p a) b ≡ p
  multiply_inverse p a b h e =
      multiply_multiply p a b ∙ multiply_congruent p (a * b) 1 h e ∙ multiply_one p
