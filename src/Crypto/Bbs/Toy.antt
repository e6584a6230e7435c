-- ===== src/Crypto/Bbs/Toy.antt =====
-- A curve of three points, which has the documented laws.
use blind_age.Base.{
  ℕ, zero, suc, ◌+◌, ◌*◌, ◌<◌, Bool, true, false, Option, none, some, [], ◌∷◌, ◌≡◌, ◌∙◌, refl, sym,
  ap, arith,
}
use blind_age.Crypto.Bbs.Curve.{Curve}
use blind_age.Crypto.Bbs.Group.{CurveLaws}

pub data Three : Type 0 where
  z0 z1 z2 : Three

abbrev next : Three → Three
next z0 = z1
next z1 = z2
next z2 = z0

abbrev plus : Three → Three → Three
plus z0 q = q
plus z1 q = next q
plus z2 q = next (next q)

abbrev scale : Three → ℕ → Three
scale p zero = z0
scale p (suc n) = plus p (scale p n)

abbrev opposite : Three → Three
opposite z0 = z0
opposite z1 = z2
opposite z2 = z1

abbrev is_zero : Three → Bool
is_zero z0 = true
is_zero _ = false

abbrev product : Three → Three → Three
product z0 p = z0
product z1 p = p
product z2 p = plus p p

abbrev number : Three → ℕ
number z0 = 0
number z1 = 1
number z2 = 2

abbrev of_number : ℕ → Option Three
of_number zero = some z0
of_number (suc zero) = some z1
of_number (suc (suc zero)) = some z2
of_number _ = none

-- Every hash is 1, every generator the same.
abbrev pub toy_curve : Curve
toy_curve = record {
  G1 = Three;
  G2 = Three;
  GT = Three;
  curve_order = 3;
  add = plus;
  multiply = scale;
  neg = opposite;
  is_inf = is_zero;
  generator_g2 = z1;
  add_g2 = plus;
  multiply_g2 = scale;
  neg_g2 = opposite;
  is_inf_g2 = is_zero;
  pairing = product;
  times = plus;
  is_one = is_zero;
  compress = number;
  decompress = of_number;
  compress_g2 = λ q. (number q, 0);
  decompress_g2 = λ c0 c1. of_number c0;
  expand_message_xmd = λ m dst n. 1 ∷ [];
  hash_to_g1 = λ m dst. z1;
}

next-next-next : (p : Three) → next (next (next p)) ≡ p
next-next-next z0 = refl
next-next-next z1 = refl
next-next-next z2 = refl

plus-next : (p q : Three) → plus (next p) q ≡ next (plus p q)
plus-next z0 q = refl
plus-next z1 q = refl
plus-next z2 q = sym (next-next-next q)

plus_assoc : (p q r : Three) → plus (plus p q) r ≡ plus p (plus q r)
plus_assoc z0 q r = refl
plus_assoc z1 q r = plus-next q r
plus_assoc z2 q r = plus-next (next q) r ∙ ap next (plus-next q r)

plus_comm : (p q : Three) → plus p q ≡ plus q p
plus_comm p q = ground arith

product-plus : (p q r : Three) → product (plus p q) r ≡ plus (product p r) (product q r)
product-plus p q r = ground arith

plus_swap : (p q r s : Three) → plus (plus p q) (plus r s) ≡ plus (plus p r) (plus q s)
plus_swap p q r s =
    plus_assoc p q (plus r s)
    ∙ ap (plus p) (sym (plus_assoc q r s) ∙ ap (λ x. plus x s) (plus_comm q r) ∙ plus_assoc r q s)
    ∙ sym (plus_assoc p r (plus q s))

scale_sum : (p : Three) (a b : ℕ) → scale p (a + b) ≡ plus (scale p a) (scale p b)
scale_sum p zero b = ap (scale p) (omega arith)
scale_sum p (suc a) b =
    let split : suc a + b ≡ suc (a + b) = omega arith in
    ap (scale p) split ∙ ap (plus p) (scale_sum p a b) ∙ sym (plus_assoc p (scale p a) (scale p b))

scale-scale : (p : Three) (a b : ℕ) → scale (scale p a) b ≡ scale p (a * b)
scale-scale p a zero = let none_left : 0 ≡ a * zero = omega arith in ap (scale p) none_left
scale-scale p a (suc b) =
    let split : a + a * b ≡ a * suc b = omega arith in
    ap (plus (scale p a)) (scale-scale p a b) ∙ sym (scale_sum p a (a * b)) ∙ ap (scale p) split

scale-plus : (p q : Three) (a : ℕ) → scale (plus p q) a ≡ plus (scale p a) (scale q a)
scale-plus p q zero = refl
scale-plus p q (suc a) =
    ap (plus (plus p q)) (scale-plus p q a) ∙ plus_swap p q (scale p a) (scale q a)

scale_zero : (p : Three) (a : ℕ) → is_zero p ≡ true → is_zero (scale p a) ≡ true
scale_zero p zero h = refl
scale_zero z0 (suc a) h = scale_zero z0 a h
scale_zero z1 (suc a) h = cc
scale_zero z2 (suc a) h = cc

order_three : (p : Three) → is_zero (scale p 3) ≡ true
order_three z0 = refl
order_three z1 = refl
order_three z2 = refl

product-plus_right : (q p r : Three) → product q (plus p r) ≡ plus (product q p) (product q r)
product-plus_right q p r = ground arith

product-z0 : (q : Three) → z0 ≡ product q z0
product-z0 q = ground arith

product-scale : (q p : Three) (a : ℕ) → product (scale q a) p ≡ product q (scale p a)
product-scale q p zero = product-z0 q
product-scale q p (suc a) =
    product-plus q (scale q a) p
    ∙ ap (plus (product q p)) (product-scale q p a)
    ∙ sym (product-plus_right q p (scale p a))

multiple_of_z1 : (a : ℕ) → 0 < a → a < 3 → is_zero (scale z1 a) ≡ false
multiple_of_z1 zero h h' = ground arith
multiple_of_z1 (suc zero) h h' = refl
multiple_of_z1 (suc (suc zero)) h h' = refl
multiple_of_z1 (suc (suc (suc a))) h h' = ground arith

pub toy_laws : CurveLaws toy_curve
toy_laws = record {
  multiply_one = λ p. plus_comm p z0;
  multiply_multiply = scale-scale;
  multiply_sum = scale_sum;
  multiply_add = scale-plus;
  add_inf = λ p q h. ground arith;
  multiply_inf = scale_zero;
  hash_order = λ m dst. refl;
  decompress_compress = λ p. ground arith;
  decompress_compress_g2 = λ q. ground arith;
  generator_sum = λ a b. sym (scale_sum z1 a b);
  generator_order = λ a. order_three (scale z1 a);
  generator_multiple = multiple_of_z1;
  pairing_multiply = product-scale;
  pairing_neg = λ q p. ground arith;
}
