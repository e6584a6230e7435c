-- ===== src/Crypto/Bbs/Curve.antt =====
-- What bbs.py takes from py_ecc: BLS12-381 with its pairing, hashing to the curve, and compression.
-- A point is what its coordinates stand for, so two projective forms of one point are one value.
use blind_age.Base.{ℕ, Bool, Option}
use blind_age.Base.Text.{Bytes}

-- `multiply` takes the scalar second, and `pairing` the point of G2 first, as in py_ecc. A
-- decompression that raises gives none.
pub record Curve : Type 1 where
  pub G1 : Type 0
  pub G2 : Type 0
  pub GT : Type 0
  pub curve_order : ℕ
  pub add : G1 → G1 → G1
  pub multiply : G1 → ℕ → G1
  pub neg : G1 → G1
  pub is_inf : G1 → Bool
  pub generator_g2 : G2
  pub add_g2 : G2 → G2 → G2
  pub multiply_g2 : G2 → ℕ → G2
  pub neg_g2 : G2 → G2
  pub is_inf_g2 : G2 → Bool
  pub pairing : G2 → G1 → GT
  pub times : GT → GT → GT
  pub is_one : GT → Bool
  pub compress : G1 → ℕ
  pub decompress : ℕ → Option G1
  pub compress_g2 : G2 → ℕ × ℕ
  pub decompress_g2 : ℕ → ℕ → Option G2
  pub expand_message_xmd : (message dst : Bytes) → ℕ → Bytes
  pub hash_to_g1 : (message dst : Bytes) → G1

-- A `BbsError`; the `ValueError` of `pow(0, -1, r)`; an `IndexError`.
pub data BbsError : Type 0 where
  bbs_error not_invertible index_error : BbsError
