-- ===== src/Crypto/Bbs/Sign.antt =====
-- Key generation, signing and verification (blindage/crypto/bbs.py). The draw of
-- `secrets.randbelow` is an argument.
use blind_age.Base.{
  ℕ, suc, Bool, true, false, String, List, ◌++◌, ◌+◌, ◌%◌, ◌||◌, not, leb, nat_beq, length, take,
  drop,
}
use blind_age.Base.Result.{Result, ok, err, present, guard, ◌>>=◌, ◌>>◌}
use blind_age.Base.Text.{Bytes}
use blind_age.Crypto.Base64.{b64u_encode}
use blind_age.Crypto.Octets.{os2ip}
use blind_age.Crypto.Rsabssa.{mod_inverse}
use blind_age.Crypto.Bbs.Curve.{Curve, BbsError, bbs_error, not_invertible}
use blind_age.Crypto.Bbs.Encoding.{
  h2s_dst, octet_scalar_length, octet_point_length, to_octets, point_to_octets, octets_to_point,
  octets_to_pubkey, pubkey_to_octets,
}
use blind_age.Crypto.Bbs.Blocks.{
  decode_text, concat_octets, hash_to_scalar, message_generators, messages_to_scalars,
  calculate_domain, b_value, decode_scalar_secret,
}

-- `_i2osp(m, _OCTET_SCALAR_LENGTH)`
abbrev pub scalar_octets : ℕ → Result BbsError Bytes
scalar_octets m = to_octets m octet_scalar_length

module _ (k : Curve) where
  open k use {
    G1, G2, curve_order, multiply, is_inf, generator_g2, add_g2, multiply_g2, neg_g2, pairing,
    times, is_one,
  }

  -- `generate_bbs_keypair`, for the value of `secrets.randbelow(_R - 1)`.
  unfoldable pub generate_bbs_keypair : (draw : ℕ) → Result BbsError (String × String)
  unfolding to_octets pubkey_to_octets
  generate_bbs_keypair draw = do
    secret ← scalar_octets (suc draw)
    public ← pubkey_to_octets k (multiply_g2 generator_g2 (suc draw))
    ok (b64u_encode secret, b64u_encode public)

  -- The generators, the domain and B of a header and the scalars of the messages.
  unfoldable pub commit : (p1 : G1) (pk_octets header : Bytes) → List ℕ → Result BbsError (ℕ × G1)
  unfolding message_generators calculate_domain b_value
  commit p1 pk_octets header msg_scalars = do
    generators ← message_generators k (length msg_scalars)
    domain ← calculate_domain k pk_octets generators.0 generators.1 header
    ok (domain, b_value k p1 domain generators.0 generators.1 msg_scalars)

  -- The scalar `e` of a signature: a hash of the secret, the messages and the domain.
  unfoldable pub signature_scalar : (sk : ℕ) → List ℕ → (domain : ℕ) → Result BbsError ℕ
  unfolding to_octets concat_octets hash_to_scalar
  signature_scalar sk msg_scalars domain = do
    first ← scalar_octets sk
    middle ← concat_octets scalar_octets msg_scalars
    last ← scalar_octets domain
    hash_to_scalar k (first ++ middle ++ last) h2s_dst

  -- A = B * (1 / (SK + e)), not the identity.
  unfoldable pub signature_point : (sk e : ℕ) → G1 → Result BbsError G1
  unfolding mod_inverse
  signature_point sk e b = do
    inv ← present (mod_inverse ((sk + e) % curve_order) curve_order) not_invertible
    guard (not (is_inf (multiply b inv))) bbs_error
    ok (multiply b inv)

  -- `bbs_sign` once it has the secret scalar and the octets of the public key.
  unfoldable pub sign_with :
      (p1 : G1) (sk : ℕ) (pk_octets header : Bytes) → List Bytes → Result BbsError Bytes
  unfolding messages_to_scalars commit signature_scalar signature_point to_octets point_to_octets
  sign_with p1 sk pk_octets header messages = do
    msg_scalars ← messages_to_scalars k messages
    committed ← commit p1 pk_octets header msg_scalars
    e ← signature_scalar sk msg_scalars committed.0
    a_point ← signature_point sk e committed.1
    first ← point_to_octets k a_point
    last ← scalar_octets e
    ok (first ++ last)

  unfoldable pub bbs_sign :
      (p1 : G1) (secret : String) (header : Bytes) → List Bytes → Result BbsError Bytes
  unfolding decode_scalar_secret pubkey_to_octets sign_with
  bbs_sign p1 secret header messages = do
    sk ← decode_scalar_secret k secret
    pk_octets ← pubkey_to_octets k (multiply_g2 generator_g2 sk)
    sign_with p1 sk pk_octets header messages

  -- What both readers of a signature demand of its octets; the scalar is not yet judged.
  unfoldable pub split_signature : Bytes → Result BbsError (G1 × ℕ)
  unfolding octets_to_point os2ip
  split_signature signature = do
    guard (nat_beq (length signature) (octet_point_length + octet_scalar_length)) bbs_error
    a_point ← octets_to_point k (take octet_point_length signature)
    ok (a_point, os2ip (drop octet_point_length signature))

  -- e(A, W + P2*e) * e(B, -P2) == Identity_GT
  unfoldable pub pairing_holds : G2 → (e : ℕ) → (a_point b : G1) → Bool
  pairing_holds w e a_point b = is_one (
      times (pairing (add_g2 w (multiply_g2 generator_g2 e)) a_point)
        (pairing (neg_g2 generator_g2) b))

  -- The rest of `bbs_verify`, for a signature that is a point and a scalar.
  unfoldable pub verify_parts :
      (p1 : G1) (pk_octets : Bytes)
      → G2
      → (header : Bytes) → List Bytes
      → G1 × ℕ
      → Result BbsError Bool
  unfolding messages_to_scalars commit pairing_holds
  verify_parts p1 pk_octets w header messages (a_point, e) =
      elim (nat_beq e 0 || leb curve_order e || is_inf a_point) [
        | true ↦ ok false
        | false ↦ do
          msg_scalars ← messages_to_scalars k messages
          committed ← commit p1 pk_octets header msg_scalars
          ok (pairing_holds w e a_point committed.1)
      ]

  unfoldable pub bbs_verify :
      (p1 : G1) (public : String) (signature header : Bytes) → List Bytes → Result BbsError Bool
  unfolding decode_text octets_to_pubkey split_signature verify_parts
  bbs_verify p1 public signature header messages = do
    pk_octets ← decode_text public
    w ← octets_to_pubkey k pk_octets
    elim (split_signature signature) [
      | err e ↦ ok false
      | ok parts ↦ verify_parts p1 pk_octets w header messages parts
    ]
