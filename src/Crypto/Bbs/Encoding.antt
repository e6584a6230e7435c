-- ===== src/Crypto/Bbs/Encoding.antt =====
-- Octets of integers and of points (blindage/crypto/bbs.py).
use blind_age.Base.{ℕ, ◌*◌, ◌++◌, not, nat_beq, length, take, drop}
use blind_age.Base.Result.{Result, ok, present, guard, ◌>>=◌, ◌>>◌}
use blind_age.Base.Text.{Bytes, encode}
use blind_age.Crypto.Octets.{i2osp, os2ip}
use blind_age.Crypto.Bbs.Curve.{Curve, BbsError, bbs_error}

-- `_API_ID` and the domain separation tags made of it.
abbrev pub api_id : Bytes
unfolding encode
api_id = encode "BBS_BLS12381G1_XMD:SHA-256_SSWU_RO_H2G_HM2S_"

abbrev pub h2s_dst : Bytes
unfolding encode
h2s_dst = api_id ++ encode "H2S_"

abbrev pub seed_dst : Bytes
unfolding encode
seed_dst = api_id ++ encode "SIG_GENERATOR_SEED_"

abbrev pub generator_dst : Bytes
unfolding encode
generator_dst = api_id ++ encode "SIG_GENERATOR_DST_"

abbrev pub generator_seed : Bytes
unfolding encode
generator_seed = api_id ++ encode "MESSAGE_GENERATOR_SEED"

abbrev pub map_dst : Bytes
unfolding encode
map_dst = api_id ++ encode "MAP_MSG_TO_SCALAR_AS_HASH_"

abbrev pub expand_len : ℕ
expand_len = 48

abbrev pub octet_scalar_length : ℕ
octet_scalar_length = 32

abbrev pub octet_point_length : ℕ
octet_point_length = 48

-- `_i2osp`: what `to_bytes` would refuse, a value of too many octets, is a `BbsError`.
unfoldable pub to_octets : ℕ → ℕ → Result BbsError Bytes
unfolding i2osp
to_octets value length_ = present (i2osp value length_) bbs_error

module _ (k : Curve) where
  open k use {
    G1, G2, curve_order, multiply, is_inf, multiply_g2, is_inf_g2, compress, decompress,
    compress_g2, decompress_g2,
  }

  -- `_point_to_octets_e1`
  unfoldable pub point_to_octets : G1 → Result BbsError Bytes
  unfolding to_octets
  point_to_octets point = to_octets (compress point) octet_point_length

  -- `_octets_to_point_e1`, with the subgroup check.
  unfoldable pub octets_to_point : Bytes → Result BbsError G1
  unfolding os2ip
  octets_to_point octets = do
    guard (nat_beq (length octets) octet_point_length) bbs_error
    point ← present (decompress (os2ip octets)) bbs_error
    guard (is_inf (multiply point curve_order)) bbs_error
    ok point

  -- `_octets_to_pubkey`
  unfoldable pub octets_to_pubkey : Bytes → Result BbsError G2
  unfolding os2ip
  octets_to_pubkey octets = do
    guard (nat_beq (length octets) (2 * octet_point_length)) bbs_error
    point ←
        present
          (decompress_g2 (os2ip (take octet_point_length octets))
            (os2ip (drop octet_point_length octets)))
          bbs_error
    guard (not (is_inf_g2 point)) bbs_error
    guard (is_inf_g2 (multiply_g2 point curve_order)) bbs_error
    ok point

  -- `_pubkey_to_octets`
  unfoldable pub pubkey_to_octets : G2 → Result BbsError Bytes
  unfolding to_octets
  pubkey_to_octets point = do
    let (c0, c1) = compress_g2 point
    first ← to_octets c0 octet_point_length
    second ← to_octets c1 octet_point_length
    ok (first ++ second)
