-- ===== src/Crypto/Bbs/Keys.antt =====
-- A generated key pair is read back: what signing and verifying make of its two texts
-- (blindage/crypto/bbs.py).
use blind_age.Base.{
  ℕ, suc, true, false, String, some, [], ◌∷◌, ◌++◌, ◌<◌, ◌≡◌, ◌∙◌, All, refl, ap, arith, length,
  nat_beq, leb, not, ◌||◌, length-append, take-append, drop-append,
}
use blind_age.Base.Result.{ok, >>=-eq-ok, present-eq-ok, ok_injective}
use blind_age.Base.Text.{Bytes}
use blind_age.Crypto.Base64.{b64u_encode}
use blind_age.Crypto.Base64.RoundTrip.{b64u_decode-b64u_encode}
use blind_age.Crypto.Octets.{i2osp, os2ip, os2ip-i2osp, length-i2osp, All-i2osp}
use blind_age.Crypto.Bbs.Curve.{Curve, bbs_error}
use blind_age.Crypto.Bbs.Group.{CurveLaws}
use blind_age.Crypto.Bbs.Encoding.{
  octet_scalar_length, octet_point_length, to_octets, octets_to_pubkey, pubkey_to_octets,
}
use blind_age.Crypto.Bbs.Blocks.{decode_text, decode_scalar_secret}
use blind_age.Crypto.Bbs.Sign.{scalar_octets, generate_bbs_keypair}

-- The text of octets is decoded to them.
pub decode_text-b64u_encode :
    (octets : Bytes) → All (λ b. b < 256) octets → decode_text (b64u_encode octets) ≡ ok octets
unfolding decode_text
decode_text-b64u_encode octets h = rw (decode_text, b64u_decode-b64u_encode octets h) refl

-- What `_i2osp` writes has the length asked for, is octets, and is read back.
pub to_octets_lem :
    (value length_ : ℕ) (octets : Bytes)
    → to_octets value length_ ≡ ok octets
    → (os2ip octets ≡ value) × (length octets ≡ length_) × All (λ b. b < 256) octets
unfolding to_octets
to_octets_lem value length_ octets h =
    let written = present-eq-ok (i2osp value length_) bbs_error h in
    (
      os2ip-i2osp length_ value octets written,
      length-i2osp length_ value octets written,
      All-i2osp length_ value octets written,
    )

pub All-append :
    (xs ys : Bytes) → All (λ b. b < 256) xs → All (λ b. b < 256) ys → All (λ b. b < 256) (xs ++ ys)
All-append [] ys h h' = h'
All-append (x ∷ xs) ys h h' = (h.0, All-append xs ys h.1 h')

pub scalar_accepted :
    (sk order : ℕ) → 0 < sk → sk < order → not (nat_beq sk 0 || leb order sk) ≡ true
scalar_accepted sk order positive lt = ground arith

module _ (k : Curve) (laws : CurveLaws k) where
  open k use {curve_order, G2, generator_g2, multiply_g2, is_inf_g2, decompress_g2, compress_g2}

  pub decode_scalar_secret-scalar_octets :
      (sk : ℕ) (octets : Bytes)
      → 0 < sk
      → sk < curve_order
      → scalar_octets sk ≡ ok octets
      → decode_scalar_secret k (b64u_encode octets) ≡ ok sk
  unfolding decode_scalar_secret
  decode_scalar_secret-scalar_octets sk octets positive lt h =
      let (value, _, small) = to_octets_lem sk octet_scalar_length octets h in
      rw (decode_text-b64u_encode octets small, value, scalar_accepted sk curve_order positive lt)
        refl

  pubkey_read :
      (point : G2) (first second : Bytes) (c0 c1 : ℕ)
      → length first ≡ octet_point_length
      → length second ≡ octet_point_length
      → os2ip first ≡ c0
      → os2ip second ≡ c1
      → decompress_g2 c0 c1 ≡ some point
      → is_inf_g2 point ≡ false
      → is_inf_g2 (multiply_g2 point curve_order) ≡ true
      → octets_to_pubkey k (first ++ second) ≡ ok point
  unfolding octets_to_pubkey
  pubkey_read point first second c0 c1 size size' value value' read proper order =
      let total : length (first ++ second) ≡ 96 =
        length-append first second ∙ rw (size, size') refl in
      rw
        (
          total,
          take-append first second octet_point_length size,
          drop-append first second octet_point_length size,
          value,
          value',
          read,
          proper,
          order,
        )
        refl

  -- The public key of a scalar below the order is read back.
  pub octets_to_pubkey-pubkey_to_octets :
      (sk : ℕ) (octets : Bytes)
      → 0 < sk
      → sk < curve_order
      → pubkey_to_octets k (multiply_g2 generator_g2 sk) ≡ ok octets
      → (octets_to_pubkey k octets ≡ ok (multiply_g2 generator_g2 sk)) × All (λ b. b < 256) octets
  unfolding pubkey_to_octets
  octets_to_pubkey-pubkey_to_octets sk octets positive lt h =
      let point = multiply_g2 generator_g2 sk in
      let (c0, c1) = compress_g2 point in
      let (first, written, rest) = >>=-eq-ok (to_octets c0 octet_point_length) _ h in
      let (second, written', last) = >>=-eq-ok (to_octets c1 octet_point_length) _ rest in
      let (value, size, small) = to_octets_lem c0 octet_point_length first written in
      let (value', size', small') = to_octets_lem c1 octet_point_length second written' in
      let same : first ++ second ≡ octets = ok_injective last in
      rw (← same) (
        pubkey_read point first second c0 c1 size size' value value'
            (laws.decompress_compress_g2 point) (laws.generator_multiple sk positive lt)
            (laws.generator_order sk),
        All-append first second small small',
      )

  -- A key pair that is generated from a draw below the order: signing decodes its secret, and
  -- verifying reads the multiple of the generator from its public key.
  pub generate_bbs_keypair-read :
      (draw : ℕ) (secret public : String)
      → suc draw < curve_order
      → generate_bbs_keypair k draw ≡ ok (secret, public)
      → (pk_octets : Bytes) × (decode_scalar_secret k secret ≡ ok (suc draw))
        × (pubkey_to_octets k (multiply_g2 generator_g2 (suc draw)) ≡ ok pk_octets)
        × (decode_text public ≡ ok pk_octets)
        × (octets_to_pubkey k pk_octets ≡ ok (multiply_g2 generator_g2 (suc draw)))
  unfolding generate_bbs_keypair
  generate_bbs_keypair-read draw secret public lt h =
      let sk = suc draw in
      let positive : 0 < sk = omega arith in
      let written = pubkey_to_octets k (multiply_g2 generator_g2 sk) in
      let (octets, first, rest) = >>=-eq-ok (scalar_octets sk) _ h in
      let (pk_octets, second, last) = >>=-eq-ok written _ rest in
      let same : ◌≡◌ {A = String × String} (b64u_encode octets, b64u_encode pk_octets)
          (secret, public) =
        ok_injective last in
      let (key, small) = octets_to_pubkey-pubkey_to_octets sk pk_octets positive lt second in
      (
        pk_octets,
        rw (← ap (λ p. p.0) same) (decode_scalar_secret-scalar_octets sk octets positive lt first),
        second,
        rw (← ap (λ p. p.1) same) (decode_text-b64u_encode pk_octets small),
        key,
      )
