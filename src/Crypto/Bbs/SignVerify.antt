-- ===== src/Crypto/Bbs/SignVerify.antt =====
-- A signature under a generated key verifies (blindage/crypto/bbs.py).
use blind_age.Base.{
  ℕ, suc, true, String, List, ◌++◌, ◌<◌, ◌≡◌, ◌≢◌, ◌∙◌, sym, ap, arith, drop, drop-append, All,
  subst,
}
use blind_age.Base.Result.{ok, >>=-eq-ok, ok_injective}
use blind_age.Base.Text.{Bytes}
use blind_age.Crypto.Octets.{os2ip}
use blind_age.Crypto.Bbs.Curve.{Curve}
use blind_age.Crypto.Bbs.Group.{CurveLaws, InSubgroup}
use blind_age.Crypto.Bbs.Encoding.{
  octet_scalar_length, octet_point_length, point_to_octets, pubkey_to_octets,
}
use blind_age.Crypto.Bbs.Blocks.{messages_to_scalars, decode_scalar_secret}
use blind_age.Crypto.Bbs.Keys.{to_octets_lem, All-append, generate_bbs_keypair-read}
use blind_age.Crypto.Bbs.Complete.{verify_parts-signed, split_signature-octets}
use blind_age.Crypto.Bbs.Sign.{
  scalar_octets, generate_bbs_keypair, commit, signature_scalar, signature_point, split_signature,
  sign_with, bbs_sign, bbs_verify, verify_parts,
}

module _ (k : Curve) (laws : CurveLaws k) where
  open k use {G1, G2, curve_order, generator_g2, multiply_g2}

  -- Both readers accept what the steps of `bbs_sign` made.
  steps_accepted :
      (p1 : G1) (sk : ℕ) (pk_octets header : Bytes) (messages : List Bytes) (scalars : List ℕ)
      (committed : ℕ × G1) (e : ℕ) (a_point : G1) (first last signature : Bytes)
      → InSubgroup k laws p1
      → 0 < curve_order
      → os2ip (drop octet_point_length signature) ≢ 0
      → messages_to_scalars k messages ≡ ok scalars
      → commit k p1 pk_octets header scalars ≡ ok committed
      → signature_scalar k sk scalars committed.0 ≡ ok e
      → signature_point k sk e committed.1 ≡ ok a_point
      → point_to_octets k a_point ≡ ok first
      → scalar_octets e ≡ ok last
      → first ++ last ≡ signature
      → (parts : G1 × ℕ) × (split_signature k signature ≡ ok parts)
        × (verify_parts k p1 pk_octets (multiply_g2 generator_g2 sk) header messages parts
            ≡ ok true)
  unfolding point_to_octets
  steps_accepted p1 sk pk_octets header messages scalars committed e a_point first last signature
        order positive nonzero mapped commits hashed signed written written' same =
      let (_, size, _) = to_octets_lem (k.compress a_point) octet_point_length first written in
      let (value, _, _) = to_octets_lem e octet_scalar_length last written' in
      let read : os2ip (drop octet_point_length signature) ≡ e =
        rw (← same, drop-append first last octet_point_length size) value in
      let (a_order, accepted) =
        verify_parts-signed k laws p1 pk_octets header messages sk scalars committed.0 e committed.1
          a_point order positive (λ z. nonzero (read ∙ z)) mapped commits hashed signed in
      let split = split_signature-octets k laws a_point e first last a_order written written' in
      ((a_point, e), ap (split_signature k) (sym same) ∙ split, accepted)

  -- What `bbs_sign` did when it returned.
  sign_with-accepted :
      (p1 : G1) (sk : ℕ) (pk_octets header : Bytes) (messages : List Bytes) (signature : Bytes)
      → InSubgroup k laws p1
      → 0 < curve_order
      → sign_with k p1 sk pk_octets header messages ≡ ok signature
      → os2ip (drop octet_point_length signature) ≢ 0
      → (parts : G1 × ℕ) × (split_signature k signature ≡ ok parts)
        × (verify_parts k p1 pk_octets (multiply_g2 generator_g2 sk) header messages parts
            ≡ ok true)
  unfolding sign_with
  sign_with-accepted p1 sk pk_octets header messages signature order positive h nonzero =
      let (scalars, mapped, h₁) = >>=-eq-ok (messages_to_scalars k messages) _ h in
      let (committed, commits, h₂) = >>=-eq-ok (commit k p1 pk_octets header scalars) _ h₁ in
      let (e, hashed, h₃) = >>=-eq-ok (signature_scalar k sk scalars committed.0) _ h₂ in
      let (a_point, signed, h₄) = >>=-eq-ok (signature_point k sk e committed.1) _ h₃ in
      let (first, written, h₅) = >>=-eq-ok (point_to_octets k a_point) _ h₄ in
      let (last, written', h₆) = >>=-eq-ok (scalar_octets e) _ h₅ in
      steps_accepted p1 sk pk_octets header messages scalars committed e a_point first last
        signature order positive nonzero mapped commits hashed signed written written'
        (ok_injective h₆)

  -- A key pair that is generated from a draw below the order less one, and a signature that
  -- `bbs_sign` returns under its secret and whose scalar is not zero: `bbs_verify` accepts the
  -- signature under the public key, for the same header and messages.
  pub bbs_sign-verifies :
      (p1 : G1) (draw : ℕ) (secret public : String) (header signature : Bytes)
      (messages : List Bytes)
      → InSubgroup k laws p1
      → suc draw < curve_order
      → generate_bbs_keypair k draw ≡ ok (secret, public)
      → bbs_sign k p1 secret header messages ≡ ok signature
      → os2ip (drop octet_point_length signature) ≢ 0
      → bbs_verify k p1 public signature header messages ≡ ok true
  unfolding bbs_verify bbs_sign
  bbs_sign-verifies p1 draw secret public header signature messages order lt pair h nonzero =
      let (pk_octets, decoded, written, text, key) =
        generate_bbs_keypair-read k laws draw secret public lt pair in
      let (parts, split, accepted) =
        sign_with-accepted p1 (suc draw) pk_octets header messages signature order (omega arith)
          (rw (decoded, written) at h) nonzero in
      rw (bbs_verify, text, key, split) accepted

  sign_with-octets :
      (p1 : G1) (sk : ℕ) (pk_octets header : Bytes) (messages : List Bytes) (signature : Bytes)
      → sign_with k p1 sk pk_octets header messages ≡ ok signature
      → All (λ b. b < 256) signature
  unfolding sign_with point_to_octets
  sign_with-octets p1 sk pk_octets header messages signature h =
      let (scalars, _, h₁) = >>=-eq-ok (messages_to_scalars k messages) _ h in
      let (committed, _, h₂) = >>=-eq-ok (commit k p1 pk_octets header scalars) _ h₁ in
      let (e, _, h₃) = >>=-eq-ok (signature_scalar k sk scalars committed.0) _ h₂ in
      let (a_point, _, h₄) = >>=-eq-ok (signature_point k sk e committed.1) _ h₃ in
      let (first, written, h₅) = >>=-eq-ok (point_to_octets k a_point) _ h₄ in
      let (last, written', h₆) = >>=-eq-ok (scalar_octets e) _ h₅ in
      let (_, _, small) = to_octets_lem (k.compress a_point) octet_point_length first written in
      let (_, _, small') = to_octets_lem e octet_scalar_length last written' in
      subst (All (λ b. b < 256)) (ok_injective h₆) (All-append first last small small')

  -- A signature is octets.
  pub All-bbs_sign :
      (p1 : G1) (secret : String) (header : Bytes) (messages : List Bytes) (signature : Bytes)
      → bbs_sign k p1 secret header messages ≡ ok signature
      → All (λ b. b < 256) signature
  unfolding bbs_sign
  All-bbs_sign p1 secret header messages signature h =
      let (sk, _, h₁) = >>=-eq-ok (decode_scalar_secret k secret) _ h in
      let (pk_octets, _, h₂) = >>=-eq-ok (pubkey_to_octets k (multiply_g2 generator_g2 sk)) _ h₁ in
      sign_with-octets p1 sk pk_octets header messages signature h₂
