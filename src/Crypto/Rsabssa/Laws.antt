-- ===== src/Crypto/Rsabssa/Laws.antt =====
-- What the signer and the wallet have when blind signing and unblinding return.
use blind_age.Base.{
  ℕ, true, String, ◌*◌, ◌%◌, ◌<◌, ◌≡◌, ◌||◌, not, arith, sym, length, nat_beq, leb, nat_beq_iff,
  ◌∙◌,
}
use blind_age.Base.Result.{
  ok, present, lift_error, guard, >>=-eq-ok, guard-eq-ok, present-eq-ok, lift_error-eq-ok,
}
use blind_age.Base.Text.{Bytes}
use blind_age.Crypto.Octets.{i2osp, os2ip, os2ip-i2osp, length-i2osp}
use blind_age.Crypto.Primitives.{Primitives, PublicNumbers, PrivateNumbers}
use blind_age.Crypto.Rsabssa.{
  blind_error, overflow_error, raised, modulus_len, pow_mod, load_private, sign_blinded, blind_sign,
  unblind, finalize,
}
use blind_age.Crypto.Verifiers.{load_public, rsabssa, verify_token}

in_range : (m n : ℕ) → not (leb n m || leb m 1) ≡ true → (1 < m) × (m < n)
in_range m n h = ground arith

-- A blind signature that `blind_sign` returns: the key loads, the blinded message is a number above
-- 1 and below the modulus, and the signature has the modulus's length and raised to the public
-- exponent gives the blinded message back.
pub blind_sign-opens :
    (c : Primitives) (private_key : String) (blinded_msg signature : Bytes)
    → blind_sign c private_key blinded_msg ≡ ok signature
    → (key : PrivateNumbers) × (load_private c private_key ≡ ok key)
      × (1 < os2ip blinded_msg)
      × (os2ip blinded_msg < key.public_numbers.n)
      × (length signature ≡ modulus_len key.public_numbers.n)
      × (pow_mod (os2ip signature) key.public_numbers.e key.public_numbers.n ≡ os2ip blinded_msg)
unfolding blind_sign sign_blinded
blind_sign-opens c private_key blinded_msg signature h =
    let (key, first, rest) = >>=-eq-ok (lift_error blind_error (load_private c private_key)) _ h in
    let m = os2ip blinded_msg in
    let n = key.public_numbers.n in
    let e = key.public_numbers.e in
    let s = pow_mod m key.d n in
    let (_, second, h₁) = >>=-eq-ok (guard (not (leb n m || leb m 1)) raised) _ rest in
    let (_, third, last) = >>=-eq-ok (guard (nat_beq (pow_mod s e n) m) raised) _ h₁ in
    let written = present-eq-ok (i2osp s (modulus_len n)) overflow_error last in
    let (above, under) = in_range m n ((guard-eq-ok (not (leb n m || leb m 1)) raised).0 second) in
    let checked =
      (nat_beq_iff (pow_mod s e n) m).0
        ((guard-eq-ok (nat_beq (pow_mod s e n) m) raised).0 third) in
    (
      key,
      lift_error-eq-ok blind_error (load_private c private_key) first,
      above,
      under,
      length-i2osp (modulus_len n) s signature written,
      rw (os2ip-i2osp (modulus_len n) s signature written) checked,
    )

-- A signature that `finalize` returns is the blind signature times the inverse modulo the modulus,
-- has the modulus's length, and verifies under the issuer's public key.
pub finalize-verifies :
    (c : Primitives) (public_key key_id : String) (message blind_sig signature : Bytes) (inv : ℕ)
    → finalize c public_key message blind_sig inv ≡ ok signature
    → (key : PublicNumbers) × (load_public c public_key ≡ ok key)
      × (os2ip signature ≡ os2ip blind_sig * inv % key.n)
      × (length signature ≡ length blind_sig)
      × (verify_token c (rsabssa key_id key) message signature ≡ true)
unfolding finalize unblind verify_token
finalize-verifies c public_key key_id message blind_sig signature inv h =
    let (key, first, rest) = >>=-eq-ok (lift_error blind_error (load_public c public_key)) _ h in
    let len = nat_beq (length blind_sig) (modulus_len key.n) in
    let s = os2ip blind_sig * inv % key.n in
    let (_, second, h₁) = >>=-eq-ok (guard len raised) _ rest in
    let (octets, third, h₂) =
      >>=-eq-ok (present (i2osp s (modulus_len key.n)) overflow_error) _ h₁ in
    let (_, fourth, last) = >>=-eq-ok (guard (c.pss_verify key octets message) raised) _ h₂ in
    let same : octets ≡ signature = cc in
    let written = present-eq-ok (i2osp s (modulus_len key.n)) overflow_error third in
    let size =
      (nat_beq_iff (length blind_sig) (modulus_len key.n)).0 ((guard-eq-ok len raised).0 second) in
    (
      key,
      lift_error-eq-ok blind_error (load_public c public_key) first,
      rw (← same) (os2ip-i2osp (modulus_len key.n) s octets written),
      rw (← same) (length-i2osp (modulus_len key.n) s octets written ∙ sym size),
      rw (← same) ((guard-eq-ok (c.pss_verify key octets message) raised).0 fourth),
    )
