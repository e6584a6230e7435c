-- ===== src/Crypto/Rsabssa.antt =====
-- RSA blind signatures (blindage/crypto/rsabssa.py). The salt and the draws of the blinding factor
-- are arguments; `pow(r, -1, n)` is written by what it computes.
pub mod Laws
pub mod Factor
use Prim.Native.Nat.{bit_and, bit_xor}
use blind_age.Base.{
  ℕ, zero, suc, Bool, true, false, String, Option, none, some, List, [], ◌∷◌, ◌++◌, ◌+◌, ◌-◌, ◌*◌,
  ◌/◌, ◌%◌, ◌^◌, ◌&&◌, ◌||◌, not, nat_beq, ltb, leb, length, take, find, if◌then◌else◌,
}
use blind_age.Base.Result.{Result, ok, err, present, lift_error, guard, ◌>>=◌, ◌>>◌}
use blind_age.Base.Text.{Bytes}
use blind_age.Crypto.Base64.{b64u_decode}
use blind_age.Crypto.Octets.{i2osp, os2ip}
use blind_age.Crypto.Primitives.{
  Primitives, PublicNumbers, PrivateNumbers, Loaded, rsa, other_kind, malformed, CryptoError,
  blind_signature_error, unsupported_key, unsupported,
}
use blind_age.Crypto.Verifiers.{load_public}

abbrev pub hash_len : ℕ
hash_len = 48

-- What the functions raise: a `BlindSignatureError`, or an error of `to_bytes` or `pow`.
pub data RsaError : Type 0 where
  blind_error : CryptoError → RsaError
  overflow_error not_invertible : RsaError

abbrev pub raised : RsaError
raised = blind_error blind_signature_error

unfoldable bits_of : (fuel : ℕ) → ℕ → ℕ
bits_of zero n = 0
bits_of (suc fuel) n = elim (nat_beq n 0) [ true ↦ 0 | false ↦ suc (bits_of fuel (n / 2)) ]

-- `n.bit_length()`: a number has no more binary digits than its value.
unfoldable pub bit_length : ℕ → ℕ
unfolding bits_of
bit_length n = bits_of n n

abbrev pub modulus_len : ℕ → ℕ
modulus_len n = (bit_length n + 7) / 8

-- `pow(b, k, n)`
abbrev pub pow_mod : ℕ → ℕ → ℕ → ℕ
pow_mod b k n = b ^ k % n

unfoldable gcd_from : (fuel a b : ℕ) → ℕ
gcd_from zero a b = a
gcd_from (suc fuel) a b = elim (nat_beq b 0) [ true ↦ a | false ↦ gcd_from fuel b (a % b) ]

-- `math.gcd`, by Euclid's algorithm: the second number falls in every round, so it bounds them.
unfoldable pub gcd : ℕ → ℕ → ℕ
unfolding gcd_from
gcd a b = gcd_from (suc b) a b

-- Every number below the bound, the greatest first.
abbrev pub below : ℕ → List ℕ
below zero = []
below (suc n) = n ∷ below n

-- `pow(r, -1, n)`
unfoldable pub mod_inverse : ℕ → ℕ → Option ℕ
unfolding find
mod_inverse r n = find (λ x. nat_beq (r * x % n) (1 % n)) (below n)

abbrev zeros : ℕ → Bytes
zeros zero = []
zeros (suc n) = 0 ∷ zeros n

unfoldable xor_octets : Bytes → Bytes → Bytes
xor_octets [] bs = []
xor_octets (a ∷ as') [] = []
xor_octets (a ∷ as') (b ∷ bs) = bit_xor a b ∷ xor_octets as' bs

-- `bytes([b[0] & (0xFF >> top_bits)]) + b[1:]`
abbrev mask_first : ℕ → Bytes → Bytes
mask_first top_bits [] = []
mask_first top_bits (b ∷ bs) = bit_and b (255 / 2 ^ top_bits) ∷ bs

-- The four octets of `counter.to_bytes(4, "big")`.
abbrev four_octets : ℕ → Bytes
four_octets k = (k / 256 ^ 3 % 256) ∷ (k / 256 ^ 2 % 256) ∷ (k / 256 % 256) ∷ (k % 256) ∷ []

module _ (c : Primitives) where
  -- The rounds `counter, counter + 1, ...` of the loop of `_mgf1`.
  unfoldable mgf1_rounds : ℕ → ℕ → Bytes → Bytes
  mgf1_rounds zero counter seed = []
  mgf1_rounds (suc n) counter seed =
      c.sha384 (seed ++ four_octets counter) ++ mgf1_rounds n (suc counter) seed

  unfoldable pub mgf1 : Bytes → ℕ → Bytes
  unfolding mgf1_rounds
  mgf1 seed mask_len = take mask_len (mgf1_rounds ((mask_len + hash_len - 1) / hash_len) 0 seed)

  unfoldable pub emsa_pss_encode : Bytes → ℕ → Bytes → Result RsaError Bytes
  unfolding mgf1 xor_octets
  emsa_pss_encode message em_bits salt =
      let em_len = (em_bits + 7) / 8 in
      let s_len = length salt in
      let h = c.sha384 (zeros 8 ++ c.sha384 message ++ salt) in
      let db = zeros (em_len - s_len - hash_len - 2) ++ 1 ∷ salt in
      let masked_db = xor_octets db (mgf1 h (em_len - hash_len - 1)) in
      do
        guard (not (ltb em_len (hash_len + s_len + 2))) raised
        ok (mask_first (8 * em_len - em_bits) masked_db ++ h ++ 188 ∷ [])

  abbrev rsa_private : Loaded PrivateNumbers → Result CryptoError PrivateNumbers
  rsa_private (rsa k) = ok k
  rsa_private other_kind = err blind_signature_error
  rsa_private malformed = err blind_signature_error
  rsa_private unsupported = err unsupported_key

  -- `_load_private`
  unfoldable pub load_private : String → Result CryptoError PrivateNumbers
  load_private key = elim (b64u_decode key) [
    | ok der ↦ rsa_private (c.load_der_private_key der)
    | err e ↦ err blind_signature_error
  ]

  -- The `while True` of `blind`, over the successive values of `secrets.randbelow(n - 1)`.
  unfoldable pub blinding_factor : List ℕ → ℕ → Option ℕ
  unfolding gcd
  blinding_factor [] n = none
  blinding_factor (draw ∷ draws) n = elim (nat_beq (gcd (draw + 1) n) 1) [
    | true ↦ some (draw + 1)
    | false ↦ blinding_factor draws n
  ]

  -- The arithmetic of `blind` once the message is encoded and the factor drawn.
  unfoldable pub blind_with : PublicNumbers → ℕ → ℕ → Result RsaError (Bytes × ℕ)
  unfolding mod_inverse i2osp
  blind_with key m r = do
    inv ← present (mod_inverse r key.n) not_invertible
    octets ← present (i2osp (m * pow_mod r key.e key.n % key.n) (modulus_len key.n)) overflow_error
    ok (octets, inv)

  -- `blind` up to the loop: the key's numbers and the encoded message.
  unfoldable pub prepare : String → Bytes → (salt : Bytes) → Result RsaError (PublicNumbers × ℕ)
  unfolding emsa_pss_encode load_public gcd os2ip
  prepare public_key message salt = do
    key ← lift_error blind_error (load_public c public_key)
    encoded ← emsa_pss_encode message (bit_length key.n - 1) salt
    guard (nat_beq (gcd (os2ip encoded) key.n) 1) raised
    ok (key, os2ip encoded)

  -- None where no draw ends the loop.
  unfoldable pub blind :
      String → Bytes → (salt : Bytes) (draws : List ℕ) → Option (Result RsaError (Bytes × ℕ))
  unfolding blind_with blinding_factor prepare
  blind public_key message salt draws = elim (prepare public_key message salt) [
    | err e ↦ some (err e)
    | ok (key, m) ↦ elim (blinding_factor draws key.n) [
      | none ↦ none
      | some r ↦ some (blind_with key m r)
    ]
  ]

  -- The body of `blind_sign` once the key is loaded.
  unfoldable pub sign_blinded : PrivateNumbers → ℕ → Result RsaError Bytes
  unfolding i2osp
  sign_blinded key m =
      let n = key.public_numbers.n in
      let s = pow_mod m key.d n in
      do
        guard (not (leb n m || leb m 1)) raised
        guard (nat_beq (pow_mod s key.public_numbers.e n) m) raised
        present (i2osp s (modulus_len n)) overflow_error

  unfoldable pub blind_sign : String → Bytes → Result RsaError Bytes
  unfolding sign_blinded load_private os2ip
  blind_sign private_key blinded_msg = do
    key ← lift_error blind_error (load_private private_key)
    sign_blinded key (os2ip blinded_msg)

  -- The body of `finalize` once the key is loaded.
  unfoldable pub unblind : PublicNumbers → Bytes → Bytes → ℕ → Result RsaError Bytes
  unfolding i2osp os2ip
  unblind key message blind_sig inv = do
    guard (nat_beq (length blind_sig) (modulus_len key.n)) raised
    signature ← present (i2osp (os2ip blind_sig * inv % key.n) (modulus_len key.n)) overflow_error
    guard (c.pss_verify key signature message) raised
    ok signature

  unfoldable pub finalize : String → (message blind_sig : Bytes) → ℕ → Result RsaError Bytes
  unfolding unblind load_public
  finalize public_key message blind_sig inv = do
    key ← lift_error blind_error (load_public c public_key)
    unblind key message blind_sig inv
