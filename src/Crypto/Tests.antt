-- ===== src/Crypto/Tests.antt =====
-- Blind signatures on a small key.
use blind_age.Base.{ℕ, true, some, [], ◌∷◌, ◌≡◌, ◌*◌, ◌%◌, ◌^◌, ◌<◌, refl, length}
use blind_age.Base.Result.{ok}
use blind_age.Crypto.Base64.{b64u_decode}
use blind_age.Crypto.Octets.{i2osp, os2ip, os2ip-i2osp}
use blind_age.Crypto.Primitives.{PublicNumbers, PrivateNumbers}
use blind_age.Base.{◌+◌, ◌-◌, ◌↔◌}
use blind_age.Base.Result.{Result, err}
use blind_age.Base.Text.{Bytes}
use blind_age.Crypto.Primitives.{Primitives, rsa}
use blind_age.Crypto.Rsabssa.Factor.{Coprime, blind-returns}
use blind_age.Crypto.Rsabssa.{
  RsaError, prepare, emsa_pss_encode, gcd, blind, blind_with, bit_length, modulus_len, pow_mod,
  load_private, sign_blinded, blind_sign, unblind, finalize,
}
use blind_age.Crypto.Rsabssa.Laws.{blind_sign-opens, finalize-verifies}
use blind_age.Crypto.Verifiers.{load_public, rsabssa, verify_token}
use blind_age.Samples.{toy}

written : i2osp 258 2 ≡ some (1 ∷ 2 ∷ [])
unfolding i2osp
written = refl

os2ip-i2osp_example : os2ip (1 ∷ 2 ∷ []) ≡ 258
os2ip-i2osp_example = os2ip-i2osp 2 258 (1 ∷ 2 ∷ []) written

-- 2 ^ 7 = 128 = 29 modulo 33.
signed : blind_sign toy "AA" (2 ∷ []) ≡ ok (29 ∷ [])
unfolding blind_sign sign_blinded load_private b64u_decode os2ip i2osp bit_length
signed = refl

blind_sign-opens_example :
    (key : PrivateNumbers) × (load_private toy "AA" ≡ ok key)
    × (1 < os2ip (2 ∷ []))
    × (os2ip (2 ∷ []) < key.public_numbers.n)
    × (length {A = ℕ} (29 ∷ []) ≡ modulus_len key.public_numbers.n)
    × (pow_mod (os2ip (29 ∷ [])) key.public_numbers.e key.public_numbers.n ≡ os2ip (2 ∷ []))
blind_sign-opens_example = blind_sign-opens toy "AA" (2 ∷ []) (29 ∷ []) signed

unblinded : finalize toy "AA" (7 ∷ []) (29 ∷ []) 2 ≡ ok (25 ∷ [])
unfolding finalize unblind load_public b64u_decode os2ip i2osp bit_length
unblinded = refl

finalize-verifies_example :
    (key : PublicNumbers) × (load_public toy "AA" ≡ ok key)
    × (os2ip (25 ∷ []) ≡ os2ip (29 ∷ []) * 2 % key.n)
    × (length {A = ℕ} (25 ∷ []) ≡ length {A = ℕ} (29 ∷ []))
    × (verify_token toy (rsabssa "k" key) (7 ∷ []) (25 ∷ []) ≡ true)
finalize-verifies_example = finalize-verifies toy "AA" "k" (7 ∷ []) (29 ∷ []) (25 ∷ []) 2 unblinded

-- A modulus of 401 bits.
abbrev wide : PublicNumbers
wide = record { n = 2 ^ 400 + 1; e = 3 }

abbrev wide_toy : Primitives
wide_toy = record toy { load_der_public_key = λ d. rsa wide }

abbrev written_octets : Result RsaError Bytes → Bytes
written_octets (ok octets) = octets
written_octets (err e) = []

abbrev encoded : Bytes
unfolding emsa_pss_encode bit_length
encoded = written_octets (emsa_pss_encode wide_toy [] (bit_length wide.n - 1) [])

prepared : prepare wide_toy "AA" [] [] ≡ ok (wide, os2ip encoded)
unfolding prepare emsa_pss_encode load_public gcd b64u_decode os2ip bit_length
prepared = refl

blind-returns_example :
    (blind wide_toy "AA" [] [] (0 ∷ []) ≡ some (blind_with wide_toy wide (os2ip encoded) 1)) ↔ (
      (r : ℕ) × Coprime (0 ∷ []) wide.n r
      × (blind_with wide_toy wide (os2ip encoded) r ≡ blind_with wide_toy wide (os2ip encoded) 1))
blind-returns_example =
    blind-returns wide_toy "AA" [] [] (0 ∷ []) wide (os2ip encoded) prepared
      (blind_with wide_toy wide (os2ip encoded) 1)
