-- ===== src/Crypto/Bbs/Tests.antt =====
-- BBS on the curve of three points.
use blind_age.Base.{
  ℕ, ◌<◌, Bool, true, String, List, [], ◌∷◌, ◌≡◌, ◌↔◌, ◌≤◌, refl, arith, All, length, map, contains,
  all, find,
}
use blind_age.Base.Int.{ℤ, pos}
use blind_age.Base.Result.{ok}
use blind_age.Base.Text.{Bytes, encode}
use blind_age.Crypto.Base64.{b64u_encode, b64u_decode}
use blind_age.Crypto.Base64.RoundTrip.{b64u_decode-b64u_encode}
use blind_age.Crypto.Octets.{os2ip}
use blind_age.Crypto.Bbs.Toy.{z1, toy_curve, toy_laws}
use blind_age.Crypto.Bbs.Encoding.{octets_to_pubkey}
use blind_age.Crypto.Bbs.Blocks.{decode_text}
use blind_age.Crypto.Bbs.Sign.{generate_bbs_keypair, bbs_sign, bbs_verify}
use blind_age.Crypto.Bbs.SignVerify.{bbs_sign-verifies}
use blind_age.Crypto.Bbs.Proof.{octets_to_signature}
use blind_age.Crypto.Bbs.Generate.{Draws, bbs_proof_gen}
use blind_age.Crypto.Bbs.Indexes.{Increasing, bbs_proof_gen-Increasing}
use blind_age.Crypto.Bbs.Check.{bbs_proof_verify}
use blind_age.Crypto.Bbs.Raising.{bbs_proof_verify-answers}

abbrev pub toy_secret : String
toy_secret = "AAAAAAAAAAAAAAAAAAAAAAAAAAAAAAAAAAAAAAAAAAE"

abbrev pub toy_public : String
toy_public =
    "AAAAAAAAAAAAAAAAAAAAAAAAAAAAAAAAAAAAAAAAAAAAAAAAAAAAAAAAAAAAAAABAAAAAAAAAAAAAAAAAAAAAAAAAAAAAAAAAAAAAAAAAAAAAAAAAAAAAAAAAAAAAAAA"

abbrev toy_messages : List Bytes
toy_messages = (65 ∷ []) ∷ [] ∷ []

abbrev toy_signature : Bytes
toy_signature =
    0 ∷ 0 ∷ 0 ∷ 0 ∷ 0 ∷ 0 ∷ 0 ∷ 0 ∷ 0 ∷ 0 ∷ 0 ∷ 0 ∷ 0 ∷ 0 ∷ 0 ∷ 0 ∷ 0 ∷ 0 ∷ 0 ∷ 0 ∷ 0 ∷ 0 ∷ 0 ∷ 0
    ∷ 0 ∷ 0 ∷ 0 ∷ 0 ∷ 0 ∷ 0 ∷ 0 ∷ 0 ∷ 0 ∷ 0 ∷ 0 ∷ 0 ∷ 0 ∷ 0 ∷ 0 ∷ 0 ∷ 0 ∷ 0 ∷ 0 ∷ 0 ∷ 0 ∷ 0 ∷ 0 ∷ 2
    ∷ 0 ∷ 0 ∷ 0 ∷ 0 ∷ 0 ∷ 0 ∷ 0 ∷ 0 ∷ 0 ∷ 0 ∷ 0 ∷ 0 ∷ 0 ∷ 0 ∷ 0 ∷ 0 ∷ 0 ∷ 0 ∷ 0 ∷ 0 ∷ 0 ∷ 0 ∷ 0 ∷ 0
    ∷ 0 ∷ 0 ∷ 0 ∷ 0 ∷ 0 ∷ 0 ∷ 0 ∷ 1 ∷ []

pub toy_pair : generate_bbs_keypair toy_curve 0 ≡ ok (toy_secret, toy_public)
unfolding generate_bbs_keypair b64u_encode
toy_pair = refl

toy_signed : bbs_sign toy_curve z1 toy_secret [] toy_messages ≡ ok toy_signature
unfolding bbs_sign b64u_decode encode os2ip find all
toy_signed = refl

bbs_sign-verifies_example :
    bbs_verify toy_curve z1 toy_public toy_signature [] toy_messages ≡ ok true
unfolding os2ip
bbs_sign-verifies_example =
    bbs_sign-verifies toy_curve toy_laws z1 0 toy_secret toy_public [] toy_signature toy_messages
      refl (omega arith) toy_pair toy_signed (omega arith)

b64u_decode-b64u_encode_example : b64u_decode (b64u_encode (255 ∷ 0 ∷ [])) ≡ ok (255 ∷ 0 ∷ [])
b64u_decode-b64u_encode_example =
    b64u_decode-b64u_encode (255 ∷ 0 ∷ []) (omega arith, (omega arith, tt))

abbrev toy_draws : Draws
toy_draws = record { r1 = 1; r2 = 1; e_tilde = 1; r1_tilde = 2; r3_tilde = 2; m_tildes = 1 ∷ [] }

abbrev toy_proof : Bytes
toy_proof =
    0 ∷ 0 ∷ 0 ∷ 0 ∷ 0 ∷ 0 ∷ 0 ∷ 0 ∷ 0 ∷ 0 ∷ 0 ∷ 0 ∷ 0 ∷ 0 ∷ 0 ∷ 0 ∷ 0 ∷ 0 ∷ 0 ∷ 0 ∷ 0 ∷ 0 ∷ 0 ∷ 0
    ∷ 0 ∷ 0 ∷ 0 ∷ 0 ∷ 0 ∷ 0 ∷ 0 ∷ 0 ∷ 0 ∷ 0 ∷ 0 ∷ 0 ∷ 0 ∷ 0 ∷ 0 ∷ 0 ∷ 0 ∷ 0 ∷ 0 ∷ 0 ∷ 0 ∷ 0 ∷ 0 ∷ 2
    ∷ 0 ∷ 0 ∷ 0 ∷ 0 ∷ 0 ∷ 0 ∷ 0 ∷ 0 ∷ 0 ∷ 0 ∷ 0 ∷ 0 ∷ 0 ∷ 0 ∷ 0 ∷ 0 ∷ 0 ∷ 0 ∷ 0 ∷ 0 ∷ 0 ∷ 0 ∷ 0 ∷ 0
    ∷ 0 ∷ 0 ∷ 0 ∷ 0 ∷ 0 ∷ 0 ∷ 0 ∷ 0 ∷ 0 ∷ 0 ∷ 0 ∷ 0 ∷ 0 ∷ 0 ∷ 0 ∷ 0 ∷ 0 ∷ 0 ∷ 0 ∷ 0 ∷ 0 ∷ 0 ∷ 0 ∷ 2
    ∷ 0 ∷ 0 ∷ 0 ∷ 0 ∷ 0 ∷ 0 ∷ 0 ∷ 0 ∷ 0 ∷ 0 ∷ 0 ∷ 0 ∷ 0 ∷ 0 ∷ 0 ∷ 0 ∷ 0 ∷ 0 ∷ 0 ∷ 0 ∷ 0 ∷ 0 ∷ 0 ∷ 0
    ∷ 0 ∷ 0 ∷ 0 ∷ 0 ∷ 0 ∷ 0 ∷ 0 ∷ 0 ∷ 0 ∷ 0 ∷ 0 ∷ 0 ∷ 0 ∷ 0 ∷ 0 ∷ 0 ∷ 0 ∷ 0 ∷ 0 ∷ 0 ∷ 0 ∷ 0 ∷ 0 ∷ 1
    ∷ 0 ∷ 0 ∷ 0 ∷ 0 ∷ 0 ∷ 0 ∷ 0 ∷ 0 ∷ 0 ∷ 0 ∷ 0 ∷ 0 ∷ 0 ∷ 0 ∷ 0 ∷ 0 ∷ 0 ∷ 0 ∷ 0 ∷ 0 ∷ 0 ∷ 0 ∷ 0 ∷ 0
    ∷ 0 ∷ 0 ∷ 0 ∷ 0 ∷ 0 ∷ 0 ∷ 0 ∷ 2 ∷ 0 ∷ 0 ∷ 0 ∷ 0 ∷ 0 ∷ 0 ∷ 0 ∷ 0 ∷ 0 ∷ 0 ∷ 0 ∷ 0 ∷ 0 ∷ 0 ∷ 0 ∷ 0
    ∷ 0 ∷ 0 ∷ 0 ∷ 0 ∷ 0 ∷ 0 ∷ 0 ∷ 0 ∷ 0 ∷ 0 ∷ 0 ∷ 0 ∷ 0 ∷ 0 ∷ 0 ∷ 1 ∷ 0 ∷ 0 ∷ 0 ∷ 0 ∷ 0 ∷ 0 ∷ 0 ∷ 0
    ∷ 0 ∷ 0 ∷ 0 ∷ 0 ∷ 0 ∷ 0 ∷ 0 ∷ 0 ∷ 0 ∷ 0 ∷ 0 ∷ 0 ∷ 0 ∷ 0 ∷ 0 ∷ 0 ∷ 0 ∷ 0 ∷ 0 ∷ 0 ∷ 0 ∷ 0 ∷ 0 ∷ 1
    ∷ 0 ∷ 0 ∷ 0 ∷ 0 ∷ 0 ∷ 0 ∷ 0 ∷ 0 ∷ 0 ∷ 0 ∷ 0 ∷ 0 ∷ 0 ∷ 0 ∷ 0 ∷ 0 ∷ 0 ∷ 0 ∷ 0 ∷ 0 ∷ 0 ∷ 0 ∷ 0 ∷ 0
    ∷ 0 ∷ 0 ∷ 0 ∷ 0 ∷ 0 ∷ 0 ∷ 0 ∷ 2 ∷ 0 ∷ 0 ∷ 0 ∷ 0 ∷ 0 ∷ 0 ∷ 0 ∷ 0 ∷ 0 ∷ 0 ∷ 0 ∷ 0 ∷ 0 ∷ 0 ∷ 0 ∷ 0
    ∷ 0 ∷ 0 ∷ 0 ∷ 0 ∷ 0 ∷ 0 ∷ 0 ∷ 0 ∷ 0 ∷ 0 ∷ 0 ∷ 0 ∷ 0 ∷ 0 ∷ 0 ∷ 1 ∷ []

toy_proved :
    bbs_proof_gen toy_curve z1 toy_public toy_signature [] [] toy_messages (pos 0 ∷ []) toy_draws
    ≡ ok toy_proof
unfolding bbs_proof_gen b64u_decode encode os2ip find all contains
toy_proved = refl

-- The proof verifies with the message that it discloses.
toy_proof_verified :
    bbs_proof_verify toy_curve z1 toy_public toy_proof [] [] ((65 ∷ []) ∷ []) (pos 0 ∷ []) ≡ ok true
unfolding bbs_proof_verify b64u_decode encode os2ip find all contains
toy_proof_verified = refl

bbs_proof_gen-Increasing_example :
    (pk_octets : Bytes) × (w : toy_curve.G2) × (parts : toy_curve.G1 × ℕ) × (js : List ℕ)
    × (decode_text toy_public ≡ ok pk_octets)
    × (octets_to_pubkey toy_curve pk_octets ≡ ok w)
    × (octets_to_signature toy_curve toy_signature ≡ ok parts)
    × (length {A = ℤ} (pos 0 ∷ []) ≤ length toy_messages)
    × (pos 0 ∷ [] ≡ map (λ j. pos j) js)
    × All (λ j. j < length toy_messages) js
    × Increasing js
bbs_proof_gen-Increasing_example =
    bbs_proof_gen-Increasing toy_curve z1 toy_public toy_signature [] [] toy_proof toy_messages
      (pos 0 ∷ []) toy_draws toy_proved

bbs_proof_verify-answers_example :
    ((answer : Bool) × (bbs_proof_verify toy_curve z1 toy_public toy_proof [] [] [] (pos 7 ∷ [])
        ≡ ok answer))
    ↔ ((pk_octets : Bytes) × (w : toy_curve.G2) × (decode_text toy_public ≡ ok pk_octets)
        × (octets_to_pubkey toy_curve pk_octets ≡ ok w))
bbs_proof_verify-answers_example =
    bbs_proof_verify-answers toy_curve z1 toy_public toy_proof [] [] [] (pos 7 ∷ [])
