-- ===== src/Crypto/Bbs/Check.antt =====
-- `bbs_proof_verify` (blindage/crypto/bbs.py).
use blind_age.Base.{ℕ, Bool, true, false, String, List, ◌+◌, ◌&&◌, ltb, nat_beq, length, map}
use blind_age.Base.Int.{ℤ, pos, pos_part, leb_ℤ}
use blind_age.Base.Lists.{all}
use blind_age.Base.Result.{Result, ok, err, ◌>>=◌}
use blind_age.Base.Text.{Bytes}
use blind_age.Crypto.Bbs.Curve.{Curve, BbsError, bbs_error, not_invertible, index_error}
use blind_age.Crypto.Bbs.Encoding.{octets_to_pubkey}
use blind_age.Crypto.Bbs.Blocks.{
  decode_text, message_generators, messages_to_scalars, calculate_domain, weighted,
}
use blind_age.Crypto.Bbs.Proof.{ProofParts, octets_to_proof, proof_challenge_calculate}
use blind_age.Crypto.Bbs.Generate.{undisclosed, pick}

-- `i < 0 or i > length - 1` does not hold.
abbrev pub index_in_range : ℕ → ℤ → Bool
index_in_range n i = leb_ℤ (pos 0) i && ltb (pos_part i) n

module _ (k : Curve) where
  open k use {G1, G2, add, multiply, generator_g2, neg_g2, pairing, times, is_one}

  -- T1 of ProofVerifyInit.
  unfoldable pub verifier_t1 : ProofParts G1 → G1
  verifier_t1 p =
      add (add (multiply p.bbar p.challenge) (multiply p.abar p.e_hat)) (multiply p.d p.r1_hat)

  -- T2 of ProofVerifyInit, given the generators of the disclosed messages with their scalars, and
  -- the generators of the others.
  unfoldable pub verifier_t2 :
      (p1 q_1 : G1) (domain : ℕ) (shown : List G1) (scalars : List ℕ) (hidden : List G1)
      → ProofParts G1
      → G1
  unfolding weighted
  verifier_t2 p1 q_1 domain shown scalars hidden p =
      let bv = weighted k (add p1 (multiply q_1 domain)) shown scalars in
      weighted k (add (multiply bv p.challenge) (multiply p.d p.r3_hat)) hidden p.commitments

  -- e(Abar, W) * e(Bbar, -P2) == Identity_GT
  unfoldable pub proof_pairing : G2 → ProofParts G1 → Bool
  proof_pairing w p = is_one (times (pairing w p.abar) (pairing (neg_g2 generator_g2) p.bbar))

  -- The body of the `try` once the proof is parsed and its indexes are judged.
  unfoldable pub check_proof :
      (p1 : G1) (pk_octets : Bytes)
      → G2
      → (header ph : Bytes) → List Bytes
      → (indexes : List ℕ) → ProofParts G1
      → Result BbsError Bool
  unfolding undisclosed messages_to_scalars message_generators calculate_domain pick verifier_t1
      verifier_t2 proof_challenge_calculate proof_pairing
  check_proof p1 pk_octets w header ph messages indexes p = do
    let count = length indexes + length p.commitments
    let hidden_indexes = undisclosed indexes 0 count
    scalars ← messages_to_scalars k messages
    generators ← message_generators k count
    domain ← calculate_domain k pk_octets generators.0 generators.1 header
    shown ← pick generators.1 indexes
    hidden ← pick generators.1 hidden_indexes
    let t1 = verifier_t1 p
    let t2 = verifier_t2 p1 generators.0 domain shown scalars hidden p
    expected ← proof_challenge_calculate k p.abar p.bbar p.d t1 t2 domain scalars indexes ph
    ok (nat_beq expected p.challenge && proof_pairing w p)

  -- The body of the `try` once the proof is parsed.
  unfoldable pub check_judged :
      (p1 : G1) (pk_octets : Bytes)
      → G2
      → (header ph : Bytes) → List Bytes
      → List ℤ
      → ProofParts G1
      → Result BbsError Bool
  unfolding check_proof all
  check_judged p1 pk_octets w header ph messages disclosed_indexes p =
      let count = length disclosed_indexes + length p.commitments in
      let judged = all (index_in_range count) disclosed_indexes in
      elim (judged && nat_beq (length messages) (length disclosed_indexes)) [
        | true ↦ check_proof p1 pk_octets w header ph messages (map pos_part disclosed_indexes) p
        | false ↦ ok false
      ]

  -- The body of the `try`.
  unfoldable pub verify_body :
      (p1 : G1) (pk_octets : Bytes)
      → G2
      → (proof header ph : Bytes) → List Bytes
      → List ℤ
      → Result BbsError Bool
  unfolding octets_to_proof check_judged
  verify_body p1 pk_octets w proof header ph messages disclosed_indexes = do
    p ← octets_to_proof k proof
    check_judged p1 pk_octets w header ph messages disclosed_indexes p

  -- `except BbsError: return False`
  abbrev pub or_false : Result BbsError Bool → Result BbsError Bool
  or_false (ok b) = ok b
  or_false (err bbs_error) = ok false
  or_false (err not_invertible) = err not_invertible
  or_false (err index_error) = err index_error

  unfoldable pub bbs_proof_verify :
      (p1 : G1) (public : String) (proof header presentation_header : Bytes)
      → List Bytes
      → List ℤ
      → Result BbsError Bool
  unfolding decode_text octets_to_pubkey verify_body
  bbs_proof_verify p1 public proof header ph messages disclosed_indexes = do
    pk_octets ← decode_text public
    w ← octets_to_pubkey k pk_octets
    or_false (verify_body p1 pk_octets w proof header ph messages disclosed_indexes)
