-- ===== src/Crypto/Bbs/Proof.antt =====
-- The octets of signatures and proofs, and the challenge (blindage/crypto/bbs.py).
use blind_age.Base.{
  ℕ, zero, suc, List, [], ◌∷◌, ◌++◌, ◌+◌, ◌-◌, ◌*◌, ◌/◌, ◌%◌, ◌||◌, not, leb, ltb, nat_beq, length,
  take, drop,
}
use blind_age.Base.Result.{Result, ok, err, guard, ◌>>=◌, ◌>>◌}
use blind_age.Base.Text.{Bytes}
use blind_age.Crypto.Octets.{os2ip}
use blind_age.Crypto.Bbs.Curve.{Curve, BbsError, bbs_error}
use blind_age.Crypto.Bbs.Encoding.{
  h2s_dst, octet_scalar_length, octet_point_length, to_octets, point_to_octets, octets_to_point,
}
use blind_age.Crypto.Bbs.Blocks.{concat_octets, hash_to_scalar}
use blind_age.Crypto.Bbs.Sign.{scalar_octets, split_signature}

-- (Abar, Bbar, D, e^, r1^, r3^, commitments, c)
pub record ProofParts (G : Type 0) : Type 0 where
  pub abar : G
  pub bbar : G
  pub d : G
  pub e_hat : ℕ
  pub r1_hat : ℕ
  pub r3_hat : ℕ
  pub commitments : List ℕ
  pub challenge : ℕ

-- `xs[:-1]` and `xs[-1]` of a list that is not empty.
abbrev pub split_last : ℕ → List ℕ → List ℕ × ℕ
split_last x [] = ([], x)
split_last x (y ∷ ys) = let rest = split_last y ys in (x ∷ rest.0, rest.1)

-- `_octets_to_proof` on the points and the scalars it read; fewer than four scalars do not pass
-- its floor.
abbrev pub assemble : {G : Type 0} → (abar bbar d : G) → List ℕ → Result BbsError (ProofParts G)
assemble p q r (e ∷ r1 ∷ r3 ∷ m ∷ ms) = ok record {
  abar = p;
  bbar = q;
  d = r;
  e_hat = e;
  r1_hat = r1;
  r3_hat = r3;
  commitments = (split_last m ms).0;
  challenge = (split_last m ms).1;
}
assemble p q r _ = err bbs_error

module _ (k : Curve) where
  open k use {G1, curve_order, is_inf}

  unfoldable pub octets_to_signature : Bytes → Result BbsError (G1 × ℕ)
  unfolding split_signature
  octets_to_signature signature = do
    parts ← split_signature k signature
    guard (not (is_inf parts.0)) bbs_error
    guard (not (nat_beq parts.1 0 || leb curve_order parts.1)) bbs_error
    ok parts

  -- The scalars of `count` groups of 32 octets.
  unfoldable pub read_scalars : (count : ℕ) → Bytes → Result BbsError (List ℕ)
  unfolding os2ip
  read_scalars zero octets = ok []
  read_scalars (suc count) octets = do
    let s = os2ip (take octet_scalar_length octets)
    guard (not (nat_beq s 0 || leb curve_order s)) bbs_error
    rest ← read_scalars count (drop octet_scalar_length octets)
    ok (s ∷ rest)

  -- One round of the loop that reads the points.
  unfoldable pub read_point : Bytes → Result BbsError G1
  unfolding octets_to_point
  read_point octets = do
    point ← octets_to_point k (take octet_point_length octets)
    guard (not (is_inf point)) bbs_error
    ok point

  unfoldable pub octets_to_proof : Bytes → Result BbsError (ProofParts G1)
  unfolding read_scalars read_point
  octets_to_proof proof = do
    guard (not (ltb (length proof) (3 * octet_point_length + 4 * octet_scalar_length))) bbs_error
    guard (nat_beq ((length proof - 3 * octet_point_length) % octet_scalar_length) 0) bbs_error
    abar ← read_point proof
    bbar ← read_point (drop octet_point_length proof)
    d ← read_point (drop (2 * octet_point_length) proof)
    let count = (length proof - 3 * octet_point_length) / octet_scalar_length
    scalars ← read_scalars count (drop (3 * octet_point_length) proof)
    assemble abar bbar d scalars

  unfoldable pub proof_to_octets : ProofParts G1 → Result BbsError Bytes
  unfolding point_to_octets to_octets concat_octets
  proof_to_octets p = do
    o1 ← point_to_octets k p.abar
    o2 ← point_to_octets k p.bbar
    o3 ← point_to_octets k p.d
    o4 ← scalar_octets p.e_hat
    o5 ← scalar_octets p.r1_hat
    o6 ← scalar_octets p.r3_hat
    o7 ← concat_octets scalar_octets p.commitments
    o8 ← scalar_octets p.challenge
    ok (o1 ++ o2 ++ o3 ++ o4 ++ o5 ++ o6 ++ o7 ++ o8)

  -- The disclosed indexes with their scalars, as long as both lists last.
  unfoldable pub disclosed_octets : (indexes scalars : List ℕ) → Result BbsError Bytes
  unfolding to_octets
  disclosed_octets [] ms = ok []
  disclosed_octets (i ∷ is) [] = ok []
  disclosed_octets (i ∷ is) (m ∷ ms) = do
    index ← to_octets i 8
    scalar ← scalar_octets m
    rest ← disclosed_octets is ms
    ok (index ++ scalar ++ rest)

  -- `_proof_challenge_calculate`
  unfoldable pub proof_challenge_calculate :
      (abar bbar d t1 t2 : G1) (domain : ℕ) (disclosed_scalars disclosed_indexes : List ℕ)
      (ph : Bytes)
      → Result BbsError ℕ
  unfolding point_to_octets to_octets disclosed_octets hash_to_scalar concat_octets
  proof_challenge_calculate abar bbar d t1 t2 domain scalars indexes ph = do
    count ← to_octets (length indexes) 8
    disclosed ← disclosed_octets indexes scalars
    points ← concat_octets (point_to_octets k) (abar ∷ bbar ∷ d ∷ t1 ∷ t2 ∷ [])
    domain_octets ← scalar_octets domain
    size ← to_octets (length ph) 8
    hash_to_scalar k (count ++ disclosed ++ points ++ domain_octets ++ size ++ ph) h2s_dst
