-- ===== src/Crypto/Bbs/Raising.antt =====
-- When `bbs_proof_verify` raises (blindage/crypto/bbs.py).
use blind_age.Base.{
  ℕ, zero, suc, Bool, false, String, List, [], ◌∷◌, ◌+◌, ◌<◌, ◌≡◌, ◌&&◌, ◌↔◌, All, refl, ap, arith,
  length, map, nat_eq, Bool-cases, inl, inr, all, &&-eq-true, nat_beq,
}
use blind_age.Base.Int.{ℤ, pos_part}
use blind_age.Base.Result.{Result, ok, >>=-eq-ok, ok_injective}
use blind_age.Base.Text.{Bytes}
use blind_age.Crypto.Bbs.Curve.{Curve, BbsError}
use blind_age.Crypto.Bbs.Encoding.{point_to_octets, octets_to_point, octets_to_pubkey}
use blind_age.Crypto.Bbs.Blocks.{
  generators_from, create_generators, first_and_rest, message_generators, calculate_domain,
  messages_to_scalars, decode_text,
}
use blind_age.Crypto.Bbs.Proof.{
  ProofParts, assemble, octets_to_proof, read_point, read_scalars, disclosed_octets,
  proof_challenge_calculate,
}
use blind_age.Crypto.Bbs.Generate.{undisclosed}
use blind_age.Crypto.Bbs.Check.{
  index_in_range, check_proof, check_judged, verify_body, or_false, bbs_proof_verify,
}
use blind_age.Crypto.Bbs.Handled.{
  handled, OnlyBbsError, bind-OnlyBbsError, ok-OnlyBbsError, to_octets-OnlyBbsError,
  pick-OnlyBbsError, undisclosed-below, positions_below, hash_to_scalar-OnlyBbsError,
  generators_from-OnlyBbsError, length-generators_from,
}

length-positions : (indexes : List ℤ) → length (map pos_part indexes) ≡ length indexes
length-positions [] = refl
length-positions (i ∷ is) = ap suc (length-positions is)

module _ (k : Curve) where
  open k use {G1, G2, curve_order, is_inf, expand_message_xmd, multiply, decompress}

  first_and_rest-OnlyBbsError :
      (count : ℕ) (points : List G1)
      → length points ≡ suc count
      → OnlyBbsError (first_and_rest k points)
  first_and_rest-OnlyBbsError count [] h = ground arith
  first_and_rest-OnlyBbsError count (p ∷ ps) h = ok-OnlyBbsError (p, ps)

  message_generators-OnlyBbsError : (count : ℕ) → OnlyBbsError (message_generators k count)
  unfolding message_generators create_generators
  message_generators-OnlyBbsError count =
      bind-OnlyBbsError (generators_from k (suc count) 1 _) _
        (generators_from-OnlyBbsError k (suc count) 1 _)
        (λ points e.
          first_and_rest-OnlyBbsError count points
            (length-generators_from k (suc count) 1 _ points e))

  length-first_and_rest :
      (count : ℕ) (points : List G1) (parts : G1 × List G1)
      → length points ≡ suc count
      → first_and_rest k points ≡ ok parts
      → length parts.1 ≡ count
  length-first_and_rest count [] parts h e = ground arith
  length-first_and_rest count (p ∷ ps) parts h e =
      let same : ◌≡◌ {A = G1 × List G1} (p, ps) parts = ok_injective e in rw (← same) (omega arith)

  length-message_generators :
      (count : ℕ) (parts : G1 × List G1)
      → message_generators k count ≡ ok parts
      → length parts.1 ≡ count
  unfolding message_generators create_generators
  length-message_generators count parts h =
      let (points, first, rest) = >>=-eq-ok (generators_from k (suc count) 1 _) _ h in
      length-first_and_rest count points parts
        (length-generators_from k (suc count) 1 _ points first) rest

  messages_to_scalars-OnlyBbsError :
      (messages : List Bytes) → OnlyBbsError (messages_to_scalars k messages)
  unfolding messages_to_scalars
  messages_to_scalars-OnlyBbsError [] = ok-OnlyBbsError []
  messages_to_scalars-OnlyBbsError (m ∷ ms) =
      let ih = messages_to_scalars-OnlyBbsError ms in search (handled, hash_to_scalar-OnlyBbsError)

  point_to_octets-OnlyBbsError : (p : G1) → OnlyBbsError (point_to_octets k p)
  unfolding point_to_octets
  point_to_octets-OnlyBbsError p = to_octets-OnlyBbsError (k.compress p) 48

  calculate_domain-OnlyBbsError :
      (pk_octets : Bytes) (q_1 : G1) (points : List G1) (header : Bytes)
      → OnlyBbsError (calculate_domain k pk_octets q_1 points header)
  unfolding calculate_domain
  calculate_domain-OnlyBbsError pk_octets q_1 points header =
      search (handled, hash_to_scalar-OnlyBbsError, point_to_octets-OnlyBbsError)

  disclosed_octets-OnlyBbsError :
      (indexes scalars : List ℕ) → OnlyBbsError (disclosed_octets k indexes scalars)
  unfolding disclosed_octets
  disclosed_octets-OnlyBbsError [] ms = ok-OnlyBbsError []
  disclosed_octets-OnlyBbsError (i ∷ is) [] = ok-OnlyBbsError []
  disclosed_octets-OnlyBbsError (i ∷ is) (m ∷ ms) =
      let ih = disclosed_octets-OnlyBbsError is ms in search handled

  challenge-OnlyBbsError :
      (abar bbar d t1 t2 : G1) (domain : ℕ) (scalars indexes : List ℕ) (ph : Bytes)
      → OnlyBbsError (proof_challenge_calculate k abar bbar d t1 t2 domain scalars indexes ph)
  unfolding proof_challenge_calculate
  challenge-OnlyBbsError abar bbar d t1 t2 domain scalars indexes ph =
      search
        (
          handled, disclosed_octets-OnlyBbsError, hash_to_scalar-OnlyBbsError,
          point_to_octets-OnlyBbsError,
        )
        depth 9

  read_point-OnlyBbsError : (octets : Bytes) → OnlyBbsError (read_point k octets)
  unfolding read_point octets_to_point
  read_point-OnlyBbsError octets = search handled

  read_scalars-OnlyBbsError :
      (count : ℕ) (octets : Bytes) → OnlyBbsError (read_scalars k count octets)
  unfolding read_scalars
  read_scalars-OnlyBbsError zero octets = ok-OnlyBbsError []
  read_scalars-OnlyBbsError (suc count) octets =
      let ih = read_scalars-OnlyBbsError count in search (handled, ih)

  assemble-OnlyBbsError : (p q r : G1) (scalars : List ℕ) → OnlyBbsError (assemble p q r scalars)
  unfolding OnlyBbsError
  assemble-OnlyBbsError p q r [] = inl refl
  assemble-OnlyBbsError p q r (a ∷ []) = inl refl
  assemble-OnlyBbsError p q r (a ∷ b ∷ []) = inl refl
  assemble-OnlyBbsError p q r (a ∷ b ∷ c ∷ []) = inl refl
  assemble-OnlyBbsError p q r (a ∷ b ∷ c ∷ d ∷ ds) = ok-OnlyBbsError _

  octets_to_proof-OnlyBbsError : (proof : Bytes) → OnlyBbsError (octets_to_proof k proof)
  unfolding octets_to_proof
  octets_to_proof-OnlyBbsError proof =
      search (handled, read_point-OnlyBbsError, read_scalars-OnlyBbsError, assemble-OnlyBbsError)
        depth 9

  -- What `check_proof` looks up is there, since the indexes are below the number of generators.
  check_proof-OnlyBbsError :
      (p1 : G1) (pk_octets : Bytes) (w : G2) (header ph : Bytes) (messages : List Bytes)
      (indexes : List ℕ) (p : ProofParts G1)
      → All (λ i. i < length indexes + length p.commitments) indexes
      → OnlyBbsError (check_proof k p1 pk_octets w header ph messages indexes p)
  unfolding check_proof
  check_proof-OnlyBbsError p1 pk_octets w header ph messages indexes p below =
      let count = length indexes + length p.commitments in
      bind-OnlyBbsError _ _ (messages_to_scalars-OnlyBbsError messages) (λ scalars e1.
        bind-OnlyBbsError _ _ (message_generators-OnlyBbsError count) (λ generators e2.
          let size = length-message_generators count generators e2 in
          let shown = pick-OnlyBbsError generators.1 indexes (rw size below) in
          let hidden =
            pick-OnlyBbsError generators.1 (undisclosed indexes 0 count)
              (rw size (undisclosed-below indexes 0 count count (omega arith))) in
          search (handled, shown, hidden, calculate_domain-OnlyBbsError, challenge-OnlyBbsError)
            depth 9))

  or_false-answers :
      (m : Result BbsError Bool) → OnlyBbsError m → (answer : Bool) × (or_false k m ≡ ok answer)
  unfolding OnlyBbsError
  or_false-answers m (inl e) = (false, rw e refl)
  or_false-answers m (inr (b, e)) = (b, rw e refl)

  judged_indexes :
      (p1 : G1) (pk_octets : Bytes) (w : G2) (header ph : Bytes) (messages : List Bytes)
      (indexes : List ℤ) (p : ProofParts G1)
      → OnlyBbsError (check_judged k p1 pk_octets w header ph messages indexes p)
  unfolding check_judged
  judged_indexes p1 pk_octets w header ph messages indexes p =
      let count = length indexes + length p.commitments in
      let judged = all (index_in_range count) indexes in
      elim (Bool-cases (judged && nat_beq (length messages) (length indexes))) [
        | inr e ↦ rw (check_judged, e) (ok-OnlyBbsError false)
        | inl e ↦
            let (ranged, _) = &&-eq-true judged (nat_beq (length messages) (length indexes)) e in
            let below = positions_below count indexes ranged in
            rw (check_judged, e)
              (check_proof-OnlyBbsError p1 pk_octets w header ph messages (map pos_part indexes) p
                (rw (length-positions indexes) below))
      ]

  verify_body-OnlyBbsError :
      (p1 : G1) (pk_octets : Bytes) (w : G2) (proof header ph : Bytes) (messages : List Bytes)
      (indexes : List ℤ)
      → OnlyBbsError (verify_body k p1 pk_octets w proof header ph messages indexes)
  unfolding verify_body
  verify_body-OnlyBbsError p1 pk_octets w proof header ph messages indexes =
      bind-OnlyBbsError _ _ (octets_to_proof-OnlyBbsError proof)
        (λ p e. judged_indexes p1 pk_octets w header ph messages indexes p)

  -- `bbs_proof_verify` returns an answer exactly when the key's text decodes to the octets of a
  -- public key: a malformed proof, index or message count never raises, nor is an index out of
  -- bounds ever looked up.
  pub bbs_proof_verify-answers :
      (p1 : G1) (public : String) (proof header ph : Bytes) (messages : List Bytes)
      (indexes : List ℤ)
      → ((answer : Bool) × (bbs_proof_verify k p1 public proof header ph messages indexes
            ≡ ok answer))
        ↔ ((pk_octets : Bytes) × (w : G2) × (decode_text public ≡ ok pk_octets)
            × (octets_to_pubkey k pk_octets ≡ ok w))
  unfolding bbs_proof_verify
  bbs_proof_verify-answers p1 public proof header ph messages indexes = (
    (λ h.
        let (answer, e) = h in
        let (pk_octets, first, rest) = >>=-eq-ok (decode_text public) _ e in
        let (w, second, _) = >>=-eq-ok (octets_to_pubkey k pk_octets) _ rest in
        (pk_octets, w, first, second)),
    (λ h.
        let (pk_octets, w, first, second) = h in
        rw (bbs_proof_verify, first, second)
          (or_false-answers _
            (verify_body-OnlyBbsError p1 pk_octets w proof header ph messages indexes))),
  )
