-- ===== src/Crypto/Bbs/Generate.antt =====
-- `bbs_proof_gen` (blindage/crypto/bbs.py). The random scalars are an argument.
use blind_age.Base.{
  ℕ, zero, suc, String, List, [], ◌∷◌, ◌+◌, ◌-◌, ◌*◌, ◌%◌, ◌&&◌, not, ltb, length, get_elem?,
  contains, if◌then◌else◌,
}
use blind_age.Base.Equality.{nat_eq}
use blind_age.Base.Int.{ℤ, pos, negsuc, pos_part, leb_ℤ}
use blind_age.Base.Result.{Result, ok, present, guard, ◌>>=◌, ◌>>◌}
use blind_age.Base.Text.{Bytes}
use blind_age.Crypto.Rsabssa.{mod_inverse}
use blind_age.Crypto.Bbs.Curve.{Curve, BbsError, bbs_error, not_invertible, index_error}
use blind_age.Crypto.Bbs.Encoding.{octets_to_pubkey}
use blind_age.Crypto.Bbs.Blocks.{
  decode_text, message_generators, messages_to_scalars, calculate_domain, weighted, b_value,
}
use blind_age.Crypto.Bbs.Proof.{
  ProofParts, octets_to_signature, proof_to_octets, proof_challenge_calculate,
}

-- The loop over `disclosed_indexes`, with the index before; the indexes as list positions.
unfoldable pub check_indexes : (length : ℕ) (prev : ℤ) → List ℤ → Result BbsError (List ℕ)
check_indexes n prev [] = ok []
check_indexes n prev (i ∷ is) = do
  guard (leb_ℤ (pos 0) i && ltb (pos_part i) n) bbs_error
  guard (not (leb_ℤ i prev)) bbs_error
  rest ← check_indexes n i is
  ok (pos_part i ∷ rest)

-- `[i for i in range(a, a + count) if i not in disclosed_set]`
unfoldable pub undisclosed : (disclosed : List ℕ) (a count : ℕ) → List ℕ
unfolding contains
undisclosed disclosed a zero = []
undisclosed disclosed a (suc count) =
    let rest = undisclosed disclosed (suc a) count in
    if contains disclosed a then rest else a ∷ rest

-- `[xs[i] for i in indexes]`
unfoldable pub pick : {A : Type 0} → List A → (indexes : List ℕ) → Result BbsError (List A)
pick xs [] = ok []
pick xs (i ∷ is) = do x ← present (get_elem? xs i) index_error; rest ← pick xs is; ok (x ∷ rest)

-- `(a - b) % n`
abbrev pub sub_mod : (a b n : ℕ) → ℕ
sub_mod a b n = (a + (n - b % n)) % n

-- The scalars drawn: `random_scalars[:5]` and `random_scalars[5:]`.
pub record Draws : Type 0 where
  pub r1 : ℕ
  pub r2 : ℕ
  pub e_tilde : ℕ
  pub r1_tilde : ℕ
  pub r3_tilde : ℕ
  pub m_tildes : List ℕ

-- `(m_tilde + m * challenge) % r` for the undisclosed messages.
unfoldable pub responses : (order challenge : ℕ) (m_tildes scalars : List ℕ) → List ℕ
responses n c [] ms = []
responses n c (t ∷ ts) [] = []
responses n c (t ∷ ts) (m ∷ ms) = (t + m * c) % n ∷ responses n c ts ms

module _ (k : Curve) where
  open k use {G1, curve_order, add, multiply, neg}

  -- ProofInit: D, Abar, Bbar, T1, and T2 before the undisclosed generators.
  pub record Blinded : Type 0 where
    pub d : G1
    pub abar : G1
    pub bbar : G1
    pub t1 : G1
    pub t2 : G1

  -- ProofInit, given the generators at the undisclosed indexes.
  unfoldable pub proof_init : (b a_point : G1) (e : ℕ) → Draws → List G1 → Blinded
  unfolding weighted
  proof_init b a_point e x hidden =
      let d = multiply b x.r2 in
      let abar = multiply a_point (x.r1 * x.r2 % curve_order) in
      record {
        d = d;
        abar = abar;
        bbar = add (multiply d x.r1) (neg (multiply abar e));
        t1 = add (multiply abar x.e_tilde) (multiply d x.r1_tilde);
        t2 = weighted k (multiply d x.r3_tilde) hidden x.m_tildes;
      }

  -- ProofFinalize, given the scalars of the undisclosed messages.
  unfoldable pub proof_finalize :
      (e challenge : ℕ) → Draws → (scalars : List ℕ) → Blinded → Result BbsError (ProofParts G1)
  unfolding mod_inverse responses
  proof_finalize e c x scalars init = do
    r3 ← present (mod_inverse x.r2 curve_order) not_invertible
    ok record {
      abar = init.abar;
      bbar = init.bbar;
      d = init.d;
      e_hat = (x.e_tilde + e * c) % curve_order;
      r1_hat = sub_mod x.r1_tilde (x.r1 * c) curve_order;
      r3_hat = sub_mod x.r3_tilde (r3 * c) curve_order;
      commitments = responses curve_order c x.m_tildes scalars;
      challenge = c;
    }

  -- `bbs_proof_gen` once its arguments are found well formed.
  unfoldable pub build_proof :
      (p1 : G1) (pk_octets header ph : Bytes)
      → G1 × ℕ
      → List Bytes
      → (indexes : List ℕ) → Draws
      → Result BbsError Bytes
  unfolding messages_to_scalars message_generators calculate_domain b_value undisclosed pick
      proof_init proof_challenge_calculate proof_finalize proof_to_octets
  build_proof p1 pk_octets header ph (a_point, e) messages indexes draws = do
    msg_scalars ← messages_to_scalars k messages
    generators ← message_generators k (length messages)
    domain ← calculate_domain k pk_octets generators.0 generators.1 header
    let hidden_indexes = undisclosed indexes 0 (length messages)
    let b = b_value k p1 domain generators.0 generators.1 msg_scalars
    hidden ← pick generators.1 hidden_indexes
    let init = proof_init b a_point e draws hidden
    shown ← pick msg_scalars indexes
    c ←
        proof_challenge_calculate k init.abar init.bbar init.d init.t1 init.t2 domain shown indexes
          ph
    kept ← pick msg_scalars hidden_indexes
    parts ← proof_finalize e c draws kept init
    proof_to_octets k parts

  unfoldable pub bbs_proof_gen :
      (p1 : G1) (public : String) (signature header presentation_header : Bytes)
      → List Bytes
      → (disclosed_indexes : List ℤ) → Draws
      → Result BbsError Bytes
  unfolding decode_text octets_to_pubkey octets_to_signature check_indexes build_proof
  bbs_proof_gen p1 public signature header ph messages disclosed_indexes draws = do
    pk_octets ← decode_text public
    w ← octets_to_pubkey k pk_octets
    parts ← octets_to_signature k signature
    guard (not (ltb (length messages) (length disclosed_indexes))) bbs_error
    indexes ← check_indexes (length messages) (negsuc 0) disclosed_indexes
    build_proof p1 pk_octets header ph parts messages indexes draws
