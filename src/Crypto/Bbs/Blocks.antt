-- ===== src/Crypto/Bbs/Blocks.antt =====
-- The building blocks of BBS (blindage/crypto/bbs.py). `p1` is the point of G1 that the module
-- decodes from its constant when it is imported.
use blind_age.Base.{ℕ, zero, suc, ◌%◌, ◌||◌, String, List, [], ◌∷◌, ◌++◌, not, leb, nat_beq, length}
use blind_age.Base.Result.{Result, ok, err, guard, ◌>>=◌, ◌>>◌}
use blind_age.Base.Text.{Bytes}
use blind_age.Crypto.Base64.{b64u_decode}
use blind_age.Crypto.Octets.{os2ip}
use blind_age.Crypto.Bbs.Curve.{Curve, BbsError, bbs_error, index_error}
use blind_age.Crypto.Bbs.Encoding.{
  api_id, h2s_dst, seed_dst, generator_dst, generator_seed, map_dst, expand_len, to_octets,
  point_to_octets,
}

-- `b64u_decode` under `except Exception`.
unfoldable pub decode_text : String → Result BbsError Bytes
decode_text t = elim (b64u_decode t) [ ok octets ↦ ok octets | err e ↦ err bbs_error ]

-- Octets of each item, one after the other.
unfoldable pub concat_octets :
    {A : Type 0} → (A → Result BbsError Bytes) → List A → Result BbsError Bytes
concat_octets f [] = ok []
concat_octets f (x ∷ xs) = do first ← f x; rest ← concat_octets f xs; ok (first ++ rest)

module _ (k : Curve) where
  open k use {G1, curve_order, add, multiply, expand_message_xmd, hash_to_g1}

  -- `_hash_to_scalar`; every tag that the module passes has at most 255 octets.
  unfoldable pub hash_to_scalar : (message dst : Bytes) → Result BbsError ℕ
  unfolding os2ip
  hash_to_scalar message dst = do
    guard (leb (length dst) 255) bbs_error
    ok (os2ip (expand_message_xmd message dst expand_len) % curve_order)

  -- The rounds `i, i + 1, ...` of the loop of `_create_generators`, from the octets `v`.
  unfoldable pub generators_from : (rounds i : ℕ) → Bytes → Result BbsError (List G1)
  unfolding to_octets
  generators_from zero i v = ok []
  generators_from (suc rounds) i v = do
    octets ← to_octets i 8
    let v' = expand_message_xmd (v ++ octets) seed_dst expand_len
    rest ← generators_from rounds (suc i) v'
    ok (hash_to_g1 v' generator_dst ∷ rest)

  unfoldable pub create_generators : (count : ℕ) → Result BbsError (List G1)
  unfolding generators_from
  create_generators count =
      generators_from count 1 (expand_message_xmd generator_seed seed_dst expand_len)

  -- `generators[0], generators[1:]`
  abbrev pub first_and_rest : List G1 → Result BbsError (G1 × List G1)
  first_and_rest [] = err index_error
  first_and_rest (q_1 ∷ h_points) = ok (q_1, h_points)

  -- Q_1 and the generators of so many messages.
  unfoldable pub message_generators : (length : ℕ) → Result BbsError (G1 × List G1)
  unfolding create_generators
  message_generators length = create_generators (suc length) >>= first_and_rest

  unfoldable pub messages_to_scalars : List Bytes → Result BbsError (List ℕ)
  unfolding hash_to_scalar
  messages_to_scalars [] = ok []
  messages_to_scalars (m ∷ ms) = do
    s ← hash_to_scalar m map_dst
    rest ← messages_to_scalars ms
    ok (s ∷ rest)

  unfoldable pub calculate_domain : Bytes → G1 → List G1 → (header : Bytes) → Result BbsError ℕ
  unfolding to_octets concat_octets hash_to_scalar point_to_octets
  calculate_domain pk_octets q_1 h_points header = do
    count ← to_octets (length h_points) 8
    first ← point_to_octets k q_1
    others ← concat_octets (point_to_octets k) h_points
    size ← to_octets (length header) 8
    hash_to_scalar (pk_octets ++ (count ++ first ++ others ++ api_id) ++ size ++ header) h2s_dst

  -- The loop `for h, m in zip(...): b = add(b, multiply(h, m))`.
  unfoldable pub weighted : G1 → List G1 → List ℕ → G1
  weighted b [] ms = b
  weighted b (h ∷ hs) [] = b
  weighted b (h ∷ hs) (m ∷ ms) = weighted (add b (multiply h m)) hs ms

  -- `_b_value`
  unfoldable pub b_value : (p1 : G1) → ℕ → G1 → List G1 → List ℕ → G1
  unfolding weighted
  b_value p1 domain q_1 h_points scalars = weighted (add p1 (multiply q_1 domain)) h_points scalars

  -- `_decode_scalar_secret`
  unfoldable pub decode_scalar_secret : String → Result BbsError ℕ
  unfolding decode_text os2ip
  decode_scalar_secret secret = do
    raw ← decode_text secret
    let sk = os2ip raw
    guard (not (nat_beq sk 0 || leb curve_order sk)) bbs_error
    ok sk
