-- ===== src/Crypto/Base64/RoundTrip.antt =====
-- `b64u_decode` after `b64u_encode` (blindage/crypto/interface.py).
use Prim.Native.Char.{Char, code}
use blind_age.Base.{
  ℕ, zero, suc, ◌+◌, ◌*◌, ◌/◌, ◌%◌, ◌<◌, ◌≡◌, ◌∙◌, String, Bool, true, false, ◌&&◌, not, Option,
  none, some, List, [], ◌∷◌, ◌++◌, map, ltb, nat_beq, length, all, refl, arith, All, Bool-cases,
  inl, inr, nat_beq_iff, &&-eq-true, ap,
}
use blind_age.Base.Text.{Bytes, chars}
use blind_age.Base.Result.{ok}
use blind_age.Crypto.Base64.{
  symbol, sextet, b64u_encode, b64u_decode, a2b, q0, q1, q2, q3, Quad, feed, prepend, padding,
}

every_below : ℕ → (ℕ → Bool) → Bool
every_below zero p = true
every_below (suc n) p = p n && every_below n p

every_below-holds : (n : ℕ) (p : ℕ → Bool) (v : ℕ) → every_below n p ≡ true → v < n → p v ≡ true
unfolding every_below
every_below-holds zero p v h lt = ground arith
every_below-holds (suc n) p v h lt =
    let (here, below) = &&-eq-true (p n) (every_below n p) h in
    elim (Bool-cases (nat_beq v n)) [
      | inl e ↦ (let same = (nat_beq_iff v n).0 e in rw same here)
      | inr e ↦ every_below-holds n p v below (ground arith)
    ]

abbrev stands_for : Option ℕ → ℕ → Bool
stands_for none v = false
stands_for (some w) v = nat_beq w v

abbrev symbol_code : ℕ → ℕ
symbol_code v = code (symbol v)

-- The code is ASCII, is not the padding character, and stands for its six bits.
abbrev readable : ℕ → Bool
readable v =
    ltb (symbol_code v) 128
    && (not (nat_beq (symbol_code v) b'=') && stands_for (sextet (symbol_code v)) v)

all_readable : every_below 64 readable ≡ true
unfolding every_below symbol sextet
all_readable = refl

stands_for-eq : (o : Option ℕ) (v : ℕ) → stands_for o v ≡ true → o ≡ some v
stands_for-eq none v h = cc
stands_for-eq (some w) v h = ap some ((nat_beq_iff w v).0 h)

not-true : (b : Bool) → not b ≡ true → b ≡ false
not-true b h = ground arith

symbol_readable :
    (v : ℕ)
    → v < 64
    → (ltb (symbol_code v) 128 ≡ true)
      × (nat_beq (symbol_code v) b'=' ≡ false)
      × (sextet (symbol_code v) ≡ some v)
symbol_readable v lt =
    let h : readable v ≡ true = every_below-holds 64 readable v all_readable lt in
    let c = symbol_code v in
    let reads = stands_for (sextet c) v in
    let (ascii, rest) = &&-eq-true (ltb c 128) (not (nat_beq c b'=') && reads) h in
    let (other, six) = &&-eq-true (not (nat_beq c b'=')) reads rest in
    (ascii, not-true (nat_beq c b'=') other, stands_for-eq (sextet c) v six)

-- The decoder takes a symbol's six bits.
a2b-read :
    (q : Quad) (pads c v : ℕ) (cs : List ℕ)
    → nat_beq c b'=' ≡ false
    → sextet c ≡ some v
    → a2b q pads (c ∷ cs) ≡ prepend q v (a2b (feed q v) 0 cs)
unfolding a2b
a2b-read q pads c v cs e f = rw (a2b, e, f) refl

a2b-symbol :
    (q : Quad) (pads v : ℕ) (cs : List ℕ)
    → v < 64
    → a2b q pads (symbol_code v ∷ cs) ≡ prepend q v (a2b (feed q v) 0 cs)
a2b-symbol q pads v cs lt =
    let (_, e, f) = symbol_readable v lt in a2b-read q pads (symbol_code v) v cs e f

abbrev codes : String → List ℕ
codes s = map (λ (c : Char). code c) (chars s)

abbrev padded : String → List ℕ
padded s = codes s ++ padding (length (codes s) % 4)

Octets : Bytes → Type 0
Octets = All (λ b. b < 256)

prepend-q0 : (v : ℕ) (o : Option Bytes) → prepend q0 v o ≡ o
prepend-q0 v none = refl
prepend-q0 v (some out) = refl

two_symbols :
    (v w : ℕ) (cs : List ℕ)
    → v < 64
    → w < 64
    → a2b q0 0 (symbol_code v ∷ symbol_code w ∷ cs) ≡ prepend (q1 v) w (a2b (q2 (w % 16)) 0 cs)
two_symbols v w cs lt lt' =
    rw (a2b-symbol q0 0 v (symbol_code w ∷ cs) lt, a2b-symbol (q1 v) 0 w cs lt')
      (prepend-q0 v (prepend (q1 v) w (a2b (q2 (w % 16)) 0 cs)))

first_byte : (a b : ℕ) → b < 256 → a / 4 * 4 + (a % 4 * 16 + b / 16) / 16 ≡ a
first_byte a b lt = omega arith

second_byte : (b c w : ℕ) → c < 4 → w % 16 ≡ b / 16 → w % 16 * 16 + (b % 16 * 4 + c) / 4 ≡ b
second_byte b c w lt e = omega arith

second_byte_last : (b w : ℕ) → w % 16 ≡ b / 16 → w % 16 * 16 + b % 16 * 4 / 4 ≡ b
second_byte_last b w e = omega arith

third_byte : (c v : ℕ) → v % 4 ≡ c / 64 → v % 4 * 64 + c % 64 ≡ c
third_byte c v e = omega arith

-- One byte, as two symbols and two padding characters.
decode_one : (a : ℕ) → a < 256 → a2b q0 0 (padded (b64u_encode (a ∷ []))) ≡ some (a ∷ [])
unfolding b64u_encode a2b
decode_one a lt =
    two_symbols (a / 4) (a % 4 * 16) (b'=' ∷ b'=' ∷ []) (omega arith) (omega arith)
    ∙ ap (λ (x : ℕ). some (x ∷ [])) (omega arith)

-- Two bytes, as three symbols and a padding character.
decode_two :
    (a b : ℕ) → a < 256 → b < 256 → a2b q0 0 (padded (b64u_encode (a ∷ b ∷ []))) ≡ some (a ∷ b ∷ [])
unfolding b64u_encode a2b
decode_two a b lt lt' =
    let w = a % 4 * 16 + b / 16 in
    let v = b % 16 * 4 in
    let start = two_symbols (a / 4) w (symbol_code v ∷ b'=' ∷ []) (omega arith) (omega arith) in
    let third = a2b-symbol (q2 (w % 16)) 0 v (b'=' ∷ []) (omega arith) in
    start ∙ rw third (rw (first_byte a b lt', second_byte_last b w (omega arith)) refl)

-- Three bytes, as four symbols, before the rest.
decode_three :
    (a b c : ℕ) (cs : List ℕ) (out : Bytes)
    → a < 256
    → b < 256
    → c < 256
    → a2b q0 0 cs ≡ some out
    → a2b q0 0 (
        symbol_code (a / 4)
        ∷ symbol_code (a % 4 * 16 + b / 16)
        ∷ symbol_code (b % 16 * 4 + c / 64)
        ∷ symbol_code (c % 64)
        ∷ cs)
      ≡ some (a ∷ b ∷ c ∷ out)
decode_three a b c cs out lt lt' lt'' rest =
    let w = a % 4 * 16 + b / 16 in
    let v = b % 16 * 4 + c / 64 in
    let tail = symbol_code (c % 64) ∷ cs in
    let start = two_symbols (a / 4) w (symbol_code v ∷ tail) (omega arith) (omega arith) in
    let third = a2b-symbol (q2 (w % 16)) 0 v tail (omega arith) in
    let fourth = a2b-symbol (q3 (v % 4)) 0 (c % 64) cs (omega arith) in
    start
    ∙ rw (third, fourth, rest)
        (rw
          (
            first_byte a b lt',
            second_byte b (c / 64) w (omega arith) (omega arith),
            third_byte c v (omega arith),
          )
          refl)

four_more : (n : ℕ) → suc (suc (suc (suc n))) % 4 ≡ n % 4
four_more n = omega arith

-- The padding depends on the length modulo 4, so it is that of the rest.
padded_text :
    (a b c : ℕ) (r : Bytes)
    → a2b q0 0 (padded (b64u_encode (a ∷ b ∷ c ∷ r)))
      ≡ a2b q0 0 (
          symbol_code (a / 4)
          ∷ symbol_code (a % 4 * 16 + b / 16)
          ∷ symbol_code (b % 16 * 4 + c / 64)
          ∷ symbol_code (c % 64)
          ∷ padded (b64u_encode r))
unfolding b64u_encode
padded_text a b c r =
    ap
      (λ m. a2b q0 0 (
        symbol_code (a / 4)
        ∷ symbol_code (a % 4 * 16 + b / 16)
        ∷ symbol_code (b % 16 * 4 + c / 64)
        ∷ symbol_code (c % 64)
        ∷ (codes (b64u_encode r) ++ padding m)))
      (four_more (length (codes (b64u_encode r))))

decode_all : (bs : Bytes) → Octets bs → a2b q0 0 (padded (b64u_encode bs)) ≡ some bs
unfolding b64u_encode a2b Octets
decode_all [] h = refl
decode_all (a ∷ []) h = decode_one a h.0
decode_all (a ∷ b ∷ []) h = (let (lt, (lt', _)) = h in decode_two a b lt lt')
decode_all (a ∷ b ∷ c ∷ r) h =
    let (lt, (lt', (lt'', rest))) = h in
    padded_text a b c r
    ∙ decode_three a b c (padded (b64u_encode r)) r lt lt' lt'' (decode_all r rest)

ascii : (v : ℕ) → v < 64 → ltb (symbol_code v) 128 ≡ true
ascii v lt = let (h, _, _) = symbol_readable v lt in h

ascii_text : (bs : Bytes) → Octets bs → all (λ c. ltb c 128) (codes (b64u_encode bs)) ≡ true
unfolding b64u_encode all Octets
ascii_text [] h = refl
ascii_text (a ∷ []) h = rw (ascii (a / 4) (omega arith), ascii (a % 4 * 16) (omega arith)) refl
ascii_text (a ∷ b ∷ []) h =
    let (lt, (lt', _)) = h in
    rw
      (
        ascii (a / 4) (omega arith),
        ascii (a % 4 * 16 + b / 16) (omega arith),
        ascii (b % 16 * 4) (omega arith),
      )
      refl
ascii_text (a ∷ b ∷ c ∷ r) h =
    let (lt, (lt', (lt'', rest))) = h in
    rw
      (
        ascii (a / 4) (omega arith),
        ascii (a % 4 * 16 + b / 16) (omega arith),
        ascii (b % 16 * 4 + c / 64) (omega arith),
        ascii (c % 64) (omega arith),
      )
      (ascii_text r rest)

-- The text that `b64u_encode` makes of bytes is decoded to the same bytes.
pub b64u_decode-b64u_encode :
    (bs : Bytes) → All (λ b. b < 256) bs → b64u_decode (b64u_encode bs) ≡ ok bs
unfolding b64u_decode Octets
b64u_decode-b64u_encode bs h = rw (ascii_text bs h, decode_all bs h) refl
