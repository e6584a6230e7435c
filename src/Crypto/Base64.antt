-- ===== src/Crypto/Base64.antt =====
-- `b64u_encode` and `b64u_decode` of blindage/crypto/interface.py, on top of the standard library's
-- `base64`: the decoder takes both alphabets, skips other characters and stops at full padding.
pub mod RoundTrip
use Prim.Native.Char.{Char, code, nul}
use blind_age.Base.{
  ℕ, zero, suc, ◌+◌, ◌-◌, ◌*◌, ◌/◌, ◌%◌, String, Bool, true, false, ◌&&◌, ◌||◌, Option, none, some,
  List, [], ◌∷◌, ◌++◌, map, leb, ltb, nat_beq, length, if◌then◌else◌, all,
}
use blind_age.Base.Text.{Bytes, chars}
use blind_age.Base.Result.{Result, ok, err}

-- What the decoder raises: `binascii.Error` on bad padding, `ValueError` on a text that is not ASCII.
pub data DecodeError : Type 0 where
  bad_padding not_ascii : DecodeError

abbrev alphabet : List Char
alphabet = chars "ABCDEFGHIJKLMNOPQRSTUVWXYZabcdefghijklmnopqrstuvwxyz0123456789-_"

abbrev symbol_from : List Char → ℕ → Char
symbol_from [] n = nul
symbol_from (c ∷ cs) zero = c
symbol_from (c ∷ cs) (suc n) = symbol_from cs n

-- The character of six bits.
unfoldable pub symbol : ℕ → Char
symbol = symbol_from alphabet

-- Three bytes at a time; `rstrip(b"=")` leaves two characters for one byte, three for two.
unfoldable pub b64u_encode : Bytes → String
unfolding symbol
b64u_encode [] = String.[]
b64u_encode (a ∷ []) = String.◌∷◌ (symbol (a / 4)) (String.◌∷◌ (symbol (a % 4 * 16)) String.[])
b64u_encode (a ∷ b ∷ []) =
    String.◌∷◌ (symbol (a / 4))
      (String.◌∷◌ (symbol (a % 4 * 16 + b / 16)) (String.◌∷◌ (symbol (b % 16 * 4)) String.[]))
b64u_encode (a ∷ b ∷ c ∷ r) = String.◌∷◌ (symbol (a / 4)) (
    String.◌∷◌ (symbol (a % 4 * 16 + b / 16))
      (String.◌∷◌ (symbol (b % 16 * 4 + c / 64)) (String.◌∷◌ (symbol (c % 64)) (b64u_encode r))))

-- The six bits of a character, if it is of the alphabet.
unfoldable pub sextet : ℕ → Option ℕ
sextet c =
    if leb b'A' c && leb c b'Z'
    then some (c - 65)
    else if leb b'a' c && leb c b'z'
    then some (c - 71)
    else if leb b'0' c && leb c b'9'
    then some (c + 4)
    else if nat_beq c b'-' || nat_beq c b'+'
    then some 62
    else if nat_beq c b'_' || nat_beq c b'/'
    then some 63
    else none

-- How far the current group of four is, and the bits that wait in it.
pub data Quad : Type 0 where
  q0 : Quad
  q1 q2 q3 : ℕ → Quad

abbrev pub feed : Quad → ℕ → Quad
feed q0 v = q1 v
feed (q1 l) v = q2 (v % 16)
feed (q2 l) v = q3 (v % 4)
feed (q3 l) v = q0

abbrev pub emit : Quad → ℕ → Bytes → Bytes
emit q0 v out = out
emit (q1 l) v out = (l * 4 + v / 16) ∷ out
emit (q2 l) v out = (l * 16 + v / 4) ∷ out
emit (q3 l) v out = (l * 64 + v) ∷ out

-- Whether one more padding character, after `pads` of them, completes the group.
abbrev full : Quad → ℕ → Bool
full q0 pads = false
full (q1 l) pads = false
full (q2 l) pads = leb 4 (2 + (pads + 1))
full (q3 l) pads = leb 4 (3 + (pads + 1))

abbrev pad : Quad → ℕ → ℕ
pad q0 pads = pads
pad (q1 l) pads = pads
pad (q2 l) pads = pads + 1
pad (q3 l) pads = pads + 1

abbrev pub prepend : Quad → ℕ → Option Bytes → Option Bytes
prepend q v none = none
prepend q v (some out) = some (emit q v out)

abbrev finish : Quad → Option Bytes
finish q0 = some []
finish _ = none

-- `binascii.a2b_base64`, not strict.
unfoldable pub a2b : Quad → ℕ → List ℕ → Option Bytes
unfolding sextet
a2b q pads [] = finish q
a2b q pads (c ∷ cs) = elim (nat_beq c b'=') [
  | true ↦ elim (full q pads) [ true ↦ some [] | false ↦ a2b q (pad q pads) cs ]
  | false ↦ elim (sextet c) [ none ↦ a2b q pads cs | some v ↦ prepend q v (a2b (feed q v) 0 cs) ]
]

-- `"=" * (-len(text) % 4)`
abbrev pub padding : ℕ → List ℕ
padding zero = []
padding (suc zero) = b'=' ∷ b'=' ∷ b'=' ∷ []
padding (suc (suc zero)) = b'=' ∷ b'=' ∷ []
padding (suc (suc (suc zero))) = b'=' ∷ []
padding _ = []

abbrev pub decoded : Option Bytes → Result DecodeError Bytes
decoded none = err bad_padding
decoded (some out) = ok out

unfoldable pub b64u_decode : String → Result DecodeError Bytes
unfolding a2b all
b64u_decode s =
    let cs = map (λ (c : Char). code c) (chars s) in
    if all (λ c. ltb c 128) cs
    then decoded (a2b q0 0 (cs ++ padding (length cs % 4)))
    else err not_ascii
