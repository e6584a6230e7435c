-- ===== src/Base/Text.antt =====
-- Texts as Python has them: code points, UTF-8, and the order of `sorted`.
use Prim.Native.Char.{Char, code, nul}
use Prim.Native.Nat.{Ordering}
use Prim.Native.String.{String, compare}
use mathlib.Core.Bool.{Bool, true, false}
use mathlib.Core.List.{List, [], ◌∷◌, ◌++◌}
use Prim.Native.Nat.{ℕ, zero, suc, ◌+◌, ◌/◌, ◌%◌}
use blind_age.Base.Tests.{ltb, if◌then◌else◌}

abbrev pub Bytes : Type 0
Bytes = List ℕ

abbrev pub chars : String → List Char
chars String.[] = []
chars (String.◌∷◌ c s) = c ∷ chars s

-- The UTF-8 bytes of one code point.
unfoldable pub utf8 : ℕ → Bytes
utf8 n =
    if ltb n 0x80
    then n ∷ []
    else if ltb n 0x800
    then (0xc0 + n / 64) ∷ (0x80 + n % 64) ∷ []
    else if ltb n 0x10000
    then (0xe0 + n / 4096) ∷ (0x80 + n / 64 % 64) ∷ (0x80 + n % 64) ∷ []
    else (0xf0 + n / 262144) ∷ (0x80 + n / 4096 % 64) ∷ (0x80 + n / 64 % 64) ∷ (0x80 + n % 64) ∷ []

-- s.encode("utf-8")
unfoldable pub encode : String → Bytes
unfolding utf8
encode String.[] = []
encode (String.◌∷◌ c s) = utf8 (code c) ++ encode s

-- `s <= t`, by code points
abbrev pub text_leb : String → String → Bool
text_leb s t = elim (compare s t) [ Ordering.gt ↦ false | _ ↦ true ]

unfoldable pub insert_sorted : String → List String → List String
insert_sorted s [] = s ∷ []
insert_sorted s (t ∷ ts) = if text_leb s t then s ∷ t ∷ ts else t ∷ insert_sorted s ts

-- sorted(ts)
unfoldable pub sorted : List String → List String
unfolding insert_sorted
sorted [] = []
sorted (t ∷ ts) = insert_sorted t (sorted ts)

abbrev hex_chars : List Char
hex_chars = chars "0123456789abcdef"

abbrev char_at_index : List Char → ℕ → Char
char_at_index [] n = nul
char_at_index (c ∷ cs) zero = c
char_at_index (c ∷ cs) (suc n) = char_at_index cs n

-- digest.hex()
unfoldable pub hexdigest : Bytes → String
hexdigest [] = String.[]
hexdigest (b ∷ bs) =
    String.◌∷◌ (char_at_index hex_chars (b / 16))
      (String.◌∷◌ (char_at_index hex_chars (b % 16)) (hexdigest bs))
