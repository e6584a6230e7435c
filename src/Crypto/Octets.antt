-- ===== src/Crypto/Octets.antt =====
-- Octet strings and the integers they stand for (blindage/crypto/rsabssa.py: `_i2osp`, `_os2ip`).
use blind_age.Base.{
  ℕ, zero, suc, Option, none, some, [], ◌∷◌, ◌++◌, ◌+◌, ◌*◌, ◌/◌, ◌%◌, ◌≡◌, ◌∙◌, refl, arith,
  nat_beq, length, length-append, if◌then◌else◌, All, ◌<◌,
}
use blind_age.Base.Text.{Bytes}

abbrev then_octet : Option Bytes → ℕ → Option Bytes
then_octet none octet = none
then_octet (some octets) octet = some (octets ++ octet ∷ [])

-- `value.to_bytes(length, "big")`, or none for its `OverflowError`.
unfoldable pub i2osp : ℕ → ℕ → Option Bytes
i2osp value zero = if nat_beq value 0 then some [] else none
i2osp value (suc length) = then_octet (i2osp (value / 256) length) (value % 256)

-- The value of the octets read so far, then of those that follow.
unfoldable pub os2ip_from : ℕ → Bytes → ℕ
os2ip_from value [] = value
os2ip_from value (octet ∷ octets) = os2ip_from (256 * value + octet) octets

-- `int.from_bytes(data, "big")`
unfoldable pub os2ip : Bytes → ℕ
unfolding os2ip_from
os2ip octets = os2ip_from 0 octets

os2ip_from-snoc :
    (value : ℕ) (octets : Bytes) (last : ℕ)
    → os2ip_from value (octets ++ last ∷ []) ≡ 256 * os2ip_from value octets + last
unfolding os2ip_from
os2ip_from-snoc value [] last = refl
os2ip_from-snoc value (octet ∷ octets) last = os2ip_from-snoc (256 * value + octet) octets last

then_octet-eq-some :
    (first : Option Bytes) (octet : ℕ) {octets : Bytes}
    → then_octet first octet ≡ some octets
    → (start : Bytes) × (first ≡ some start) × (start ++ octet ∷ [] ≡ octets)
then_octet-eq-some none octet h = cc
then_octet-eq-some (some start) octet h = (start, refl, cc)

no_octets : (value : ℕ) (octets : Bytes) → i2osp value 0 ≡ some octets → (octets ≡ []) × (value ≡ 0)
unfolding i2osp
no_octets value [] h = (refl, ground arith)
no_octets value (o ∷ os) h = ground arith

split_octet : (value : ℕ) → 256 * (value / 256) + value % 256 ≡ value
split_octet value = omega arith

-- Octets that `i2osp` writes are read back as the number.
pub os2ip-i2osp :
    (length_ value : ℕ) (octets : Bytes) → i2osp value length_ ≡ some octets → os2ip octets ≡ value
unfolding i2osp os2ip
os2ip-i2osp zero value octets h = let (e, z) = no_octets value octets h in rw (e, z) refl
os2ip-i2osp (suc k) value octets h =
    let (start, first, e) = then_octet-eq-some (i2osp (value / 256) k) (value % 256) h in
    let ih = os2ip-i2osp k (value / 256) start first in
    let last = os2ip_from-snoc 0 start (value % 256) in
    let whole = split_octet value in rw (← e, last, ih) whole

pub length-i2osp :
    (length_ value : ℕ) (octets : Bytes)
    → i2osp value length_ ≡ some octets
    → length octets ≡ length_
unfolding i2osp
length-i2osp zero value octets h = let (e, _) = no_octets value octets h in rw e refl
length-i2osp (suc k) value octets h =
    let (start, first, e) = then_octet-eq-some (i2osp (value / 256) k) (value % 256) h in
    let ih = length-i2osp k (value / 256) start first in
    let last = length-append start ((value % 256) ∷ []) in rw (← e) (last ∙ rw ih (omega arith))

All-snoc_byte :
    (xs : Bytes) (last : ℕ)
    → All (λ b. b < 256) xs
    → last < 256
    → All (λ b. b < 256) (xs ++ last ∷ [])
All-snoc_byte [] last h lt = (lt, tt)
All-snoc_byte (x ∷ xs) last h lt = (h.0, All-snoc_byte xs last h.1 lt)

-- `i2osp` writes octets.
pub All-i2osp :
    (length_ value : ℕ) (octets : Bytes)
    → i2osp value length_ ≡ some octets
    → All (λ b. b < 256) octets
unfolding i2osp
All-i2osp zero value octets h = let (e, _) = no_octets value octets h in rw e tt
All-i2osp (suc k) value octets h =
    let (start, first, e) = then_octet-eq-some (i2osp (value / 256) k) (value % 256) h in
    let ih = All-i2osp k (value / 256) start first in
    rw (← e) (All-snoc_byte start (value % 256) ih (omega arith))
