-- ===== src/Base/Sorting.antt =====
-- `sorted` on texts: its result is in order, and sorting it again changes nothing.
use Prim.Native.Char.{code}
use Prim.Native.Nat.{ℕ, Ordering, compare as compare_ℕ}
use Prim.Native.String.compare
use Prim.Native.String.{String, compare, then}
use mathlib.Core.Bool.{Bool, true, false}
use mathlib.Core.List.{List, [], ◌∷◌}
use mathlib.Core.Logic.{inl, inr}
use mathlib.Core.Path.{◌≡◌, refl, ap, sym, ◌∙◌}
use native.Mathlib.Omega.{arith}
use blind_age.Base.Tests.{Bool-cases}
use blind_age.Base.Text.{text_leb, insert_sorted, sorted}

flip : Ordering → Ordering
flip Ordering.lt = Ordering.gt
flip Ordering.eq = Ordering.eq
flip Ordering.gt = Ordering.lt

flip-then : (o p : Ordering) → then (flip o) (flip p) ≡ flip (then o p)
unfolding flip
flip-then Ordering.lt p = refl
flip-then Ordering.eq p = refl
flip-then Ordering.gt p = refl

numbers_flip : (m n : ℕ) → compare_ℕ n m ≡ flip (compare_ℕ m n)
unfolding flip
numbers_flip m n = ground arith

compare-flip : (s t : String) → compare t s ≡ flip (compare s t)
unfolding flip
compare-flip String.[] String.[] = refl
compare-flip String.[] (String.◌∷◌ d t) =
    compare.cons-nil d t ∙ ap flip (sym (compare.nil-cons d t))
compare-flip (String.◌∷◌ c s) String.[] =
    compare.nil-cons c s ∙ ap flip (sym (compare.cons-nil c s))
compare-flip (String.◌∷◌ c s) (String.◌∷◌ d t) =
    compare.cons-cons d c t s
    ∙ ap (λ o. (then) o (compare t s)) (numbers_flip (code c) (code d))
    ∙ ap ((then) (flip (compare_ℕ (code c) (code d)))) (compare-flip s t)
    ∙ flip-then (compare_ℕ (code c) (code d)) (compare s t)
    ∙ ap flip (sym (compare.cons-cons c d s t))

abbrev not_greater : Ordering → Bool
not_greater Ordering.gt = false
not_greater _ = true

flipped : (o : Ordering) → not_greater o ≡ false → not_greater (flip o) ≡ true
unfolding flip
flipped Ordering.lt h = cc
flipped Ordering.eq h = refl
flipped Ordering.gt h = refl

text_total : (s t : String) → text_leb s t ≡ false → text_leb t s ≡ true
text_total s t h = ap not_greater (compare-flip s t) ∙ flipped (compare s t) h

-- Each text is not above the next.
InOrder : List String → Type 0
InOrder [] = Unit
InOrder (s ∷ []) = Unit
InOrder (s ∷ t ∷ ts) = (text_leb s t ≡ true) × InOrder (t ∷ ts)

insert_sorted-InOrder : (s : String) (ts : List String) → InOrder ts → InOrder (insert_sorted s ts)
unfolding insert_sorted InOrder
insert_sorted-InOrder s [] h = tt
insert_sorted-InOrder s (t ∷ []) h = elim (Bool-cases (text_leb s t)) [
  | inl e ↦ rw (insert_sorted, e) (e, tt)
  | inr e ↦ rw (insert_sorted, e) (text_total s t e, tt)
]
insert_sorted-InOrder s (t ∷ u ∷ us) (below, rest) = elim (Bool-cases (text_leb s t)) [
  | inl e ↦ rw (insert_sorted, e) (e, (below, rest))
  | inr e ↦
      let ih = insert_sorted-InOrder s (u ∷ us) rest in
      elim (Bool-cases (text_leb s u)) [
        | inl e' ↦
            let ih' = rw (insert_sorted, e') at ih in
            rw (insert_sorted, e, e') (text_total s t e, ih')
        | inr e' ↦ let ih' = rw (insert_sorted, e') at ih in rw (insert_sorted, e, e') (below, ih')
      ]
]

sorted-InOrder : (ts : List String) → InOrder (sorted ts)
unfolding sorted InOrder
sorted-InOrder [] = tt
sorted-InOrder (t ∷ ts) = insert_sorted-InOrder t (sorted ts) (sorted-InOrder ts)

kept :
    (t u : String) (us : List String) → text_leb t u ≡ true → insert_sorted t (u ∷ us) ≡ t ∷ u ∷ us
unfolding insert_sorted
kept t u us below = rw (insert_sorted, below) refl

sorted_fixed : (ts : List String) → InOrder ts → sorted ts ≡ ts
unfolding sorted insert_sorted InOrder
sorted_fixed [] h = refl
sorted_fixed (t ∷ []) h = refl
sorted_fixed (t ∷ u ∷ us) (below, rest) =
    ap (insert_sorted t) (sorted_fixed (u ∷ us) rest) ∙ kept t u us below

-- Sorting twice is sorting once.
pub sorted-sorted : (ts : List String) → sorted (sorted ts) ≡ sorted ts
sorted-sorted ts = sorted_fixed (sorted ts) (sorted-InOrder ts)
