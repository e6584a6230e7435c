-- ===== src/Crypto/Bbs/Handled.antt =====
-- Steps of blindage/crypto/bbs.py that return or raise a `BbsError`, and nothing else.
use blind_age.Base.{
  ℕ, zero, suc, Bool, true, false, Option, none, some, List, [], ◌∷◌, ◌++◌, ◌+◌, ◌<◌, ◌≤◌, ◌≡◌, ◌⊎◌,
  All, refl, ap, arith, length, get_elem?, map, contains, nat_eq, Bool-cases, inl, inr, all,
  &&-eq-true, ltb, leb,
}
use blind_age.Base.Int.{ℤ, pos, pos_part, leb_ℤ}
use blind_age.Base.Result.{Result, ok, err, present, guard, ◌>>=◌, >>=-eq-ok, ok_injective}
use blind_age.Base.Text.{Bytes}
use blind_age.Crypto.Octets.{i2osp}
use blind_age.Crypto.Bbs.Curve.{Curve, BbsError, bbs_error, index_error}
use blind_age.Crypto.Bbs.Encoding.{to_octets}
use blind_age.Crypto.Bbs.Blocks.{generators_from, hash_to_scalar, concat_octets}
use blind_age.Crypto.Bbs.Generate.{undisclosed, pick}
use blind_age.Crypto.Bbs.Check.{index_in_range}

-- The code returns or raises a `BbsError`, nothing else.
unfoldable pub OnlyBbsError : {A : Type 0} → Result BbsError A → Type 0
OnlyBbsError {A} m = (m ≡ err bbs_error) ⊎ ((a : A) × (m ≡ ok a))

pub bind-OnlyBbsError :
    {A B : Type 0} (m : Result BbsError A) (f : A → Result BbsError B)
    → OnlyBbsError m
    → ((a : A) → m ≡ ok a → OnlyBbsError (f a))
    → OnlyBbsError (m >>= f)
unfolding OnlyBbsError
bind-OnlyBbsError m f (inl e) h = inl (rw e refl)
bind-OnlyBbsError m f (inr (a, e)) h = rw e (h a e)

pub ok-OnlyBbsError : {A : Type 0} (a : A) → OnlyBbsError (ok a)
unfolding OnlyBbsError
ok-OnlyBbsError a = inr (a, refl)

pub guard-OnlyBbsError : (b : Bool) → OnlyBbsError (guard b bbs_error)
unfolding OnlyBbsError
guard-OnlyBbsError true = inr (tt, refl)
guard-OnlyBbsError false = inl refl

pub present-OnlyBbsError : {A : Type 0} (o : Option A) → OnlyBbsError (present o bbs_error)
unfolding OnlyBbsError
present-OnlyBbsError none = inl refl
present-OnlyBbsError (some a) = inr (a, refl)

pub to_octets-OnlyBbsError : (value length_ : ℕ) → OnlyBbsError (to_octets value length_)
unfolding to_octets
to_octets-OnlyBbsError value length_ = present-OnlyBbsError (i2osp value length_)

pub concat_octets-OnlyBbsError :
    {A : Type 0} (f : A → Result BbsError Bytes) (xs : List A)
    → ((x : A) → OnlyBbsError (f x))
    → OnlyBbsError (concat_octets f xs)
unfolding concat_octets
concat_octets-OnlyBbsError f [] h = ok-OnlyBbsError []
concat_octets-OnlyBbsError f (x ∷ xs) h = bind-OnlyBbsError (f x) _ (h x) (λ a e.
    bind-OnlyBbsError (concat_octets f xs) _ (concat_octets-OnlyBbsError f xs h)
      (λ b e'. ok-OnlyBbsError (a ++ b)))

-- A chain of such steps is one.
pub ruleset handled = (
  bind-OnlyBbsError, ok-OnlyBbsError, guard-OnlyBbsError, present-OnlyBbsError,
  to_octets-OnlyBbsError, concat_octets-OnlyBbsError,
)

-- An index below the length is found.
get_elem?-below :
    {A : Type 0} (xs : List A) (i : ℕ)
    → i < length xs
    → OnlyBbsError (present (get_elem? xs i) index_error)
unfolding OnlyBbsError
get_elem?-below [] i h = ground arith
get_elem?-below (x ∷ xs) zero h = inr (x, refl)
get_elem?-below (x ∷ xs) (suc i) h = get_elem?-below xs i (omega arith)

pub pick-OnlyBbsError :
    {A : Type 0} (xs : List A) (indexes : List ℕ)
    → All (λ i. i < length xs) indexes
    → OnlyBbsError (pick xs indexes)
unfolding pick
pick-OnlyBbsError xs [] h = ok-OnlyBbsError []
pick-OnlyBbsError xs (i ∷ is) (lt, rest) =
    bind-OnlyBbsError (present (get_elem? xs i) index_error) _ (get_elem?-below xs i lt) (λ x e.
      bind-OnlyBbsError (pick xs is) _ (pick-OnlyBbsError xs is rest)
        (λ b e'. ok-OnlyBbsError (x ∷ b)))

pub undisclosed-below :
    (disclosed : List ℕ) (a count n : ℕ)
    → a + count ≤ n
    → All (λ i. i < n) (undisclosed disclosed a count)
unfolding undisclosed
undisclosed-below disclosed a zero n h = tt
undisclosed-below disclosed a (suc count) n h =
    let ih = undisclosed-below disclosed (suc a) count n (omega arith) in
    elim (Bool-cases (contains disclosed a)) [ inl e ↦ rw e ih | inr e ↦ rw e (omega arith, ih) ]

pub positions_below :
    (n : ℕ) (indexes : List ℤ)
    → all (index_in_range n) indexes ≡ true
    → All (λ i. i < n) (map pos_part indexes)
unfolding all
positions_below n [] h = tt
positions_below n (i ∷ is) h =
    let (here, rest) = &&-eq-true (index_in_range n i) (all (index_in_range n) is) h in
    let (_, lt) = &&-eq-true (leb_ℤ (pos 0) i) (ltb (pos_part i) n) here in
    (ground arith, positions_below n is rest)

module _ (k : Curve) where
  open k use {G1, G2, curve_order, is_inf, expand_message_xmd}

  pub hash_to_scalar-OnlyBbsError :
      (message dst : Bytes) → OnlyBbsError (hash_to_scalar k message dst)
  unfolding hash_to_scalar
  hash_to_scalar-OnlyBbsError message dst =
      bind-OnlyBbsError (guard (leb (length dst) 255) bbs_error) _
        (guard-OnlyBbsError (leb (length dst) 255)) (λ a e. ok-OnlyBbsError _)

  pub generators_from-OnlyBbsError :
      (rounds i : ℕ) (v : Bytes) → OnlyBbsError (generators_from k rounds i v)
  unfolding generators_from
  generators_from-OnlyBbsError zero i v = ok-OnlyBbsError []
  generators_from-OnlyBbsError (suc rounds) i v =
      bind-OnlyBbsError (to_octets i 8) _ (to_octets-OnlyBbsError i 8) (λ octets e.
        bind-OnlyBbsError _ _ (generators_from-OnlyBbsError rounds (suc i) _)
          (λ rest e'. ok-OnlyBbsError _))

  pub length-generators_from :
      (rounds i : ℕ) (v : Bytes) (points : List G1)
      → generators_from k rounds i v ≡ ok points
      → length points ≡ rounds
  unfolding generators_from
  length-generators_from zero i v points h = let e = ok_injective h in rw (← e) refl
  length-generators_from (suc rounds) i v points h =
      let (octets, _, rest) = >>=-eq-ok (to_octets i 8) _ h in
      let (others, second, last) = >>=-eq-ok (generators_from k rounds (suc i) _) _ rest in
      let e = ok_injective last in
      rw (← e) (ap suc (length-generators_from rounds (suc i) _ others second))
