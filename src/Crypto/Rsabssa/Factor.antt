-- ===== src/Crypto/Rsabssa/Factor.antt =====
-- When the loop that draws the blinding factor ends (blindage/crypto/rsabssa.py).
use blind_age.Base.{
  ℕ, ◌+◌, false, Option, none, some, List, [], ◌∷◌, ◌++◌, ◌≡◌, ◌↔◌, refl, ap, sym, All, arith,
  nat_beq, nat_beq_iff, Bool-cases, inl, inr, ◌≢◌,
}
use blind_age.Base.{String}
use blind_age.Base.Result.{Result, ok}
use blind_age.Base.Text.{Bytes}
use blind_age.Crypto.Primitives.{Primitives, PublicNumbers}
use blind_age.Crypto.Rsabssa.{RsaError, gcd, blinding_factor, blind_with, prepare, blind}

-- The loop ends with a number exactly when some draw plus one is coprime to the modulus; it is the
-- first of them, and every draw before it was refused.
pub Coprime : (draws : List ℕ) (n r : ℕ) → Type 0
Coprime draws n r =
    (before : List ℕ) × (draw : ℕ) × (rest : List ℕ) × (draws ≡ before ++ draw ∷ rest)
    × (r ≡ draw + 1)
    × (gcd (draw + 1) n ≡ 1)
    × All (λ d. gcd (d + 1) n ≢ 1) before

not_one : (a : ℕ) → nat_beq a 1 ≡ false → a ≢ 1
not_one a h e = ground arith

is_not_one : (a : ℕ) → a ≢ 1 → nat_beq a 1 ≡ false
is_not_one a h = ground arith

module _ (c : Primitives) where
  blinding_factor-Coprime :
      (draws : List ℕ) (n r : ℕ) → blinding_factor c draws n ≡ some r → Coprime draws n r
  unfolding blinding_factor Coprime
  blinding_factor-Coprime [] n r h = cc
  blinding_factor-Coprime (d ∷ ds) n r h = elim (Bool-cases (nat_beq (gcd (d + 1) n) 1)) [
    | inl e ↦
        let h' : some (d + 1) ≡ some r = rw (blinding_factor, e) at h in
        let same : d + 1 ≡ r = cc in
        ([], d, ds, refl, sym same, (nat_beq_iff (gcd (d + 1) n) 1).0 e, tt)
    | inr e ↦
        let h' = rw (blinding_factor, e) at h in
        let (before, draw, rest, split, value, coprime, refused) =
          blinding_factor-Coprime ds n r h' in
        (
          d ∷ before,
          draw,
          rest,
          ap (◌∷◌ d) split,
          value,
          coprime,
          (not_one (gcd (d + 1) n) e, refused),
        )
  ]

  Coprime-blinding_factor :
      (before : List ℕ) (draw : ℕ) (rest : List ℕ) (n : ℕ)
      → gcd (draw + 1) n ≡ 1
      → All (λ d. gcd (d + 1) n ≢ 1) before
      → blinding_factor c (before ++ draw ∷ rest) n ≡ some (draw + 1)
  unfolding blinding_factor
  Coprime-blinding_factor [] draw rest n e h = rw (blinding_factor, e) refl
  Coprime-blinding_factor (d ∷ before) draw rest n e (h, hs) =
      rw (blinding_factor, is_not_one (gcd (d + 1) n) h)
        (Coprime-blinding_factor before draw rest n e hs)

  abbrev after_draw : PublicNumbers → ℕ → Option ℕ → Option (Result RsaError (Bytes × ℕ))
  after_draw key m none = none
  after_draw key m (some r) = some (blind_with c key m r)

  after_draw-eq-some :
      (key : PublicNumbers) (m : ℕ) (o : Option ℕ) {result : Result RsaError (Bytes × ℕ)}
      → after_draw key m o ≡ some result
      → (r : ℕ) × (o ≡ some r) × (blind_with c key m r ≡ result)
  after_draw-eq-some key m none h = cc
  after_draw-eq-some key m (some r) h = (r, refl, cc)

  Coprime-drawn :
      (draws : List ℕ) (n r : ℕ) → Coprime draws n r → blinding_factor c draws n ≡ some r
  unfolding Coprime
  Coprime-drawn draws n r (before, draw, rest, split, value, coprime, refused) =
      rw (split, value) (Coprime-blinding_factor before draw rest n coprime refused)

  -- Once the key is loaded and the message encoded, `blind` ends exactly when some draw plus one is
  -- coprime to the modulus, and then it blinds with the first such number.
  pub blind-returns :
      (public_key : String) (message salt : Bytes) (draws : List ℕ) (key : PublicNumbers) (m : ℕ)
      → prepare c public_key message salt ≡ ok (key, m)
      → (result : Result RsaError (Bytes × ℕ))
      → (blind c public_key message salt draws ≡ some result)
        ↔ ((r : ℕ) × Coprime draws key.n r × (blind_with c key m r ≡ result))
  unfolding blind
  blind-returns public_key message salt draws key m ready result = (
    (λ h.
        let h' : after_draw key m (blinding_factor c draws key.n) ≡ some result =
          rw (blind, ready) at h in
        let (r, drawn, same) = after_draw-eq-some key m (blinding_factor c draws key.n) h' in
        (r, blinding_factor-Coprime draws key.n r drawn, same)),
    (λ h.
        let (r, coprime, same) = h in
        rw (blind, ready, Coprime-drawn draws key.n r coprime) (ap (λ x. some x) same)),
  )
