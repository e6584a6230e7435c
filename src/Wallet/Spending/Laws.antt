-- ===== src/Wallet/Spending/Laws.antt =====
-- How `build_presentation` spends tokens.
use blind_age.Base.{
  ℕ, ◌≤◌, true, false, Option, none, some, List, [], ◌∷◌, ◌++◌, ◌≡◌, refl, subst, ap, sym, ◌∙◌,
  arith, ◌↔◌, All, Bool-cases, inl, inr, not, ltb,
}
use blind_age.Base.Result.{ok, present, guard, >>=-eq-ok, guard-eq-ok, present-eq-ok, ok_injective}
use blind_age.Schemas.Enums.{assurance_order, assurance_at_least, claim_eq, claim_beq_iff}
use blind_age.Schemas.Issuer.{Time}
use blind_age.Schemas.Presentation.{VerifierChallenge, Presentation}
use blind_age.Schemas.Token.{AgeToken}
use blind_age.Wallet.Client.{StoredToken, VaultData, challenge_expired, no_unspent_token}
use blind_age.Wallet.Spending.{usable, spend, keep, take_token, bind_domain, build_presentation}

-- A token that fits a challenge: not spent, of its claim, and of its level or a higher one.
pub record Fits (challenge : VerifierChallenge) (stored : StoredToken) : Type 0 where
  pub unspent : stored.spent ≡ false
  pub same_claim : stored.token.claim ≡ challenge.required_claim
  pub enough :
      assurance_order challenge.minimum_assurance_level
      ≤ assurance_order stored.token.assurance_level

usable-Fits :
    (challenge : VerifierChallenge) (stored : StoredToken)
    → (usable challenge stored ≡ true) ↔ Fits challenge stored
unfolding usable assurance_at_least
usable-Fits challenge stored = (
  λ h. record {
    unspent = ground arith;
    same_claim = ground (arith, claim_beq_iff stored.token.claim challenge.required_claim);
    enough = ground arith;
  },
  λ f. ground (
    arith,
    f.unspent,
    f.enough,
    (claim_beq_iff stored.token.claim challenge.required_claim).1 f.same_claim,
  ),
)

unusable-Fits :
    (challenge : VerifierChallenge) (stored : StoredToken)
    → usable challenge stored ≡ false
    → ¬ Fits challenge stored
unusable-Fits challenge stored e f = let h = (usable-Fits challenge stored).1 f in cc

-- The first token that fits stands between tokens that do not fit and any others; in the new list
-- only its mark is changed.
abbrev pub Spends : VerifierChallenge → (old new : List StoredToken) → AgeToken → Type 0
Spends challenge old new token =
    (before : List StoredToken) × (stored : StoredToken) × (after : List StoredToken) × (old
      ≡ before ++ stored ∷ after)
    × All (λ s. ¬ Fits challenge s) before
    × Fits challenge stored
    × (token ≡ stored.token)
    × (new ≡ before ++ record stored { spent = true } ∷ after)

some_injective : {A : Type 0} {a b : A} → some a ≡ some b → a ≡ b
some_injective h = cc

keep-eq-some :
    (s : StoredToken) (o : Option (AgeToken × List StoredToken))
    (found : AgeToken × List StoredToken)
    → keep s o ≡ some found
    → (tokens : List StoredToken) × (o ≡ some (found.0, tokens)) × (s ∷ tokens ≡ found.1)
keep-eq-some s none found h = cc
keep-eq-some s (some (token, rest)) found h =
    let e = some_injective h in (rest, ap (λ p. some (p.0, rest)) e, ap (λ p. p.1) e)

in_time : (now end : ℕ) → not (ltb end now) ≡ true → now ≤ end
in_time now end h = ground arith

take_token-usable :
    (challenge : VerifierChallenge) (s : StoredToken) (rest : List StoredToken)
    → usable challenge s ≡ true
    → take_token challenge (s ∷ rest) ≡ some (s.token, spend s ∷ rest)
unfolding take_token
take_token-usable challenge s rest e = rw (take_token, e) refl

take_token-unusable :
    (challenge : VerifierChallenge) (s : StoredToken) (rest : List StoredToken)
    → usable challenge s ≡ false
    → take_token challenge (s ∷ rest) ≡ keep s (take_token challenge rest)
unfolding take_token
take_token-unusable challenge s rest e = rw (take_token, e) refl

take_token-Spends :
    (challenge : VerifierChallenge) (old : List StoredToken) (found : AgeToken × List StoredToken)
    → take_token challenge old ≡ some found
    → Spends challenge old found.1 found.0
unfolding take_token
take_token-Spends challenge [] found h = cc
take_token-Spends challenge (s ∷ rest) found h = elim (Bool-cases (usable challenge s)) [
  | inl e ↦
      let same = some_injective (sym (take_token-usable challenge s rest e) ∙ h) in
      (
        [],
        s,
        rest,
        refl,
        tt,
        (usable-Fits challenge s).0 e,
        ap (λ p. p.0) (sym same),
        ap (λ p. p.1) (sym same),
      )
  | inr e ↦
      let kept = sym (take_token-unusable challenge s rest e) ∙ h in
      let (tokens, later, same) = keep-eq-some s (take_token challenge rest) found kept in
      let (before, stored, after, old_is, none_before, fits, token_is, new_is) =
        take_token-Spends challenge rest (found.0, tokens) later in
      (
        s ∷ before,
        stored,
        after,
        ap (λ l. s ∷ l) old_is,
        (unusable-Fits challenge s e, none_before),
        fits,
        token_is,
        sym same ∙ ap (λ l. s ∷ l) new_is,
      )
]

-- When `build_presentation` returns, the challenge has not expired, the token is the first of the
-- vault that is unspent, of the required claim and of a sufficient level, that token and no other
-- is marked spent in the vault that stays, and the presentation is bound to the challenge.
pub build_presentation-Spends :
    (vault new : VaultData) (challenge : VerifierChallenge) (now : Time) (p : Presentation)
    → build_presentation vault challenge now ≡ ok (new, p)
    → (now ≤ challenge.expires_at)
      × Spends challenge vault.tokens new.tokens p.token
      × (p.domain_binding ≡ bind_domain challenge now)
unfolding build_presentation
build_presentation-Spends vault new challenge now p h =
    let alive = not (ltb challenge.expires_at now) in
    let (_, first, rest) = >>=-eq-ok (guard alive challenge_expired) _ h in
    let (found, second, last) =
      >>=-eq-ok (present (take_token challenge vault.tokens) no_unspent_token) _ rest in
    let same = ok_injective last in
    let spent =
      take_token-Spends challenge vault.tokens found
        (present-eq-ok (take_token challenge vault.tokens) no_unspent_token second) in
    (
      in_time now challenge.expires_at ((guard-eq-ok alive challenge_expired).0 first),
      subst (λ r. Spends challenge vault.tokens r.0.tokens r.1.token) same spent,
      ap (λ r. r.1.domain_binding) (sym same),
    )
