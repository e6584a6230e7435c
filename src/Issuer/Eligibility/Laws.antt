-- ===== src/Issuer/Eligibility/Laws.antt =====
-- Eligibility against the calendar.
use blind_age.Base.{
  ℕ, zero, suc, Bool, true, ◌+◌, ◌≡◌, ◌∙◌, sym, refl, subst, arith, contains, nat_beq, ltb, leb,
  ◌&&◌, ◌||◌, Bool-cases, inl, inr,
}
use blind_age.Base.Int.{ℤ, pos, negsuc, leb_ℤ, sub_ℕ}
use blind_age.Issuer.Eligibility.{
  Date, month_day_leb, pred_ℤ, age_in_years, claims_for, eligible_claims,
}
use blind_age.Schemas.Enums.{
  AgeClaim, age_over_13, age_over_16, age_over_18, age_over_21, claim_eq, claim_min_age,
}

-- The age that a claim asks for.
abbrev pub minimum_age : AgeClaim → ℕ
minimum_age age_over_13 = 13
minimum_age age_over_16 = 16
minimum_age age_over_18 = 18
minimum_age age_over_21 = 21

-- Whether the birthday `years` years after the date of birth has come: a February 29 counts as
-- past on March 1.
abbrev pub birthday_reached : ℕ → Date → Date → Bool
birthday_reached years born today =
    ltb (born.year + years) today.year
    || (nat_beq (born.year + years) today.year
        && (ltb born.month today.month
            || (nat_beq born.month today.month && leb born.day today.day)))

leb_ℤ-sub_ℕ : (y a b : ℕ) → leb_ℤ (pos (suc y)) (sub_ℕ a b) ≡ leb (b + suc y) a
leb_ℤ-sub_ℕ y a b = ground arith

leb_ℤ-pred : (y : ℕ) (z : ℤ) → leb_ℤ (pos (suc y)) (pred_ℤ z) ≡ leb_ℤ (pos (suc (suc y))) z
leb_ℤ-pred y (pos zero) = ground arith
leb_ℤ-pred y (pos (suc n)) = ground arith
leb_ℤ-pred y (negsuc n) = ground arith

leb_ℤ-pred_ℤ : (y a b : ℕ) → leb_ℤ (pos (suc y)) (pred_ℤ (sub_ℕ a b)) ≡ ltb (b + suc y) a
leb_ℤ-pred_ℤ y a b = rw (leb_ℤ-pred y (sub_ℕ a b), leb_ℤ-sub_ℕ (suc y) a b) (ground arith)

leb-or : (a b : ℕ) → leb a b ≡ (ltb a b || nat_beq a b)
leb-or a b = ground arith

-- An age is at least `suc years` exactly when that birthday has come.
age_in_years-birthday_reached :
    (years : ℕ) (born today : Date)
    → leb_ℤ (pos (suc years)) (age_in_years born today) ≡ birthday_reached (suc years) born today
unfolding age_in_years
age_in_years-birthday_reached years born today =
    let y = years in
    elim (Bool-cases (month_day_leb born today)) [
      | inl e ↦
          rw (e, leb_ℤ-sub_ℕ y today.year born.year, leb-or (born.year + suc y) today.year)
            (ground arith)
      | inr e ↦ rw (e, leb_ℤ-pred_ℤ y today.year born.year) (ground arith)
    ]

contains-claims_for :
    (claim : AgeClaim) (age : ℤ)
    → contains (claims_for age claim_min_age) claim ≡ leb_ℤ (pos (minimum_age claim)) age
unfolding claims_for contains
contains-claims_for age_over_13 age = ground arith
contains-claims_for age_over_16 age = ground arith
contains-claims_for age_over_18 age = ground arith
contains-claims_for age_over_21 age = ground arith

minimum_age-suc : (claim : AgeClaim) → (y : ℕ) × (minimum_age claim ≡ suc y)
minimum_age-suc age_over_13 = (12, refl)
minimum_age-suc age_over_16 = (15, refl)
minimum_age-suc age_over_18 = (17, refl)
minimum_age-suc age_over_21 = (20, refl)

-- `eligible_claims` contains a claim exactly when the birthday of the claim's minimum age has come.
pub eligible_claims-birthday_reached :
    (claim : AgeClaim) (born today : Date)
    → contains (eligible_claims born today) claim ≡ birthday_reached (minimum_age claim) born today
unfolding eligible_claims
eligible_claims-birthday_reached claim born today =
    let (y, e) = minimum_age-suc claim in
    contains-claims_for claim (age_in_years born today)
    ∙ subst (λ n. leb_ℤ (pos n) (age_in_years born today) ≡ birthday_reached n born today) (sym e)
        (age_in_years-birthday_reached y born today)

-- `today <= later`
abbrev pub date_leb : Date → Date → Bool
date_leb a b =
    ltb a.year b.year
    || (nat_beq a.year b.year
        && (ltb a.month b.month || (nat_beq a.month b.month && leb a.day b.day)))

birthday_reached-later :
    (years : ℕ) (born today later : Date)
    → date_leb today later ≡ true
    → birthday_reached years born today ≡ true
    → birthday_reached years born later ≡ true
birthday_reached-later years born today later order h = ground arith

-- A claim that a date of birth makes eligible stays eligible on every later day.
pub eligible_claims-later :
    (claim : AgeClaim) (born today later : Date)
    → date_leb today later ≡ true
    → contains (eligible_claims born today) claim ≡ true
    → contains (eligible_claims born later) claim ≡ true
eligible_claims-later claim born today later order eligible =
    let now = eligible_claims-birthday_reached claim born today in
    let then_ = eligible_claims-birthday_reached claim born later in
    then_ ∙ birthday_reached-later (minimum_age claim) born today later order (sym now ∙ eligible)
