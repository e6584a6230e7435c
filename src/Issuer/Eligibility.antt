-- ===== src/Issuer/Eligibility.antt =====
-- Which claims a date of birth makes eligible (blindage/issuer/eligibility.py).
pub mod Laws
use blind_age.Base.{
  ℕ, Bool, List, [], ◌∷◌, ◌-◌, zero, suc, nat_beq, ltb, leb, ◌&&◌, ◌||◌, if◌then◌else◌,
}
use blind_age.Base.Int.{ℤ, pos, negsuc, sub_ℕ, leb_ℤ}
use blind_age.Schemas.Enums.{AgeClaim, claim_min_age}

-- `datetime.date`
pub record Date : Type 0 where
  pub year : ℕ
  pub month : ℕ
  pub day : ℕ

-- `(a.month, a.day) <= (b.month, b.day)`
abbrev pub month_day_leb : Date → Date → Bool
month_day_leb a b = ltb a.month b.month || (nat_beq a.month b.month && leb a.day b.day)

-- years - 1
abbrev pub pred_ℤ : ℤ → ℤ
pred_ℤ (pos zero) = negsuc 0
pred_ℤ (pos (suc n)) = pos n
pred_ℤ (negsuc n) = negsuc (suc n)

unfoldable pub age_in_years : Date → Date → ℤ
age_in_years date_of_birth today =
    let years = sub_ℕ today.year date_of_birth.year in
    if month_day_leb date_of_birth today then years else pred_ℤ years

unfoldable pub claims_for : ℤ → List (AgeClaim × ℕ) → List AgeClaim
claims_for age [] = []
claims_for age ((claim, min_age) ∷ rest) =
    let others = claims_for age rest in if leb_ℤ (pos min_age) age then claim ∷ others else others

unfoldable pub eligible_claims : Date → Date → List AgeClaim
unfolding age_in_years claims_for
eligible_claims date_of_birth today = claims_for (age_in_years date_of_birth today) claim_min_age
