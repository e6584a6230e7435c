-- ===== src/Schemas/Enums.antt =====
-- The enumerations of blindage/schemas/enums.py, with the text that each member stands for.
use mathlib.Core.Bool.{Bool, true, false}
use mathlib.Core.List.{List, [], ◌∷◌}
use blind_age.Base.{ℕ, String, ◌≡◌, ◌↔◌, arith, leb, Eq}

pub data AgeClaim : Type 0 where
  age_over_13 age_over_16 age_over_18 age_over_21 : AgeClaim

-- `claim.value`
unfoldable pub claim_value : AgeClaim → String
claim_value age_over_13 = "AGE_OVER_13"
claim_value age_over_16 = "AGE_OVER_16"
claim_value age_over_18 = "AGE_OVER_18"
claim_value age_over_21 = "AGE_OVER_21"

-- `CLAIM_MIN_AGE`, in the dict's order.
abbrev pub claim_min_age : List (AgeClaim × ℕ)
claim_min_age = (age_over_13, 13) ∷ (age_over_16, 16) ∷ (age_over_18, 18) ∷ (age_over_21, 21) ∷ []

pub data AssuranceLevel : Type 0 where
  aal0 aal1 aal2 aal3 : AssuranceLevel

unfoldable pub assurance_value : AssuranceLevel → String
assurance_value aal0 = "AAL0"
assurance_value aal1 = "AAL1"
assurance_value aal2 = "AAL2"
assurance_value aal3 = "AAL3"

-- `_ASSURANCE_ORDER[level]`
unfoldable pub assurance_order : AssuranceLevel → ℕ
assurance_order aal0 = 0
assurance_order aal1 = 1
assurance_order aal2 = 2
assurance_order aal3 = 3

unfoldable pub assurance_at_least : AssuranceLevel → AssuranceLevel → Bool
unfolding assurance_order
assurance_at_least level minimum = leb (assurance_order minimum) (assurance_order level)

pub data Decision : Type 0 where
  allow deny : Decision

pub data IssuerStatus : Type 0 where
  active suspended revoked expired : IssuerStatus

abbrev claim_beq : AgeClaim → AgeClaim → Bool
claim_beq age_over_13 age_over_13 = true
claim_beq age_over_16 age_over_16 = true
claim_beq age_over_18 age_over_18 = true
claim_beq age_over_21 age_over_21 = true
claim_beq _ _ = false

pub claim_beq_iff : (a b : AgeClaim) → (claim_beq a b ≡ true) ↔ (a ≡ b)
claim_beq_iff age_over_13 b = ground arith
claim_beq_iff age_over_16 b = ground arith
claim_beq_iff age_over_18 b = ground arith
claim_beq_iff age_over_21 b = ground arith

instance abbrev pub claim_eq : Eq AgeClaim
claim_eq = record { beq = claim_beq; beq_iff = claim_beq_iff }

abbrev level_beq : AssuranceLevel → AssuranceLevel → Bool
level_beq aal0 aal0 = true
level_beq aal1 aal1 = true
level_beq aal2 aal2 = true
level_beq aal3 aal3 = true
level_beq _ _ = false

pub level_beq_iff : (a b : AssuranceLevel) → (level_beq a b ≡ true) ↔ (a ≡ b)
level_beq_iff aal0 b = ground arith
level_beq_iff aal1 b = ground arith
level_beq_iff aal2 b = ground arith
level_beq_iff aal3 b = ground arith

instance abbrev pub level_eq : Eq AssuranceLevel
level_eq = record { beq = level_beq; beq_iff = level_beq_iff }

abbrev pub status_is_active : IssuerStatus → Bool
status_is_active active = true
status_is_active _ = false
