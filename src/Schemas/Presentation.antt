-- ===== src/Schemas/Presentation.antt =====
-- Presentations, challenges, decisions and policies (blindage/schemas/presentation.py, policy.py).
use blind_age.Base.{ℕ, String, Bool, Option, List}
use blind_age.Schemas.Enums.{AgeClaim, AssuranceLevel, Decision}
use blind_age.Schemas.Issuer.{Time}
use blind_age.Schemas.Token.{AgeToken}

pub record VerifierChallenge : Type 0 where
  pub version : String
  pub challenge_id : String
  pub required_claim : AgeClaim
  pub minimum_assurance_level : AssuranceLevel
  pub audience : String
  pub challenge : String
  pub issued_at : Time
  pub expires_at : Time

pub record DomainBinding : Type 0 where
  pub audience : String
  pub challenge : String
  pub challenge_id : String
  pub timestamp : Time

pub record Presentation : Type 0 where
  pub version : String
  pub presentation_type : String
  pub required_claim : AgeClaim
  pub token : AgeToken
  pub domain_binding : DomainBinding

-- The Boolean fields of a decision, in the order in which the verifiers list them.
pub record Flags : Type 0 where
  pub signature_valid : Bool
  pub issuer_trusted : Bool
  pub claim_satisfied : Bool
  pub assurance_sufficient : Bool
  pub expired : Bool
  pub replayed : Bool
  pub revoked : Bool
  pub domain_binding_valid : Bool
  pub challenge_valid : Bool

pub record VerifierDecision : Type 0 where
  pub valid : Bool
  pub claim : Option AgeClaim
  pub assurance_level : Option AssuranceLevel
  pub flags : Flags
  pub open flags use *
  pub decision : Decision

pub record VerifierPolicy : Type 0 where
  pub policy_id : String
  pub required_claim : AgeClaim
  pub minimum_assurance_level : AssuranceLevel
  pub trusted_issuers : List String
  pub require_domain_binding : Bool
  pub require_single_use : Bool
  pub maximum_token_age_seconds : Option ℕ
  pub allowed_algorithms : List String
