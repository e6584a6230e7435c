-- ===== src/Schemas/Vc.antt =====
-- Reusable credentials (blindage/schemas/vc.py).
use blind_age.Base.Int.{ℤ}
use blind_age.Base.{String, List, ◌∷◌, map}
use blind_age.Base.Text.{Bytes, encode, sorted}
use blind_age.Canonical.{text, object, field, end, canonical_json_bytes}
use blind_age.Schemas.Enums.{AgeClaim, AssuranceLevel, claim_value, assurance_value}
use blind_age.Schemas.Issuer.{Time}
use blind_age.Schemas.Presentation.{DomainBinding}

-- `VC_HEADER`
abbrev pub vc_header : Bytes
unfolding encode
vc_header = encode "blindage-vc-v1"

-- `dump_time` is how pydantic writes a datetime in JSON mode.
unfoldable pub vc_presentation_header : (dump_time : Time → String) → DomainBinding → Bytes
unfolding canonical_json_bytes
vc_presentation_header dump_time b = canonical_json_bytes (
    object (
      field "audience" (text b.audience) (
        field "challenge" (text b.challenge) (
          field "challenge_id" (text b.challenge_id)
            (field "timestamp" (text (dump_time b.timestamp)) end)))))

unfoldable pub vc_message_vector : String → String → String → List String → List Bytes
unfolding encode sorted
vc_message_vector issuer_id assurance_level epoch claims =
    map encode (issuer_id ∷ assurance_level ∷ epoch ∷ sorted claims)

pub record AgeCredential : Type 0 where
  pub version : String
  pub issuer_id : String
  pub issuer_key_id : String
  pub issuer_public_key : String
  pub assurance_level : AssuranceLevel
  pub epoch : String
  pub claims : List AgeClaim
  pub signature : String

-- The messages that a credential stands for.
unfoldable pub credential_messages : AgeCredential → List Bytes
unfolding vc_message_vector assurance_value claim_value
credential_messages credential =
    vc_message_vector credential.issuer_id (assurance_value credential.assurance_level)
      credential.epoch (map claim_value credential.claims)

pub record VcPresentation : Type 0 where
  pub version : String
  pub presentation_type : String
  pub required_claim : AgeClaim
  pub issuer_id : String
  pub issuer_key_id : String
  pub assurance_level : AssuranceLevel
  pub epoch : String
  pub proof : String
  pub disclosed_indexes : List ℤ
  pub domain_binding : DomainBinding

pub record CredentialIssueRequest : Type 0 where
  pub version : String
  pub enrollment_id : String
