-- ===== src/Schemas/Issuer.antt =====
-- Issuer keys and issuer metadata (blindage/schemas/issuer.py). An aware `datetime` is the number
-- of microseconds since the epoch; a `Timestamp` is a `datetime` that pydantic read, which may be
-- naive.
use blind_age.Base.{
  ℕ, String, Bool, true, false, Option, none, some, List, ◌≡◌, ◌↔◌, arith, Eq, ◌==◌, string_eq,
}
use blind_age.Base.Result.{Result, ok, err}
use blind_age.Schemas.Enums.{AgeClaim, AssuranceLevel, IssuerStatus}

abbrev pub Time : Type 0
Time = ℕ

-- Python refuses to order a naive `datetime` and an aware one.
pub data Timestamp : Type 0 where
  aware naive : Time → Timestamp

pub data Purpose : Type 0 where
  token_signing vc_signing registry : Purpose

abbrev purpose_beq : Purpose → Purpose → Bool
purpose_beq token_signing token_signing = true
purpose_beq vc_signing vc_signing = true
purpose_beq registry registry = true
purpose_beq _ _ = false

pub purpose_beq_iff : (a b : Purpose) → (purpose_beq a b ≡ true) ↔ (a ≡ b)
purpose_beq_iff token_signing b = ground arith
purpose_beq_iff vc_signing b = ground arith
purpose_beq_iff registry b = ground arith

instance abbrev pub purpose_eq : Eq Purpose
purpose_eq = record { beq = purpose_beq; beq_iff = purpose_beq_iff }

pub record IssuerKey : Type 0 where
  pub key_id : String
  pub purpose : Purpose
  pub algorithm : String
  pub public_key : String
  pub claim : Option AgeClaim
  pub assurance_level : Option AssuranceLevel
  pub epoch : Option String
  pub valid_from : Timestamp
  pub valid_until : Timestamp

pub data KeyError : Type 0 where
  unbound_token_key empty_epoch unbound_vc_key vc_key_with_claim : KeyError

-- The checks of a `token_signing` key.
unfoldable pub check_token_key :
    Option AgeClaim → Option AssuranceLevel → Option String → Result KeyError (Unit {0})
check_token_key (some claim) (some level) (some epoch) = elim (epoch == "") [
  | true ↦ err empty_epoch
  | false ↦ ok tt
]
check_token_key _ _ _ = err unbound_token_key

-- The checks of a `vc_signing` key.
unfoldable pub check_vc_key :
    Option AgeClaim → Option AssuranceLevel → Option String → Result KeyError (Unit {0})
check_vc_key claim (some level) (some epoch) = elim (epoch == "") [
  | true ↦ err unbound_vc_key
  | false ↦ elim claim [ none ↦ ok tt | some c ↦ err vc_key_with_claim ]
]
check_vc_key _ _ _ = err unbound_vc_key

-- The model validator that pydantic runs after the fields of an `IssuerKey` are read.
unfoldable pub token_keys_need_binding : IssuerKey → Result KeyError (Unit {0})
unfolding check_token_key check_vc_key
token_keys_need_binding k = elim k.purpose [
  | token_signing ↦ check_token_key k.claim k.assurance_level k.epoch
  | vc_signing ↦ check_vc_key k.claim k.assurance_level k.epoch
  | registry ↦ ok tt
]

pub record IssuerMetadata : Type 0 where
  pub version : String
  pub issuer_id : String
  pub legal_name : String
  pub jurisdiction : String
  pub endpoint : Option String
  pub supported_claims : List AgeClaim
  pub assurance_levels : List AssuranceLevel
  pub keys : List IssuerKey
  pub status : IssuerStatus
  pub valid_from : Timestamp
  pub valid_until : Timestamp
