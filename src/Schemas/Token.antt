-- ===== src/Schemas/Token.antt =====
-- Tokens and the requests that mint them (blindage/schemas/token.py).
use blind_age.Base.{String, Bool, true, false, Option, none, some, List, [], ◌∷◌, if◌then◌else◌}
use blind_age.Base.Result.{Result, ok, err}
use blind_age.Schemas.Enums.{AgeClaim, AssuranceLevel}
use blind_age.Schemas.Issuer.{Time}

pub record AgeToken : Type 0 where
  pub version : String
  pub claim : AgeClaim
  pub assurance_level : AssuranceLevel
  pub epoch : String
  pub issuer_id : String
  pub issuer_key_id : String
  pub nonce : String
  pub signature : String

pub record TokenIssueRequest : Type 0 where
  pub version : String
  pub enrollment_id : String
  pub claim : AgeClaim
  pub assurance_level : AssuranceLevel
  pub epoch : String
  pub nonces : Option (List String)
  pub blinded_messages : Option (List String)

-- `bool(xs)` of an optional list
abbrev pub truthy : Option (List String) → Bool
truthy none = false
truthy (some []) = false
truthy (some (x ∷ xs)) = true

pub data RequestError : Type 0 where
  not_exactly_one_payload : RequestError

-- The model validator of `TokenIssueRequest`.
unfoldable pub exactly_one_payload : TokenIssueRequest → Result RequestError TokenIssueRequest
exactly_one_payload r = elim (truthy r.nonces) [
  | true ↦ if truthy r.blinded_messages then err not_exactly_one_payload else ok r
  | false ↦ if truthy r.blinded_messages then ok r else err not_exactly_one_payload
]

pub record TokenIssueResponse : Type 0 where
  pub version : String
  pub issuer_id : String
  pub issuer_key_id : String
  pub claim : AgeClaim
  pub assurance_level : AssuranceLevel
  pub epoch : String
  pub signatures : List String
  pub expires_at : Time
