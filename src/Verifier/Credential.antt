-- ===== src/Verifier/Credential.antt =====
-- `verify_vc_presentation` (blindage/verifier/verify.py). `proof_verify` is `bbs_proof_verify`, none
-- where it raises; the session's replay cache takes no part.
pub mod Flow
pub mod Shown
pub mod Disclosure
use blind_age.Base.{
  String, Bool, true, false, Option, none, some, List, [], ◌∷◌, ◌&&◌, ◌==◌, string_eq, option_eq,
}
use blind_age.Base.Int.{ℤ, pos, int_eq}
use blind_age.Base.Result.{Result, ok, err}
use blind_age.Base.Text.{Bytes, encode}
use blind_age.Crypto.Base64.{b64u_decode}
use blind_age.Crypto.Verifiers.{bbs_algorithm}
use blind_age.Registry.Store.{TrustRegistry, get_issuer, get_vc_key}
use blind_age.Schemas.Enums.{
  AssuranceLevel, assurance_value, claim_value, level_eq, status_is_active,
}
use blind_age.Schemas.Issuer.{IssuerKey, IssuerMetadata, Time}
use blind_age.Schemas.Presentation.{VerifierChallenge}
use blind_age.Schemas.Vc.{VcPresentation, vc_header, vc_presentation_header}
use blind_age.Verifier.Session.{
  Session, Step, Outcome, go, raise_now, proceed, ◌>>=◌, ◌>>◌, require, require_some, modify,
  set_flags, conclude, start,
}
use blind_age.Verifier.Token.{check_expiry, consume_step, challenge_matches, level_at_least}

-- What the verifier takes from BBS, and how pydantic writes a datetime.
pub record ProofSystem : Type 0 where
  pub proof_verify :
      String → (proof header presentation_header : Bytes) → List Bytes → List ℤ → Option Bool
  pub dump_time : Time → String

unfoldable pub vc_issuer_is_trusted : Option IssuerMetadata → (issuer_id trusted : String) → Bool
vc_issuer_is_trusted none issuer_id trusted = false
vc_issuer_is_trusted (some issuer) issuer_id trusted =
    status_is_active issuer.status && (issuer_id == trusted)

-- Four indexes that start with 0, 1, 2.
unfoldable pub well_shaped : List ℤ → Bool
well_shaped (a ∷ b ∷ c ∷ d ∷ []) = (a == pos 0) && (b == pos 1) && (c == pos 2)
well_shaped _ = false

-- The messages that the registry's binding and the claim stand for.
unfoldable pub disclosed_messages :
    VcPresentation → Option AssuranceLevel → Option String → Option (List Bytes)
unfolding encode assurance_value claim_value
disclosed_messages p (some level) (some epoch) = some (
    encode p.issuer_id
    ∷ encode (assurance_value level)
    ∷ encode epoch
    ∷ encode (claim_value p.required_claim)
    ∷ [])
disclosed_messages p _ _ = none

-- A missing level or epoch raises an `AttributeError`, which nothing catches.
abbrev pub or_raise : {A : Type 0} → Option A → Step A
or_raise none l = raise_now l
or_raise (some a) l = go a l

abbrev pub caught : Option Bool → Bool
caught none = false
caught (some b) = b

module _ (bbs : ProofSystem) where
  -- The body of the `try`, with its handler.
  unfoldable pub proof_holds : VcPresentation → IssuerKey → List Bytes → Bool
  unfolding vc_presentation_header encode b64u_decode
  proof_holds p key messages = elim (b64u_decode p.proof) [
    | err e ↦ false
    | ok proof ↦ caught (
        bbs.proof_verify key.public_key proof vc_header
          (vc_presentation_header bbs.dump_time p.domain_binding) messages p.disclosed_indexes)
  ]

  -- The checks of the claim and the level against the challenge, which is there.
  unfoldable pub check_level : VcPresentation → IssuerKey → VerifierChallenge → Step (Unit {0})
  check_level p key challenge = do
    let claim_ok = challenge_matches (some challenge) p.required_claim
    level_ok ← level_at_least key.assurance_level challenge.minimum_assurance_level
    set_flags (λ f. record f { claim_satisfied = claim_ok; assurance_sufficient = level_ok })
    require (claim_ok && level_ok)

  -- The audience and the challenge, which is consumed.
  unfoldable pub vc_challenge : String → VcPresentation → Time → Step VerifierChallenge
  vc_challenge audience p consume_now = do
    let same = p.domain_binding.audience == audience
    set_flags (λ f. record f { domain_binding_valid = same })
    require same
    found ← consume_step p.domain_binding consume_now
    let matches = challenge_matches found p.required_claim
    set_flags (λ f. record f { challenge_valid = matches })
    require matches
    or_raise found

  -- The proof over the messages that the registry's binding stands for.
  unfoldable pub check_proof : VcPresentation → IssuerKey → Step (Unit {0})
  check_proof p key = do
    messages ← or_raise (disclosed_messages p key.assurance_level key.epoch)
    let valid = proof_holds p key messages
    set_flags (λ f. record f { signature_valid = valid })
    require valid

  unfoldable pub vc_steps :
      TrustRegistry
      → (trusted_issuer audience : String) → VcPresentation
      → (now consume_now : Time) → Step (Unit {0})
  vc_steps registry trusted_issuer audience p now consume_now = do
    require (vc_issuer_is_trusted (get_issuer registry p.issuer_id) p.issuer_id trusted_issuer)
    set_flags (λ f. record f { issuer_trusted = true; revoked = false })
    key ← require_some (get_vc_key registry p.issuer_id p.issuer_key_id)
    require (key.algorithm == bbs_algorithm)
    require (well_shaped p.disclosed_indexes)
    modify (λ l. record l { assurance = key.assurance_level })
    require ((some p.assurance_level == key.assurance_level) && (some p.epoch == key.epoch))
    modify (λ l. record l { claim = some p.required_claim })
    check_expiry key now
    challenge ← vc_challenge audience p consume_now
    check_level p key challenge
    check_proof p key

  unfoldable pub verify_vc_presentation :
      TrustRegistry
      → (trusted_issuer audience : String) → Session
      → VcPresentation
      → (now consume_now : Time) → Outcome × Session
  verify_vc_presentation registry trusted_issuer audience s p now consume_now =
      conclude (vc_steps registry trusted_issuer audience p now consume_now (start s))
