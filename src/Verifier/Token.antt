-- ===== src/Verifier/Token.antt =====
-- `BlindAgeVerifier.verify` (blindage/verifier/verify.py). `now` is the clock as `verify` reads it,
-- and `consume_now` as `ChallengeManager.consume` reads it afterwards.
pub mod Steps
pub mod Gate
pub mod Acceptance
pub mod Effects
pub mod Escapes
pub mod Raising
pub mod Replay
use blind_age.Base.{
  String, Bool, true, false, Option, none, some, ◌&&◌, not, leb, if◌then◌else◌, ◌==◌, string_eq,
  option_eq, contains,
}
use blind_age.Base.Result.{Result, ok, err}
use blind_age.Crypto.Primitives.{Primitives, CryptoError, is_value_error}
use blind_age.Registry.Store.{get_issuer, get_token_key}
use blind_age.Schemas.Enums.{AgeClaim, AssuranceLevel, assurance_at_least, claim_eq}
use blind_age.Schemas.Issuer.{IssuerKey, Time, Timestamp, aware, naive}
use blind_age.Schemas.Presentation.{Presentation, DomainBinding, VerifierPolicy, VerifierChallenge}
use blind_age.Schemas.Token.{AgeToken}
use blind_age.Verifier.Challenge.{consume}
use blind_age.Verifier.Checks.{
  BlindAgeVerifier, issuer_is_trusted, advisory_agrees, try_signature, sha256_hex,
}
use blind_age.Verifier.Replay.{check_and_insert}
use blind_age.Verifier.Session.{
  Session, Step, Outcome, go, deny_now, raise_now, proceed, ◌>>=◌, ◌>>◌, require, require_some,
  modify, set_flags, conclude, start,
}

-- `flags["signature_valid"] = valid`, and the test after it.
unfoldable pub set_signature : Bool → Step (Unit {0})
unfolding proceed
set_signature valid = do set_flags (λ f. record f { signature_valid = valid }); require valid

-- The `try` with its handler: an exception that it does not name leaves the call.
unfoldable pub record_signature : Result CryptoError Bool → Step (Unit {0})
unfolding is_value_error set_signature
record_signature (ok valid) = set_signature valid
record_signature (err e) = if is_value_error e then set_signature false else raise_now

-- `assurance_at_least` on the level of a key; a missing level would raise a `KeyError`.
unfoldable pub level_at_least : Option AssuranceLevel → AssuranceLevel → Step Bool
unfolding assurance_at_least
level_at_least none minimum l = raise_now l
level_at_least (some level) minimum l = go (assurance_at_least level minimum) l

unfoldable pub check_claim : VerifierPolicy → IssuerKey → Step (Unit {0})
unfolding level_at_least proceed
check_claim policy key = do
  let claim_ok = key.claim == some policy.required_claim
  level_ok ← level_at_least key.assurance_level policy.minimum_assurance_level
  set_flags (λ f. record f { claim_satisfied = claim_ok; assurance_sufficient = level_ok })
  require (claim_ok && level_ok)

-- `start <= now <= end`, none for the `TypeError` of a naive time; the second comparison is made only
-- where the first holds.
unfoldable pub within : (start end : Timestamp) (now : Time) → Option Bool
within (naive a) end now = none
within (aware a) (naive b) now = if leb a now then none else some false
within (aware a) (aware b) now = some (leb a now && leb now b)

-- `flags["expired"]` and the test after it; nothing catches the `TypeError`.
unfoldable pub record_expiry : Option Bool → Step (Unit {0})
unfolding proceed
record_expiry none = raise_now
record_expiry (some live) = do set_flags (λ f. record f { expired = not live }); require live

unfoldable pub check_expiry : IssuerKey → Time → Step (Unit {0})
unfolding within record_expiry
check_expiry key now = record_expiry (within key.valid_from key.valid_until now)

-- `challenge is not None and challenge.required_claim == claim`
unfoldable pub challenge_matches : Option VerifierChallenge → AgeClaim → Bool
challenge_matches none claim = false
challenge_matches (some ch) claim = ch.required_claim == claim

-- `self._challenges.consume(...)`
unfoldable pub consume_step : DomainBinding → Time → Step (Option VerifierChallenge)
consume_step b now l =
    let (challenges, found) = consume l.session.challenges b.challenge_id b.challenge now in
    go found (record l { session = record l.session { challenges = challenges } })

unfoldable pub check_challenge : VerifierPolicy → DomainBinding → Time → Step (Unit {0})
unfolding proceed
check_challenge policy b now = do
  challenge ← consume_step b now
  let matches = challenge_matches challenge policy.required_claim
  set_flags (λ f. record f { challenge_valid = matches })
  require matches

unfoldable pub check_binding : BlindAgeVerifier → DomainBinding → Time → Step (Unit {0})
unfolding proceed
check_binding v b now = elim v.policy.require_domain_binding [
  | true ↦ do
    let same = b.audience == v.audience
    set_flags (λ f. record f { domain_binding_valid = same })
    require same
    check_challenge v.policy b now
  | false ↦ set_flags (λ f. record f { domain_binding_valid = true; challenge_valid = true })
]

-- The replay check, which burns the nonce.
unfoldable pub insert_nonce : String → Step (Unit {0})
insert_nonce nonce_hash l =
    let (replay, fresh) = check_and_insert l.session.replay nonce_hash in
    if fresh
    then go tt (record l { session = record l.session { replay = replay } })
    else deny_now (record l {
      session = record l.session { replay = replay };
      flags = record l.flags { replayed = true };
    })

module _ (c : Primitives) where
  unfoldable pub check_replay : VerifierPolicy → AgeToken → Step (Unit {0})
  check_replay policy token = elim policy.require_single_use [
    | true ↦ insert_nonce (sha256_hex c token.nonce)
    | false ↦ go tt
  ]

  unfoldable pub verify_steps :
      BlindAgeVerifier → Presentation → (now consume_now : Time) → Step (Unit {0})
  unfolding get_issuer get_token_key issuer_is_trusted contains record_signature try_signature
      advisory_agrees check_claim check_expiry check_binding check_replay
  verify_steps v p now consume_now = do
    let token = p.token
    let policy = v.policy
    require (issuer_is_trusted (get_issuer v.registry token.issuer_id) policy token.issuer_id)
    set_flags (λ f. record f { issuer_trusted = true; revoked = false })
    key ← require_some (get_token_key v.registry token.issuer_id token.issuer_key_id)
    require (contains policy.allowed_algorithms key.algorithm)
    record_signature (try_signature c key token)
    modify (λ l. record l { claim = key.claim; assurance = key.assurance_level })
    require (advisory_agrees token key)
    check_claim policy key
    check_expiry key now
    check_binding v p.domain_binding consume_now
    check_replay policy token

  unfoldable pub verify :
      BlindAgeVerifier → Session → Presentation → (now consume_now : Time) → Outcome × Session
  verify v s p now consume_now = conclude (verify_steps v p now consume_now (start s))
