-- ===== src/Verifier/Token/Acceptance.antt =====
-- When `verify` allows: the tests of the code, against conditions on the registry, the policy, the
-- clock and the session.
use blind_age.Base.{
  String, Bool, true, false, Option, none, some, ◌≤◌, ◌≡◌, ◌↔◌, refl, sym, ◌∙◌, arith, contains,
  string_eq, Bool-cases, inl, inr, option_eq, eq_iff, &&-eq-true,
}
use blind_age.Base.Equality.{option_beq_iff}
use blind_age.Base.Result.{ok}
use blind_age.Crypto.Primitives.{Primitives}
use blind_age.Registry.Store.{get_issuer, get_token_key}
use blind_age.Schemas.Enums.{
  AgeClaim, active, assurance_at_least, assurance_order, claim_eq, claim_beq_iff, level_eq,
}
use blind_age.Schemas.Issuer.{IssuerKey, IssuerMetadata, Time, Timestamp, aware, naive}
use blind_age.Schemas.Presentation.{Presentation, DomainBinding, VerifierPolicy, VerifierChallenge}
use blind_age.Schemas.Token.{AgeToken}
use blind_age.Verifier.Challenge.{ChallengeManager, consume}
use blind_age.Verifier.Challenge.Laws.{Redeems, consume-eq-some_iff}
use blind_age.Verifier.Checks.{
  BlindAgeVerifier, issuer_is_trusted, advisory_agrees, try_signature, sha256_hex,
}
use blind_age.Verifier.Replay.{ReplayCache}
use blind_age.Verifier.Session.{Session}
use blind_age.Verifier.Token.{challenge_matches, within, verify}
use blind_age.Verifier.Token.Gate.{
  allows, all_ok, key_ok, key_level_ok, binding_ok, replay_ok, expiry_ok, signature_ok,
  allows-verify,
}
use blind_age.Verifier.Token.Steps.{when_some}

-- A time between two aware times.
abbrev pub Within : (from until : Timestamp) (now : Time) → Type 0
Within from until now =
    (start : Time) × (end : Time) × (from ≡ aware start)
    × (until ≡ aware end)
    × (start ≤ now)
    × (now ≤ end)

pub expiry_ok-within :
    (from until : Timestamp) (now : Time)
    → (expiry_ok (within from until now) ≡ true) ↔ Within from until now
unfolding expiry_ok within
expiry_ok-within (naive a) until now =
    (λ h. absurd (ground arith), λ (s, t, e, f, le, le'). absurd (cc e))
expiry_ok-within (aware a) (naive b) now =
    (λ h. absurd (ground arith), λ (s, t, e, f, le, le'). absurd (cc f))
expiry_ok-within (aware a) (aware b) now =
    (λ h. (a, b, refl, refl, ground arith, ground arith), λ (s, t, e, f, le, le'). ground arith)

-- The binding redeems a pending challenge that asks for the claim.
pub record Answers (m : ChallengeManager) (b : DomainBinding) (claim : AgeClaim) (now : Time)
    : Type 0 where
  pub challenge : VerifierChallenge
  pub redeems : Redeems m b.challenge_id b.challenge now challenge
  pub same_claim : challenge.required_claim ≡ claim

-- A registered key of the token's issuer vouches for the token.
pub record Vouches (c : Primitives) (v : BlindAgeVerifier) (t : AgeToken) (now : Time)
    : Type 0 where
  pub issuer : IssuerMetadata
  pub registered : get_issuer v.registry t.issuer_id ≡ some issuer
  pub is_active : issuer.status ≡ active
  pub is_trusted : contains v.policy.trusted_issuers t.issuer_id ≡ true
  pub key : IssuerKey
  pub has_key : get_token_key v.registry t.issuer_id t.issuer_key_id ≡ some key
  pub algorithm_allowed : contains v.policy.allowed_algorithms key.algorithm ≡ true
  pub signed : try_signature c key t ≡ ok true
  pub binds_claim : key.claim ≡ some t.claim
  pub binds_level : key.assurance_level ≡ some t.assurance_level
  pub binds_epoch : key.epoch ≡ some t.epoch
  pub start : Time
  pub end : Time
  pub starts_at : key.valid_from ≡ aware start
  pub ends_at : key.valid_until ≡ aware end
  pub begun : start ≤ now
  pub not_over : now ≤ end

pub record Accepts (c : Primitives) (v : BlindAgeVerifier) (s : Session) (p : Presentation)
    (now consume_now : Time) : Type 0 where
  pub vouched : Vouches c v p.token now
  pub right_claim : p.token.claim ≡ v.policy.required_claim
  pub enough :
      assurance_order v.policy.minimum_assurance_level ≤ assurance_order p.token.assurance_level
  pub bound :
      v.policy.require_domain_binding ≡ true
      → (p.domain_binding.audience ≡ v.audience)
        × Answers s.challenges p.domain_binding v.policy.required_claim consume_now
  pub unspent :
      v.policy.require_single_use ≡ true
      → contains s.replay.spent (sha256_hex c p.token.nonce) ≡ false

pub issuer_is_trusted-eq-true :
    (o : Option IssuerMetadata) (policy : VerifierPolicy) (issuer_id : String)
    → issuer_is_trusted o policy issuer_id ≡ true
    → (issuer : IssuerMetadata) × (o ≡ some issuer)
      × (issuer.status ≡ active)
      × (contains policy.trusted_issuers issuer_id ≡ true)
unfolding issuer_is_trusted
issuer_is_trusted-eq-true none policy issuer_id h = cc
issuer_is_trusted-eq-true (some issuer) policy issuer_id h =
    (issuer, refl, ground arith, ground arith)

pub advisory_agrees-eq-true :
    (t : AgeToken) (key : IssuerKey)
    → (advisory_agrees t key ≡ true) ↔ (
        (key.claim ≡ some t.claim)
        × (key.assurance_level ≡ some t.assurance_level)
        × (key.epoch ≡ some t.epoch))
unfolding advisory_agrees
advisory_agrees-eq-true t key = ground (
  arith,
  option_beq_iff (some t.claim) key.claim,
  option_beq_iff (some t.assurance_level) key.assurance_level,
  option_beq_iff (some t.epoch) key.epoch,
)

when_some-eq-true :
    (o : Option IssuerKey) (q : IssuerKey → Bool)
    → when_some o q ≡ true
    → (k : IssuerKey) × (o ≡ some k) × (q k ≡ true)
unfolding when_some
when_some-eq-true none q h = cc
when_some-eq-true (some k) q h = (k, refl, h)

pub challenge_matches-eq-true :
    (o : Option VerifierChallenge) (claim : AgeClaim)
    → challenge_matches o claim ≡ true
    → (ch : VerifierChallenge) × (o ≡ some ch) × (ch.required_claim ≡ claim)
unfolding challenge_matches
challenge_matches-eq-true none claim h = cc
challenge_matches-eq-true (some ch) claim h =
    (ch, refl, (claim_beq_iff ch.required_claim claim).0 h)

binding_ok-Answers :
    (v : BlindAgeVerifier) (b : DomainBinding) (now : Time) (m : ChallengeManager)
    → binding_ok v b now m ≡ true
    → v.policy.require_domain_binding ≡ true
    → (b.audience ≡ v.audience) × Answers m b v.policy.required_claim now
unfolding binding_ok
binding_ok-Answers v b now m h e =
    let (ch, found, claim) =
      challenge_matches-eq-true (consume m b.challenge_id b.challenge now).1 v.policy.required_claim
        (ground arith) in
    (
      ground (arith, eq_iff b.audience v.audience),
      record {
        challenge = ch;
        redeems = (consume-eq-some_iff m b.challenge_id b.challenge now ch).0 found;
        same_claim = claim;
      },
    )

Answers-binding_ok :
    (v : BlindAgeVerifier) (b : DomainBinding) (now : Time) (m : ChallengeManager)
    → (v.policy.require_domain_binding ≡ true
        → (b.audience ≡ v.audience) × Answers m b v.policy.required_claim now)
    → binding_ok v b now m ≡ true
unfolding binding_ok challenge_matches
Answers-binding_ok v b now m k = elim (Bool-cases v.policy.require_domain_binding) [
  | inl e ↦
      let (same, a) = k e in
      let found = (consume-eq-some_iff m b.challenge_id b.challenge now a.challenge).1 a.redeems in
      rw (e, found, a.same_claim, same)
        (ground (
          arith,
          eq_iff v.audience v.audience,
          claim_beq_iff v.policy.required_claim v.policy.required_claim,
        ))
  | inr e ↦ rw e refl
]

module _ (c : Primitives) (v : BlindAgeVerifier) (s : Session) (p : Presentation)
    (now consume_now : Time) where
  IsUnspent-replay_ok :
      (r : ReplayCache)
      → (v.policy.require_single_use ≡ true → contains r.spent (sha256_hex c p.token.nonce) ≡ false)
      → replay_ok c v.policy p.token r ≡ true
  unfolding replay_ok
  IsUnspent-replay_ok r k = elim (Bool-cases v.policy.require_single_use) [
    | inl e ↦ rw (e, k e) refl
    | inr e ↦ rw e refl
  ]

  key_ok-facts :
      (key : IssuerKey)
      → key_ok c v s p now consume_now key ≡ true
      → (contains v.policy.allowed_algorithms key.algorithm ≡ true)
        × (try_signature c key p.token ≡ ok true)
        × (advisory_agrees p.token key ≡ true)
        × (key.claim ≡ some v.policy.required_claim)
        × (key_level_ok v.policy key.assurance_level ≡ true)
        × (expiry_ok (within key.valid_from key.valid_until now) ≡ true)
        × (binding_ok v p.domain_binding consume_now s.challenges ≡ true)
        × (replay_ok c v.policy p.token s.replay ≡ true)
  unfolding key_ok signature_ok
  key_ok-facts key h = ground (arith, option_beq_iff key.claim (some v.policy.required_claim))

  all_ok-Accepts : all_ok c v s p now consume_now ≡ true → Accepts c v s p now consume_now
  unfolding all_ok key_level_ok replay_ok assurance_at_least
  all_ok-Accepts h =
      let (trusted, with_key) = &&-eq-true _ _ h in
      let (issuer, registered, act, listed) =
        issuer_is_trusted-eq-true _ v.policy p.token.issuer_id trusted in
      let (key, has_key, passes) = when_some-eq-true _ _ with_key in
      let (algorithm, signed, agrees, right, enough, live, bound, fresh) =
        key_ok-facts key passes in
      let (start, end, starts_at, ends_at, begun, not_over) =
        (expiry_ok-within key.valid_from key.valid_until now).0 live in
      let (claim, level, epoch) = (advisory_agrees-eq-true p.token key).0 agrees in
      record {
        vouched = record {
          issuer = issuer;
          registered = registered;
          is_active = act;
          is_trusted = listed;
          key = key;
          has_key = has_key;
          algorithm_allowed = algorithm;
          signed = signed;
          binds_claim = claim;
          binds_level = level;
          binds_epoch = epoch;
          start = start;
          end = end;
          starts_at = starts_at;
          ends_at = ends_at;
          begun = begun;
          not_over = not_over;
        };
        right_claim = cc (claim, right);
        enough = ground arith;
        bound = binding_ok-Answers v p.domain_binding consume_now s.challenges bound;
        unspent = λ e. ground arith;
      }

  Accepts-all_ok : Accepts c v s p now consume_now → all_ok c v s p now consume_now ≡ true
  unfolding all_ok key_ok issuer_is_trusted when_some signature_ok key_level_ok assurance_at_least
  Accepts-all_ok a =
      let o = a.vouched in
      ground (
        arith,
        o.registered,
        o.has_key,
        (advisory_agrees-eq-true p.token o.key).1 (o.binds_claim, o.binds_level, o.binds_epoch),
        option_beq_iff o.key.claim (some v.policy.required_claim),
        (expiry_ok-within o.key.valid_from o.key.valid_until now).1
            (o.start, o.end, o.starts_at, o.ends_at, o.begun, o.not_over),
        Answers-binding_ok v p.domain_binding consume_now s.challenges a.bound,
        IsUnspent-replay_ok s.replay a.unspent,
      )

  -- `verify` allows exactly when the conditions hold.
  pub verify-Accepts :
      (allows (verify c v s p now consume_now).0 ≡ true) ↔ Accepts c v s p now consume_now
  verify-Accepts = (
    λ h. all_ok-Accepts (sym (allows-verify c v s p now consume_now) ∙ h),
    λ a. allows-verify c v s p now consume_now ∙ Accepts-all_ok a,
  )
