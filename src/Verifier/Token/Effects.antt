-- ===== src/Verifier/Token/Effects.antt =====
-- What a call of `verify` leaves of the session, and when it raises.
use blind_age.Base.{
  Bool, true, false, Option, none, some, ◌∷◌, ◌&&◌, ◌≡◌, refl, ◌∙◌, arith, string_eq, if◌then◌else◌,
  Option-cases, inl, inr,
}
use blind_age.Base.Result.{Result}
use blind_age.Crypto.Primitives.{Primitives, CryptoError}
use blind_age.Registry.Store.{get_token_key}
use blind_age.Schemas.Issuer.{IssuerKey, Time}
use blind_age.Schemas.Presentation.{Presentation, DomainBinding, VerifierPolicy}
use blind_age.Schemas.Token.{AgeToken}
use blind_age.Verifier.Checks.{BlindAgeVerifier, sha256_hex}
use blind_age.Verifier.Replay.{ReplayCache, check_and_insert}
use blind_age.Verifier.Session.{
  Session, Local, Flow, Step, go, deny_now, raise_now, conclude, start, proceed, require,
  require_some,
}
use blind_age.Verifier.Token.{
  check_replay, insert_nonce, record_signature, check_claim, level_at_least, check_expiry,
  check_binding, check_challenge, consume_step, verify_steps, verify,
}
use blind_age.Verifier.Token.Gate.{allows, all_ok, key_ok, replay_ok, steps, allows-verify}
use blind_age.Verifier.Token.Steps.{went_on, final, when_some}

-- The cache after a call that got as far as the replay check, and what that check said.
burnt : Primitives → VerifierPolicy → AgeToken → ReplayCache → ReplayCache
burnt c policy t r =
    if policy.require_single_use && replay_ok c policy t r
    then record { spent = sha256_hex c t.nonce ∷ r.spent }
    else r

-- The replay cache in which a step ends.
cache : {A : Type 0} → Flow A → ReplayCache
cache (go a l) = l.session.replay
cache (deny_now l) = l.session.replay
cache (raise_now l) = l.session.replay

cache-proceed :
    (r : Flow (Unit {0})) (f : Unit {0} → Step (Unit {0}))
    → cache (proceed r f) ≡ (if went_on r then cache (f tt (final r)) else cache r)
unfolding proceed went_on final cache
cache-proceed (go a l) f = refl
cache-proceed (deny_now l) f = refl
cache-proceed (raise_now l) f = refl

cache-go : (l : Local) → cache {A = Unit {0}} (go tt l) ≡ l.session.replay
unfolding cache
cache-go l = refl

cache-require : (b : Bool) (l : Local) → cache (require b l) ≡ l.session.replay
unfolding cache
cache-require true l = refl
cache-require false l = refl

cache-record_signature :
    (r : Result CryptoError Bool) (l : Local) → cache (record_signature r l) ≡ l.session.replay
unfolding record_signature cache
cache-record_signature r l = ground arith

cache-check_claim :
    (policy : VerifierPolicy) (key : IssuerKey) (l : Local)
    → cache (check_claim policy key l) ≡ l.session.replay
unfolding check_claim level_at_least cache
cache-check_claim policy key l = ground arith

cache-check_expiry :
    (key : IssuerKey) (now : Time) (l : Local) → cache (check_expiry key now l) ≡ l.session.replay
unfolding check_expiry cache
cache-check_expiry key now l = ground arith

cache-check_binding :
    (v : BlindAgeVerifier) (b : DomainBinding) (now : Time) (l : Local)
    → cache (check_binding v b now l) ≡ l.session.replay
unfolding check_binding check_challenge consume_step cache
cache-check_binding v b now l = ground arith

cache-check_replay :
    (c : Primitives) (policy : VerifierPolicy) (t : AgeToken) (l : Local)
    → cache (check_replay c policy t l) ≡ burnt c policy t l.session.replay
unfolding check_replay insert_nonce check_and_insert replay_ok cache burnt
cache-check_replay c policy t l = ground arith

from_key : ReplayCache → Option IssuerKey → (IssuerKey → ReplayCache) → ReplayCache
from_key r none g = r
from_key r (some key) g = g key

cache-require_some :
    (o : Option IssuerKey) (l : Local) (f : IssuerKey → Step (Unit {0}))
    → cache (proceed (require_some o l) f) ≡ from_key l.session.replay o (λ k. cache (f k l))
unfolding proceed cache from_key
cache-require_some none l f = refl
cache-require_some (some a) l f = refl

ruleset cache_laws = (
  cache-proceed, cache-go, cache-require, cache-record_signature, cache-check_claim,
  cache-check_expiry, cache-check_binding, cache-check_replay, cache-require_some,
)

cache-conclude : (r : Flow (Unit {0})) → (conclude r).1.replay ≡ cache r
unfolding cache
cache-conclude (go u l) = refl
cache-conclude (deny_now l) = refl
cache-conclude (raise_now l) = refl

-- The tests in a row, as one conjunction.
ladder :
    {A : Type 0} (t₁ t₂ t₃ t₄ t₅ t₆ t₇ t₈ single : Bool) (x y : A)
    → (if t₁
        then if t₂
          then if t₃
            then if t₄
              then if t₅
                then if t₆ then if t₇ then if single && t₈ then x else y else y else y
                else y
              else y
            else y
          else y
        else y)
      ≡ (if (t₁ && (t₂ && (t₃ && (t₄ && (t₅ && (t₆ && (t₇ && t₈))))))) && single then x else y)
ladder t₁ t₂ t₃ t₄ t₅ t₆ t₇ t₈ single x y = ground arith

no_key :
    {A : Type 0} (t single : Bool) (x y : A)
    → (if t then y else y) ≡ (if (t && false) && single then x else y)
no_key t single x y = ground arith

module _ (c : Primitives) (v : BlindAgeVerifier) (s : Session) (p : Presentation)
    (now consume_now : Time) where
  cache-verify_steps : cache (verify_steps c v p now consume_now (start s)) ≡ (
      if all_ok c v s p now consume_now && v.policy.require_single_use
      then record { spent = sha256_hex c p.token.nonce ∷ s.replay.spent }
      else s.replay)
  unfolding verify_steps all_ok key_ok burnt from_key when_some
  cache-verify_steps =
      simp (cache_laws, steps)
        (elim (Option-cases (get_token_key v.registry p.token.issuer_id p.token.issuer_key_id)) [
          | inl e ↦ rw e (search no_key)
          | inr (key, e) ↦ rw e (search ladder)
        ])

  -- A call burns the nonce exactly when it allows under single use, and changes the replay cache
  -- in no other way.
  pub replay-verify : (verify c v s p now consume_now).1.replay ≡ (
      if allows (verify c v s p now consume_now).0 && v.policy.require_single_use
      then record { spent = sha256_hex c p.token.nonce ∷ s.replay.spent }
      else s.replay)
  unfolding verify
  replay-verify =
      rw (allows-verify c v s p now consume_now)
        (cache-conclude (verify_steps c v p now consume_now (start s)) ∙ cache-verify_steps)
