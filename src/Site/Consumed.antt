-- ===== src/Site/Consumed.antt =====
-- A verifier that allows has consumed the challenge.
use blind_age.Base.{String, true, none, ◌≡◌, subst, string_eq}
use blind_age.Base.Dict.{get, get-remove_self}
use blind_age.Crypto.Primitives.{Primitives}
use blind_age.Registry.Store.{TrustRegistry}
use blind_age.Schemas.Issuer.{Time}
use blind_age.Schemas.Presentation.{Presentation, DomainBinding, VerifierPolicy}
use blind_age.Schemas.Vc.{VcPresentation}
use blind_age.Verifier.Challenge.{consume}
use blind_age.Verifier.Checks.{BlindAgeVerifier}
use blind_age.Verifier.Credential.{ProofSystem, vc_challenge, vc_steps}
use blind_age.Verifier.Credential.Flow.{proceed-eq-go}
use blind_age.Verifier.Session.{Local, Step, go, ◌>>=◌}
use blind_age.Verifier.Token.{consume_step, check_challenge, check_binding, verify_steps}
use blind_age.Site.Challenges.{
  Gone, ending, Keeps, bind-Keeps, require-Keeps, set_flags-Keeps, or_raise-Keeps,
  check_replay-Keeps, check_level-Keeps, check_proof-Keeps,
}

-- Where the step goes on, nothing is pending under the identifier.
unfoldable pub Removes : {A : Type 0} → String → Step A → Type 0
Removes {A} j m = (l : Local) (a : A) (k : Local) → m l ≡ go a k → Gone j k.session

module _ (j : String) where
  bind_before-Removes :
      {A B : Type 0} (m : Step A) (f : A → Step B)
      → Removes j m
      → ((a : A) → Keeps j (f a))
      → Removes j (m >>= f)
  unfolding Removes Keeps ending
  bind_before-Removes m f h k l b l' e =
      let (a, l₁, first, rest) = proceed-eq-go (m l) f e in
      let kept = k a l₁ (h l a l₁ first) in let last = rw rest at kept in last

  bind_after-Removes :
      {A B : Type 0} (m : Step A) (f : A → Step B)
      → ((a : A) → Removes j (f a))
      → Removes j (m >>= f)
  unfolding Removes
  bind_after-Removes m f k l b l' e =
      let (a, l₁, first, rest) = proceed-eq-go (m l) f e in k a l₁ b l' rest

go_injective : {A : Type 0} {a b : A} {l k : Local} → go a l ≡ go b k → l ≡ k
go_injective e = cc

consume_step-Removes :
    (b : DomainBinding) (now : Time) → Removes b.challenge_id (consume_step b now)
unfolding Removes Gone consume_step consume
consume_step-Removes b now l a k e =
    subst (λ x. get x.session.challenges.pending b.challenge_id ≡ none) (go_injective e)
      (get-remove_self l.session.challenges.pending b.challenge_id)

check_challenge-Removes :
    (policy : VerifierPolicy) (b : DomainBinding) (now : Time)
    → Removes b.challenge_id (check_challenge policy b now)
unfolding check_challenge
check_challenge-Removes policy b now =
    search (bind_before-Removes, consume_step-Removes, bind-Keeps, set_flags-Keeps, require-Keeps)

check_binding-Removes :
    (v : BlindAgeVerifier) (b : DomainBinding) (now : Time)
    → v.policy.require_domain_binding ≡ true
    → Removes b.challenge_id (check_binding v b now)
unfolding check_binding
check_binding-Removes v b now e =
    rw (check_binding, e) (search (bind_after-Removes, check_challenge-Removes))

vc_challenge-Removes :
    (bbs : ProofSystem) (audience : String) (p : VcPresentation) (now : Time)
    → Removes p.domain_binding.challenge_id (vc_challenge bbs audience p now)
unfolding vc_challenge
vc_challenge-Removes bbs audience p now =
    search
      (
        bind_after-Removes, bind_before-Removes, consume_step-Removes, bind-Keeps, set_flags-Keeps,
        require-Keeps, or_raise-Keeps,
      )
      depth 9

pub verify_steps-Removes :
    (c : Primitives) (v : BlindAgeVerifier) (p : Presentation) (now consume_now : Time)
    → v.policy.require_domain_binding ≡ true
    → Removes p.domain_binding.challenge_id (verify_steps c v p now consume_now)
unfolding verify_steps
verify_steps-Removes c v p now consume_now e =
    let removes = check_binding-Removes v p.domain_binding consume_now e in
    search (removes, bind_after-Removes, bind_before-Removes, check_replay-Keeps) depth 15

pub vc_steps-Removes :
    (bbs : ProofSystem) (registry : TrustRegistry) (trusted audience : String) (p : VcPresentation)
    (now consume_now : Time)
    → Removes p.domain_binding.challenge_id
        (vc_steps bbs registry trusted audience p now consume_now)
unfolding vc_steps
vc_steps-Removes bbs registry trusted audience p now consume_now =
    search
      (
        bind_after-Removes, bind_before-Removes, vc_challenge-Removes, bind-Keeps,
        check_level-Keeps, check_proof-Keeps,
      )
      depth 15
