-- ===== src/Site/Visits.antt =====
-- Over any sequence of requests to the site a challenge is redeemed at most once.
use blind_age.Base.{
  String, Bool, true, false, ◌≡◌, refl, sym, ◌∙◌, ◌==◌, string_eq, Bool-cases, inl, inr, nat_beq,
}
use blind_age.Base.Dict.{get-put}
use blind_age.Base.Text.{Bytes}
use blind_age.Crypto.Primitives.{Primitives}
use blind_age.Schemas.Issuer.{Time}
use blind_age.Schemas.Presentation.{Presentation}
use blind_age.Schemas.Vc.{VcPresentation}
use blind_age.Verifier.Challenge.{create}
use blind_age.Verifier.Credential.{ProofSystem, vc_steps, verify_vc_presentation}
use blind_age.Verifier.Credential.Disclosure.{verify_vc_presentation-Shows}
use blind_age.Verifier.Credential.Flow.{conclude-allows}
use blind_age.Verifier.Session.{
  Session, Flow, Outcome, returns, raises, go, deny_now, raise_now, conclude, start,
}
use blind_age.Verifier.Token.{verify_steps, verify}
use blind_age.Verifier.Token.Acceptance.{verify-Accepts}
use blind_age.Verifier.Token.Gate.{allows}
use blind_age.Site.{
  Site, site_verifier, site_policy, challenge, SiteReply, json_response, server_error, respond,
  redeem, redeem_vc,
}
use blind_age.Site.Challenges.{Gone, ending, Keeps, verify_steps-Keeps, vc_steps-Keeps}
use blind_age.Site.Consumed.{Removes, verify_steps-Removes, vc_steps-Removes}

-- The status is 200.
abbrev pub admitted : SiteReply → Bool
admitted (json_response status d) = nat_beq status 200
admitted server_error = false

-- A presentation to either endpoint.
pub data Attempt : Type 0 where
  by_token : Presentation → Attempt
  by_credential : VcPresentation → Attempt

abbrev pub challenge_of : Attempt → String
challenge_of (by_token p) = p.domain_binding.challenge_id
challenge_of (by_credential p) = p.domain_binding.challenge_id

module _ (c : Primitives) (bbs : ProofSystem) (site : Site) where
  unfoldable pub attempt : Session → Attempt → (now consume_now : Time) → SiteReply × Session
  attempt s (by_token p) now consume_now = redeem c site s p now consume_now
  attempt s (by_credential p) now consume_now = redeem_vc bbs site s p now consume_now

  -- A request that does not create a challenge under the identifier `j`.
  pub data Visit (j : String) (s : Session) : Session → Type 0 where
    asks :
        (uuid : String) (token_bytes : Bytes) (now : Time) {t : Session}
        → (uuid == j) ≡ false
        → t ≡ (challenge s uuid token_bytes now).0
        → Visit j s t
    attempts :
        (a : Attempt) (now consume_now : Time) {t : Session}
        → t ≡ (attempt s a now consume_now).1
        → Visit j s t

  pub data Visits (j : String) (s : Session) : Session → Type 0 where
    here : Visits j s s
    next : {t u : Session} → Visits j s t → Visit j t u → Visits j s u

conclude-ending : (f : Flow (Unit {0})) → (conclude f).1 ≡ ending f
unfolding ending
conclude-ending (go u l) = refl
conclude-ending (deny_now l) = refl
conclude-ending (raise_now l) = refl

pub admitted-respond : (o : Outcome) → admitted (respond o) ≡ allows o
unfolding respond
admitted-respond raises = refl
admitted-respond (returns d) = elim (Bool-cases d.valid) [
  | inl e ↦ rw (respond, e) refl
  | inr e ↦ rw (respond, e) refl
]

module _ (c : Primitives) (bbs : ProofSystem) (site : Site) where
  -- An attempt leaves what is gone gone.
  attempt-Gone :
      (j : String) (s : Session) (a : Attempt) (now consume_now : Time)
      → Gone j s
      → Gone j (attempt c bbs site s a now consume_now).1
  unfolding attempt redeem redeem_vc verify verify_vc_presentation Keeps
  attempt-Gone j s (by_token p) now consume_now g =
      rw (conclude-ending (verify_steps c (site_verifier site) p now consume_now (start s)))
        (verify_steps-Keeps j c (site_verifier site) p now consume_now (start s) g)
  attempt-Gone j s (by_credential p) now consume_now g =
      let steps = vc_steps bbs site.registry site.trusted_issuer site.audience p now consume_now in
      rw (conclude-ending (steps (start s))) (
        vc_steps-Keeps j bbs site.registry site.trusted_issuer site.audience p now consume_now
          (start s) g)

  Visit-Gone : {j : String} {s t : Session} → Visit c bbs site j s t → Gone j s → Gone j t
  unfolding Gone challenge create
  Visit-Gone {j} {s} (asks uuid token_bytes now other e) g =
      rw (e, get-put s.challenges.pending uuid j _, other) g
  Visit-Gone {j} {s} (attempts a now consume_now e) g = rw e (attempt-Gone j s a now consume_now g)

  Visits-Gone : {j : String} {s t : Session} → Visits c bbs site j s t → Gone j s → Gone j t
  Visits-Gone here g = g
  Visits-Gone (next r v) g = Visit-Gone v (Visits-Gone r g)

  -- An attempt that is admitted leaves nothing pending under its challenge.
  admitted-Gone :
      (s : Session) (a : Attempt) (now consume_now : Time)
      → admitted (attempt c bbs site s a now consume_now).0 ≡ true
      → Gone (challenge_of a) (attempt c bbs site s a now consume_now).1
  unfolding attempt redeem redeem_vc verify verify_vc_presentation Removes site_verifier site_policy
  admitted-Gone s (by_token p) now consume_now h =
      let steps = verify_steps c (site_verifier site) p now consume_now in
      let valid = sym (admitted-respond (conclude (steps (start s))).0) ∙ h in
      let (l, e) = conclude-allows (steps (start s)) valid in
      rw e (verify_steps-Removes c (site_verifier site) p now consume_now refl (start s) tt l e)
  admitted-Gone s (by_credential p) now consume_now h =
      let steps = vc_steps bbs site.registry site.trusted_issuer site.audience p now consume_now in
      let valid = sym (admitted-respond (conclude (steps (start s))).0) ∙ h in
      let (l, e) = conclude-allows (steps (start s)) valid in
      rw e (
        vc_steps-Removes bbs site.registry site.trusted_issuer site.audience p now consume_now
          (start s) tt l e)

  -- Nothing is admitted under a challenge that is not pending.
  Gone-refused :
      (s : Session) (a : Attempt) (now consume_now : Time)
      → Gone (challenge_of a) s
      → admitted (attempt c bbs site s a now consume_now).0 ≡ false
  unfolding attempt redeem redeem_vc Gone site_verifier site_policy
  Gone-refused s (by_token p) now consume_now g =
      let outcome = (verify c (site_verifier site) s p now consume_now).0 in
      elim (Bool-cases (allows outcome)) [
        | inr e ↦ admitted-respond outcome ∙ e
        | inl e ↦
            let accepted = (verify-Accepts c (site_verifier site) s p now consume_now).0 e in
            let (_, answers) = accepted.bound refl in let found = answers.redeems.is_pending in cc
      ]
  Gone-refused s (by_credential p) now consume_now g =
      elim (Bool-cases (
        allows
          (verify_vc_presentation bbs site.registry site.trusted_issuer site.audience s p now
            consume_now).0)) [
              | inr e ↦ admitted-respond _ ∙ e
              | inl e ↦
                  let shown =
                    (verify_vc_presentation-Shows bbs site.registry site.trusted_issuer
                        site.audience s p now consume_now).0
                      e in
                  let found = shown.answers.redeems.is_pending in cc
            ]

  -- After the site admitted an attempt, no attempt under the same challenge is admitted, whichever
  -- of the two endpoints each goes to, after any sequence of requests that creates no challenge
  -- under the same identifier.
  pub no_challenge_twice :
      (s : Session) (a : Attempt) (now consume_now : Time)
      → admitted (attempt c bbs site s a now consume_now).0 ≡ true
      → {t : Session}
      → Visits c bbs site (challenge_of a) (attempt c bbs site s a now consume_now).1 t
      → (b : Attempt) (now' consume_now' : Time) → challenge_of b ≡ challenge_of a
      → admitted (attempt c bbs site t b now' consume_now').0 ≡ false
  no_challenge_twice s a now consume_now h {t} visits b now' consume_now' same =
      let gone = Visits-Gone visits (admitted-Gone s a now consume_now h) in
      Gone-refused t b now' consume_now' (rw same gone)
