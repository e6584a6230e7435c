-- ===== src/Site/Fresh.antt =====
-- A visitor who asks the site for a challenge and presents a vouched token for it is let in.
use blind_age.Base.{
  String, true, false, some, ◌≡◌, ◌≤◌, refl, sym, ◌∙◌, arith, contains, string_eq, eq_iff,
}
use blind_age.Base.Dict.{get, get-put}
use blind_age.Base.Text.{Bytes}
use blind_age.Crypto.Primitives.{Primitives}
use blind_age.Schemas.Enums.{age_over_18, aal2, assurance_order}
use blind_age.Schemas.Issuer.{Time}
use blind_age.Schemas.Presentation.{Presentation}
use blind_age.Verifier.Challenge.{create}
use blind_age.Verifier.Checks.{sha256_hex}
use blind_age.Verifier.Session.{Session}
use blind_age.Verifier.Token.{verify}
use blind_age.Verifier.Token.Acceptance.{Answers, Vouches, verify-Accepts}
use blind_age.Site.{Site, site_policy, site_verifier, challenge, redeem}
use blind_age.Site.Visits.{admitted, admitted-respond}

module _ (c : Primitives) (site : Site) (s : Session) (uuid : String) (token_bytes : Bytes)
    (asked : Time) where
  -- The presentation answers the challenge that the site just made.
  pub record AnswersFresh (p : Presentation) (consume_now : Time) : Type 0 where
    pub for_site : p.domain_binding.audience ≡ site.audience
    pub same_id : p.domain_binding.challenge_id ≡ uuid
    pub same_value : p.domain_binding.challenge ≡ (challenge s uuid token_bytes asked).1.challenge
    pub in_time : consume_now ≤ (challenge s uuid token_bytes asked).1.expires_at

  fresh_pending :
      (p : Presentation)
      → p.domain_binding.challenge_id ≡ uuid
      → get (challenge s uuid token_bytes asked).0.challenges.pending p.domain_binding.challenge_id
        ≡ some (challenge s uuid token_bytes asked).1
  unfolding challenge create
  fresh_pending p same =
      rw (same, get-put s.challenges.pending uuid uuid (challenge s uuid token_bytes asked).1)
        (ground (arith, eq_iff uuid uuid))

  fresh_answer :
      (p : Presentation) (consume_now : Time)
      → AnswersFresh p consume_now
      → Answers
          (challenge s uuid token_bytes asked).0.challenges
          p.domain_binding
          age_over_18
          consume_now
  unfolding challenge create
  fresh_answer p consume_now a = record {
    challenge = (challenge s uuid token_bytes asked).1;
    redeems = record {
      is_pending = fresh_pending p a.same_id;
      same_value = sym a.same_value;
      in_time = a.in_time;
    };
    same_claim = refl;
  }

  -- Right after the site made a challenge, a presentation that answers it in time is admitted when
  -- a registered, unexpired key of the trusted issuer vouches for its token, the token is for age 18
  -- at level AAL2 or more, and its nonce is not spent.
  pub redeem-fresh_challenge :
      (p : Presentation) (now consume_now : Time)
      → AnswersFresh p consume_now
      → Vouches c (site_verifier site) p.token now
      → p.token.claim ≡ age_over_18
      → assurance_order aal2 ≤ assurance_order p.token.assurance_level
      → contains s.replay.spent (sha256_hex c p.token.nonce) ≡ false
      → admitted (redeem c site (challenge s uuid token_bytes asked).0 p now consume_now).0 ≡ true
  unfolding redeem site_verifier site_policy challenge
  redeem-fresh_challenge p now consume_now answer vouched claim enough unspent =
      let s' = (challenge s uuid token_bytes asked).0 in
      let outcome = (verify c (site_verifier site) s' p now consume_now).0 in
      admitted-respond outcome
      ∙ (verify-Accepts c (site_verifier site) s' p now consume_now).1 (record {
        vouched = vouched;
        right_claim = claim;
        enough = enough;
        bound = λ h. (answer.for_site, fresh_answer p consume_now answer);
        unspent = λ h. unspent;
      })
