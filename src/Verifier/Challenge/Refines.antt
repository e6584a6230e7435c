-- ===== src/Verifier/Challenge/Refines.antt =====
-- `ChallengeManager` against a map from identifiers to challenges.
use blind_age.Base.{
  ℕ, String, Option, none, some, List, [], ◌∷◌, ◌≡◌, refl, ap, ◌∙◌, ◌==◌, string_eq, if◌then◌else◌,
  leb, arith,
}
use blind_age.Base.Dict.{get, get-put, get-remove}
use blind_age.Base.Text.{Bytes}
use blind_age.Schemas.Enums.{AgeClaim, AssuranceLevel}
use blind_age.Schemas.Issuer.{Time}
use blind_age.Schemas.Presentation.{VerifierChallenge}
use blind_age.Verifier.Challenge.{ChallengeManager, new_challenge, create, accept_popped, consume}

-- What a challenge manager promises: the challenges that are open, by identifier.
pub record Open : Type 0 where
  pub audience : String
  pub ttl : ℕ
  pub open_at : String → Option VerifierChallenge

-- A call of the manager.
pub data Call : Type 0 where
  make : AgeClaim → AssuranceLevel → (uuid : String) (token_bytes : Bytes) (now : Time) → Call
  redeem : (challenge_id value : String) (now : Time) → Call

-- A challenge is redeemed by its own value until it is past.
abbrev redeemed : Option VerifierChallenge → String → Time → Option VerifierChallenge
redeemed none value now = none
redeemed (some ch) value now =
    if ch.challenge == value then if leb now ch.expires_at then some ch else none else none

-- A call on the map: a made challenge is open under its identifier, a redeemed identifier is open
-- no more, whatever the call answers.
pub spec_call : Open → Call → Open × Option VerifierChallenge
spec_call o (make claim level uuid token_bytes now) =
    let m : ChallengeManager = record { audience = o.audience; ttl = o.ttl; pending = [] } in
    let ch = new_challenge m claim level uuid token_bytes now in
    (record o { open_at = λ j. if uuid == j then some ch else o.open_at j }, some ch)
spec_call o (redeem challenge_id value now) = (
  record o { open_at = λ j. if challenge_id == j then none else o.open_at j },
  redeemed (o.open_at challenge_id) value now,
)

pub code_call : ChallengeManager → Call → ChallengeManager × Option VerifierChallenge
code_call m (make claim level uuid token_bytes now) =
    let (m', ch) = create m claim level uuid token_bytes now in (m', some ch)
code_call m (redeem challenge_id value now) = consume m challenge_id value now

pub spec_run : Open → List Call → List (Option VerifierChallenge)
spec_run o [] = []
spec_run o (c ∷ cs) = (spec_call o c).1 ∷ spec_run (spec_call o c).0 cs

pub code_run : ChallengeManager → List Call → List (Option VerifierChallenge)
code_run m [] = []
code_run m (c ∷ cs) = (code_call m c).1 ∷ code_run (code_call m c).0 cs

pub abstraction : ChallengeManager → Open
abstraction m = record { audience = m.audience; ttl = m.ttl; open_at = λ j. get m.pending j }

redeemed-accept_popped :
    (o : Option VerifierChallenge) (value : String) (now : Time)
    → accept_popped o value now ≡ redeemed o value now
unfolding accept_popped
redeemed-accept_popped none value now = refl
redeemed-accept_popped (some ch) value now = ground arith

answers-refine :
    (m : ChallengeManager) (c : Call) → (code_call m c).1 ≡ (spec_call (abstraction m) c).1
unfolding code_call spec_call abstraction create consume
answers-refine m (make claim level uuid token_bytes now) = refl
answers-refine m (redeem challenge_id value now) =
    redeemed-accept_popped (get m.pending challenge_id) value now

maps_refine :
    (m : ChallengeManager) (c : Call)
    → abstraction (code_call m c).0 ≡ (spec_call (abstraction m) c).0
unfolding code_call spec_call abstraction create consume
maps_refine m (make claim level uuid token_bytes now) = λ i. record {
  audience = m.audience;
  ttl = m.ttl;
  open_at = λ j. get-put m.pending uuid j (new_challenge m claim level uuid token_bytes now) i;
}
maps_refine m (redeem challenge_id value now) = λ i. record {
  audience = m.audience;
  ttl = m.ttl;
  open_at = λ j. get-remove m.pending challenge_id j i;
}

-- Any sequence of calls gets from the challenge manager the answers that the map gives.
pub code_run-spec_run :
    (m : ChallengeManager) (calls : List Call) → code_run m calls ≡ spec_run (abstraction m) calls
unfolding code_run spec_run
code_run-spec_run m [] = refl
code_run-spec_run m (c ∷ cs) =
    let rest = code_run-spec_run (code_call m c).0 cs in
    let same = ap (λ o. spec_run o cs) (maps_refine m c) in
    ap (λ a. a ∷ code_run (code_call m c).0 cs) (answers-refine m c)
    ∙ ap (◌∷◌ (spec_call (abstraction m) c).1) (rest ∙ same)
