-- ===== src/Verifier/Challenge.antt =====
-- `ChallengeManager` (blindage/verifier/challenge.py). The UUID and the random bytes of `create`,
-- and every reading of the clock, are arguments.
pub mod Laws
pub mod Refines
use blind_age.Base.{
  ℕ, ◌+◌, ◌*◌, String, Option, none, some, ltb, not, if◌then◌else◌, ◌==◌, string_eq,
}
use blind_age.Base.Dict.{Dict, get, put, remove}
use blind_age.Base.Text.{Bytes}
use blind_age.Crypto.Base64.{b64u_encode}
use blind_age.Schemas.Enums.{AgeClaim, AssuranceLevel}
use blind_age.Schemas.Issuer.{Time}
use blind_age.Schemas.Presentation.{VerifierChallenge}

pub record ChallengeManager : Type 0 where
  pub audience : String
  pub ttl : ℕ
  pub pending : Dict VerifierChallenge

-- `timedelta(seconds=n)` in microseconds
abbrev pub seconds : ℕ → Time
seconds n = n * 1000000

abbrev pub new_challenge :
    ChallengeManager
    → AgeClaim
    → AssuranceLevel
    → (uuid : String) (token_bytes : Bytes) (now : Time) → VerifierChallenge
new_challenge m claim level uuid token_bytes now = record {
  version = "1.0";
  challenge_id = uuid;
  required_claim = claim;
  minimum_assurance_level = level;
  audience = m.audience;
  challenge = b64u_encode token_bytes;
  issued_at = now;
  expires_at = now + seconds m.ttl;
}

unfoldable pub create :
    ChallengeManager
    → AgeClaim
    → AssuranceLevel
    → (uuid : String) (token_bytes : Bytes) (now : Time) → ChallengeManager × VerifierChallenge
unfolding put b64u_encode
create m claim level uuid token_bytes now =
    let challenge = new_challenge m claim level uuid token_bytes now in
    (record m { pending = put m.pending uuid challenge }, challenge)

-- What `consume` returns, given what it popped.
unfoldable pub accept_popped : Option VerifierChallenge → String → Time → Option VerifierChallenge
accept_popped none value now = none
accept_popped (some c) value now =
    if not (c.challenge == value) then none else if ltb c.expires_at now then none else some c

unfoldable pub consume :
    ChallengeManager
    → (challenge_id challenge_value : String) (now : Time)
    → ChallengeManager × Option VerifierChallenge
unfolding get remove accept_popped
consume m challenge_id challenge_value now = (
  record m { pending = remove m.pending challenge_id },
  accept_popped (get m.pending challenge_id) challenge_value now,
)
