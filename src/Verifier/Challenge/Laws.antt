-- ===== src/Verifier/Challenge/Laws.antt =====
-- What `consume` returns and what it leaves pending.
use blind_age.Base.{
  String, Option, none, some, ◌≤◌, ◌≡◌, ◌↔◌, arith, eq_iff, ◌==◌, string_eq, if◌then◌else◌,
}
use blind_age.Base.Dict.{get, get-put, get-remove}
use blind_age.Base.Text.{Bytes}
use blind_age.Schemas.Enums.{AgeClaim, AssuranceLevel}
use blind_age.Schemas.Issuer.{Time}
use blind_age.Schemas.Presentation.{VerifierChallenge}
use blind_age.Verifier.Challenge.{ChallengeManager, new_challenge, create, accept_popped, consume}

-- The pending challenge of this identifier has this value and is not past.
pub record Redeems (m : ChallengeManager) (challenge_id value : String) (now : Time)
    (ch : VerifierChallenge) : Type 0 where
  pub is_pending : get m.pending challenge_id ≡ some ch
  pub same_value : ch.challenge ≡ value
  pub in_time : now ≤ ch.expires_at

accept_popped-eq-some :
    (o : Option VerifierChallenge) (value : String) (now : Time) (ch : VerifierChallenge)
    → (accept_popped o value now ≡ some ch)
      ↔ ((o ≡ some ch) × (ch.challenge ≡ value) × (now ≤ ch.expires_at))
unfolding accept_popped
accept_popped-eq-some none value now ch = ground arith
accept_popped-eq-some (some c) value now ch =
    ground (arith, eq_iff c.challenge value, eq_iff ch.challenge value)

module _ (m : ChallengeManager) (challenge_id value : String) (now : Time) where
  -- `consume` returns a challenge exactly when it is pending under the identifier, has the value
  -- and is not past.
  pub consume-eq-some_iff :
      (ch : VerifierChallenge)
      → ((consume m challenge_id value now).1 ≡ some ch) ↔ Redeems m challenge_id value now ch
  unfolding consume
  consume-eq-some_iff ch = (
    λ h.
        let (p, q, r) = (accept_popped-eq-some _ value now ch).0 h in
        record { is_pending = p; same_value = q; in_time = r },
    λ r. (accept_popped-eq-some _ value now ch).1 (r.is_pending, r.same_value, r.in_time),
  )

  -- Whatever it returns, the identifier is no longer pending, and every other is as before.
  pub get-consume :
      (j : String)
      → get (consume m challenge_id value now).0.pending j
        ≡ (if challenge_id == j then none else get m.pending j)
  unfolding consume
  get-consume j = get-remove m.pending challenge_id j

-- A challenge that was just created is redeemed by its value until it is past, and every other
-- identifier gives what it gave before.
pub consume-create :
    (m : ChallengeManager) (claim : AgeClaim) (level : AssuranceLevel) (uuid : String)
    (token_bytes : Bytes) (now later : Time)
    → later ≤ (create m claim level uuid token_bytes now).1.expires_at
    → (j value : String)
    → (consume (create m claim level uuid token_bytes now).0 j value later).1 ≡ (
        if uuid == j
        then if (create m claim level uuid token_bytes now).1.challenge == value
          then some (create m claim level uuid token_bytes now).1
          else none
        else (consume m j value later).1)
unfolding create consume accept_popped
consume-create m claim level uuid token_bytes now later h j value =
    let ch = new_challenge m claim level uuid token_bytes now in
    rw (get-put m.pending uuid j ch) (ground arith)
