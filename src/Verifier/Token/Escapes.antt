-- ===== src/Verifier/Token/Escapes.antt =====
-- What under a registered key makes `verify` raise.
use blind_age.Base.{
  ℕ, Bool, true, false, Option, none, some, leb, ◌≤◌, ◌||◌, ◌⊎◌, Bool-cases, option_eq, ◌==◌, ◌&&◌,
  ◌≡◌, ◌↔◌, refl, arith, string_eq, if◌then◌else◌, inl, inr,
}
use blind_age.Base.Equality.{option_beq_iff}
use blind_age.Base.Result.{Result, ok, err}
use blind_age.Crypto.Primitives.{
  Primitives, CryptoError, blind_signature_error, unsupported_key, is_value_error,
}
use blind_age.Schemas.Enums.{assurance_at_least, assurance_order, claim_eq}
use blind_age.Schemas.Issuer.{IssuerKey, Time, Timestamp, aware, naive}
use blind_age.Schemas.Presentation.{VerifierPolicy}
use blind_age.Schemas.Token.{AgeToken}
use blind_age.Verifier.Checks.{try_signature, advisory_agrees}
use blind_age.Verifier.Token.{within}
use blind_age.Verifier.Token.Acceptance.{advisory_agrees-eq-true}
use blind_age.Verifier.Token.Gate.{signature_ok, key_level_ok}

leb-le : (a b : ℕ) → leb a b ≡ true → a ≤ b
leb-le a b h = ground arith

-- The two exceptions of `try_signature` that the handler lets through.
unfoldable pub escapes : Result CryptoError Bool → Bool
escapes (ok b) = false
escapes (err e) = if is_value_error e then false else true

pub escapes_iff :
    (r : Result CryptoError Bool)
    → (escapes r ≡ true) ↔ ((r ≡ err blind_signature_error) ⊎ (r ≡ err unsupported_key))
unfolding escapes is_value_error
escapes_iff r = ground arith

-- Whether the comparison with the clock raises.
unfoldable pub no_order : Option Bool → Bool
no_order none = true
no_order (some live) = false

-- A naive time that the comparison with the clock gets to.
abbrev pub MeetsNaive : (from until : Timestamp) (now : Time) → Type 0
MeetsNaive from until now =
    ((a : Time) × (from ≡ naive a))
    ⊎ ((a : Time) × (b : Time) × (from ≡ aware a) × (a ≤ now) × (until ≡ naive b))

pub no_order-MeetsNaive :
    (from until : Timestamp) (now : Time)
    → (no_order (within from until now) ≡ true) ↔ MeetsNaive from until now
unfolding no_order within
no_order-MeetsNaive (naive a) until now = (λ h. inl (a, refl), λ m. refl)
no_order-MeetsNaive (aware a) (naive b) now = elim (Bool-cases (leb a now)) [
  | inl e ↦ (λ h. inr (a, b, refl, leb-le a now e, refl), λ m. rw (no_order, within, e) refl)
  | inr e ↦ (λ h. absurd (ground arith), λ m. absurd (ground arith))
]
no_order-MeetsNaive (aware a) (aware b) now = (
  λ h. absurd (ground arith),
  λ m. elim m [ inl (x, e) ↦ absurd (cc e) | inr (x, y, e, le, f) ↦ absurd (cc f) ],
)

-- Whether the call gets past the claim check under the key, to a time that it cannot compare.
unfoldable pub stops : Result CryptoError Bool → VerifierPolicy → AgeToken → IssuerKey → Time → Bool
stops r policy t key now =
    signature_ok r
    && (advisory_agrees t key
        && (((key.claim == some policy.required_claim) && key_level_ok policy key.assurance_level)
            && no_order (within key.valid_from key.valid_until now)))

-- A token that its key vouches for and that meets the policy, under a key with a naive time.
pub record ReachesNaive (c : Primitives) (policy : VerifierPolicy) (t : AgeToken) (key : IssuerKey)
    (now : Time) : Type 0 where
  pub signed : try_signature c key t ≡ ok true
  pub binds_claim : key.claim ≡ some t.claim
  pub binds_level : key.assurance_level ≡ some t.assurance_level
  pub binds_epoch : key.epoch ≡ some t.epoch
  pub right_claim : t.claim ≡ policy.required_claim
  pub enough : assurance_order policy.minimum_assurance_level ≤ assurance_order t.assurance_level
  pub meets_naive : MeetsNaive key.valid_from key.valid_until now

stops-facts :
    (r : Result CryptoError Bool) (policy : VerifierPolicy) (t : AgeToken) (key : IssuerKey)
    (now : Time)
    → stops r policy t key now ≡ true
    → (r ≡ ok true)
      × (advisory_agrees t key ≡ true)
      × (key.claim ≡ some policy.required_claim)
      × (key_level_ok policy key.assurance_level ≡ true)
      × (no_order (within key.valid_from key.valid_until now) ≡ true)
unfolding stops signature_ok
stops-facts r policy t key now h =
    ground (arith, option_beq_iff key.claim (some policy.required_claim))

module _ (c : Primitives) (policy : VerifierPolicy) (t : AgeToken) (key : IssuerKey)
    (now : Time) where
  stops-ReachesNaive :
      stops (try_signature c key t) policy t key now ≡ true → ReachesNaive c policy t key now
  unfolding key_level_ok assurance_at_least
  stops-ReachesNaive h =
      let (signed, agrees, right, level_ok, order) =
        stops-facts (try_signature c key t) policy t key now h in
      let (claim, level, epoch) = (advisory_agrees-eq-true t key).0 agrees in
      record {
        signed = signed;
        binds_claim = claim;
        binds_level = level;
        binds_epoch = epoch;
        right_claim = cc (claim, right);
        enough = ground arith;
        meets_naive = (no_order-MeetsNaive key.valid_from key.valid_until now).0 order;
      }

  ReachesNaive-stops :
      ReachesNaive c policy t key now → stops (try_signature c key t) policy t key now ≡ true
  unfolding stops signature_ok key_level_ok assurance_at_least
  ReachesNaive-stops a = ground (
    arith,
    (advisory_agrees-eq-true t key).1 (a.binds_claim, a.binds_level, a.binds_epoch),
    option_beq_iff key.claim (some policy.required_claim),
    (no_order-MeetsNaive key.valid_from key.valid_until now).1 a.meets_naive,
  )

  -- The key material is refused, or the library does not know it, or a naive time is reached.
  abbrev pub Raises : Type 0
  Raises =
      ((try_signature c key t ≡ err blind_signature_error)
        ⊎ (try_signature c key t ≡ err unsupported_key))
      ⊎ ReachesNaive c policy t key now

  pub Raises_iff :
      (escapes (try_signature c key t) || stops (try_signature c key t) policy t key now ≡ true)
      ↔ Raises
  Raises_iff = (
    λ h. elim (Bool-cases (escapes (try_signature c key t))) [
      | inl e ↦ inl ((escapes_iff (try_signature c key t)).0 e)
      | inr e ↦ inr (stops-ReachesNaive (ground arith))
    ],
    λ r. elim r [
      | inl bad ↦ rw ((escapes_iff (try_signature c key t)).1 bad) refl
      | inr reached ↦ rw (ReachesNaive-stops reached) (ground arith)
    ],
  )
