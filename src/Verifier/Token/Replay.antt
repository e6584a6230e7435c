-- ===== src/Verifier/Token/Replay.antt =====
-- Over any sequence of calls a nonce is accepted at most once.
use blind_age.Base.{
  String, Bool, true, false, ◌&&◌, ◌∷◌, ◌≡◌, refl, arith, contains, string_eq, if◌then◌else◌,
  Bool-cases, inl, inr, beq_refl,
}
use blind_age.Base.Text.{Bytes}
use blind_age.Crypto.Primitives.{Primitives}
use blind_age.Schemas.Enums.{AgeClaim, AssuranceLevel}
use blind_age.Schemas.Issuer.{Time}
use blind_age.Schemas.Presentation.{Presentation}
use blind_age.Verifier.Challenge.{create}
use blind_age.Verifier.Checks.{BlindAgeVerifier, sha256_hex}
use blind_age.Verifier.Replay.{ReplayCache}
use blind_age.Verifier.Session.{Session}
use blind_age.Verifier.Token.{verify}
use blind_age.Verifier.Token.Gate.{allows}
use blind_age.Verifier.Token.Acceptance.{verify-Accepts}
use blind_age.Verifier.Token.Effects.{replay-verify}

-- One request to the site: a presentation, or a new challenge.
pub data Request (c : Primitives) (v : BlindAgeVerifier) (s : Session) : Session → Type 0 where
  present :
      (p : Presentation) (now consume_now : Time) {t : Session}
      → t ≡ (verify c v s p now consume_now).1
      → Request c v s t
  challenge :
      (claim : AgeClaim) (level : AssuranceLevel) (uuid : String) (token_bytes : Bytes) (now : Time)
      {t : Session}
      → t ≡ record s { challenges = (create s.challenges claim level uuid token_bytes now).0 }
      → Request c v s t

pub data Requests (c : Primitives) (v : BlindAgeVerifier) (s : Session) : Session → Type 0 where
  here : Requests c v s s
  next : {t u : Session} → Requests c v s t → Request c v t u → Requests c v s u

abbrev IsSpent : String → Session → Type 0
IsSpent h s = contains s.replay.spent h ≡ true

-- What is spent stays spent when the cache takes one more hash.
IsSpent-burn :
    (b : Bool) (h j : String) (r : ReplayCache)
    → contains r.spent h ≡ true
    → contains (if b then record { spent = j ∷ r.spent } else r).spent h ≡ true
unfolding contains
IsSpent-burn true h j r e = rw e (ground arith)
IsSpent-burn false h j r e = e

Request-IsSpent :
    {c : Primitives} {v : BlindAgeVerifier} {s t : Session} (h : String)
    → Request c v s t
    → IsSpent h s
    → IsSpent h t
Request-IsSpent {c} {v} {s} h (present p now consume_now e) spent =
    rw (e, replay-verify c v s p now consume_now)
      (IsSpent-burn (allows (verify c v s p now consume_now).0 && v.policy.require_single_use) h
        (sha256_hex c p.token.nonce) s.replay spent)
Request-IsSpent h (challenge claim level uuid token_bytes now e) spent = rw e spent

Requests-IsSpent :
    {c : Primitives} {v : BlindAgeVerifier} {s t : Session} (h : String)
    → Requests c v s t
    → IsSpent h s
    → IsSpent h t
Requests-IsSpent h here spent = spent
Requests-IsSpent h (next r q) spent = Request-IsSpent h q (Requests-IsSpent h r spent)

module _ (c : Primitives) (v : BlindAgeVerifier) (s : Session) (p : Presentation)
    (now consume_now : Time) (single : v.policy.require_single_use ≡ true)
    (allowed : allows (verify c v s p now consume_now).0 ≡ true) where
  IsSpent-verify : IsSpent (sha256_hex c p.token.nonce) (verify c v s p now consume_now).1
  unfolding contains
  IsSpent-verify =
      rw (replay-verify c v s p now consume_now, allowed, single)
        (rw (beq_refl (sha256_hex c p.token.nonce)) refl)

  -- Under single use, after a call that allows, no presentation of the same nonce is allowed again,
  -- whatever requests come in between.
  pub no_double_spend :
      {t : Session}
      → Requests c v (verify c v s p now consume_now).1 t
      → (q : Presentation) (later consume_later : Time) → q.token.nonce ≡ p.token.nonce
      → allows (verify c v t q later consume_later).0 ≡ false
  no_double_spend {t} rs q later consume_later same =
      elim (Bool-cases (allows (verify c v t q later consume_later).0)) [
        | inl again ↦
            let a = (verify-Accepts c v t q later consume_later).0 again in
            let fresh : contains t.replay.spent (sha256_hex c p.token.nonce) ≡ false =
              rw (← same) (a.unspent single) in
            let spent = Requests-IsSpent (sha256_hex c p.token.nonce) rs IsSpent-verify in
            absurd (ground arith)
        | inr refused ↦ refused
      ]
