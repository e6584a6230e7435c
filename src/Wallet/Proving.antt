-- ===== src/Wallet/Proving.antt =====
-- Proving a claim with a credential: `vc_prove` and `vc_get` (blindage/wallet/client.py). The draws of
-- the proof and the clock are arguments; `dump_time` is how pydantic writes a datetime in JSON mode.
pub mod Laws
use blind_age.Base.{
  ℕ, zero, suc, ◌+◌, String, Bool, true, false, Option, none, some, List, [], ◌∷◌, map, not, ltb,
  nat_beq, contains, if◌then◌else◌, ◌==◌, string_eq,
}
use blind_age.Base.Int.{ℤ, pos}
use blind_age.Base.Result.{Result, ok, err, present, guard, ◌>>=◌, ◌>>◌}
use blind_age.Base.Text.{Bytes, sorted}
use blind_age.Crypto.Base64.{b64u_encode, b64u_decode}
use blind_age.Crypto.Bbs.Curve.{Curve, BbsError, bbs_error, not_invertible, index_error}
use blind_age.Crypto.Bbs.Generate.{Draws, bbs_proof_gen}
use blind_age.Schemas.Enums.{
  AgeClaim, AssuranceLevel, claim_eq, claim_value, assurance_value, assurance_at_least,
}
use blind_age.Schemas.Issuer.{Time}
use blind_age.Schemas.Presentation.{VerifierChallenge}
use blind_age.Schemas.Vc.{
  AgeCredential, VcPresentation, vc_header, vc_message_vector, vc_presentation_header,
}
use blind_age.Wallet.Client.{
  WalletError, challenge_expired, claim_not_carried, assurance_too_low, proof_failed, uncaught,
  enrollment_failed, issuance_failed,
}
use blind_age.Wallet.Spending.{bind_domain}

-- An answer of the issuer's server: its status and, where the code reads it, its body.
pub record Response (A : Type 0) : Type 0 where
  pub status_code : ℕ
  pub body : Option A

-- `enroll`: the identifier of the answer's body; a body without one is not caught.
unfoldable pub enroll : Response String → Result WalletError String
enroll resp = do guard (nat_beq resp.status_code 201) enrollment_failed; present resp.body uncaught

-- `vc_get`; none is a body that `model_validate` refuses.
unfoldable pub vc_get : Response AgeCredential → Result WalletError AgeCredential
vc_get resp = do guard (nat_beq resp.status_code 200) issuance_failed; present resp.body uncaught

-- `xs.index(x)`, none for its `ValueError`.
unfoldable pub index_of : String → List String → Option ℕ
index_of x [] = none
index_of x (y ∷ ys) =
    let later = index_of x ys in
    if y == x then some 0 else elim later [ none ↦ none | some i ↦ some (suc i) ]

-- `except BbsError`
abbrev proved : {A : Type 0} → Result BbsError A → Result WalletError A
proved (ok a) = ok a
proved (err bbs_error) = err proof_failed
proved (err not_invertible) = err uncaught
proved (err index_error) = err uncaught

abbrev decoded : {A E : Type 0} → Result E A → Result WalletError A
decoded (ok a) = ok a
decoded (err e) = err uncaught

-- The claims of a credential, by value and sorted.
unfoldable pub claim_values : AgeCredential → List String
unfolding sorted claim_value
claim_values credential = sorted (map claim_value credential.claims)

-- The indexes of the three fixed messages and of the claim.
abbrev pub disclosed_at : ℕ → List ℤ
disclosed_at i = pos 0 ∷ pos 1 ∷ pos 2 ∷ pos (3 + i) ∷ []

-- The messages that the wallet proves knowledge of.
unfoldable pub wallet_messages : AgeCredential → List Bytes
unfolding vc_message_vector claim_values assurance_value
wallet_messages credential =
    vc_message_vector credential.issuer_id (assurance_value credential.assurance_level)
      credential.epoch (claim_values credential)

module _ (k : Curve) (p1 : k.G1) (dump_time : Time → String) where
  unfoldable pub vc_prove :
      AgeCredential → VerifierChallenge → (now : Time) → Draws → Result WalletError VcPresentation
  unfolding contains assurance_at_least claim_values index_of wallet_messages vc_presentation_header
      b64u_decode b64u_encode bbs_proof_gen
  vc_prove credential challenge now draws = do
    guard (not (ltb challenge.expires_at now)) challenge_expired
    guard (contains credential.claims challenge.required_claim) claim_not_carried
    guard (assurance_at_least credential.assurance_level challenge.minimum_assurance_level)
        assurance_too_low
    claim_index ←
        present (index_of (claim_value challenge.required_claim) (claim_values credential)) uncaught
    signature ← decoded (b64u_decode credential.signature)
    proof ← proved (
        bbs_proof_gen k p1 credential.issuer_public_key signature vc_header
          (vc_presentation_header dump_time (bind_domain challenge now))
          (wallet_messages credential) (disclosed_at claim_index) draws)
    ok record {
      version = "1.0";
      presentation_type = "blindage.vc";
      required_claim = challenge.required_claim;
      issuer_id = credential.issuer_id;
      issuer_key_id = credential.issuer_key_id;
      assurance_level = credential.assurance_level;
      epoch = credential.epoch;
      proof = b64u_encode proof;
      disclosed_indexes = disclosed_at claim_index;
      domain_binding = bind_domain challenge now;
    }
