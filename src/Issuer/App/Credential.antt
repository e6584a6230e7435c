-- ===== src/Issuer/App/Credential.antt =====
-- POST /v1/credentials/issue (blindage/issuer/app.py).
use blind_age.Base.{
  String, Bool, true, false, some, List, [], ◌∷◌, map, find, ◌==◌, string_eq, option_eq,
}
use blind_age.Base.Result.{ok, present, guard, ◌>>=◌, ◌>>◌}
use blind_age.Base.Text.{sorted}
use blind_age.Crypto.Base64.{b64u_encode}
use blind_age.Crypto.Bbs.Curve.{Curve}
use blind_age.Crypto.Bbs.Sign.{bbs_sign}
use blind_age.Issuer.App.{
  Clock, Issuer, Reply, http, no_eligible_claim, no_vc_key, no_vc_material, uncaught, enrolled_at,
}
use blind_age.Issuer.Eligibility.{eligible_claims}
use blind_age.Issuer.Keys.{
  IssuerKeyStore, Entry, vc_signer_for, vc_entries, public_material, parse_level, parse_claim,
}
use blind_age.Issuer.Storage.{EnrollmentStore, Enrollment}
use blind_age.Schemas.Enums.{AgeClaim, claim_value}
use blind_age.Schemas.Issuer.{Time}
use blind_age.Schemas.Vc.{AgeCredential, CredentialIssueRequest, vc_header, vc_message_vector}

abbrev pub nonempty : {A : Type 0} → List A → Bool
nonempty [] = false
nonempty (x ∷ xs) = true

-- `[AgeClaim(c) for c in claims]`
unfoldable pub parse_claims : List String → Reply (List AgeClaim)
unfolding parse_claim
parse_claims [] = ok []
parse_claims (t ∷ ts) = do
  claim ← uncaught (parse_claim t)
  claims ← parse_claims ts
  ok (claim ∷ claims)

-- `public_material(e)[1]` of the first vc entry with the key's identifier.
unfoldable pub vc_public_key : IssuerKeyStore → (key_id : String) → Reply String
unfolding find public_material
vc_public_key keys key_id = do
  entry ←
      present (find (λ (e : Entry). e.key_id == some key_id) (vc_entries keys))
        (http 409 no_vc_material)
  material ← uncaught (public_material entry)
  ok material.1

-- The eligible claims of the enrollment, by value and sorted; none is refused.
unfoldable pub credential_claims : Clock → Enrollment → Time → Reply (List String)
unfolding eligible_claims sorted claim_value
credential_claims clock row now =
    let claims = sorted (map claim_value (eligible_claims row.date_of_birth (clock.date_of now))) in
    do guard (nonempty claims) (http 403 no_eligible_claim); ok claims

module _ (k : Curve) (p1 : k.G1) where
  -- The credential of a signer over the claims.
  unfoldable pub sign_credential :
      Issuer
      → (key_id private_key level epoch public_key : String) → List String
      → Reply AgeCredential
  unfolding vc_message_vector bbs_sign b64u_encode parse_level parse_claims
  sign_credential issuer key_id private_key level epoch public_key claims = do
    signature ← uncaught (
        bbs_sign k p1 private_key vc_header (vc_message_vector issuer.issuer_id level epoch claims))
    level' ← uncaught (parse_level level)
    claims' ← parse_claims claims
    ok record {
      version = "1.0";
      issuer_id = issuer.issuer_id;
      issuer_key_id = key_id;
      issuer_public_key = public_key;
      assurance_level = level';
      epoch = epoch;
      claims = claims';
      signature = b64u_encode signature;
    }

  -- The credential over the claims by the store's vc key.
  unfoldable pub credential_for : Issuer → List String → Reply AgeCredential
  unfolding vc_signer_for vc_public_key sign_credential
  credential_for issuer claims = do
    found ← uncaught (vc_signer_for issuer.key_store)
    (key_id, private_key, level, epoch) ← present found (http 409 no_vc_key)
    public_key ← vc_public_key issuer.key_store key_id
    sign_credential issuer key_id private_key level epoch public_key claims

  unfoldable pub issue_credential :
      Clock → Issuer → EnrollmentStore → CredentialIssueRequest → Time → Reply AgeCredential
  unfolding enrolled_at credential_claims credential_for
  issue_credential clock issuer store req now = do
    row ← enrolled_at store req.enrollment_id now
    claims ← credential_claims clock row now
    credential_for issuer claims
