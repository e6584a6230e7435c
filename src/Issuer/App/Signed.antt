-- ===== src/Issuer/App/Signed.antt =====
-- The credential that `POST /v1/credentials/issue` returns.
use blind_age.Base.{
  ℕ, suc, ◌<◌, ◌≢◌, String, true, some, List, [], ◌∷◌, map, ◌≡◌, refl, ap, sym, ◌∙◌, subst, drop,
  find-holds, ◌==◌, string_eq, eq_iff,
}
use blind_age.Base.Result.{
  Result, ok, err, guard, >>=-eq-ok, guard-eq-ok, present-eq-ok, ok_injective,
}
use blind_age.Base.Text.{Bytes, sorted}
use blind_age.Crypto.Base64.{b64u_encode, b64u_decode}
use blind_age.Crypto.Base64.RoundTrip.{b64u_decode-b64u_encode}
use blind_age.Crypto.Octets.{os2ip}
use blind_age.Crypto.Bbs.Curve.{Curve}
use blind_age.Crypto.Bbs.Encoding.{octet_point_length}
use blind_age.Crypto.Bbs.Group.{CurveLaws, InSubgroup}
use blind_age.Crypto.Bbs.Sign.{generate_bbs_keypair, bbs_sign, bbs_verify}
use blind_age.Crypto.Bbs.SignVerify.{bbs_sign-verifies, All-bbs_sign}
use blind_age.Issuer.App.{Clock, Issuer, http, no_eligible_claim, uncaught, enrolled_at}
use blind_age.Issuer.App.Credential.{
  nonempty, parse_claims, vc_public_key, credential_claims, sign_credential, credential_for,
  issue_credential,
}
use blind_age.Issuer.App.Issue.{enrolled_at-unexpired}
use blind_age.Issuer.Eligibility.{eligible_claims}
use blind_age.Issuer.Keys.{vc_signer_for, parse_level, parse_claim, invalid_enum}
use blind_age.Issuer.Storage.{EnrollmentStore, Enrollment, find_enrollment}
use blind_age.Schemas.Enums.{
  AgeClaim, AssuranceLevel, claim_value, assurance_value, aal0, aal1, aal2, aal3, age_over_13,
  age_over_16, age_over_18, age_over_21,
}
use blind_age.Schemas.Issuer.{Time}
use blind_age.Schemas.Vc.{
  AgeCredential, CredentialIssueRequest, vc_header, vc_message_vector, credential_messages,
}

uncaught-eq-ok : {A E : Type 0} (m : Result E A) {a : A} → uncaught m ≡ ok a → m ≡ ok a
uncaught-eq-ok (ok b) h = let same : b ≡ _ = ok_injective h in ap (λ x. ok x) same
uncaught-eq-ok (err e) h = cc

-- A text that names a value is the value's.
level_text :
    (t : String) (level : AssuranceLevel) → parse_level t ≡ ok level → assurance_value level ≡ t
unfolding parse_level
level_text t level h =
    let found = present-eq-ok _ invalid_enum h in
    (eq_iff (assurance_value level) t).0 (
      find-holds (λ (l : AssuranceLevel). assurance_value l == t) (aal0 ∷ aal1 ∷ aal2 ∷ aal3 ∷ [])
        found)

claim_text : (t : String) (claim : AgeClaim) → parse_claim t ≡ ok claim → claim_value claim ≡ t
unfolding parse_claim
claim_text t claim h =
    let found = present-eq-ok _ invalid_enum h in
    (eq_iff (claim_value claim) t).0 (
      find-holds (λ (c : AgeClaim). claim_value c == t)
        (age_over_13 ∷ age_over_16 ∷ age_over_18 ∷ age_over_21 ∷ []) found)

claim_texts :
    (ts : List String) (claims : List AgeClaim)
    → parse_claims ts ≡ ok claims
    → map claim_value claims ≡ ts
unfolding parse_claims
claim_texts [] claims h = let same : [] ≡ claims = ok_injective h in rw (← same) refl
claim_texts (t ∷ ts) claims h =
    let (claim, first, rest) = >>=-eq-ok (uncaught (parse_claim t)) _ h in
    let (others, second, last) = >>=-eq-ok (parse_claims ts) _ rest in
    let same : claim ∷ others ≡ claims = ok_injective last in
    let here = claim_text t claim (uncaught-eq-ok (parse_claim t) first) in
    rw (← same)
      (ap (λ x. x ∷ map claim_value others) here ∙ ap (◌∷◌ t) (claim_texts ts others second))

credential_claims-eligible :
    (clock : Clock) (row : Enrollment) (now : Time) (claims : List String)
    → credential_claims clock row now ≡ ok claims
    → (claims ≡ sorted (map claim_value (eligible_claims row.date_of_birth (clock.date_of now))))
      × (nonempty claims ≡ true)
unfolding credential_claims
credential_claims-eligible clock row now claims h =
    let texts = sorted (map claim_value (eligible_claims row.date_of_birth (clock.date_of now))) in
    let (_, some_claim, last) =
      >>=-eq-ok (guard (nonempty texts) (http 403 no_eligible_claim)) _ h in
    let same : texts ≡ claims = ok_injective last in
    (
      sym same,
      rw (← same) ((guard-eq-ok (nonempty texts) (http 403 no_eligible_claim)).0 some_claim),
    )

nonempty_texts :
    (claims : List AgeClaim) (texts : List String)
    → map claim_value claims ≡ texts
    → nonempty texts ≡ true
    → claims ≢ []
nonempty_texts [] [] same h e = cc
nonempty_texts [] (t ∷ ts) same h e = cc
nonempty_texts (c ∷ cs) texts same h e = cc

module _ (k : Curve) (laws : CurveLaws k) (p1 : k.G1) where
  -- The credential's texts are those that were signed.
  SignedAs : (private_key public_key : String) → List String → AgeCredential → Type 0
  SignedAs private_key public_key claims credential =
      (signature : Bytes) × (bbs_sign k p1 private_key vc_header (credential_messages credential)
        ≡ ok signature)
      × (b64u_decode credential.signature ≡ ok signature)
      × (credential.issuer_public_key ≡ public_key)
      × (map claim_value credential.claims ≡ claims)

  made-SignedAs :
      (issuer : Issuer) (key_id private_key level epoch public_key : String) (claims : List String)
      (signature : Bytes) (level' : AssuranceLevel) (claims' : List AgeClaim)
      → bbs_sign k p1 private_key vc_header (vc_message_vector issuer.issuer_id level epoch claims)
        ≡ ok signature
      → assurance_value level' ≡ level
      → map claim_value claims' ≡ claims
      → SignedAs private_key public_key claims (record {
        version = "1.0";
        issuer_id = issuer.issuer_id;
        issuer_key_id = key_id;
        issuer_public_key = public_key;
        assurance_level = level';
        epoch = epoch;
        claims = claims';
        signature = b64u_encode signature;
      })
  unfolding SignedAs credential_messages
  made-SignedAs issuer key_id private_key level epoch public_key claims signature level' claims'
        signed level_same claims_same =
      let octets =
        All-bbs_sign k laws p1 private_key vc_header
          (vc_message_vector issuer.issuer_id level epoch claims) signature signed in
      (
        signature,
        rw (level_same, claims_same) signed,
        b64u_decode-b64u_encode signature octets,
        refl,
        claims_same,
      )

  sign_credential-SignedAs :
      (issuer : Issuer) (key_id private_key level epoch public_key : String) (claims : List String)
      (credential : AgeCredential)
      → sign_credential k p1 issuer key_id private_key level epoch public_key claims ≡ ok credential
      → SignedAs private_key public_key claims credential
  unfolding sign_credential
  sign_credential-SignedAs issuer key_id private_key level epoch public_key claims credential h =
      let messages = vc_message_vector issuer.issuer_id level epoch claims in
      let (signature, first, h₁) =
        >>=-eq-ok (uncaught (bbs_sign k p1 private_key vc_header messages)) _ h in
      let (level', second, h₂) = >>=-eq-ok (uncaught (parse_level level)) _ h₁ in
      let (claims', third, last) = >>=-eq-ok (parse_claims claims) _ h₂ in
      let signed = uncaught-eq-ok (bbs_sign k p1 private_key vc_header messages) first in
      let level_same = level_text level level' (uncaught-eq-ok (parse_level level) second) in
      let claims_same = claim_texts claims claims' third in
      subst (SignedAs private_key public_key claims) (ok_injective last) (
        made-SignedAs issuer key_id private_key level epoch public_key claims signature level'
          claims' signed level_same claims_same)

  credential_for-SignedAs :
      (issuer : Issuer) (claims : List String) (credential : AgeCredential)
      (key_id secret public level epoch : String)
      → vc_signer_for issuer.key_store ≡ ok (some (key_id, secret, level, epoch))
      → vc_public_key issuer.key_store key_id ≡ ok public
      → credential_for k p1 issuer claims ≡ ok credential
      → SignedAs secret public claims credential
  unfolding credential_for
  credential_for-SignedAs issuer claims credential key_id secret public level epoch signer key h =
      sign_credential-SignedAs issuer key_id secret level epoch public claims credential
        (rw (credential_for, signer, key) at h)

  -- A credential that `issue_credential` returns for a store whose first vc key is a generated key
  -- pair: the enrollment exists and has not expired, the credential's claims are the sorted eligible
  -- ones and not none, and its signature decodes to octets that `bbs_verify` accepts under the
  -- credential's public key for the credential's messages, unless the signature's scalar is zero.
  pub issue_credential-verifies :
      (clock : Clock) (issuer : Issuer) (store : EnrollmentStore) (req : CredentialIssueRequest)
      (now : Time) (credential : AgeCredential) (draw : ℕ)
      (key_id secret public level epoch : String)
      → InSubgroup k laws p1
      → suc draw < k.curve_order
      → generate_bbs_keypair k draw ≡ ok (secret, public)
      → vc_signer_for issuer.key_store ≡ ok (some (key_id, secret, level, epoch))
      → vc_public_key issuer.key_store key_id ≡ ok public
      → issue_credential k p1 clock issuer store req now ≡ ok credential
      → (row : Enrollment) × (find_enrollment store req.enrollment_id ≡ some row)
        × (now < row.expires_at)
        × (map claim_value credential.claims
            ≡ sorted (map claim_value (eligible_claims row.date_of_birth (clock.date_of now))))
        × (credential.claims ≢ [])
        × (signature : Bytes) × (b64u_decode credential.signature ≡ ok signature)
        × (os2ip (drop octet_point_length signature) ≢ 0
            → bbs_verify k p1 credential.issuer_public_key signature vc_header
                (credential_messages credential)
              ≡ ok true)
  unfolding issue_credential SignedAs
  issue_credential-verifies clock issuer store req now credential draw key_id secret public level
        epoch order lt pair signer key h =
      let (row, first, h₁) = >>=-eq-ok (enrolled_at store req.enrollment_id now) _ h in
      let (claims, second, h₂) = >>=-eq-ok (credential_claims clock row now) _ h₁ in
      let (found, unexpired) = enrolled_at-unexpired store req.enrollment_id now first in
      let (signature, signed, decoded, same_key, texts) =
        credential_for-SignedAs issuer claims credential key_id secret public level epoch signer key
          h₂ in
      let (eligible, some_claim) = credential_claims-eligible clock row now claims second in
      (
        row,
        found,
        unexpired,
        texts ∙ eligible,
        nonempty_texts credential.claims claims texts some_claim,
        signature,
        decoded,
        λ nonzero.
            ap (λ key'. bbs_verify k p1 key' signature vc_header (credential_messages credential))
              same_key
            ∙ bbs_sign-verifies k laws p1 draw secret public vc_header signature
                (credential_messages credential) order lt pair signed nonzero,
      )
