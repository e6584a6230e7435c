-- ===== src/Issuer/App.antt =====
-- The handlers of the issuer (blindage/issuer/app.py). The clock, the UUIDs, the calendar, the reader
-- of ISO times and the signer of credentials are parameters.
pub mod Issue
pub mod Credential
pub mod Signed
pub mod Metadata
pub mod Callback
use blind_age.Base.{
  ℕ, ◌+◌, ◌*◌, String, Bool, true, false, Option, none, some, List, [], ◌∷◌, map, not, ltb, leb,
  length, contains, find, if◌then◌else◌, ◌==◌, string_eq, option_eq,
}
use blind_age.Base.Result.{Result, ok, err, present, lift_error, guard, ◌>>=◌, ◌>>◌}
use blind_age.Base.Text.{Bytes, sorted}
use blind_age.Crypto.Base64.{b64u_encode, b64u_decode}
use blind_age.Crypto.Primitives.{Primitives, CryptoError, unsupported_key, lift_decode}
use blind_age.Crypto.Rsabssa.{RsaError, blind_error, overflow_error, not_invertible, blind_sign}
use blind_age.Crypto.Verifiers.{rsabssa_algorithm}
use blind_age.Issuer.Eligibility.{Date, eligible_claims}
use blind_age.Issuer.Keys.{
  IssuerKeyStore, KeyStoreError, KeyTuple, TokenSigner, VcSigner, Entry, algorithm_for,
  blind_signer_for, signer_for, sign, signer_key_id, vc_signer_for, vc_entries, public_material,
  parse_level, field_of,
}
use blind_age.Issuer.Storage.{EnrollmentStore, Enrollment, create, find_enrollment}
use blind_age.Schemas.Enums.{AgeClaim, claim_value, claim_eq}
use blind_age.Schemas.Issuer.{Time}
use blind_age.Schemas.Token.{TokenIssueRequest, TokenIssueResponse, truthy}
use blind_age.Schemas.Vc.{AgeCredential, CredentialIssueRequest, vc_header, vc_message_vector}
use blind_age.Verifier.Checks.{token_message}

abbrev pub max_batch : ℕ
max_batch = 100

abbrev pub enrollment_ttl_days : ℕ
enrollment_ttl_days = 365

-- The `detail` of an `HTTPException`.
pub data Detail : Type 0 where
  asserted_disabled unknown_enrollment enrollment_expired not_eligible no_signing_key : Detail
  blinded_messages_required nonces_required batch_limit invalid_blinded_message : Detail
  no_eligible_claim no_vc_key no_vc_material oidc_not_enabled proofing_failed : Detail

-- An `HTTPException`, or an exception that the handler does not catch.
pub data Failure : Type 0 where
  http : ℕ → Detail → Failure
  server_error : Failure

abbrev pub Reply : Type 0 → Type 0
Reply = Result Failure

-- `timedelta(days=n)` in microseconds
abbrev pub days : ℕ → Time
days n = n * 86400000000

pub record Clock : Type 0 where
  pub date_of : Time → Date
  pub parse_time : String → Option Time

pub record Issuer : Type 0 where
  pub key_store : IssuerKeyStore
  pub issuer_id : String
  pub oidc_mode : Bool

-- An exception of the code below the handler.
abbrev pub uncaught : {A E : Type 0} → Result E A → Reply A
uncaught (ok a) = ok a
uncaught (err e) = err server_error

pub record Enrolled : Type 0 where
  pub enrollment_id : String
  pub eligible_claims : List String

-- POST /v1/enrollment; the second part is the table that stays.
unfoldable pub enroll :
    Clock
    → Issuer
    → EnrollmentStore
    → Date
    → (uuid : String) (now : Time) → Reply (EnrollmentStore × Enrolled)
unfolding create eligible_claims sorted claim_value
enroll clock issuer store date_of_birth uuid now = do
  guard (not issuer.oidc_mode) (http 403 asserted_disabled)
  store' ← uncaught (create store uuid date_of_birth (now + days enrollment_ttl_days))
  let claims = eligible_claims date_of_birth (clock.date_of now) in
      ok
        (store', record { enrollment_id = uuid; eligible_claims = sorted (map claim_value claims) })

-- The gate that both issuing handlers start with: the enrollment exists and has not expired.
unfoldable pub enrolled_at : EnrollmentStore → String → Time → Reply Enrollment
unfolding find_enrollment
enrolled_at store enrollment_id now = do
  row ← present (find_enrollment store enrollment_id) (http 404 unknown_enrollment)
  guard (ltb now row.expires_at) (http 403 enrollment_expired)
  ok row

abbrev pub key_tuple : TokenIssueRequest → KeyTuple
key_tuple req = record {
  claim = req.claim;
  assurance_level = req.assurance_level;
  epoch = req.epoch;
}

abbrev pub items : Option (List String) → List String
items none = []
items (some xs) = xs

-- The batch is there and not above the limit.
unfoldable pub check_batch : Option (List String) → Detail → Reply (List String)
check_batch batch missing = do
  guard (truthy batch) (http 422 missing)
  guard (leb (length (items batch)) max_batch) (http 422 batch_limit)
  ok (items batch)

-- What the `except (BlindSignatureError, ValueError)` makes of an exception.
abbrev rejected : {A : Type 0} → Result RsaError A → Reply A
rejected (ok a) = ok a
rejected (err (blind_error unsupported_key)) = err server_error
rejected (err (blind_error e)) = err (http 422 invalid_blinded_message)
rejected (err not_invertible) = err (http 422 invalid_blinded_message)
rejected (err overflow_error) = err server_error

-- What a branch of `issue` ends with: the key's identifier, its `valid_until`, the signatures.
abbrev pub Signed : Type 0
Signed = String × String × List String

module _ (c : Primitives) where
  unfoldable pub sign_one : (private_key blinded_message : String) → Reply String
  unfolding lift_decode blind_sign b64u_encode
  sign_one private_key blinded_message = do
    raw ← rejected (lift_error blind_error (lift_decode (b64u_decode blinded_message)))
    signature ← rejected (blind_sign c private_key raw)
    ok (b64u_encode signature)

  unfoldable pub sign_all : (private_key : String) → List String → Reply (List String)
  unfolding sign_one
  sign_all private_key [] = ok []
  sign_all private_key (bm ∷ bms) = do
    signature ← sign_one private_key bm
    signatures ← sign_all private_key bms
    ok (signature ∷ signatures)

  -- The branch of an rsabssa key.
  unfoldable pub issue_blind : IssuerKeyStore → TokenIssueRequest → Reply Signed
  unfolding check_batch blind_signer_for sign_all
  issue_blind keys req = do
    batch ← check_batch req.blinded_messages blinded_messages_required
    found ← uncaught (blind_signer_for keys (key_tuple req))
    (key_id, private_key, valid_until) ← present found server_error
    signatures ← sign_all private_key batch
    ok (key_id, valid_until, signatures)

  -- The branch of the other keys.
  unfoldable pub issue_plain : IssuerKeyStore → TokenIssueRequest → Reply Signed
  unfolding check_batch signer_for sign token_message b64u_encode
  issue_plain keys req = do
    batch ← check_batch req.nonces nonces_required
    found ← uncaught (signer_for c keys (key_tuple req))
    (signer, valid_until) ← present found server_error
    ok (
      signer_key_id signer,
      valid_until,
      map (λ n. b64u_encode (sign c signer (token_message n))) batch,
    )

  unfoldable pub issue_with : IssuerKeyStore → TokenIssueRequest → String → Reply Signed
  unfolding issue_blind issue_plain
  issue_with keys req algorithm = elim (algorithm == rsabssa_algorithm) [
    | true ↦ issue_blind keys req
    | false ↦ issue_plain keys req
  ]

  -- POST /v1/tokens/issue
  unfoldable pub issue :
      Clock → Issuer → EnrollmentStore → TokenIssueRequest → Time → Reply TokenIssueResponse
  unfolding enrolled_at contains eligible_claims algorithm_for issue_with
  issue clock issuer store req now = do
    row ← enrolled_at store req.enrollment_id now
    guard (contains (eligible_claims row.date_of_birth (clock.date_of now)) req.claim)
        (http 403 not_eligible)
    algorithm ← present (algorithm_for issuer.key_store (key_tuple req)) (http 409 no_signing_key)
    (key_id, valid_until, signatures) ← issue_with issuer.key_store req algorithm
    expires_at ← present (clock.parse_time valid_until) server_error
    ok (record {
      version = "1.0";
      issuer_id = issuer.issuer_id;
      issuer_key_id = key_id;
      claim = req.claim;
      assurance_level = req.assurance_level;
      epoch = req.epoch;
      signatures = signatures;
      expires_at = expires_at;
    })
