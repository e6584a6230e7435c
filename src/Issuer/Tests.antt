-- ===== src/Issuer/Tests.antt =====
-- The issuer on small inputs.
use blind_age.Base.{
  String, true, false, none, some, [], ◌∷◌, ◌≡◌, ◌↔◌, ◌≤◌, ◌+◌, ◌==◌, string_eq, option_eq, refl,
  length, contains, find,
}
use blind_age.Base.Dict.{get}
use blind_age.Base.Result.{ok, err}
use blind_age.Base.Text.{encode}
use blind_age.Crypto.Base64.{b64u_encode, b64u_decode}
use blind_age.Issuer.App.{
  Clock, Issuer, key_tuple, enrolled_at, check_batch, issue_with, issue_plain, issue,
}
use blind_age.Issuer.App.Issue.{Authorised, BatchSized, payload, issue-Authorised}
use blind_age.Issuer.Eligibility.{Date, age_in_years, claims_for, eligible_claims}
use blind_age.Issuer.Eligibility.Laws.{
  minimum_age, birthday_reached, eligible_claims-birthday_reached, eligible_claims-later,
}
use blind_age.Issuer.Keys.{Entry, entry_for, entry_algorithm, algorithm_for, signer_for, sign}
use blind_age.Issuer.Proofing.{
  Jwt, Jwk, Header, Claims, Provider, OidcConfig, ProofingSession, ProofingSessionStore, bad_state,
  failed, consume, handle_callback, validate_id_token, birthdate_of,
}
use blind_age.Issuer.Proofing.Sessions.{
  consume-session_iff, handle_callback-twice, validate_id_token-checked,
}
use blind_age.Issuer.Storage.{EnrollmentStore, find_enrollment}
use blind_age.Base.{◌<◌, ◌≢◌, map, drop, arith}
use blind_age.Base.Text.{Bytes, sorted}
use blind_age.Crypto.Octets.{os2ip}
use blind_age.Crypto.Bbs.Encoding.{octet_point_length}
use blind_age.Crypto.Bbs.Sign.{bbs_verify}
use blind_age.Crypto.Bbs.Tests.{toy_secret, toy_public, toy_pair}
use blind_age.Crypto.Bbs.Toy.{z1, toy_curve, toy_laws}
use blind_age.Issuer.App.Credential.{vc_public_key, issue_credential}
use blind_age.Issuer.App.Signed.{issue_credential-verifies}
use blind_age.Issuer.Keys.{public_material, vc_signer_for}
use blind_age.Issuer.Storage.{Enrollment}
use blind_age.Schemas.Enums.{age_over_13, age_over_16, claim_value}
use blind_age.Schemas.Vc.{AgeCredential, CredentialIssueRequest, vc_header, credential_messages}
use blind_age.Samples.{toy, born, today}
use blind_age.Schemas.Enums.{age_over_18, aal2, claim_eq}
use blind_age.Schemas.Token.{TokenIssueRequest, TokenIssueResponse}
use blind_age.Verifier.Checks.{token_message}

eligible_claims-birthday_reached_example :
    contains (eligible_claims born today) age_over_18
    ≡ birthday_reached (minimum_age age_over_18) born today
eligible_claims-birthday_reached_example = eligible_claims-birthday_reached age_over_18 born today

abbrev later : Date
later = record { year = 2019; month = 1; day = 1 }

eligible_today : contains (eligible_claims born today) age_over_18 ≡ true
unfolding contains eligible_claims age_in_years claims_for
eligible_today = refl

eligible_claims-later_example : contains (eligible_claims born later) age_over_18 ≡ true
eligible_claims-later_example =
    eligible_claims-later age_over_18 born today later refl eligible_today

abbrev clock : Clock
clock = record { date_of = λ t. today; parse_time = λ t. some 1000 }

abbrev entry : Entry
entry = record {
  key_id = some "k";
  purpose = none;
  algorithm = none;
  public_key_b64 = none;
  private_key_b64 = none;
  secret_b64 = some "AA";
  claim = some "AGE_OVER_18";
  assurance_level = some "AAL2";
  epoch = some "e";
  valid_until = some "u";
}

abbrev issuer : Issuer
issuer = record {
  key_store = record {
    by_tuple = (record { claim = age_over_18; assurance_level = aal2; epoch = "e" }, entry) ∷ [];
    vc_by_key_id = [];
  };
  issuer_id = "i";
  oidc_mode = false;
}

abbrev enrollments : EnrollmentStore
enrollments = ("x", record { date_of_birth = born; expires_at = 100 }) ∷ []

abbrev request : TokenIssueRequest
request = record {
  version = "1.0";
  enrollment_id = "x";
  claim = age_over_18;
  assurance_level = aal2;
  epoch = "e";
  nonces = some ("n" ∷ []);
  blinded_messages = none;
}

abbrev response : TokenIssueResponse
response = record {
  version = "1.0";
  issuer_id = "i";
  issuer_key_id = "k";
  claim = age_over_18;
  assurance_level = aal2;
  epoch = "e";
  signatures = "bg" ∷ [];
  expires_at = 1000;
}

issued : issue toy clock issuer enrollments request 50 ≡ ok response
unfolding issue enrolled_at find_enrollment get contains eligible_claims age_in_years claims_for
    algorithm_for entry_for entry_algorithm issue_with issue_plain check_batch signer_for
    b64u_decode sign token_message b64u_encode encode
issued = refl

issue-Authorised_example :
    Authorised clock enrollments request 50
    × (algorithm : String) × (algorithm_for issuer.key_store (key_tuple request) ≡ some algorithm)
    × (key_tuple request ≡ record { claim = age_over_18; assurance_level = aal2; epoch = "e" })
    × (length response.signatures ≡ length (payload algorithm request))
    × BatchSized (payload algorithm request)
issue-Authorised_example = issue-Authorised toy clock issuer enrollments request 50 response issued

abbrev opened : ProofingSession
opened = record { state = "s"; nonce = "n"; verifier = "v"; created_at = 10 }

abbrev sessions : ProofingSessionStore
sessions = record { ttl = 100; sessions = ("s", opened) ∷ [] }

consume-session_iff_example :
    ((consume sessions "s" 50).1 ≡ some opened)
    ↔ ((get sessions.sessions "s" ≡ some opened) × (50 ≤ opened.created_at + sessions.ttl))
consume-session_iff_example = consume-session_iff sessions "s" 50 opened

abbrev jwt : Jwt
jwt = record {
  get_unverified_header = λ t. some (record { alg = some "RS256"; kid = some "k" });
  decode = λ t k a i. some (record { nonce = some "n"; birthdate = some "b" });
  from_isoformat = λ t. some born;
}

abbrev config : OidcConfig
config = record { idp_base_url = "p"; client_id = "c"; client_secret = "z"; redirect_uri = "r" }

abbrev provider : Provider
provider = record { discovery = none; jwks = none; exchange = λ e f. failed }

handle_callback-twice_example :
    (handle_callback jwt provider config
      (handle_callback jwt provider config sessions "c" "s" 50).0
      "d"
      "s"
      60).1
    ≡ err bad_state
handle_callback-twice_example = handle_callback-twice jwt provider config sessions "c" "d" "s" 50 60

abbrev jwk : Jwk
jwk = record { jwk_kid = some "k"; material = "m" }

validated : validate_id_token jwt "t" (jwk ∷ []) "i" "c" "n" ≡ ok born
unfolding validate_id_token birthdate_of find
validated = refl

validate_id_token-checked_example :
    (header : Header) × (jwt.get_unverified_header "t" ≡ some header)
    × (header.alg ≡ some "RS256")
    × (k : Jwk) × (find (λ (j : Jwk). j.jwk_kid == header.kid) (jwk ∷ []) ≡ some k)
    × (claims : Claims) × (jwt.decode "t" k "c" "i" ≡ some claims)
    × (claims.nonce ≡ some "n")
    × (birthdate_of jwt claims.birthdate ≡ ok born)
validate_id_token-checked_example =
    validate_id_token-checked jwt "t" (jwk ∷ []) "i" "c" "n" born validated

abbrev vc_entry : Entry
vc_entry = record entry {
  key_id = some "v";
  algorithm = some "bbs-bls12381-sha256";
  public_key_b64 = some toy_public;
  private_key_b64 = some toy_secret;
}

abbrev vc_issuer : Issuer
vc_issuer = record {
  key_store = record { by_tuple = []; vc_by_key_id = ("v", vc_entry) ∷ [] };
  issuer_id = "i";
  oidc_mode = true;
}

abbrev vc_request : CredentialIssueRequest
vc_request = record { version = "1.0"; enrollment_id = "x" }

abbrev pub credential : AgeCredential
credential = record {
  version = "1.0";
  issuer_id = "i";
  issuer_key_id = "v";
  issuer_public_key = toy_public;
  assurance_level = aal2;
  epoch = "e";
  claims = age_over_13 ∷ age_over_16 ∷ age_over_18 ∷ [];
  signature =
      "AAAAAAAAAAAAAAAAAAAAAAAAAAAAAAAAAAAAAAAAAAAAAAAAAAAAAAAAAAAAAAABAAAAAAAAAAAAAAAAAAAAAAAAAAAAAAAAAAAAAAAAAAE";
}

credential_issued :
    issue_credential toy_curve z1 clock vc_issuer enrollments vc_request 50 ≡ ok credential
unfolding issue_credential find_enrollment get eligible_claims age_in_years claims_for encode
    b64u_encode b64u_decode find contains public_material entry_algorithm
credential_issued = refl

issue_credential-verifies_example :
    (row : Enrollment) × (find_enrollment enrollments "x" ≡ some row)
    × (50 < row.expires_at)
    × (map claim_value credential.claims
        ≡ sorted (map claim_value (eligible_claims row.date_of_birth today)))
    × (credential.claims ≢ [])
    × (signature : Bytes) × (b64u_decode credential.signature ≡ ok signature)
    × (os2ip (drop octet_point_length signature) ≢ 0
        → bbs_verify toy_curve z1 toy_public signature vc_header (credential_messages credential)
          ≡ ok true)
unfolding public_material entry_algorithm find contains vc_signer_for vc_public_key
issue_credential-verifies_example =
    issue_credential-verifies toy_curve toy_laws z1 clock vc_issuer enrollments vc_request 50
      credential 0 "v" toy_secret toy_public "AAL2" "e" refl (omega arith) toy_pair refl refl
      credential_issued
