-- ===== src/DevIdp.antt =====
-- The simulated identity provider (blindage/dev_idp/app.py): the codes of the authorization flow. The
-- UUIDs, the clock and the signing of the ID token are parameters.
pub mod Tests
pub mod Codes
use blind_age.Base.{
  ℕ, ◌+◌, ◌*◌, String, Bool, true, false, Option, none, some, not, ◌&&◌, ltb, if◌then◌else◌, ◌==◌,
  string_eq,
}
use blind_age.Base.Dict.{Dict, get, put, remove}
use blind_age.Base.Result.{Result, ok, err, guard, ◌>>=◌, ◌>>◌}
use blind_age.Crypto.Primitives.{Primitives}
use blind_age.Issuer.Proofing.{code_challenge_s256}
use blind_age.Schemas.Issuer.{Time}

-- `CODE_TTL_SECONDS` and `ID_TOKEN_TTL_SECONDS`, in microseconds
abbrev pub code_ttl : Time
code_ttl = 300 * 1000000

abbrev pub id_token_ttl : Time
id_token_ttl = 300 * 1000000

pub record CodeRecord : Type 0 where
  pub nonce : String
  pub code_challenge : String
  pub birthdate : String
  pub created_at : Time

pub record Idp : Type 0 where
  pub issuer_url : String
  pub client_id : String
  pub client_secret : String
  pub redirect_uri : String
  pub codes : Dict CodeRecord

-- The messages of the `HTTPException`: 401 for the credentials, 400 for the others.
pub data IdpError : Type 0 where
  bad_response_type unknown_client bad_redirect pkce_required bad_birth_date : IdpError
  bad_credentials bad_grant bad_code pkce_failed : IdpError

pub record AuthorizeRequest : Type 0 where
  pub response_type : String
  pub client_id : String
  pub redirect_uri : String
  pub code_challenge : String
  pub code_challenge_method : String

-- GET /authorize, without the page that it returns.
unfoldable pub authorize : Idp → AuthorizeRequest → Result IdpError (Unit {0})
authorize idp q = do
  guard (q.response_type == "code") bad_response_type
  guard (q.client_id == idp.client_id) unknown_client
  guard (q.redirect_uri == idp.redirect_uri) bad_redirect
  guard ((q.code_challenge_method == "S256") && not (q.code_challenge == "")) pkce_required

pub record Submission : Type 0 where
  pub dob : String
  pub state : String
  pub nonce : String
  pub redirect_uri : String
  pub code_challenge : String
  pub client_id : String

-- POST /authorize/submit: the provider that stays and the code; `is_iso` is whether
-- `datetime.fromisoformat` reads the text.
unfoldable pub authorize_submit :
    (is_iso : String → Bool)
    → Idp
    → Submission
    → (uuid : String) (now : Time) → Result IdpError (Idp × String)
unfolding put
authorize_submit is_iso idp f uuid now = do
  guard ((f.client_id == idp.client_id) && (f.redirect_uri == idp.redirect_uri)) unknown_client
  guard (is_iso f.dob) bad_birth_date
  ok (
    record idp {
      codes = put idp.codes uuid (record {
        nonce = f.nonce;
        code_challenge = f.code_challenge;
        birthdate = f.dob;
        created_at = now;
      });
    },
    uuid,
  )

pub record TokenRequest : Type 0 where
  pub grant_type : String
  pub code : String
  pub redirect_uri : String
  pub client_id : String
  pub client_secret : String
  pub code_verifier : String

-- The claims of the ID token.
pub record IdToken : Type 0 where
  pub iss : String
  pub sub : String
  pub aud : String
  pub iat : Time
  pub exp : Time
  pub nonce : String
  pub birthdate : String

abbrev pub client_ok : Idp → TokenRequest → Bool
client_ok idp f = (f.client_id == idp.client_id) && (f.client_secret == idp.client_secret)

abbrev pub grant_ok : Idp → TokenRequest → Bool
grant_ok idp f = (f.grant_type == "authorization_code") && (f.redirect_uri == idp.redirect_uri)

abbrev pub id_token : Idp → CodeRecord → (client_id sub : String) (now : Time) → IdToken
id_token idp r client_id sub now = record {
  iss = idp.issuer_url;
  sub = sub;
  aud = client_id;
  iat = now;
  exp = now + id_token_ttl;
  nonce = r.nonce;
  birthdate = r.birthdate;
}

module _ (c : Primitives) where
  -- `token` once the code is popped.
  unfoldable pub redeem :
      Idp → Option CodeRecord → TokenRequest → (sub : String) (now : Time) → Result IdpError IdToken
  unfolding code_challenge_s256
  redeem idp none f sub now = err bad_code
  redeem idp (some r) f sub now = do
    guard (not (ltb (r.created_at + code_ttl) now)) bad_code
    guard (code_challenge_s256 c f.code_verifier == r.code_challenge) pkce_failed
    ok (id_token idp r f.client_id sub now)

  -- The branches of `token` on the tests of the client and of the grant.
  unfoldable pub token_when :
      (client grant : Bool)
      → Idp
      → TokenRequest
      → (sub : String) (now : Time) → Idp × Result IdpError IdToken
  unfolding get remove redeem
  token_when false grant idp f sub now = (idp, err bad_credentials)
  token_when true false idp f sub now = (idp, err bad_grant)
  token_when true true idp f sub now =
      (record idp { codes = remove idp.codes f.code }, redeem idp (get idp.codes f.code) f sub now)

  -- POST /token: the provider that stays, and the ID token.
  unfoldable pub token :
      Idp → TokenRequest → (sub : String) (now : Time) → Idp × Result IdpError IdToken
  unfolding token_when
  token idp f sub now = token_when (client_ok idp f) (grant_ok idp f) idp f sub now
