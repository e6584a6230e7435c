-- ===== src/Issuer/Proofing.antt =====
-- Identity proofing by OIDC (blindage/issuer/proofing.py). The identity provider, PyJWT and the
-- random tokens are parameters.
pub mod Sessions
use blind_age.Base.{
  ℕ, ◌-◌, ◌+◌, String, Bool, true, false, Option, none, some, List, not, ltb, nat_beq,
  if◌then◌else◌, ◌==◌, string_eq, option_eq, find,
}
use blind_age.Base.Dict.{Dict, get, put, remove}
use blind_age.Base.Result.{Result, ok, err, present, guard, ◌>>=◌, ◌>>◌}
use blind_age.Base.Text.{encode}
use blind_age.Crypto.Base64.{b64u_encode}
use blind_age.Crypto.Primitives.{Primitives}
use blind_age.Issuer.Eligibility.{Date}
use blind_age.Schemas.Issuer.{Time}

pub record OidcConfig : Type 0 where
  pub idp_base_url : String
  pub client_id : String
  pub client_secret : String
  pub redirect_uri : String

pub record ProofingSession : Type 0 where
  pub state : String
  pub nonce : String
  pub verifier : String
  pub created_at : Time

pub record ProofingSessionStore : Type 0 where
  pub ttl : Time
  pub sessions : Dict ProofingSession

abbrev pub new_session : (state nonce verifier : String) (now : Time) → ProofingSession
new_session state nonce verifier now = record {
  state = state;
  nonce = nonce;
  verifier = verifier;
  created_at = now;
}

unfoldable pub create :
    ProofingSessionStore
    → (state nonce verifier : String) (now : Time) → ProofingSessionStore × ProofingSession
unfolding put
create store state nonce verifier now =
    let session = new_session state nonce verifier now in
    (record store { sessions = put store.sessions state session }, session)

-- What `consume` returns, given what it popped: `now - created_at > ttl` over the integers.
unfoldable pub unexpired : Option ProofingSession → (ttl now : Time) → Option ProofingSession
unexpired none ttl now = none
unexpired (some session) ttl now = if ltb (session.created_at + ttl) now then none else some session

unfoldable pub consume :
    ProofingSessionStore → String → Time → ProofingSessionStore × Option ProofingSession
unfolding get remove unexpired
consume store state now = (
  record store { sessions = remove store.sessions state },
  unexpired (get store.sessions state) store.ttl now,
)

-- `code_challenge_s256`
unfoldable pub code_challenge_s256 : Primitives → String → String
unfolding encode b64u_encode
code_challenge_s256 c verifier = b64u_encode (c.sha256 (encode verifier))

-- A JWT's header, a key of the key set, and the claims that the code reads.
pub record Header : Type 0 where
  pub alg : Option String
  pub kid : Option String

pub record Jwk : Type 0 where
  pub jwk_kid : Option String
  pub material : String

pub record Claims : Type 0 where
  pub nonce : Option String
  pub birthdate : Option String

-- The messages of `ProofingError`, and an exception that is not one.
pub data ProofingError : Type 0 where
  unparseable alg_not_rs256 unknown_key rejected nonce_mismatch bad_birthdate : ProofingError
  bad_state exchange_failed no_id_token discovery_failed jwks_failed : ProofingError

-- `decode` takes the key, the audience and the issuer; none is a `PyJWTError`, also of `PyJWK`.
pub record Jwt : Type 0 where
  pub get_unverified_header : String → Option Header
  pub decode : String → Jwk → (audience issuer : String) → Option Claims
  pub from_isoformat : String → Option Date

module _ (j : Jwt) where
  unfoldable pub birthdate_of : Option String → Result ProofingError Date
  birthdate_of none = err bad_birthdate
  birthdate_of (some text) = present (j.from_isoformat text) bad_birthdate

  unfoldable pub validate_id_token :
      String → (jwks : List Jwk) → (issuer audience nonce : String) → Result ProofingError Date
  unfolding find birthdate_of
  validate_id_token id_token jwks issuer audience nonce = do
    header ← present (j.get_unverified_header id_token) unparseable
    guard (header.alg == some "RS256") alg_not_rs256
    jwk ← present (find (λ k. k.jwk_kid == header.kid) jwks) unknown_key
    claims ← present (j.decode id_token jwk audience issuer) rejected
    guard (claims.nonce == some nonce) nonce_mismatch
    birthdate_of claims.birthdate

-- What the provider's documents hold.
pub record Discovery : Type 0 where
  pub issuer : String
  pub authorization_endpoint : String
  pub token_endpoint : String
  pub jwks_uri : String

-- The form that the token endpoint gets.
pub record TokenForm : Type 0 where
  pub grant_type : String
  pub code : String
  pub redirect_uri : String
  pub client_id : String
  pub client_secret : String
  pub code_verifier : String

pub data TokenReply : Type 0 where
  failed : TokenReply
  replied : (id_token : Option String) → TokenReply

-- The provider as the client sees it: none where the status is not 200.
pub record Provider : Type 0 where
  pub discovery : Option Discovery
  pub jwks : Option (List Jwk)
  pub exchange : String → TokenForm → TokenReply

unfoldable pub id_token_of : TokenReply → Result ProofingError String
id_token_of failed = err exchange_failed
id_token_of (replied none) = err no_id_token
id_token_of (replied (some t)) = ok t

module _ (j : Jwt) (p : Provider) where
  -- `handle_callback` once the session is consumed.
  unfoldable pub exchange_code : OidcConfig → ProofingSession → String → Result ProofingError Date
  unfolding id_token_of validate_id_token
  exchange_code config session code = do
    d ← present p.discovery discovery_failed
    id_token ← id_token_of (
        p.exchange d.token_endpoint (record {
          grant_type = "authorization_code";
          code = code;
          redirect_uri = config.redirect_uri;
          client_id = config.client_id;
          client_secret = config.client_secret;
          code_verifier = session.verifier;
        }))
    keys ← present p.jwks jwks_failed
    validate_id_token j id_token keys d.issuer config.client_id session.nonce

  unfoldable pub handle_callback :
      OidcConfig
      → ProofingSessionStore
      → (code state : String) (now : Time) → ProofingSessionStore × Result ProofingError Date
  unfolding consume exchange_code
  handle_callback config store code state now =
      let (store', found) = consume store state now in
      elim found [
        | none ↦ (store', err bad_state)
        | some session ↦ (store', exchange_code config session code)
      ]

-- The URL of `authorize_redirect_url`: the endpoint and the parameters that `urlencode` writes.
pub record AuthorizeUrl : Type 0 where
  pub endpoint : String
  pub response_type : String
  pub client_id : String
  pub redirect_uri : String
  pub scope : String
  pub state : String
  pub nonce : String
  pub code_challenge : String
  pub code_challenge_method : String

-- The session is stored before the provider is asked, so it stays when that fails.
unfoldable pub authorize_redirect_url :
    Primitives
    → Provider
    → OidcConfig
    → ProofingSessionStore
    → (state nonce verifier : String) (now : Time)
    → ProofingSessionStore × Result ProofingError AuthorizeUrl
unfolding create code_challenge_s256
authorize_redirect_url c p config store state nonce verifier now =
    let (store', session) = create store state nonce verifier now in
    (
      store',
      do
        d ← present p.discovery discovery_failed
        ok record {
          endpoint = d.authorization_endpoint;
          response_type = "code";
          client_id = config.client_id;
          redirect_uri = config.redirect_uri;
          scope = "openid";
          state = session.state;
          nonce = session.nonce;
          code_challenge = code_challenge_s256 c session.verifier;
          code_challenge_method = "S256";
        },
    )
