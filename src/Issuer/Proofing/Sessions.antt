-- ===== src/Issuer/Proofing/Sessions.antt =====
-- Sessions of the OIDC flow are used once.
use blind_age.Base.{
  ◌≤◌, ◌+◌, String, Option, none, some, ◌≡◌, ◌↔◌, refl, arith, ◌==◌, string_eq, Option-cases, inl,
  inr, List, find, option_eq,
}
use blind_age.Base.Dict.{get, get-remove_self}
use blind_age.Base.Equality.{option_beq_iff}
use blind_age.Base.Result.{ok, err, present, guard, >>=-eq-ok, guard-eq-ok, present-eq-ok}
use blind_age.Issuer.Eligibility.{Date}
use blind_age.Issuer.Proofing.{
  ProofingSession, ProofingSessionStore, bad_state, Jwt, Jwk, Header, Claims, Provider, OidcConfig,
  consume, unexpired, handle_callback, validate_id_token, birthdate_of, unparseable, alg_not_rs256,
  unknown_key, rejected, nonce_mismatch,
}
use blind_age.Schemas.Issuer.{Time}

unexpired_iff :
    (found : Option ProofingSession) (ttl now : Time) (session : ProofingSession)
    → (unexpired found ttl now ≡ some session)
      ↔ ((found ≡ some session) × (now ≤ session.created_at + ttl))
unfolding unexpired
unexpired_iff none ttl now session = ground arith
unexpired_iff (some found) ttl now session = ground arith

-- `consume` returns a session exactly when it is the one stored under the state and at most `ttl`
-- old.
pub consume-session_iff :
    (store : ProofingSessionStore) (state : String) (now : Time) (session : ProofingSession)
    → ((consume store state now).1 ≡ some session)
      ↔ ((get store.sessions state ≡ some session) × (now ≤ session.created_at + store.ttl))
unfolding consume
consume-session_iff store state now session =
    unexpired_iff (get store.sessions state) store.ttl now session

handle_callback-store :
    (j : Jwt) (p : Provider) (config : OidcConfig) (store : ProofingSessionStore)
    → (code state : String) (now : Time)
    → (handle_callback j p config store code state now).0 ≡ (consume store state now).0
unfolding handle_callback consume
handle_callback-store j p config store code state now =
    elim (Option-cases (unexpired (get store.sessions state) store.ttl now)) [
      | inl e ↦ rw (handle_callback, e) refl
      | inr (session, e) ↦ rw (handle_callback, e) refl
    ]

handle_callback-unknown :
    (j : Jwt) (p : Provider) (config : OidcConfig) (store : ProofingSessionStore)
    → (code state : String) (now : Time) → get store.sessions state ≡ none
    → (handle_callback j p config store code state now).1 ≡ err bad_state
unfolding handle_callback consume unexpired
handle_callback-unknown j p config store code state now h = rw (handle_callback, h) refl

sessions-consume :
    (store : ProofingSessionStore) (state : String) (now : Time)
    → get (consume store state now).0.sessions state ≡ none
unfolding consume
sessions-consume store state now = get-remove_self store.sessions state

-- A state that a callback has used is refused by the next callback, whatever the first one came to.
pub handle_callback-twice :
    (j : Jwt) (p : Provider) (config : OidcConfig) (store : ProofingSessionStore)
    → (code code' state : String) (now later : Time)
    → (handle_callback j p config
        (handle_callback j p config store code state now).0
        code'
        state
        later).1
      ≡ err bad_state
handle_callback-twice j p config store code code' state now later =
    rw (handle_callback-store j p config store code state now) (
      handle_callback-unknown j p config (consume store state now).0 code' state later
        (sessions-consume store state now))

-- A birth date that `validate_id_token` returns was read from claims that PyJWT decoded with a key of
-- the key set that the header names, for the expected audience and issuer; the header's algorithm is
-- RS256 and the claims carry the expected nonce.
pub validate_id_token-checked :
    (j : Jwt) (id_token : String) (jwks : List Jwk) (issuer audience nonce : String) (born : Date)
    → validate_id_token j id_token jwks issuer audience nonce ≡ ok born
    → (header : Header) × (j.get_unverified_header id_token ≡ some header)
      × (header.alg ≡ some "RS256")
      × (jwk : Jwk) × (find (λ k. k.jwk_kid == header.kid) jwks ≡ some jwk)
      × (claims : Claims) × (j.decode id_token jwk audience issuer ≡ some claims)
      × (claims.nonce ≡ some nonce)
      × (birthdate_of j claims.birthdate ≡ ok born)
unfolding validate_id_token
validate_id_token-checked j id_token jwks issuer audience nonce born h =
    let (header, first, h₁) =
      >>=-eq-ok (present (j.get_unverified_header id_token) unparseable) _ h in
    let (_, second, h₂) = >>=-eq-ok (guard (header.alg == some "RS256") alg_not_rs256) _ h₁ in
    let (jwk, third, h₃) =
      >>=-eq-ok (present (find (λ k. k.jwk_kid == header.kid) jwks) unknown_key) _ h₂ in
    let (claims, fourth, h₄) =
      >>=-eq-ok (present (j.decode id_token jwk audience issuer) rejected) _ h₃ in
    let (_, fifth, last) = >>=-eq-ok (guard (claims.nonce == some nonce) nonce_mismatch) _ h₄ in
    (
      header,
      present-eq-ok (j.get_unverified_header id_token) unparseable first,
      (option_beq_iff header.alg (some "RS256")).0
          ((guard-eq-ok (header.alg == some "RS256") alg_not_rs256).0 second),
      jwk,
      present-eq-ok (find (λ k. k.jwk_kid == header.kid) jwks) unknown_key third,
      claims,
      present-eq-ok (j.decode id_token jwk audience issuer) rejected fourth,
      (option_beq_iff claims.nonce (some nonce)).0
          ((guard-eq-ok (claims.nonce == some nonce) nonce_mismatch).0 fifth),
      last,
    )
