-- ===== src/Issuer/App/Callback.antt =====
-- GET /enroll and GET /oidc/callback (blindage/issuer/app.py). A page is what the handler puts into
-- its template.
use blind_age.Base.{String, true, false, ◌+◌}
use blind_age.Base.Result.{Result, ok, err, ◌>>=◌}
use blind_age.Crypto.Primitives.{Primitives}
use blind_age.Issuer.App.{
  Issuer, Reply, http, oidc_not_enabled, proofing_failed, uncaught, days, enrollment_ttl_days,
}
use blind_age.Issuer.Eligibility.{Date}
use blind_age.Issuer.Proofing.{
  OidcConfig, ProofingSessionStore, ProofingError, Jwt, Provider, AuthorizeUrl, handle_callback,
  authorize_redirect_url,
}
use blind_age.Issuer.Storage.{EnrollmentStore, create}
use blind_age.Schemas.Issuer.{Time}

-- The form of the asserted date of birth, or the redirection to the provider.
pub data EnrollPage : Type 0 where
  form : (issuer_id : String) → EnrollPage
  redirect : AuthorizeUrl → EnrollPage

pub record EnrolledPage : Type 0 where
  pub issuer_id : String
  pub enrollment_id : String

-- A `ProofingError` is not caught here.
unfoldable pub enroll_page :
    Primitives
    → Provider
    → Issuer
    → OidcConfig
    → ProofingSessionStore
    → (state nonce verifier : String) (now : Time) → ProofingSessionStore × Reply EnrollPage
unfolding authorize_redirect_url
enroll_page c p issuer config sessions state nonce verifier now = elim issuer.oidc_mode [
  | false ↦ (sessions, ok (form issuer.issuer_id))
  | true ↦
      let (sessions', url) = authorize_redirect_url c p config sessions state nonce verifier now in
      (sessions', uncaught url >>= λ u. ok (redirect u))
]

abbrev or_refused : {A : Type 0} → Result ProofingError A → Reply A
or_refused (ok a) = ok a
or_refused (err e) = err (http 400 proofing_failed)

-- The rest of the handler, once the date of birth is proved or the proofing failed.
unfoldable pub enroll_proved :
    Issuer
    → EnrollmentStore
    → Result ProofingError Date
    → (uuid : String) (now : Time) → Reply (EnrollmentStore × EnrolledPage)
unfolding create
enroll_proved issuer store proved uuid now = do
  date_of_birth ← or_refused proved
  store' ← uncaught (create store uuid date_of_birth (now + days enrollment_ttl_days))
  ok (store', record { issuer_id = issuer.issuer_id; enrollment_id = uuid })

-- `consumed` is the clock as the session store reads it.
unfoldable pub oidc_callback :
    Jwt
    → Provider
    → Issuer
    → OidcConfig
    → ProofingSessionStore
    → EnrollmentStore
    → (code state uuid : String) (consumed now : Time)
    → ProofingSessionStore × Reply (EnrollmentStore × EnrolledPage)
unfolding handle_callback enroll_proved
oidc_callback j p issuer config sessions store code state uuid consumed now =
    elim issuer.oidc_mode [
      | false ↦ (sessions, err (http 404 oidc_not_enabled))
      | true ↦
          let (sessions', proved) = handle_callback j p config sessions code state consumed in
          (sessions', enroll_proved issuer store proved uuid now)
    ]
