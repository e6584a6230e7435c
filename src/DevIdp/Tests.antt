-- ===== src/DevIdp/Tests.antt =====
-- The identity provider on a small input.
use blind_age.Base.{[], ◌∷◌}
use blind_age.DevIdp.{Idp, CodeRecord, TokenRequest}

abbrev code_record : CodeRecord
code_record = record {
  nonce = "n";
  code_challenge = "dg";
  birthdate = "2000-02-29";
  created_at = 10;
}

abbrev idp : Idp
idp = record {
  issuer_url = "u";
  client_id = "c";
  client_secret = "z";
  redirect_uri = "r";
  codes = ("x", code_record) ∷ [];
}

abbrev request : TokenRequest
request = record {
  grant_type = "authorization_code";
  code = "x";
  redirect_uri = "r";
  client_id = "c";
  client_secret = "z";
  code_verifier = "v";
}
