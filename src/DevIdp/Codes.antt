-- ===== src/DevIdp/Codes.antt =====
-- Codes of the identity provider.
use blind_age.Base.{◌≤◌, ◌+◌, some, ◌≡◌, string_eq}
use blind_age.Base.Dict.{get}
use blind_age.Crypto.Primitives.{Primitives}
use blind_age.DevIdp.{Idp, CodeRecord, TokenRequest, IdToken, code_ttl}
use blind_age.Issuer.Proofing.{code_challenge_s256}
use blind_age.Schemas.Issuer.{Time}

-- What an ID token vouches for.
abbrev pub Redeemed : Primitives → Idp → TokenRequest → (now : Time) → IdToken → Type 0
Redeemed c idp f now t =
    (r : CodeRecord) × (get idp.codes f.code ≡ some r)
    × (now ≤ r.created_at + code_ttl)
    × (code_challenge_s256 c f.code_verifier ≡ r.code_challenge)
    × (t.nonce ≡ r.nonce)
    × (t.birthdate ≡ r.birthdate)
