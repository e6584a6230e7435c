-- ===== src/Wallet/Spending.antt =====
-- Spending a token: `build_presentation` (blindage/wallet/client.py).
pub mod Laws
use blind_age.Base.{
  ℕ, zero, suc, ◌+◌, String, Bool, true, false, Option, none, some, List, [], ◌∷◌, ◌&&◌, ◌≡◌, not,
  map, find, ltb, if◌then◌else◌, ◌==◌, string_eq, option_eq, contains,
}
use blind_age.Base.Dict.{Dict}
use blind_age.Base.Int.{ℤ, pos}
use blind_age.Base.Result.{Result, ok, err, present, lift_error, guard, ◌>>=◌, ◌>>◌}
use blind_age.Base.Text.{Bytes, sorted}
use blind_age.Crypto.Base64.{b64u_encode, b64u_decode}
use blind_age.Crypto.Primitives.{Primitives, CryptoError, lift_decode}
use blind_age.Crypto.Rsabssa.{
  RsaError, blind_error, overflow_error, not_invertible, finalize, blind,
}
use blind_age.Crypto.Verifiers.{rsabssa_algorithm}
use blind_age.Schemas.Enums.{
  AgeClaim, AssuranceLevel, claim_eq, claim_value, assurance_value, assurance_at_least,
}
use blind_age.Schemas.Issuer.{Time}
use blind_age.Schemas.Presentation.{VerifierChallenge, DomainBinding, Presentation}
use blind_age.Schemas.Token.{exactly_one_payload, AgeToken, TokenIssueRequest, TokenIssueResponse}
use blind_age.Schemas.Vc.{AgeCredential}
use blind_age.Verifier.Checks.{token_message}
use blind_age.Wallet.Client.{
  StoredToken, VaultData, WalletError, challenge_expired, no_unspent_token,
}

-- The tests of the loop of `build_presentation`.
unfoldable pub usable : VerifierChallenge → StoredToken → Bool
unfolding assurance_at_least
usable challenge stored =
    not stored.spent
    && (stored.token.claim == challenge.required_claim)
    && assurance_at_least stored.token.assurance_level challenge.minimum_assurance_level

abbrev pub spend : StoredToken → StoredToken
spend stored = record stored { spent = true }

abbrev pub keep :
    StoredToken → Option (AgeToken × List StoredToken) → Option (AgeToken × List StoredToken)
keep stored none = none
keep stored (some (token, rest)) = some (token, stored ∷ rest)

-- The loop: the first usable token, and the tokens with that one spent.
unfoldable pub take_token :
    VerifierChallenge → List StoredToken → Option (AgeToken × List StoredToken)
unfolding usable
take_token challenge [] = none
take_token challenge (stored ∷ rest) =
    let later = take_token challenge rest in
    elim (usable challenge stored) [
      | true ↦ some (stored.token, spend stored ∷ rest)
      | false ↦ keep stored later
    ]

abbrev pub bind_domain : VerifierChallenge → Time → DomainBinding
bind_domain challenge now = record {
  audience = challenge.audience;
  challenge = challenge.challenge;
  challenge_id = challenge.challenge_id;
  timestamp = now;
}

unfoldable pub build_presentation :
    VaultData → VerifierChallenge → Time → Result WalletError (VaultData × Presentation)
unfolding take_token
build_presentation vault challenge now = do
  guard (not (ltb challenge.expires_at now)) challenge_expired
  (token, tokens) ← present (take_token challenge vault.tokens) no_unspent_token
  ok (
    record vault { tokens = tokens },
    record {
      version = "1.0";
      presentation_type = "blindage.age_token";
      required_claim = challenge.required_claim;
      token = token;
      domain_binding = bind_domain challenge now;
    },
  )
