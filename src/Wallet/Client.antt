-- ===== src/Wallet/Client.antt =====
-- The wallet's client (blindage/wallet/client.py). The issuer's server, the random octets and the
-- clock are parameters.
use blind_age.Base.{
  ℕ, String, Bool, true, false, Option, none, some, List, [], ◌∷◌, ◌&&◌, map, find, ◌==◌, string_eq,
  option_eq,
}
use blind_age.Base.Dict.{Dict}
use blind_age.Base.Result.{Result, ok, err, present, ◌>>=◌}
use blind_age.Base.Text.{Bytes}
use blind_age.Crypto.Base64.{b64u_encode, b64u_decode}
use blind_age.Crypto.Primitives.{Primitives, unsupported_key, lift_decode}
use blind_age.Crypto.Rsabssa.{
  RsaError, blind_error, overflow_error, not_invertible, finalize, blind,
}
use blind_age.Crypto.Verifiers.{rsabssa_algorithm}
use blind_age.Schemas.Enums.{AgeClaim, AssuranceLevel, claim_eq, claim_value, assurance_value}
use blind_age.Schemas.Token.{exactly_one_payload, AgeToken, TokenIssueRequest, TokenIssueResponse}
use blind_age.Schemas.Vc.{AgeCredential}
use blind_age.Verifier.Checks.{token_message}

pub record StoredToken : Type 0 where
  pub token : AgeToken
  pub spent : Bool

pub record VaultData : Type 0 where
  pub enrollments : Dict String
  pub tokens : List StoredToken
  pub credentials : Dict AgeCredential

-- The messages of `WalletError`, and an exception that is not one.
pub data WalletError : Type 0 where
  metadata_failed no_issuer_key issuance_failed finalize_failed challenge_expired : WalletError
  no_unspent_token claim_not_carried assurance_too_low : WalletError
  proof_failed enrollment_failed : WalletError
  uncaught : WalletError

-- A key of the issuer's metadata, as the JSON has it.
pub record AdvertisedKey : Type 0 where
  pub purpose : Option String
  pub claim : Option String
  pub assurance_level : Option String
  pub epoch : Option String
  pub algorithm : Option String
  pub public_key : Option String

abbrev pub advertises : AgeClaim → AssuranceLevel → String → AdvertisedKey → Bool
unfolding claim_value assurance_value
advertises claim level epoch key =
    (key.purpose == some "token_signing")
    && (key.claim == some (claim_value claim))
    && (key.assurance_level == some (assurance_value level))
    && (key.epoch == some epoch)

-- `_issuer_key_for`; none is a status other than 200.
unfoldable pub issuer_key_for :
    Option (List AdvertisedKey)
    → AgeClaim
    → AssuranceLevel
    → String
    → Result WalletError AdvertisedKey
unfolding find
issuer_key_for metadata claim level epoch = do
  keys ← present metadata metadata_failed
  present (find (advertises claim level epoch) keys) no_issuer_key

-- What the code catches around `finalize`.
abbrev finalized : {A : Type 0} → Result RsaError A → Result WalletError A
finalized (ok a) = ok a
finalized (err (blind_error unsupported_key)) = err uncaught
finalized (err (blind_error e)) = err finalize_failed
finalized (err not_invertible) = err uncaught
finalized (err overflow_error) = err uncaught

abbrev or_uncaught : {A E : Type 0} → Result E A → Result WalletError A
or_uncaught (ok a) = ok a
or_uncaught (err e) = err uncaught

abbrev pub new_token : TokenIssueResponse → (nonce signature : String) → AgeToken
new_token body nonce signature = record {
  version = "1.0";
  claim = body.claim;
  assurance_level = body.assurance_level;
  epoch = body.epoch;
  issuer_id = body.issuer_id;
  issuer_key_id = body.issuer_key_id;
  nonce = nonce;
  signature = signature;
}

abbrev pub plain_request :
    String → AgeClaim → AssuranceLevel → String → List String → TokenIssueRequest
plain_request enrollment_id claim level epoch nonces = record {
  version = "1.0";
  enrollment_id = enrollment_id;
  claim = claim;
  assurance_level = level;
  epoch = epoch;
  nonces = some nonces;
  blinded_messages = none;
}

abbrev pub blind_request :
    String → AgeClaim → AssuranceLevel → String → List String → TokenIssueRequest
blind_request enrollment_id claim level epoch blinded = record {
  version = "1.0";
  enrollment_id = enrollment_id;
  claim = claim;
  assurance_level = level;
  epoch = epoch;
  nonces = none;
  blinded_messages = some blinded;
}

-- `zip(nonces, signatures, strict=True)` into tokens; lists of two lengths raise a `ValueError`.
unfoldable pub plain_tokens :
    TokenIssueResponse → (nonces signatures : List String) → Result WalletError (List AgeToken)
plain_tokens body [] [] = ok []
plain_tokens body (nonce ∷ nonces) (signature ∷ signatures) = do
  tokens ← plain_tokens body nonces signatures
  ok (new_token body nonce signature ∷ tokens)
plain_tokens body _ _ = err uncaught

-- A nonce with what `blind` returned for it.
pub record Blinded : Type 0 where
  pub nonce : String
  pub message : Bytes
  pub inv : ℕ

module _ (c : Primitives) where
  unfoldable pub finalize_one :
      String → TokenIssueResponse → Blinded → String → Result WalletError AgeToken
  unfolding lift_decode finalize token_message b64u_encode
  finalize_one public_key body b blind_sig = do
    raw ← or_uncaught (lift_decode (b64u_decode blind_sig))
    signature ← finalized (finalize c public_key (token_message b.nonce) raw b.inv)
    ok (new_token body b.nonce (b64u_encode signature))

  unfoldable pub blind_tokens :
      String
      → TokenIssueResponse
      → List Blinded
      → (signatures : List String) → Result WalletError (List AgeToken)
  unfolding finalize_one
  blind_tokens public_key body [] [] = ok []
  blind_tokens public_key body (b ∷ bs) (signature ∷ signatures) = do
    token ← finalize_one public_key body b signature
    tokens ← blind_tokens public_key body bs signatures
    ok (token ∷ tokens)
  blind_tokens public_key body _ _ = err uncaught

  -- The rsabssa branch of `mint`, after every nonce was blinded; `post` is the issuer's answer,
  -- none for a status other than 200.
  unfoldable pub mint_blind :
      (post : TokenIssueRequest → Option TokenIssueResponse)
      → String
      → AgeClaim
      → AssuranceLevel
      → String
      → AdvertisedKey
      → List Blinded
      → Result WalletError (List AgeToken)
  unfolding b64u_encode blind_tokens exactly_one_payload
  mint_blind post enrollment_id claim level epoch key blinded = do
    public_key ← present key.public_key uncaught
    let request =
        blind_request enrollment_id claim level epoch (map (λ b. b64u_encode b.message) blinded)
    valid ← or_uncaught (exactly_one_payload request)
    body ← present (post valid) issuance_failed
    blind_tokens public_key body blinded body.signatures

-- The other branch of `mint`.
unfoldable pub mint_plain :
    (post : TokenIssueRequest → Option TokenIssueResponse)
    → String
    → AgeClaim
    → AssuranceLevel
    → String
    → (nonces : List String) → Result WalletError (List AgeToken)
unfolding plain_tokens exactly_one_payload
mint_plain post enrollment_id claim level epoch nonces = do
  valid ← or_uncaught (exactly_one_payload (plain_request enrollment_id claim level epoch nonces))
  body ← present (post valid) issuance_failed
  plain_tokens body nonces body.signatures

-- A nonce with the salt and the draws that blind its message.
pub record Randomness : Type 0 where
  pub nonce : String
  pub salt : Bytes
  pub draws : List ℕ

abbrev join :
    String
    → Option (Result RsaError (Bytes × ℕ))
    → Option (Result WalletError (List Blinded))
    → Option (Result WalletError (List Blinded))
join nonce none rest = none
join nonce (some (err e)) rest = some (err uncaught)
join nonce (some (ok (message, inv))) none = none
join nonce (some (ok (message, inv))) (some (err e)) = some (err e)
join nonce (some (ok (message, inv))) (some (ok bs)) =
    some (ok (record { nonce = nonce; message = message; inv = inv } ∷ bs))

module _ (c : Primitives) where
  -- The loop over the nonces that blinds each; none where some draws do not end their loop.
  unfoldable pub blind_all : String → List Randomness → Option (Result WalletError (List Blinded))
  unfolding blind token_message
  blind_all public_key [] = some (ok [])
  blind_all public_key (r ∷ rs) =
      join r.nonce (blind c public_key (token_message r.nonce) r.salt r.draws)
        (blind_all public_key rs)

  abbrev after_blinding :
      {A : Type 0}
      → (List Blinded → Result WalletError A)
      → Option (Result WalletError (List Blinded))
      → Option (Result WalletError A)
  after_blinding f none = none
  after_blinding f (some (err e)) = some (err e)
  after_blinding f (some (ok bs)) = some (f bs)

  unfoldable pub mint_with :
      (post : TokenIssueRequest → Option TokenIssueResponse)
      → String
      → AgeClaim
      → AssuranceLevel
      → String
      → List Randomness
      → AdvertisedKey
      → Option (Result WalletError (List AgeToken))
  unfolding blind_all mint_blind mint_plain
  mint_with post enrollment_id claim level epoch randomness key = elim key.algorithm [
    | none ↦ some (err uncaught)
    | some algorithm ↦ elim (algorithm == rsabssa_algorithm) [
      | true ↦ elim key.public_key [
        | none ↦ some (err uncaught)
        | some public_key ↦
            after_blinding (mint_blind c post enrollment_id claim level epoch key)
              (blind_all public_key randomness)
      ]
      | false ↦
          some (mint_plain post enrollment_id claim level epoch (map (λ r. r.nonce) randomness))
    ]
  ]

  unfoldable pub mint :
      (metadata : Option (List AdvertisedKey))
      → (post : TokenIssueRequest → Option TokenIssueResponse) → String
      → AgeClaim
      → AssuranceLevel
      → String
      → List Randomness
      → Option (Result WalletError (List AgeToken))
  unfolding issuer_key_for mint_with
  mint metadata post enrollment_id claim level epoch randomness =
      elim (issuer_key_for metadata claim level epoch) [
        | err e ↦ some (err e)
        | ok key ↦ mint_with post enrollment_id claim level epoch randomness key
      ]
