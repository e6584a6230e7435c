-- ===== src/Wallet/Vault.antt =====
-- The wallet's encrypted file (blindage/wallet/vault.py). Argon2, ChaCha20-Poly1305, the JSON of the
-- two models and the random octets are parameters; the directory and the temporary file are left
-- out but for whether they could be written.
pub mod RoundTrip
use blind_age.Base.{ℕ, String, Bool, true, false, Option, none, some, List, [], ◌∷◌, All, ◌<◌, ◌≡◌}
use blind_age.Base.Result.{Result, ok, err, present, ◌>>=◌}
use blind_age.Base.Text.{Bytes, encode}
use blind_age.Crypto.Base64.{b64u_encode, b64u_decode}
use blind_age.Wallet.Client.{VaultData}

-- The JSON object of the file; `load` reads three of its texts.
pub record Envelope : Type 0 where
  pub kdf : String
  pub salt : String
  pub nonce : String
  pub ciphertext : String

-- The object that `save` dumps.
unfoldable pub envelope_of : (salt nonce ciphertext : Bytes) → Envelope
unfolding b64u_encode
envelope_of salt nonce ciphertext = record {
  kdf = "argon2id";
  salt = b64u_encode salt;
  nonce = b64u_encode nonce;
  ciphertext = b64u_encode ciphertext;
}

-- A `VaultError`; what the file system raises; what Argon2 raises, which `load` does not catch.
pub data VaultError : Type 0 where
  cannot_open os_error hashing_error : VaultError

-- `hash_secret_raw` gives none where it raises, as for a salt that is too short. `decrypt` gives none for an `InvalidTag` or a key or nonce of a wrong size, `loads` for a text that
-- is no JSON or has no such keys, and `validate` where pydantic refuses.
pub record VaultCrypto : Type 0 where
  pub hash_secret_raw : (secret salt : Bytes) → Option Bytes
  pub encrypt : (key nonce plaintext : Bytes) → Bytes
  pub decrypt : (key nonce ciphertext : Bytes) → Option Bytes
  pub dumps : Envelope → String
  pub loads : String → Option Envelope
  pub model_dump_json : VaultData → String
  pub validate : Bytes → Option VaultData

-- `VaultData()`
abbrev pub empty_vault : VaultData
empty_vault = record { enrollments = []; tokens = []; credentials = [] }

module _ (v : VaultCrypto) where
  -- `_derive_key`
  unfoldable pub derive_key : (passphrase : String) (salt : Bytes) → Result VaultError Bytes
  unfolding encode
  derive_key passphrase salt = present (v.hash_secret_raw (encode passphrase) salt) hashing_error

  abbrev opened : {A E : Type 0} → Result E A → Result VaultError A
  opened (ok a) = ok a
  opened (err e) = err cannot_open

  -- The body of the `try` of `load`.
  unfoldable pub open_vault : (passphrase file : String) → Result VaultError VaultData
  unfolding derive_key b64u_decode
  open_vault passphrase file = do
    envelope ← present (v.loads file) cannot_open
    salt ← opened (b64u_decode envelope.salt)
    key ← derive_key passphrase salt
    nonce ← opened (b64u_decode envelope.nonce)
    ciphertext ← opened (b64u_decode envelope.ciphertext)
    plaintext ← present (v.decrypt key nonce ciphertext) cannot_open
    present (v.validate plaintext) cannot_open

  -- `load`; none is a file that does not exist.
  unfoldable pub load : (passphrase : String) (file : Option String) → Result VaultError VaultData
  unfolding open_vault
  load passphrase none = ok empty_vault
  load passphrase (some file) = open_vault passphrase file

  -- The text that `save` writes.
  unfoldable pub sealed :
      (passphrase : String) → VaultData → (salt nonce : Bytes) → Result VaultError String
  unfolding derive_key envelope_of encode
  sealed passphrase data_ salt nonce = do
    key ← derive_key passphrase salt
    let ciphertext = v.encrypt key nonce (encode (v.model_dump_json data_))
    ok (v.dumps (envelope_of salt nonce ciphertext))

  -- The file after the temporary one was written and moved in its place, or was removed.
  abbrev replace_file :
      (file : Option String) (text : String) (replaced : Bool)
      → Option String × Result VaultError (Unit {0})
  replace_file file text true = (some text, ok tt)
  replace_file file text false = (file, err os_error)

  -- `save`: the file that stays, and whether the call returned. Where the temporary file cannot be
  -- written, given its mode or moved, it is removed and the old file stays.
  unfoldable pub save :
      (passphrase : String) (file : Option String)
      → VaultData
      → (salt nonce : Bytes) → (replaced : Bool) → Option String × Result VaultError (Unit {0})
  unfolding sealed
  save passphrase file data_ salt nonce replaced = elim (sealed passphrase data_ salt nonce) [
    | ok text ↦ replace_file file text replaced
    | err e ↦ (file, err e)
  ]
