-- ===== src/Wallet/Vault/RoundTrip.antt =====
-- What `load` makes of the file that `save` leaves.
use blind_age.Base.{String, Bool, true, false, Option, some, All, ◌<◌, ◌≡◌, refl, if◌then◌else◌}
use blind_age.Base.Result.{ok}
use blind_age.Base.Text.{Bytes, encode}
use blind_age.Crypto.Base64.{b64u_decode}
use blind_age.Crypto.Base64.RoundTrip.{b64u_decode-b64u_encode}
use blind_age.Wallet.Client.{VaultData}
use blind_age.Wallet.Vault.{
  Envelope, VaultCrypto, envelope_of, derive_key, open_vault, load, sealed, save,
}

module _ (v : VaultCrypto) where
  -- The steps of opening, one hypothesis each.
  open_vault_lem :
      (passphrase file : String) (envelope : Envelope) (salt nonce ciphertext key plaintext : Bytes)
      (data_ : VaultData)
      → v.loads file ≡ some envelope
      → b64u_decode envelope.salt ≡ ok salt
      → b64u_decode envelope.nonce ≡ ok nonce
      → b64u_decode envelope.ciphertext ≡ ok ciphertext
      → v.hash_secret_raw (encode passphrase) salt ≡ some key
      → v.decrypt key nonce ciphertext ≡ some plaintext
      → v.validate plaintext ≡ some data_
      → open_vault v passphrase file ≡ ok data_
  unfolding open_vault derive_key
  open_vault_lem passphrase file envelope salt nonce c key p data_ json s n o hash dec back =
      rw (json, s, hash, n, o, dec, back) refl

  -- What is written, with the ciphertext known.
  sealed_lem :
      (passphrase : String) (data_ : VaultData) (salt nonce ciphertext key : Bytes)
      → v.hash_secret_raw (encode passphrase) salt ≡ some key
      → v.encrypt key nonce (encode (v.model_dump_json data_)) ≡ ciphertext
      → sealed v passphrase data_ salt nonce ≡ ok (v.dumps (envelope_of salt nonce ciphertext))
  unfolding sealed derive_key
  sealed_lem passphrase data_ salt nonce c key hash enc = rw (hash, enc) refl

  -- A vault that was saved is loaded by the same passphrase as it was, where salt, nonce and
  -- ciphertext are octets, the passphrase gives a key under which decryption undoes encryption, and
  -- the two kinds of JSON are read back as they were written. Where the file could not be replaced,
  -- loading gives what it gave before.
  pub load-save :
      (passphrase : String) (file : Option String) (data_ : VaultData)
      (salt nonce ciphertext key : Bytes) (replaced : Bool)
      → All (λ b. b < 256) salt
      → All (λ b. b < 256) nonce
      → All (λ b. b < 256) ciphertext
      → v.hash_secret_raw (encode passphrase) salt ≡ some key
      → v.encrypt key nonce (encode (v.model_dump_json data_)) ≡ ciphertext
      → v.decrypt key nonce ciphertext ≡ some (encode (v.model_dump_json data_))
      → v.loads (v.dumps (envelope_of salt nonce ciphertext))
        ≡ some (envelope_of salt nonce ciphertext)
      → v.validate (encode (v.model_dump_json data_)) ≡ some data_
      → load v passphrase (save v passphrase file data_ salt nonce replaced).0
        ≡ (if replaced then ok data_ else load v passphrase file)
  unfolding save load envelope_of
  load-save passphrase file data_ salt nonce c key false small small' octets hash enc dec json
        back =
      rw (save, sealed_lem passphrase data_ salt nonce c key hash enc) refl
  load-save passphrase file data_ salt nonce c key true small small' octets hash enc dec json back =
      rw (save, sealed_lem passphrase data_ salt nonce c key hash enc)
        (open_vault_lem passphrase (v.dumps (envelope_of salt nonce c)) (envelope_of salt nonce c)
          salt nonce c key (encode (v.model_dump_json data_)) data_ json
          (b64u_decode-b64u_encode salt small) (b64u_decode-b64u_encode nonce small')
          (b64u_decode-b64u_encode c octets) hash dec back)
