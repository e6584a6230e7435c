-- ===== src/Wallet/Tests.antt =====
-- The wallet on a small vault.
use blind_age.Wallet.Vault.{VaultCrypto, envelope_of, load, save}
use blind_age.Wallet.Vault.RoundTrip.{load-save}
use blind_age.Base.{ℕ, some, none, arith}
use blind_age.Base.{Bool, true, false, List, [], ◌∷◌, ◌≡◌, ◌≤◌, refl}
use blind_age.Base.Result.{ok}
use blind_age.Base.{contains, find, all}
use blind_age.Base.Int.{pos}
use blind_age.Base.Text.{encode}
use blind_age.Canonical.{canonical_json_bytes}
use blind_age.Crypto.Base64.{b64u_encode, b64u_decode}
use blind_age.Crypto.Bbs.Generate.{Draws}
use blind_age.Crypto.Bbs.Toy.{z1, toy_curve}
use blind_age.Crypto.Octets.{os2ip}
use blind_age.Issuer.Tests.{credential}
use blind_age.Schemas.Enums.{age_over_18, aal2, claim_eq, claim_value}
use blind_age.Schemas.Vc.{VcPresentation}
use blind_age.Wallet.Proving.{vc_prove}
use blind_age.Wallet.Proving.Laws.{Discloses, vc_prove-disclosed}
use blind_age.Samples.{toy_token, toy_challenge, toy_presentation}
use blind_age.Schemas.Enums.{assurance_at_least, assurance_order}
use blind_age.Wallet.Client.{StoredToken, VaultData}
use blind_age.Wallet.Spending.{usable, take_token, bind_domain, build_presentation}
use blind_age.Wallet.Spending.Laws.{Spends, build_presentation-Spends}

abbrev stored : Bool → StoredToken
stored spent = record { token = toy_token; spent = spent }

abbrev vault : List StoredToken → VaultData
vault tokens = record { enrollments = []; tokens = tokens; credentials = [] }

abbrev old : VaultData
old = vault (stored true ∷ stored false ∷ [])

abbrev new : VaultData
new = vault (stored true ∷ stored true ∷ [])

presented : build_presentation old toy_challenge 40 ≡ ok (new, toy_presentation)
unfolding build_presentation take_token usable assurance_at_least assurance_order
presented = refl

build_presentation-Spends_example :
    (40 ≤ toy_challenge.expires_at)
    × Spends toy_challenge old.tokens new.tokens toy_presentation.token
    × (toy_presentation.domain_binding ≡ bind_domain toy_challenge 40)
build_presentation-Spends_example =
    build_presentation-Spends old new toy_challenge 40 toy_presentation presented

abbrev proof_draws : Draws
proof_draws = record {
  r1 = 1;
  r2 = 1;
  e_tilde = 1;
  r1_tilde = 2;
  r3_tilde = 2;
  m_tildes = 1 ∷ 1 ∷ [];
}

abbrev shown : VcPresentation
shown = record {
  version = "1.0";
  presentation_type = "blindage.vc";
  required_claim = age_over_18;
  issuer_id = "i";
  issuer_key_id = "v";
  assurance_level = aal2;
  epoch = "e";
  proof =
      "AAAAAAAAAAAAAAAAAAAAAAAAAAAAAAAAAAAAAAAAAAAAAAAAAAAAAAAAAAAAAAABAAAAAAAAAAAAAAAAAAAAAAAAAAAAAAAAAAAAAAAAAAAAAAAAAAAAAAAAAAAAAAABAAAAAAAAAAAAAAAAAAAAAAAAAAAAAAAAAAAAAAAAAAAAAAAAAAAAAAAAAAAAAAACAAAAAAAAAAAAAAAAAAAAAAAAAAAAAAAAAAAAAAAAAAIAAAAAAAAAAAAAAAAAAAAAAAAAAAAAAAAAAAAAAAAAAQAAAAAAAAAAAAAAAAAAAAAAAAAAAAAAAAAAAAAAAAABAAAAAAAAAAAAAAAAAAAAAAAAAAAAAAAAAAAAAAAAAAIAAAAAAAAAAAAAAAAAAAAAAAAAAAAAAAAAAAAAAAAAAgAAAAAAAAAAAAAAAAAAAAAAAAAAAAAAAAAAAAAAAAAB";
  disclosed_indexes = pos 0 ∷ pos 1 ∷ pos 2 ∷ pos 5 ∷ [];
  domain_binding = bind_domain toy_challenge 40;
}

proved : vc_prove toy_curve z1 (λ t. "t") credential toy_challenge 40 proof_draws ≡ ok shown
unfolding vc_prove contains assurance_at_least assurance_order claim_value canonical_json_bytes
    encode b64u_encode b64u_decode find all os2ip
proved = refl

vc_prove-disclosed_example :
    (40 ≤ toy_challenge.expires_at)
    × (contains credential.claims age_over_18 ≡ true)
    × (assurance_at_least aal2 toy_challenge.minimum_assurance_level ≡ true)
    × Discloses credential toy_challenge 40 shown
vc_prove-disclosed_example =
    vc_prove-disclosed toy_curve z1 (λ t. "t") credential toy_challenge 40 proof_draws shown proved

abbrev salt : List ℕ
salt = 1 ∷ 2 ∷ 3 ∷ 4 ∷ 5 ∷ 6 ∷ 7 ∷ 8 ∷ []

-- A cipher and JSON that know one vault.
abbrev plain_crypto : VaultCrypto
plain_crypto = record {
  hash_secret_raw = λ secret salt. some salt;
  encrypt = λ key nonce plaintext. 7 ∷ 255 ∷ [];
  decrypt = λ key nonce ciphertext. some (encode "{}");
  dumps = λ envelope. "file";
  loads = λ file. some (envelope_of salt (3 ∷ []) (7 ∷ 255 ∷ []));
  model_dump_json = λ data_. "{}";
  validate = λ octets. some old;
}

load-save_example :
    load plain_crypto "p" (save plain_crypto "p" none old salt (3 ∷ []) true).0 ≡ ok old
load-save_example =
    load-save plain_crypto "p" none old salt (3 ∷ []) (7 ∷ 255 ∷ []) salt true
      (
        omega arith,
        (
          omega arith,
          (
            omega arith,
            (omega arith, (omega arith, (omega arith, (omega arith, (omega arith, tt))))),
          ),
        ),
      )
      (omega arith, tt) (omega arith, (omega arith, tt)) refl refl refl refl refl
