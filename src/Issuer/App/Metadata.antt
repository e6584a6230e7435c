-- ===== src/Issuer/App/Metadata.antt =====
-- GET /.well-known/blindage-issuer.json and GET /health (blindage/issuer/app.py).
use blind_age.Base.{
  String, Option, none, some, List, [], ◌∷◌, ◌++◌, contains, if◌then◌else◌, string_eq,
}
use blind_age.Base.Result.{ok, ◌>>=◌}
use blind_age.Base.Text.{sorted}
use blind_age.Issuer.App.{Issuer, Reply, uncaught}
use blind_age.Issuer.Keys.{Entry, all_entries, vc_entries, public_material, field_of}

-- An entry of `keys`; `claim` is null for a vc key.
pub record KeyDocument : Type 0 where
  pub key_id : String
  pub purpose : String
  pub algorithm : String
  pub public_key : String
  pub claim : Option String
  pub assurance_level : String
  pub epoch : String
  pub valid_from : String
  pub valid_until : String

pub record IssuerDocument : Type 0 where
  pub version : String
  pub issuer_id : String
  pub legal_name : String
  pub jurisdiction : String
  pub supported_claims : List String
  pub assurance_levels : List String
  pub keys : List KeyDocument
  pub status : String
  pub valid_from : String
  pub valid_until : String

-- The parts that both loops write.
unfoldable pub key_document : (purpose : String) → Entry → Option String → Reply KeyDocument
unfolding public_material
key_document purpose e claim = do
  (algorithm, public_key) ← uncaught (public_material e)
  key_id ← uncaught (field_of e.key_id)
  level ← uncaught (field_of e.assurance_level)
  epoch ← uncaught (field_of e.epoch)
  valid_until ← uncaught (field_of e.valid_until)
  ok record {
    key_id = key_id;
    purpose = purpose;
    algorithm = algorithm;
    public_key = public_key;
    claim = claim;
    assurance_level = level;
    epoch = epoch;
    valid_from = "2026-07-01T00:00:00Z";
    valid_until = valid_until;
  }

unfoldable pub token_document : Entry → Reply KeyDocument
unfolding key_document
token_document e = do
  claim ← uncaught (field_of e.claim)
  key_document "token_signing" e (some claim)

unfoldable pub vc_document : Entry → Reply KeyDocument
unfolding key_document
vc_document e = key_document "vc_signing" e none

-- One document for each entry; the first exception ends the loop.
unfoldable pub documents : {A B : Type 0} → (A → Reply B) → List A → Reply (List B)
documents f [] = ok []
documents f (e ∷ es) = do first ← f e; rest ← documents f es; ok (first ∷ rest)

-- The distinct texts of a list: `set(...)`, before `sorted`.
unfoldable pub distinct : List String → List String
unfolding contains
distinct [] = []
distinct (t ∷ ts) = let rest = distinct ts in if contains rest t then rest else t ∷ rest

unfoldable pub well_known : Issuer → Reply IssuerDocument
unfolding documents token_document vc_document distinct sorted
well_known issuer = do
  tokens ← documents token_document (all_entries issuer.key_store)
  credentials ← documents vc_document (vc_entries issuer.key_store)
  claims ← documents (λ (e : Entry). uncaught (field_of e.claim)) (all_entries issuer.key_store)
  levels ←
      documents (λ (e : Entry). uncaught (field_of e.assurance_level))
        (all_entries issuer.key_store)
  ok record {
    version = "1.0";
    issuer_id = issuer.issuer_id;
    legal_name = "BlindAge Dev Issuer";
    jurisdiction = "US";
    supported_claims = sorted (distinct claims);
    assurance_levels = sorted (distinct levels);
    keys = tokens ++ credentials;
    status = "active";
    valid_from = "2026-01-01T00:00:00Z";
    valid_until = "2027-01-01T00:00:00Z";
  }
