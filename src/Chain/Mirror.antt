-- ===== src/Chain/Mirror.antt =====
-- `create_mirror` (blindage/registry_mirror/app.py). The directory is a function from file names to
-- texts, or to what `read_text` raises.
use blind_age.Base.{String, ℕ, Option, some, List, ◌==◌, list_eq, nat_eq, ◌≡◌, sym, ap, ◌∙◌}
use blind_age.Base.Equality.{list_beq_iff}
use blind_age.Base.Result.{
  Result, ok, err, present, guard, ◌>>=◌, ◌>>◌, >>=-eq-ok, guard-eq-ok, present-eq-ok, ok_injective,
}
use blind_age.Crypto.Primitives.{Primitives}
use blind_age.Registry.Load.{
  FileText, text, missing, undecodable, Environment, Anchor, no_anchor, anchored, registry_keccak,
}
use blind_age.Canonical.{Json}

pub data MirrorError : Type 0 where
  not_available anchor_unavailable anchor_mismatch server_error : MirrorError

-- The status of the `HTTPException`, or of the answer to an exception that is not caught.
abbrev pub status : MirrorError → ℕ
status not_available = 404
status anchor_unavailable = 503
status anchor_mismatch = 503
status server_error = 500

unfoldable pub served_text : FileText → Result MirrorError String
served_text (text t) = ok t
served_text missing = err not_available
served_text undecodable = err server_error

served_text-eq-ok : (f : FileText) {t : String} → served_text f ≡ ok t → f ≡ text t
unfolding served_text
served_text-eq-ok (text s) h = ap text (ok_injective h)
served_text-eq-ok missing h = cc
served_text-eq-ok undecodable h = cc

module _ (v : Environment) (c : Primitives) where
  -- `_read`, which catches an `OSError` only.
  unfoldable pub read : String → Result MirrorError String
  unfolding served_text
  read name = served_text (v.read_text name)

  -- The gate on an anchored mirror: the anchor is read before the text is parsed.
  unfoldable pub gate : Anchor → String → Result MirrorError (Unit {0})
  unfolding registry_keccak
  gate no_anchor source = ok tt
  gate (anchored onchain) source = do
    hash ← present onchain anchor_unavailable
    data_ ← present (v.parse source) anchor_unavailable
    guard (registry_keccak v c data_ == hash) anchor_mismatch

  -- GET /registry.json
  unfoldable pub registry_json : Anchor → Result MirrorError String
  unfolding read gate
  registry_json anchor = do source ← read "registry.json"; gate anchor source; ok source

  -- GET /registry.sig and GET /registry.sig.mldsa
  abbrev pub registry_sig : Result MirrorError String
  unfolding read
  registry_sig = read "registry.sig"

  abbrev pub registry_sig_mldsa : Result MirrorError String
  unfolding read
  registry_sig_mldsa = read "registry.sig.mldsa"

-- A registry that an anchored mirror serves is the file's text, which parses to data with the hash
-- that the anchor holds.
pub registry_json-anchored :
    (v : Environment) (c : Primitives) (onchain : Option (List ℕ)) (served : String)
    → registry_json v c (anchored onchain) ≡ ok served
    → (v.read_text "registry.json" ≡ text served)
      × (data_ : Json) × (v.parse served ≡ some data_)
      × (onchain ≡ some (registry_keccak v c data_))
unfolding registry_json gate read
registry_json-anchored v c onchain served h =
    let (found, first, h₁) = >>=-eq-ok (read v c "registry.json") _ h in
    let (_, second, last) = >>=-eq-ok (gate v c (anchored onchain) found) _ h₁ in
    let (hash, third, h₂) = >>=-eq-ok (present onchain anchor_unavailable) _ second in
    let (data_, fourth, fifth) = >>=-eq-ok (present (v.parse found) anchor_unavailable) _ h₂ in
    let same = ok_injective last in
    let hashes = (guard-eq-ok (registry_keccak v c data_ == hash) anchor_mismatch).0 fifth in
    let equal = (list_beq_iff (registry_keccak v c data_) hash).0 hashes in
    rw (← same) (
      served_text-eq-ok (v.read_text "registry.json") first,
      data_,
      present-eq-ok (v.parse found) anchor_unavailable fourth,
      present-eq-ok onchain anchor_unavailable third ∙ ap some (sym equal),
    )
