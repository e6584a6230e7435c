-- ===== src/Registry/Tests.antt =====
-- The registry on small inputs.
use blind_age.Base.{
  String, true, none, some, [], ◌∷◌, ◌≡◌, ◌↔◌, ◌==◌, string_eq, refl, find, contains,
}
use blind_age.Base.Dict.{put}
use blind_age.Base.Result.{ok}
use blind_age.Canonical.{Json, null, canonical_json_bytes}
use blind_age.Crypto.Base64.{b64u_decode}
use blind_age.Registry.Load.{
  text, Environment, Arguments, no_anchor, load, check_signatures, check_anchor, hybrid_engaged,
}
use blind_age.Registry.Load.Gates.{MatchesAnchor, SignaturesPass, load-passes}
use blind_age.Registry.Signing.{
  classical_only, hybrid_preferred, verify_registry_signature, verify_registry_hybrid,
}
use blind_age.Registry.Signing.Policy.{SatisfiesPolicy, verify_registry_hybrid-SatisfiesPolicy}
use blind_age.Registry.Store.{
  by_id, from_issuers, from_dict, issuers_of, get_issuer, validate_issuers, check_issuers,
  check_registry_keys, validate_keys, check_keys, check_key, check_purpose, check_binding,
  check_material, check_collisions,
}
use blind_age.Registry.Store.Lookup.{get_issuer-from_dict}
use blind_age.Registry.Store.Validity.{IsWellFormed, from_issuers-IsWellFormed}
use blind_age.Samples.{toy, toy_issuer, toy_registry}
use blind_age.Schemas.Issuer.{IssuerMetadata, token_keys_need_binding, check_token_key}

from_issuers-IsWellFormed_example :
    (from_issuers (toy_issuer ∷ []) ≡ ok (record { issuers = by_id [] (toy_issuer ∷ []) }))
    ↔ IsWellFormed (toy_issuer ∷ [])
from_issuers-IsWellFormed_example = from_issuers-IsWellFormed (toy_issuer ∷ [])

loaded : from_dict (issuers_of (toy_issuer ∷ [])) ≡ ok toy_registry
unfolding from_dict from_issuers validate_issuers validate_keys token_keys_need_binding
    check_token_key check_issuers check_keys check_key check_purpose check_binding check_material
    check_registry_keys check_collisions contains by_id put
loaded = refl

get_issuer-from_dict_example :
    get_issuer toy_registry "i"
    ≡ find (λ (i : IssuerMetadata). i.issuer_id == "i") (toy_issuer ∷ [])
get_issuer-from_dict_example = get_issuer-from_dict (toy_issuer ∷ []) toy_registry "i" loaded

verify_registry_hybrid-SatisfiesPolicy_example :
    (verify_registry_hybrid toy null "AA" "AA" none none hybrid_preferred ≡ ok tt) ↔ (
      (verify_registry_signature toy null "AA" "AA" ≡ true)
      × SatisfiesPolicy toy null hybrid_preferred none none)
verify_registry_hybrid-SatisfiesPolicy_example =
    verify_registry_hybrid-SatisfiesPolicy toy null "AA" "AA" none none hybrid_preferred

abbrev files : Environment
files = record {
  read_text = λ p. text "AA";
  parse = λ t. some null;
  strip = λ t. t;
  fields = λ d. issuers_of (toy_issuer ∷ []);
  keccak = λ b. b;
}

abbrev arguments : Arguments
arguments = record {
  registry_path = "r";
  signature_path = "s";
  root_public_key = "AA";
  mldsa_signature_path = none;
  mldsa_root_public_key = none;
  policy = classical_only;
}

loads : load files toy arguments no_anchor ≡ ok toy_registry
unfolding load check_signatures check_anchor hybrid_engaged verify_registry_signature
    canonical_json_bytes b64u_decode from_dict from_issuers validate_issuers validate_keys
    token_keys_need_binding check_token_key check_issuers check_keys check_key check_purpose
    check_binding check_material check_registry_keys check_collisions contains by_id put
loads = refl

load-passes_example :
    (source : String) × (files.read_text "r" ≡ text source)
    × (data_ : Json) × (files.parse source ≡ some data_)
    × (signature : String) × (files.read_text "s" ≡ text signature)
    × SignaturesPass files toy arguments data_ (files.strip signature)
    × MatchesAnchor files toy no_anchor data_
    × (from_dict (files.fields data_) ≡ ok toy_registry)
load-passes_example = load-passes files toy arguments no_anchor toy_registry loads
