-- ===== src/Registry/Store/Lookup.antt =====
-- What the lookups of an accepted registry return, against the list it was made from.
use blind_age.Base.{
  String, Option, none, some, List, [], ◌∷◌, ◌≡◌, ◌≢◌, refl, ◌∙◌, arith, find, All, ◌==◌, string_eq,
  eq_iff, if◌then◌else◌, subst, ap, Bool-cases, inl, inr,
}
use blind_age.Base.Dict.{Dict, get, put, get-put}
use blind_age.Base.Result.{ok, >>=-eq-ok}
use blind_age.Registry.Store.{
  TrustRegistry, by_id, from_issuers, from_dict, issuers_of, get_issuer, validate_issuers,
  check_issuers, check_registry_keys,
}
use blind_age.Registry.Store.Accumulate.{Distinct}
use blind_age.Registry.Store.Keys.{issuer_ids}
use blind_age.Registry.Store.Validity.{from_issuers-IsWellFormed}
use blind_age.Schemas.Issuer.{IssuerMetadata, purpose_eq}

abbrev or_else : {A : Type 0} → Option A → Option A → Option A
or_else none other = other
or_else (some a) other = some a

named : String → List IssuerMetadata → Option IssuerMetadata
named j is = find (λ i. i.issuer_id == j) is

find-absent :
    (is : List IssuerMetadata) (j : String) → All (λ y. y ≢ j) (issuer_ids is) → named j is ≡ none
unfolding named find
find-absent [] j h = refl
find-absent (i ∷ is) j h =
    let ih = find-absent is j h.1 in ground (arith, ih, eq_iff i.issuer_id j, h.0)

first_wins :
    (i : IssuerMetadata) (is : List IssuerMetadata) (j : String) (old : Option IssuerMetadata)
    → (i.issuer_id ≡ j → named j is ≡ none)
    → or_else (named j is) (if i.issuer_id == j then some i else old)
      ≡ or_else (named j (i ∷ is)) old
unfolding named find
first_wins i is j old h = elim (Bool-cases (i.issuer_id == j)) [
  | inl e ↦ rw (e, h ((eq_iff i.issuer_id j).0 e)) refl
  | inr e ↦ rw e refl
]

or_else-none : (o : Option IssuerMetadata) → or_else o none ≡ o
or_else-none none = refl
or_else-none (some i) = refl

from_issuers-result :
    (is : List IssuerMetadata) (r : TrustRegistry)
    → from_issuers is ≡ ok r
    → r ≡ record { issuers = by_id [] is }
unfolding from_issuers
from_issuers-result is r h =
    let (_, _, rest) = >>=-eq-ok (validate_issuers is) _ h in
    let (m, _, others) = >>=-eq-ok (check_issuers [] [] is) _ rest in
    let (_, _, last) = >>=-eq-ok (check_registry_keys m is) _ others in ground arith

get-by_id :
    (is : List IssuerMetadata) (d : Dict IssuerMetadata) (j : String)
    → Distinct (issuer_ids is)
    → get (by_id d is) j ≡ or_else (named j is) (get d j)
unfolding by_id named find
get-by_id [] d j h = refl
get-by_id (i ∷ is) d j h =
    let ih = get-by_id is (put d i.issuer_id i) j h.1 in
    let stored = get-put d i.issuer_id j i in
    let absent = λ (e : i.issuer_id ≡ j).
      find-absent is j (subst (λ k. All (λ y. y ≢ k) (issuer_ids is)) e h.0) in
    rw (ih, stored) (first_wins i is j (get d j) absent)

-- `get_issuer` on an accepted registry returns the issuer of the list with the identifier, if any.
pub get_issuer-from_dict :
    (is : List IssuerMetadata) (r : TrustRegistry) (issuer_id : String)
    → from_dict (issuers_of is) ≡ ok r
    → get_issuer r issuer_id ≡ find (λ i. i.issuer_id == issuer_id) is
unfolding from_dict get_issuer named
get_issuer-from_dict is r issuer_id h =
    let e = from_issuers-result is r h in
    let ok_is = from_issuers-IsWellFormed is in
    let found = get-by_id is [] issuer_id ((ok_is.0 (h ∙ ap ok e)).1) in
    rw e (found ∙ or_else-none (named issuer_id is))
