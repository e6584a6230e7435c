-- ===== src/Issuer/App/Issue.antt =====
-- What `POST /v1/tokens/issue` has checked when it signs.
use blind_age.Base.{
  ℕ, ◌<◌, ◌≤◌, String, true, Option, none, some, List, [], ◌∷◌, ◌≡◌, ◌==◌, refl, ap, sym, arith,
  map, length, contains, Bool-cases, inl, inr, ltb, leb, if◌then◌else◌, string_eq, suc,
}
use blind_age.Base.Result.{ok, present, guard, >>=-eq-ok, guard-eq-ok, present-eq-ok, ok_injective}
use blind_age.Crypto.Primitives.{Primitives}
use blind_age.Crypto.Verifiers.{rsabssa_algorithm}
use blind_age.Issuer.App.{
  Clock, Issuer, Detail, http, server_error, unknown_enrollment, enrollment_expired, not_eligible,
  no_signing_key, blinded_messages_required, nonces_required, batch_limit, max_batch, uncaught,
  enrolled_at, key_tuple, items, check_batch, sign_one, sign_all, Signed, issue_blind, issue_plain,
  issue_with, issue,
}
use blind_age.Issuer.Eligibility.{eligible_claims}
use blind_age.Issuer.Keys.{IssuerKeyStore, algorithm_for, blind_signer_for, signer_for}
use blind_age.Issuer.Storage.{EnrollmentStore, Enrollment, find_enrollment}
use blind_age.Schemas.Enums.{claim_eq}
use blind_age.Schemas.Issuer.{Time}
use blind_age.Schemas.Token.{TokenIssueRequest, TokenIssueResponse, truthy}

-- A batch that may be signed: at least one item, at most the limit.
abbrev pub BatchSized : List String → Type 0
BatchSized batch = (0 < length batch) × (length batch ≤ max_batch)

truthy-items : (batch : Option (List String)) → truthy batch ≡ true → 0 < length (items batch)
truthy-items none h = ground arith
truthy-items (some []) h = ground arith
truthy-items (some (x ∷ xs)) h = omega arith

within : (n : ℕ) → leb n max_batch ≡ true → n ≤ max_batch
within n h = ground arith

before : (a b : ℕ) → ltb a b ≡ true → a < b
before a b h = ground arith

check_batch-BatchSized :
    (batch : Option (List String)) (missing : Detail) {checked : List String}
    → check_batch batch missing ≡ ok checked
    → (checked ≡ items batch) × BatchSized checked
unfolding check_batch
check_batch-BatchSized batch missing h =
    let (_, first, rest) = >>=-eq-ok (guard (truthy batch) (http 422 missing)) _ h in
    let (_, second, last) =
      >>=-eq-ok (guard (leb (length (items batch)) max_batch) (http 422 batch_limit)) _ rest in
    let sized = truthy-items batch ((guard-eq-ok (truthy batch) (http 422 missing)).0 first) in
    let bounded =
      within (length (items batch))
        ((guard-eq-ok (leb (length (items batch)) max_batch) (http 422 batch_limit)).0 second) in
    let same : items batch ≡ _ = cc in (sym same, rw (← same) (sized, bounded))

length-sign_all :
    (c : Primitives) (key : String) (batch signatures : List String)
    → sign_all c key batch ≡ ok signatures
    → length signatures ≡ length batch
unfolding sign_all
length-sign_all c key [] signatures h = let same : [] ≡ signatures = cc in rw (← same) refl
length-sign_all c key (bm ∷ bms) signatures h =
    let (one, _, rest) = >>=-eq-ok (sign_one c key bm) _ h in
    let (others, all, last) = >>=-eq-ok (sign_all c key bms) _ rest in
    let same : one ∷ others ≡ signatures = cc in
    rw (← same) (ap suc (length-sign_all c key bms others all))

length-map : {A B : Type 0} (f : A → B) (xs : List A) → length (map f xs) ≡ length xs
length-map f [] = refl
length-map f (x ∷ xs) = ap suc (length-map f xs)

-- The batch that a key of the algorithm signs.
abbrev pub payload : String → TokenIssueRequest → List String
payload algorithm req =
    if algorithm == rsabssa_algorithm then items req.blinded_messages else items req.nonces

abbrev Answers : List String → Signed → Type 0
Answers batch signed = (length signed.2 ≡ length batch) × BatchSized batch

issue_blind-Answers :
    (c : Primitives) (keys : IssuerKeyStore) (req : TokenIssueRequest) (signed : Signed)
    → issue_blind c keys req ≡ ok signed
    → Answers (items req.blinded_messages) signed
unfolding issue_blind
issue_blind-Answers c keys req signed h =
    let (batch, first, h₁) =
      >>=-eq-ok (check_batch req.blinded_messages blinded_messages_required) _ h in
    let (found, _, h₂) = >>=-eq-ok (uncaught (blind_signer_for keys (key_tuple req))) _ h₁ in
    let (signer, _, h₃) = >>=-eq-ok (present found server_error) _ h₂ in
    let (signatures, fourth, last) = >>=-eq-ok (sign_all c signer.1 batch) _ h₃ in
    let (whole, sized) =
      check_batch-BatchSized req.blinded_messages blinded_messages_required first in
    let same : (signer.0, signer.2, signatures) ≡ signed = cc in
    rw (← whole, ← same) (length-sign_all c signer.1 batch signatures fourth, sized)

issue_plain-Answers :
    (c : Primitives) (keys : IssuerKeyStore) (req : TokenIssueRequest) (signed : Signed)
    → issue_plain c keys req ≡ ok signed
    → Answers (items req.nonces) signed
unfolding issue_plain
issue_plain-Answers c keys req signed h =
    let (batch, first, h₁) = >>=-eq-ok (check_batch req.nonces nonces_required) _ h in
    let (found, _, h₂) = >>=-eq-ok (uncaught (signer_for c keys (key_tuple req))) _ h₁ in
    let (signer, _, last) = >>=-eq-ok (present found server_error) _ h₂ in
    let (whole, sized) = check_batch-BatchSized req.nonces nonces_required first in
    let same = ok_injective last in rw (← whole, ← same) (length-map _ batch, sized)

issue_with-Answers :
    (c : Primitives) (keys : IssuerKeyStore) (req : TokenIssueRequest) (algorithm : String)
    (signed : Signed)
    → issue_with c keys req algorithm ≡ ok signed
    → Answers (payload algorithm req) signed
unfolding issue_with
issue_with-Answers c keys req algorithm signed h =
    elim (Bool-cases (algorithm == rsabssa_algorithm)) [
      | inl e ↦ rw e (issue_blind-Answers c keys req signed (rw (issue_with, e) at h))
      | inr e ↦ rw e (issue_plain-Answers c keys req signed (rw (issue_with, e) at h))
    ]

abbrev pub Authorised : Clock → EnrollmentStore → TokenIssueRequest → Time → Type 0
Authorised clock store req now =
    (row : Enrollment) × (find_enrollment store req.enrollment_id ≡ some row)
    × (now < row.expires_at)
    × (contains (eligible_claims row.date_of_birth (clock.date_of now)) req.claim ≡ true)

pub enrolled_at-unexpired :
    (store : EnrollmentStore) (enrollment_id : String) (now : Time) {row : Enrollment}
    → enrolled_at store enrollment_id now ≡ ok row
    → (find_enrollment store enrollment_id ≡ some row) × (now < row.expires_at)
unfolding enrolled_at
enrolled_at-unexpired store enrollment_id now h =
    let (row, first, rest) =
      >>=-eq-ok (present (find_enrollment store enrollment_id) (http 404 unknown_enrollment)) _ h in
    let (_, second, last) =
      >>=-eq-ok (guard (ltb now row.expires_at) (http 403 enrollment_expired)) _ rest in
    let unexpired = (guard-eq-ok (ltb now row.expires_at) (http 403 enrollment_expired)).0 second in
    let same = ok_injective last in
    rw (← same) (
      present-eq-ok (find_enrollment store enrollment_id) (http 404 unknown_enrollment) first,
      before now row.expires_at unexpired,
    )

-- When `issue` returns, the enrollment exists, has not expired and is eligible for the claim, the
-- key store has a key for the requested tuple, the response repeats the tuple, and there is one
-- signature for each item of the batch that the key's algorithm asks for, which has at least one
-- and at most 100 items.
pub issue-Authorised :
    (c : Primitives) (clock : Clock) (issuer : Issuer) (store : EnrollmentStore)
    → (req : TokenIssueRequest) (now : Time) (response : TokenIssueResponse)
    → issue c clock issuer store req now ≡ ok response
    → Authorised clock store req now
      × (algorithm : String) × (algorithm_for issuer.key_store (key_tuple req) ≡ some algorithm)
      × (key_tuple req ≡ record {
        claim = response.claim;
        assurance_level = response.assurance_level;
        epoch = response.epoch;
      })
      × (length response.signatures ≡ length (payload algorithm req))
      × BatchSized (payload algorithm req)
unfolding issue
issue-Authorised c clock issuer store req now response h =
    let (row, first, h₁) = >>=-eq-ok (enrolled_at store req.enrollment_id now) _ h in
    let fits = contains (eligible_claims row.date_of_birth (clock.date_of now)) req.claim in
    let (_, second, h₂) = >>=-eq-ok (guard fits (http 403 not_eligible)) _ h₁ in
    let (algorithm, third, h₃) =
      >>=-eq-ok (present (algorithm_for issuer.key_store (key_tuple req)) (http 409 no_signing_key))
        _ h₂ in
    let (signed, fourth, h₄) = >>=-eq-ok (issue_with c issuer.key_store req algorithm) _ h₃ in
    let (expires_at, _, last) = >>=-eq-ok (present (clock.parse_time signed.1) server_error) _ h₄ in
    let (found, unexpired) = enrolled_at-unexpired store req.enrollment_id now first in
    let (count, sized) = issue_with-Answers c issuer.key_store req algorithm signed fourth in
    let same = ok_injective last in
    rw (← same) (
      (row, found, unexpired, (guard-eq-ok fits (http 403 not_eligible)).0 second),
      algorithm,
      present-eq-ok (algorithm_for issuer.key_store (key_tuple req)) (http 409 no_signing_key)
          third,
      refl,
      count,
      sized,
    )
