-- ===== src/Wallet/Proving/Laws.antt =====
-- What a presentation of `vc_prove` shows, and that the verifier reads the same messages.
use blind_age.Base.Int.{pos}
use blind_age.Base.{
  ℕ, zero, suc, ◌≤◌, ◌+◌, String, true, Option, none, some, List, [], ◌∷◌, map, not, ltb, ◌≡◌, refl,
  ap, subst, arith, contains, get_elem?, Bool-cases, inl, inr, ◌==◌, string_eq, eq_iff,
}
use blind_age.Base.Result.{ok, present, guard, >>=-eq-ok, guard-eq-ok, present-eq-ok, ok_injective}
use blind_age.Base.Sorting.{sorted-sorted}
use blind_age.Base.Text.{Bytes, encode}
use blind_age.Crypto.Base64.{b64u_encode, b64u_decode}
use blind_age.Crypto.Bbs.Curve.{Curve}
use blind_age.Crypto.Bbs.Generate.{Draws, bbs_proof_gen, pick}
use blind_age.Schemas.Enums.{claim_eq, claim_value, assurance_value, assurance_at_least}
use blind_age.Schemas.Issuer.{Time}
use blind_age.Schemas.Presentation.{VerifierChallenge}
use blind_age.Schemas.Vc.{
  AgeCredential, VcPresentation, vc_header, vc_message_vector, vc_presentation_header,
  credential_messages,
}
use blind_age.Verifier.Credential.{well_shaped, disclosed_messages}
use blind_age.Wallet.Client.{challenge_expired, claim_not_carried, assurance_too_low, uncaught}
use blind_age.Wallet.Proving.{
  index_of, claim_values, disclosed_at, wallet_messages, vc_prove, proved, decoded,
}
use blind_age.Wallet.Spending.{bind_domain}

abbrev next_index : Option ℕ → Option ℕ
next_index none = none
next_index (some i) = some (suc i)

next_index-eq-some :
    (o : Option ℕ) (i : ℕ) → next_index o ≡ some i → (j : ℕ) × (o ≡ some j) × (suc j ≡ i)
next_index-eq-some none i h = cc
next_index-eq-some (some j) i h = (j, refl, cc)

-- The index of a text is where it stands.
get_elem?-index_of :
    (x : String) (xs : List String) (i : ℕ) → index_of x xs ≡ some i → get_elem? xs i ≡ some x
unfolding index_of
get_elem?-index_of x [] i h = cc
get_elem?-index_of x (y ∷ ys) i h = elim (Bool-cases (y == x)) [
  | inl e ↦
      let h' : some 0 ≡ some i = rw (index_of, e) at h in
      let zero_is : 0 ≡ i = cc in rw (← zero_is) (ap (λ z. some z) ((eq_iff y x).0 e))
  | inr e ↦
      let h' : next_index (index_of x ys) ≡ some i = rw (index_of, e) at h in
      let (j, found, next) = next_index-eq-some (index_of x ys) i h' in
      rw (← next) (get_elem?-index_of x ys j found)
]

get_elem?-map :
    {A B : Type 0} (f : A → B) (xs : List A) (i : ℕ) {x : A}
    → get_elem? xs i ≡ some x
    → get_elem? (map f xs) i ≡ some (f x)
get_elem?-map f [] i h = cc
get_elem?-map f (y ∷ ys) zero h = let same : y ≡ _ = cc in ap (λ z. some (f z)) same
get_elem?-map f (y ∷ ys) (suc i) h = get_elem?-map f ys i h

-- The wallet proves knowledge of the messages that were signed.
wallet_messages-credential_messages :
    (credential : AgeCredential) → wallet_messages credential ≡ credential_messages credential
unfolding wallet_messages credential_messages claim_values vc_message_vector
wallet_messages-credential_messages credential =
    ap
      (λ texts. map encode (
        credential.issuer_id
        ∷ assurance_value credential.assurance_level
        ∷ credential.epoch
        ∷ texts))
      (sorted-sorted (map claim_value credential.claims))

-- The messages at the three fixed indexes and at the claim's.
pick-disclosed :
    (a b c : Bytes) (rest : List Bytes) (i : ℕ) (d : Bytes)
    → get_elem? rest i ≡ some d
    → pick (a ∷ b ∷ c ∷ rest) (0 ∷ 1 ∷ 2 ∷ suc (suc (suc i)) ∷ []) ≡ ok (a ∷ b ∷ c ∷ d ∷ [])
unfolding pick
pick-disclosed a b c rest i d h = rw (pick, h) refl

not_past : (a b : ℕ) → not (ltb b a) ≡ true → a ≤ b
not_past a b h = ground arith

-- The presentation repeats the challenge, has the shape that the verifier asks for, and stands for
-- the same messages at its indexes as the credential's signature.
abbrev pub Discloses : AgeCredential → VerifierChallenge → Time → VcPresentation → Type 0
Discloses credential challenge now p =
    (p.required_claim ≡ challenge.required_claim)
    × (p.domain_binding ≡ bind_domain challenge now)
    × (well_shaped p.disclosed_indexes ≡ true)
    × (indexes : List ℕ) × (p.disclosed_indexes ≡ map (λ j. pos j) indexes)
    × (messages : List Bytes) × (pick (credential_messages credential) indexes ≡ ok messages)
    × (disclosed_messages p (some credential.assurance_level) (some credential.epoch)
        ≡ some messages)

presented : AgeCredential → VerifierChallenge → Time → (i : ℕ) (proof : Bytes) → VcPresentation
presented credential challenge now i proof = record {
  version = "1.0";
  presentation_type = "blindage.vc";
  required_claim = challenge.required_claim;
  issuer_id = credential.issuer_id;
  issuer_key_id = credential.issuer_key_id;
  assurance_level = credential.assurance_level;
  epoch = credential.epoch;
  proof = b64u_encode proof;
  disclosed_indexes = disclosed_at i;
  domain_binding = bind_domain challenge now;
}

presented-Discloses :
    (credential : AgeCredential) (challenge : VerifierChallenge) (now : Time) (i : ℕ)
    (proof : Bytes)
    → index_of (claim_value challenge.required_claim) (claim_values credential) ≡ some i
    → Discloses credential challenge now (presented credential challenge now i proof)
unfolding presented credential_messages vc_message_vector claim_values disclosed_messages
    well_shaped
presented-Discloses credential challenge now i proof h =
    let texts = claim_values credential in
    let found = get_elem?-index_of (claim_value challenge.required_claim) texts i h in
    let position : 3 + i ≡ suc (suc (suc i)) = omega arith in
    (
      refl,
      refl,
      refl,
      0 ∷ 1 ∷ 2 ∷ suc (suc (suc i)) ∷ [],
      ap (λ n. pos 0 ∷ pos 1 ∷ pos 2 ∷ pos n ∷ []) position,
      _,
      pick-disclosed _ _ _ (map encode texts) i (encode (claim_value challenge.required_claim))
          (get_elem?-map encode texts i found),
      refl,
    )

module _ (k : Curve) (p1 : k.G1) (dump_time : Time → String) where
  -- A presentation that `vc_prove` returns answers the challenge in time with a claim of the
  -- credential and enough assurance; it has the shape that the verifier asks for; and what stands
  -- at its disclosed indexes among the signed messages is what the verifier reads from the
  -- presentation, the claimed one being the last.
  pub vc_prove-disclosed :
      (credential : AgeCredential) (challenge : VerifierChallenge) (now : Time) (draws : Draws)
      (p : VcPresentation)
      → vc_prove k p1 dump_time credential challenge now draws ≡ ok p
      → (now ≤ challenge.expires_at)
        × (contains credential.claims challenge.required_claim ≡ true)
        × (assurance_at_least credential.assurance_level challenge.minimum_assurance_level ≡ true)
        × Discloses credential challenge now p
  unfolding vc_prove presented
  vc_prove-disclosed credential challenge now draws p h =
      let live = not (ltb challenge.expires_at now) in
      let carried = contains credential.claims challenge.required_claim in
      let enough =
        assurance_at_least credential.assurance_level challenge.minimum_assurance_level in
      let index = index_of (claim_value challenge.required_claim) (claim_values credential) in
      let (_, first, h₁) = >>=-eq-ok (guard live challenge_expired) _ h in
      let (_, second, h₂) = >>=-eq-ok (guard carried claim_not_carried) _ h₁ in
      let (_, third, h₃) = >>=-eq-ok (guard enough assurance_too_low) _ h₂ in
      let (i, fourth, h₄) = >>=-eq-ok (present index uncaught) _ h₃ in
      let (signature, _, h₅) = >>=-eq-ok (decoded (b64u_decode credential.signature)) _ h₄ in
      let (proof, _, last) =
        >>=-eq-ok
          (proved (
            bbs_proof_gen k p1 credential.issuer_public_key signature vc_header
              (vc_presentation_header dump_time (bind_domain challenge now))
              (wallet_messages credential) (disclosed_at i) draws))
          _ h₅ in
      let found = present-eq-ok index uncaught fourth in
      (
        not_past now challenge.expires_at ((guard-eq-ok live challenge_expired).0 first),
        (guard-eq-ok carried claim_not_carried).0 second,
        (guard-eq-ok enough assurance_too_low).0 third,
        subst (Discloses credential challenge now) (ok_injective last)
            (presented-Discloses credential challenge now i proof found),
      )
