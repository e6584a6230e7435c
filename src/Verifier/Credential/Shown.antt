-- ===== src/Verifier/Credential/Shown.antt =====
-- What a credential presentation has to show, and the tests of `verify_vc_presentation` against it.
use blind_age.Base.{
  String, Bool, true, false, Option, none, some, List, ◌&&◌, ◌≡◌, ◌==◌, string_eq, refl, eq_iff, ap,
  ◌≤◌, [], ◌∷◌, arith, option_eq, &&-eq-true,
}
use blind_age.Base.Int.{ℤ, pos, int_eq, int_beq_iff}
use blind_age.Base.Equality.{option_beq_iff}
use blind_age.Base.Result.{Result, ok, err}
use blind_age.Base.Text.{Bytes, encode}
use blind_age.Crypto.Base64.{DecodeError, b64u_decode}
use blind_age.Crypto.Verifiers.{bbs_algorithm}
use blind_age.Registry.Store.{TrustRegistry, get_issuer, get_vc_key}
use blind_age.Schemas.Enums.{
  claim_beq_iff, active, assurance_order, assurance_at_least, assurance_value, claim_value,
  level_eq,
}
use blind_age.Schemas.Issuer.{IssuerKey, IssuerMetadata, Time}
use blind_age.Schemas.Vc.{VcPresentation, vc_header, vc_presentation_header}
use blind_age.Verifier.Challenge.{consume}
use blind_age.Verifier.Challenge.Laws.{consume-eq-some_iff}
use blind_age.Verifier.Credential.{
  ProofSystem, vc_issuer_is_trusted, well_shaped, disclosed_messages, proof_holds, caught,
}
use blind_age.Verifier.Session.{Session, go}
use blind_age.Verifier.Token.{within, level_at_least, challenge_matches}
use blind_age.Verifier.Token.Acceptance.{Within, Answers, expiry_ok-within}
use blind_age.Verifier.Token.Gate.{expiry_ok}

-- The four messages that a presentation names.
abbrev pub shown_messages : VcPresentation → List Bytes
shown_messages p =
    encode p.issuer_id
    ∷ encode (assurance_value p.assurance_level)
    ∷ encode p.epoch
    ∷ encode (claim_value p.required_claim)
    ∷ []

-- What an accepted presentation has shown: the trusted, active issuer's registered BBS key, valid
-- now, of the level and the epoch that the presentation names; indexes 0, 1, 2 and one more; a
-- pending challenge of the site for the claim, at that level or below; and a proof over the four
-- messages that these stand for.
pub record Shows (bbs : ProofSystem) (registry : TrustRegistry) (trusted audience : String)
    (s : Session) (p : VcPresentation) (now consume_now : Time) : Type 0 where
  pub issuer : IssuerMetadata
  pub registered : get_issuer registry p.issuer_id ≡ some issuer
  pub is_active : issuer.status ≡ active
  pub is_trusted : p.issuer_id ≡ trusted
  pub key : IssuerKey
  pub has_key : get_vc_key registry p.issuer_id p.issuer_key_id ≡ some key
  pub has_algorithm : key.algorithm ≡ bbs_algorithm
  pub last_index : ℤ
  pub indexes : p.disclosed_indexes ≡ pos 0 ∷ pos 1 ∷ pos 2 ∷ last_index ∷ []
  pub binds_level : key.assurance_level ≡ some p.assurance_level
  pub binds_epoch : key.epoch ≡ some p.epoch
  pub valid_now : Within key.valid_from key.valid_until now
  pub for_site : p.domain_binding.audience ≡ audience
  pub answers : Answers s.challenges p.domain_binding p.required_claim consume_now
  pub enough :
      assurance_order answers.challenge.minimum_assurance_level ≤ assurance_order p.assurance_level
  pub proof : Bytes
  pub decoded : b64u_decode p.proof ≡ ok proof
  pub holds :
      bbs.proof_verify key.public_key proof vc_header
        (vc_presentation_header bbs.dump_time p.domain_binding)
        (shown_messages p)
        p.disclosed_indexes
      ≡ some true

pub well_shaped-indexes :
    (is : List ℤ) → well_shaped is ≡ true → (d : ℤ) × (is ≡ pos 0 ∷ pos 1 ∷ pos 2 ∷ d ∷ [])
unfolding well_shaped
well_shaped-indexes [] h = cc
well_shaped-indexes (a ∷ []) h = cc
well_shaped-indexes (a ∷ b ∷ []) h = cc
well_shaped-indexes (a ∷ b ∷ c ∷ []) h = cc
well_shaped-indexes (a ∷ b ∷ c ∷ d ∷ []) h =
    let (both, third) = &&-eq-true ((a == pos 0) && (b == pos 1)) (c == pos 2) h in
    let (first, second) = &&-eq-true (a == pos 0) (b == pos 1) both in
    let e = (int_beq_iff a (pos 0)).0 first in
    let e' = (int_beq_iff b (pos 1)).0 second in
    let e'' = (int_beq_iff c (pos 2)).0 third in (d, cc)
well_shaped-indexes (a ∷ b ∷ c ∷ d ∷ e ∷ is) h = cc

pub trusted_issuer :
    (o : Option IssuerMetadata) (issuer_id trusted : String)
    → vc_issuer_is_trusted o issuer_id trusted ≡ true
    → (issuer : IssuerMetadata) × (o ≡ some issuer)
      × (issuer.status ≡ active)
      × (issuer_id ≡ trusted)
unfolding vc_issuer_is_trusted
trusted_issuer none issuer_id trusted h = cc
trusted_issuer (some issuer) issuer_id trusted h =
    (issuer, refl, ground arith, ground (arith, eq_iff issuer_id trusted))

pub named_binding :
    (p : VcPresentation) (key : IssuerKey)
    → (some p.assurance_level == key.assurance_level) && (some p.epoch == key.epoch) ≡ true
    → (key.assurance_level ≡ some p.assurance_level) × (key.epoch ≡ some p.epoch)
named_binding p key h = ground (
  arith,
  option_beq_iff (some p.assurance_level) key.assurance_level,
  option_beq_iff (some p.epoch) key.epoch,
)

pub caught-eq-true : (o : Option Bool) → caught o ≡ true → o ≡ some true
caught-eq-true o h = ground arith

pub accepted_proof :
    (r : Result DecodeError Bytes) (f : Bytes → Option Bool)
    → elim r [ err e ↦ false | ok proof ↦ caught (f proof) ] ≡ true
    → (proof : Bytes) × (r ≡ ok proof) × (f proof ≡ some true)
accepted_proof (err e) f h = cc
accepted_proof (ok proof) f h = (proof, refl, caught-eq-true (f proof) h)

expiry_ok-eq-true : (o : Option Bool) → expiry_ok o ≡ true → o ≡ some true
unfolding expiry_ok
expiry_ok-eq-true o h = ground arith

-- And back: each condition makes the test of the code true.
module _ {bbs : ProofSystem} {registry : TrustRegistry} {trusted audience : String} {s : Session}
    {p : VcPresentation} {now consume_now : Time}
    (a : Shows bbs registry trusted audience s p now consume_now) where
  pub issuer_passes :
      vc_issuer_is_trusted (get_issuer registry p.issuer_id) p.issuer_id trusted ≡ true
  unfolding vc_issuer_is_trusted
  issuer_passes = rw (a.registered, a.is_active) ((eq_iff p.issuer_id trusted).1 a.is_trusted)

  pub indexes_pass : well_shaped p.disclosed_indexes ≡ true
  unfolding well_shaped
  indexes_pass = rw a.indexes refl

  pub binding_passes :
      (some p.assurance_level == a.key.assurance_level) && (some p.epoch == a.key.epoch) ≡ true
  binding_passes = ground (
    arith,
    option_beq_iff (some p.assurance_level) a.key.assurance_level,
    option_beq_iff (some p.epoch) a.key.epoch,
    a.binds_level,
    a.binds_epoch,
  )

  pub expiry_passes : within a.key.valid_from a.key.valid_until now ≡ some true
  expiry_passes =
      expiry_ok-eq-true (within a.key.valid_from a.key.valid_until now)
        ((expiry_ok-within a.key.valid_from a.key.valid_until now).1 a.valid_now)

  pub challenge_passes :
      (consume s.challenges p.domain_binding.challenge_id p.domain_binding.challenge consume_now).1
      ≡ some a.answers.challenge
  challenge_passes =
      (consume-eq-some_iff s.challenges p.domain_binding.challenge_id p.domain_binding.challenge
          consume_now a.answers.challenge).1
        a.answers.redeems

  pub claim_passes : challenge_matches (some a.answers.challenge) p.required_claim ≡ true
  unfolding challenge_matches
  claim_passes =
      (claim_beq_iff a.answers.challenge.required_claim p.required_claim).1 a.answers.same_claim

  pub level_passes :
      level_at_least a.key.assurance_level a.answers.challenge.minimum_assurance_level
      ≡ (λ l. go true l)
  unfolding level_at_least assurance_at_least
  level_passes =
      let enough = a.enough in
      let minimum = a.answers.challenge.minimum_assurance_level in
      let holds : assurance_at_least p.assurance_level minimum ≡ true = ground arith in
      rw (a.binds_level, level_at_least) (ap (λ b. λ l. go b l) holds)

  pub messages_pass :
      disclosed_messages p a.key.assurance_level a.key.epoch ≡ some (shown_messages p)
  unfolding disclosed_messages
  messages_pass = rw (a.binds_level, a.binds_epoch) refl

  pub proof_passes : proof_holds bbs p a.key (shown_messages p) ≡ true
  unfolding proof_holds
  proof_passes = rw (proof_holds, a.decoded, a.holds) refl
