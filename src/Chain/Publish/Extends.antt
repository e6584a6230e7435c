-- ===== src/Chain/Publish/Extends.antt =====
-- An anchor that was published extends a history that the auditor accepts.
use blind_age.Base.{
  ℕ, ◌+◌, ◌<◌, String, false, Option, none, some, List, [], ◌∷◌, ◌++◌, not, leb, ◌||◌, nat_beq, ◌≡◌,
  refl, arith, nat_beq_iff, ap, ◌∙◌,
}
use blind_age.Base.Result.{
  Result, ok, err, present, >>=-eq-ok, guard-eq-ok, present-eq-ok, ok_injective,
}
use blind_age.Base.Text.{Bytes, text_leb, hexdigest}
use blind_age.Canonical.{Json}
use blind_age.Chain.Audit.{LogEntry, Increasing, check_history, check_history-Increasing, last_of}
use blind_age.Chain.Cache.{AnchorHead, current}
use blind_age.Chain.Publish.{
  PublishError, Transaction, schedule, execute, Network, uncaught, reverted, non_monotonic,
  confirmed, check_monotonic, send, execute_after, schedule_and_execute, prepare_anchor,
  publish_anchor,
}
use blind_age.Crypto.Octets.{i2osp}
use blind_age.Crypto.Primitives.{Primitives}
use blind_age.Registry.Load.{Environment, registry_keccak}

-- Increasing entries and one that is after the last of them.
append-Increasing :
    (e : LogEntry) (es : List LogEntry) (x : LogEntry)
    → Increasing (e ∷ es)
    → (last_of e es).version < x.version
    → text_leb x.generated_at (last_of e es).generated_at ≡ false
    → Increasing (e ∷ (es ++ x ∷ []))
append-Increasing e [] x h lt later = (lt, later, tt)
append-Increasing e (f ∷ fs) x h lt later = (h.0, h.1, append-Increasing f fs x h.2 lt later)

check_monotonic-later :
    (head : AnchorHead) (generated_at : String) (version : ℕ)
    → check_monotonic head generated_at version ≡ ok tt
    → (head.version < version) × (text_leb generated_at head.generated_at ≡ false)
unfolding check_monotonic
check_monotonic-later head generated_at version h =
    let both =
      (guard-eq-ok (not (leb version head.version || text_leb generated_at head.generated_at))
          non_monotonic).0
        h in
    ground arith

confirmed-status : (o : Option ℕ) → confirmed o ≡ ok tt → o ≡ some 1
unfolding confirmed
confirmed-status none h = cc
confirmed-status (some status) h =
    ap (λ n. some n) ((nat_beq_iff status 1).0 ((guard-eq-ok (nat_beq status 1) reverted).0 h))

module _ {W : Type 0} (network : Network W) where
  -- Both transactions were confirmed, one after the other, with the same call and salt.
  abbrev pub Sent : W → (calldata salt : Bytes) (delay : ℕ) → W → Type 0
  Sent w calldata salt delay w' =
      (between : W) × (network.submit w (schedule calldata salt delay) ≡ (between, some 1))
      × (network.submit (network.sleep between (delay + 1)) (execute calldata salt) ≡ (w', some 1))

  send-confirmed :
      (w w' : W) (tx : Transaction)
      → send network w tx ≡ (w', ok tt)
      → network.submit w tx ≡ (w', some 1)
  unfolding send
  send-confirmed w w' tx h =
      let status = confirmed-status (network.submit w tx).1 (ap (λ p. p.1) h) in
      λ i. ((h i).0, status i)

  execute_after-confirmed :
      (w w' : W) (scheduled : Result PublishError (Unit {0})) (calldata salt : Bytes) (delay : ℕ)
      → execute_after network w scheduled calldata salt delay ≡ (w', ok tt)
      → (scheduled ≡ ok tt)
        × (network.submit (network.sleep w (delay + 1)) (execute calldata salt) ≡ (w', some 1))
  unfolding execute_after
  execute_after-confirmed w w' (err e) calldata salt delay h = cc (ap (λ p. p.1) h)
  execute_after-confirmed w w' (ok tt) calldata salt delay h =
      (refl, send-confirmed (network.sleep w (delay + 1)) w' (execute calldata salt) h)

  schedule_and_execute-Sent :
      (w w' : W) (prepared : Result PublishError (Bytes × Bytes)) (delay : ℕ)
      → schedule_and_execute network w prepared delay ≡ (w', ok tt)
      → (calldata salt : Bytes) × (prepared ≡ ok (calldata, salt)) × Sent w calldata salt delay w'
  unfolding schedule_and_execute
  schedule_and_execute-Sent w w' (err e) delay h = cc (ap (λ p. p.1) h)
  schedule_and_execute-Sent w w' (ok (calldata, salt)) delay h =
      let first = send network w (schedule calldata salt delay) in
      let (status, second) = execute_after-confirmed first.0 w' first.1 calldata salt delay h in
      let scheduled =
        send-confirmed w first.0 (schedule calldata salt delay) (λ i. (first.0, status i)) in
      (calldata, salt, refl, (first.0, scheduled, second))

  module _ (v : Environment) (c : Primitives) (generated_at_of : Json → Option String) where
    prepare_anchor-later :
        (head : AnchorHead) (registry : Json) (version : ℕ) (calldata salt : Bytes)
        → prepare_anchor network v c generated_at_of (some head) registry version
          ≡ ok (calldata, salt)
        → (time : String) × (generated_at_of registry ≡ some time)
          × (network.encode_set_anchor (registry_keccak v c registry) time version ≡ some calldata)
          × (head.version < version)
          × (text_leb time head.generated_at ≡ false)
    unfolding prepare_anchor
    prepare_anchor-later head registry version calldata salt h =
        let (time, timed, h₁) = >>=-eq-ok (present (generated_at_of registry) uncaught) _ h in
        let (_, guarded, h₂) = >>=-eq-ok (check_monotonic head time version) _ h₁ in
        let call = network.encode_set_anchor (registry_keccak v c registry) time version in
        let (calldata', encoded, h₃) = >>=-eq-ok (present call uncaught) _ h₂ in
        let (salt', _, last) = >>=-eq-ok (present (i2osp version 32) uncaught) _ h₃ in
        let e : ◌≡◌ {A = Bytes × Bytes} (calldata', salt') (calldata, salt) = ok_injective last in
        let (lt, later) = check_monotonic-later head time version guarded in
        (
          time,
          present-eq-ok (generated_at_of registry) uncaught timed,
          present-eq-ok call uncaught encoded ∙ ap (λ p. some p.0) e,
          lt,
          later,
        )

    -- When `publish_anchor` returns, the anchor was read, both transactions were confirmed with the
    -- call that anchors the registry's hash, time and version, and the entry with these extends
    -- every history that the auditor accepts and that ends with the anchor that was read.
    pub publish_anchor-extends :
        (w w' : W) (now fetched_at : ℕ) (registry : Json) (version delay : ℕ) (head : AnchorHead)
        (e : LogEntry) (es : List LogEntry) (block_number : ℕ) (tx_hash : String)
        → network.fetch w ≡ some head
        → check_history (e ∷ es) ≡ []
        → (last_of e es).version ≡ head.version
        → (last_of e es).generated_at ≡ head.generated_at
        → publish_anchor network v c generated_at_of w now fetched_at registry version delay
          ≡ (w', ok tt)
        → (time : String) × (calldata : Bytes) × (salt : Bytes) × (generated_at_of registry
            ≡ some time)
          × (network.encode_set_anchor (registry_keccak v c registry) time version ≡ some calldata)
          × Sent w calldata salt delay w'
          × (check_history (
                e
                ∷ (es
                    ++ record {
                      version = version;
                      generated_at = time;
                      registry_hash = hexdigest (registry_keccak v c registry);
                      block_number = block_number;
                      tx_hash = tx_hash;
                    }
                      ∷ []))
              ≡ [])
    unfolding publish_anchor current
    publish_anchor-extends w w' now fetched_at registry version delay head e es block_number tx_hash
          read clean same_version same_time h =
        let prepared = prepare_anchor network v c generated_at_of (some head) registry version in
        let h' : schedule_and_execute network w prepared delay ≡ (w', ok tt) =
          rw (publish_anchor, current, read) at h in
        let (calldata, salt, ready, sent) = schedule_and_execute-Sent w w' prepared delay h' in
        let (time, timed, encoded, lt, later) =
          prepare_anchor-later head registry version calldata salt ready in
        let entry : LogEntry = record {
          version = version;
          generated_at = time;
          registry_hash = hexdigest (registry_keccak v c registry);
          block_number = block_number;
          tx_hash = tx_hash;
        } in
        (
          time,
          calldata,
          salt,
          timed,
          encoded,
          sent,
          (check_history-Increasing (e ∷ (es ++ entry ∷ []))).1 (
              append-Increasing e es entry ((check_history-Increasing (e ∷ es)).0 clean)
                (rw same_version lt) (rw same_time later)),
        )
