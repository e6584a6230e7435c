-- ===== src/Chain/Publish.antt =====
-- Publishing an anchor through the timelock (blindage/registry_chain/publish.py). The chain is a
-- parameter; `W` is its state, which others may change while the publisher sleeps.
pub mod Extends
use blind_age.Base.{ℕ, ◌+◌, String, Bool, Option, none, some, not, leb, ◌||◌, nat_beq}
use blind_age.Base.Result.{Result, ok, err, present, guard, ◌>>=◌, ◌>>◌}
use blind_age.Base.Text.{Bytes, text_leb}
use blind_age.Canonical.{Json}
use blind_age.Chain.Cache.{AnchorHead, Cache, current}
use blind_age.Crypto.Octets.{i2osp}
use blind_age.Crypto.Primitives.{Primitives}
use blind_age.Registry.Load.{Environment, registry_keccak}

-- An `AnchorError`, the `ValueError` of the guard, the `RuntimeError` of `_send`, or what the code
-- does not foresee: a registry without the time, a number too large, a call that fails.
pub data PublishError : Type 0 where
  anchor_error non_monotonic reverted uncaught : PublishError

-- The two calls of the timelock.
pub data Transaction : Type 0 where
  schedule : (calldata salt : Bytes) (delay : ℕ) → Transaction
  execute : (calldata salt : Bytes) → Transaction

-- `fetch` reads the anchor, none where it raises; `submit` gives the status of the receipt, none
-- where it raises; `encode_set_anchor` is the call's encoding, none for a number that is no uint64.
pub record Network (W : Type 0) : Type 0 where
  pub fetch : W → Option AnchorHead
  pub encode_set_anchor : (hash : Bytes) (generated_at : String) (version : ℕ) → Option Bytes
  pub submit : W → Transaction → W × Option ℕ
  pub sleep : W → (seconds : ℕ) → W

-- `if receipt.status != 1: raise`
unfoldable pub confirmed : Option ℕ → Result PublishError (Unit {0})
confirmed none = err uncaught
confirmed (some status) = guard (nat_beq status 1) reverted

-- A new client keeps nothing, and its `cache_ttl` is 0.
abbrev pub new_client : Cache AnchorHead
new_client = record { cached = none; ttl = 0 }

-- The guard against an anchor that does not increase.
unfoldable pub check_monotonic :
    AnchorHead → (generated_at : String) (version : ℕ) → Result PublishError (Unit {0})
check_monotonic head generated_at version =
    guard (not (leb version head.version || text_leb generated_at head.generated_at)) non_monotonic

module _ {W : Type 0} (network : Network W) where
  -- `_send`
  unfoldable pub send : W → Transaction → W × Result PublishError (Unit {0})
  unfolding confirmed
  send w tx = let (w', status) = network.submit w tx in (w', confirmed status)

  -- The pause and the second transaction, once the first was confirmed.
  unfoldable pub execute_after :
      W
      → Result PublishError (Unit {0})
      → (calldata salt : Bytes) (delay : ℕ) → W × Result PublishError (Unit {0})
  unfolding send
  execute_after w (err e) calldata salt delay = (w, err e)
  execute_after w (ok tt) calldata salt delay =
      send (network.sleep w (delay + 1)) (execute calldata salt)

  -- The two transactions, once the call and the salt are found out.
  unfoldable pub schedule_and_execute :
      W → Result PublishError (Bytes × Bytes) → (delay : ℕ) → W × Result PublishError (Unit {0})
  unfolding send execute_after
  schedule_and_execute w (err e) delay = (w, err e)
  schedule_and_execute w (ok (calldata, salt)) delay =
      let (w', scheduled) = send w (schedule calldata salt delay) in
      execute_after w' scheduled calldata salt delay

  module _ (v : Environment) (c : Primitives) (generated_at_of : Json → Option String) where
    -- What is found out before the first transaction: the call and the salt.
    unfoldable pub prepare_anchor :
        Option AnchorHead → (registry : Json) (version : ℕ) → Result PublishError (Bytes × Bytes)
    unfolding check_monotonic registry_keccak i2osp
    prepare_anchor fetched registry version = do
      head ← present fetched anchor_error
      generated_at ← present (generated_at_of registry) uncaught
      check_monotonic head generated_at version
      calldata ←
          present (network.encode_set_anchor (registry_keccak v c registry) generated_at version)
            uncaught
      salt ← present (i2osp version 32) uncaught
      ok (calldata, salt)

    -- `publish_anchor`; `now` and `fetched_at` are the clock around the reading of the anchor.
    unfoldable pub publish_anchor :
        W
        → (now fetched_at : ℕ) (registry : Json) (version delay : ℕ)
        → W × Result PublishError (Unit {0})
    unfolding prepare_anchor current schedule_and_execute
    publish_anchor w now fetched_at registry version delay =
        let fetched = (current new_client (network.fetch w) now fetched_at).1 in
        schedule_and_execute w (prepare_anchor fetched registry version) delay
