-- ===== src/Verifier/Replay.antt =====
-- `ReplayCache` (blindage/verifier/replay_cache.py): the rows of the table `spent`.
use blind_age.Base.{String, Bool, true, false, List, [], ◌∷◌, if◌then◌else◌, contains, string_eq}

pub record ReplayCache : Type 0 where
  pub spent : List String

abbrev pub empty_cache : ReplayCache
empty_cache = record { spent = [] }

-- The INSERT fails with an `IntegrityError` exactly when the primary key is there.
unfoldable pub check_and_insert : ReplayCache → String → ReplayCache × Bool
unfolding contains
check_and_insert r nonce_hash =
    if contains r.spent nonce_hash
    then (r, false)
    else (record { spent = nonce_hash ∷ r.spent }, true)
