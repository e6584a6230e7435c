-- ===== src/Chain/Audit.antt =====
-- The transparency auditor (blindage/transparency/auditor.py). What the chain and the mirror answer
-- is an argument; none is an exception.
use blind_age.Base.{
  ℕ, ◌<◌, String, Bool, true, false, Option, none, some, List, [], ◌∷◌, ◌++◌, ◌≡◌, ◌↔◌, ◌||◌, refl,
  arith, ◌⊎◌, not, leb, nat_beq, ◌==◌, string_eq, list_eq, nat_eq, option_eq,
}
use blind_age.Base.Text.{text_leb, hexdigest}
use blind_age.Canonical.{Json}
use blind_age.Chain.Cache.{AnchorHead}
use blind_age.Crypto.Primitives.{Primitives}
use blind_age.Registry.Load.{Environment, registry_keccak}

-- One `AnchorUpdated` event, as `fetch_history` returns it.
pub record LogEntry : Type 0 where
  pub version : ℕ
  pub generated_at : String
  pub registry_hash : String
  pub block_number : ℕ
  pub tx_hash : String

pub data Problem : Type 0 where
  version_rollback : ℕ → ℕ → Problem
  generated_at_rollback : String → String → Problem
  head_unreachable history_unreachable head_mismatch mirror_unreachable : Problem
  registry_mismatch generated_at_mismatch : Problem

abbrev problem_if : Bool → Problem → List Problem
problem_if true p = p ∷ []
problem_if false p = []

-- The body of the loop over neighbours.
unfoldable pub check_pair : LogEntry → LogEntry → List Problem
unfolding text_leb
check_pair prev cur =
    problem_if (leb cur.version prev.version) (version_rollback prev.version cur.version)
    ++ problem_if (text_leb cur.generated_at prev.generated_at)
        (generated_at_rollback prev.generated_at cur.generated_at)

unfoldable pub check_history : List LogEntry → List Problem
unfolding check_pair
check_history [] = []
check_history (prev ∷ []) = []
check_history (prev ∷ cur ∷ entries) = check_pair prev cur ++ check_history (cur ∷ entries)

-- Each entry has a greater version and a later time than the one before it.
abbrev pub Increasing : List LogEntry → Type 0
Increasing [] = Unit
Increasing (prev ∷ []) = Unit
Increasing (prev ∷ cur ∷ entries) =
    (prev.version < cur.version)
    × (text_leb cur.generated_at prev.generated_at ≡ false)
    × Increasing (cur ∷ entries)

check_pair_iff :
    (prev cur : LogEntry) (more : List Problem)
    → (check_pair prev cur ++ more ≡ []) ↔ (
        (prev.version < cur.version)
        × (text_leb cur.generated_at prev.generated_at ≡ false)
        × (more ≡ []))
unfolding check_pair
check_pair_iff prev cur more = ground arith

-- `check_history` reports no problem exactly when versions and times increase from each entry to the
-- next.
pub check_history-Increasing :
    (entries : List LogEntry) → (check_history entries ≡ []) ↔ Increasing entries
unfolding check_history
check_history-Increasing [] = (λ h. tt, λ h. refl)
check_history-Increasing (prev ∷ []) = (λ h. tt, λ h. refl)
check_history-Increasing (prev ∷ cur ∷ entries) =
    let ih = check_history-Increasing (cur ∷ entries) in
    let here = check_pair_iff prev cur (check_history (cur ∷ entries)) in
    (λ h. let (a, b, c) = here.0 h in (a, b, ih.0 c), λ h. here.1 (h.0, h.1, ih.1 h.2))

abbrev pub last_of : LogEntry → List LogEntry → LogEntry
last_of e [] = e
last_of e (f ∷ fs) = last_of f fs

-- The head against the last logged event.
unfoldable pub check_head : Option AnchorHead → List LogEntry → List Problem
unfolding hexdigest
check_head none entries = []
check_head (some head) [] = []
check_head (some head) (e ∷ es) =
    let last = last_of e es in
    problem_if
      (not (nat_beq last.version head.version)
        || not (last.registry_hash == hexdigest head.registry_hash))
      head_mismatch

abbrev from_option : {A : Type 0} → Option A → Problem → List Problem
from_option none p = p ∷ []
from_option (some a) p = []

abbrev pub entries_of : Option (List LogEntry) → List LogEntry
entries_of none = []
entries_of (some es) = es

module _ (v : Environment) (c : Primitives) where
  -- The mirror's registry against the head; the time is `registry.get("generated_at")`.
  unfoldable pub check_mirror :
      (generated_at : Json → Option String) → Option Json → Option AnchorHead → List Problem
  unfolding registry_keccak
  check_mirror generated_at (some registry) (some head) =
      problem_if (not (registry_keccak v c registry == head.registry_hash)) registry_mismatch
      ++ problem_if (not (generated_at registry == some head.generated_at)) generated_at_mismatch
  check_mirror generated_at _ _ = []

  -- The list `problems` of `audit`.
  unfoldable pub audit :
      (generated_at : Json → Option String)
      → Option AnchorHead
      → Option (List LogEntry)
      → Option Json
      → List Problem
  unfolding check_history check_head check_mirror
  audit generated_at head history registry =
      let mirror =
        from_option registry mirror_unreachable ++ check_mirror generated_at registry head in
      let log =
        check_history (entries_of history) ++ (check_head head (entries_of history) ++ mirror) in
      from_option head head_unreachable ++ (from_option history history_unreachable ++ log)

-- The last event of the log, if there is one, has the version and the hash of the head.
abbrev pub EndsAt : List LogEntry → AnchorHead → Type 0
EndsAt es head =
    (es ≡ [])
    ⊎ ((before : List LogEntry) × (last : LogEntry) × (es ≡ before ++ last ∷ [])
        × (last.version ≡ head.version)
        × (last.registry_hash ≡ hexdigest head.registry_hash))
