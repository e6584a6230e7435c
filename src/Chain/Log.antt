-- ===== src/Chain/Log.antt =====
-- The ordered history of the anchor (`fetch_history` of blindage/transparency/auditor.py) and the log
-- server over it (blindage/transparency/app.py).
use blind_age.Base.{
  ℕ, Bool, Option, none, some, List, [], ◌∷◌, map, ltb, nat_beq, ◌&&◌, ◌||◌, if◌then◌else◌, String,
}
use blind_age.Base.Result.{Result, present}
use blind_age.Base.Text.{Bytes, hexdigest}
use blind_age.Chain.Audit.{LogEntry}
use blind_age.Chain.Cache.{Cache, current}

-- An `AnchorUpdated` event, as `get_logs` gives it; `transaction_hash` is the text of its `hex()`.
pub record Event : Type 0 where
  pub version : ℕ
  pub generated_at : String
  pub registry_hash : Bytes
  pub block_number : ℕ
  pub log_index : ℕ
  pub transaction_hash : String

-- Whether the key `(blockNumber, logIndex)` of the first is less than that of the second.
unfoldable pub comes_before : Event → Event → Bool
comes_before e f =
    ltb e.block_number f.block_number
    || (nat_beq e.block_number f.block_number && ltb e.log_index f.log_index)

-- Python's sort is stable: an event stays before the later ones with its key.
unfoldable pub insert_event : Event → List Event → List Event
unfolding comes_before
insert_event e [] = e ∷ []
insert_event e (f ∷ fs) =
    let rest = insert_event e fs in if comes_before f e then f ∷ rest else e ∷ f ∷ fs

unfoldable pub sort_events : List Event → List Event
unfolding insert_event
sort_events [] = []
sort_events (e ∷ es) = insert_event e (sort_events es)

abbrev pub log_entry : Event → LogEntry
log_entry e = record {
  version = e.version;
  generated_at = e.generated_at;
  registry_hash = hexdigest e.registry_hash;
  block_number = e.block_number;
  tx_hash = e.transaction_hash;
}

-- `fetch_history` on what `get_logs` gave, none where the chain cannot be read.
unfoldable pub fetch_history : Option (List Event) → Option (List LogEntry)
unfolding sort_events hexdigest
fetch_history none = none
fetch_history (some logs) = some (map log_entry (sort_events logs))

-- The answer 503 of the log server.
pub data LogError : Type 0 where
  history_unavailable : LogError

-- GET /log: the cache after the call, and the entries.
unfoldable pub log_route :
    Cache (List LogEntry)
    → (logs : Option (List Event)) (now fetched_at : ℕ)
    → Cache (List LogEntry) × Result LogError (List LogEntry)
unfolding current fetch_history
log_route cache logs now fetched_at =
    let (cache', entries) = current cache (fetch_history logs) now fetched_at in
    (cache', present entries history_unavailable)
