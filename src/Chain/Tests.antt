-- ===== src/Chain/Tests.antt =====
-- The anchor's readers on small inputs.
use blind_age.Chain.Log.{Event, comes_before, insert_event, sort_events, fetch_history, log_route}
use blind_age.Base.{suc}
use blind_age.Chain.Cache.{store_fetched}
use blind_age.Crypto.Octets.{i2osp}
use blind_age.Chain.Publish.{
  Network, confirmed, check_monotonic, send, execute_after, schedule_and_execute, prepare_anchor,
  publish_anchor,
}
use blind_age.Chain.Publish.Extends.{Sent, publish_anchor-extends}
use blind_age.Base.{ℕ, String, Option, none, some, List, [], ◌∷◌, ◌≡◌, ◌↔◌, refl}
use blind_age.Base.Result.{ok}
use blind_age.Base.Text.{text_leb, hexdigest}
use blind_age.Canonical.{Json, null}
use blind_age.Chain.Audit.{
  LogEntry, Increasing, check_pair, check_history, check_history-Increasing,
}
use blind_age.Chain.Cache.{AnchorHead, Cache, Fresh, current, answer, current-Fresh}
use blind_age.Chain.Mirror.{served_text, read, gate, registry_json, registry_json-anchored}
use blind_age.Registry.Load.{text, Environment, anchored, registry_keccak}
use blind_age.Registry.Store.{not_a_mapping}
use blind_age.Samples.{toy}

abbrev files : Environment
files = record {
  read_text = λ p. text "x";
  parse = λ t. some null;
  strip = λ t. t;
  fields = λ d. not_a_mapping;
  keccak = λ b. 171 ∷ [];
}

abbrev cache : Cache ℕ
cache = record { cached = some (7, 10); ttl = 30 }

held : (current cache none 20 21).1 ≡ some 7
unfolding current answer
held = refl

current-Fresh_example : Fresh cache none 20 7
current-Fresh_example = current-Fresh cache none 20 21 7 held

served : registry_json files toy (anchored (some (171 ∷ []))) ≡ ok "x"
unfolding registry_json gate read served_text registry_keccak
served = refl

registry_json-anchored_example :
    (files.read_text "registry.json" ≡ text "x")
    × (data_ : Json) × (files.parse "x" ≡ some data_)
    × (some (171 ∷ []) ≡ some (registry_keccak files toy data_))
registry_json-anchored_example = registry_json-anchored files toy (some (171 ∷ [])) "x" served

abbrev entry : ℕ → String → LogEntry
entry version generated_at = record {
  version = version;
  generated_at = generated_at;
  registry_hash = "ab";
  block_number = version;
  tx_hash = "t";
}

abbrev log : List LogEntry
log = entry 1 "2026-01" ∷ entry 2 "2026-02" ∷ []

check_history-Increasing_example : (check_history log ≡ []) ↔ Increasing log
check_history-Increasing_example = check_history-Increasing log

abbrev head : AnchorHead
head = record { registry_hash = 171 ∷ []; generated_at = "2026-02"; version = 2; updated_at = 5 }

abbrev time_of : Json → Option String
time_of j = some "2026-02"

-- A chain that counts its transactions and confirms each.
abbrev counting : Network ℕ
counting = record {
  fetch = λ w. some head;
  encode_set_anchor = λ hash generated_at version. some (9 ∷ []);
  submit = λ w tx. (suc w, some 1);
  sleep = λ w seconds. w;
}

abbrev next_month : Json → Option String
next_month j = some "2026-03"

log_accepted : check_history log ≡ []
unfolding check_history check_pair text_leb
log_accepted = refl

published : publish_anchor counting files toy next_month 0 1 2 null 3 1 ≡ (2, ok tt)
unfolding publish_anchor prepare_anchor schedule_and_execute execute_after send confirmed current
    answer store_fetched check_monotonic i2osp registry_keccak
published = refl

publish_anchor-extends_example :
    (time : String) × (calldata : List ℕ) × (salt : List ℕ) × (some "2026-03" ≡ some time)
    × (some (9 ∷ []) ≡ some calldata)
    × Sent counting 0 calldata salt 1 2
    × (check_history (
          entry 1 "2026-01"
          ∷ entry 2 "2026-02"
          ∷ record {
            version = 3;
            generated_at = time;
            registry_hash = hexdigest (registry_keccak files toy null);
            block_number = 3;
            tx_hash = "t";
          }
          ∷ [])
        ≡ [])
publish_anchor-extends_example =
    publish_anchor-extends counting files toy next_month 0 2 1 2 null 3 1 head (entry 1 "2026-01")
      (entry 2 "2026-02" ∷ []) 3 "t" refl log_accepted refl refl published

abbrev event : (version block_number log_index : ℕ) → Event
event version block_number log_index = record {
  version = version;
  generated_at = "2026-01";
  registry_hash = 171 ∷ [];
  block_number = block_number;
  log_index = log_index;
  transaction_hash = "t";
}

abbrev logged : ℕ → ℕ → LogEntry
logged version block_number = record {
  version = version;
  generated_at = "2026-01";
  registry_hash = "ab";
  block_number = block_number;
  tx_hash = "t";
}

fresh_log :
    (log_route
      (record { cached = none; ttl = 30 })
      (some (event 3 2 0 ∷ event 2 1 1 ∷ event 1 1 0 ∷ []))
      5
      6).1
    ≡ ok (logged 1 1 ∷ logged 2 1 ∷ logged 3 2 ∷ [])
unfolding log_route current answer store_fetched fetch_history sort_events insert_event comes_before
    hexdigest
fresh_log = refl
