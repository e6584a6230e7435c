-- ===== src/Canonical.antt =====
-- The deterministic JSON encoding of signed artifacts (blindage/canonical.py). A number is held as
-- the text that `json.dumps` prints for it.
use blind_age.Base.{
  ℕ, String, Bool, true, false, List, [], ◌∷◌, ◌++◌, ◌+◌, ◌/◌, ◌%◌, ltb, if◌then◌else◌, ◌==◌,
  nat_eq,
}
use blind_age.Base.Text.{Bytes, utf8, encode, text_leb}
use Prim.Native.Char.{code}

mutual
  pub data Json : Type 0 where
    null : Json
    bool : Bool → Json
    number : String → Json
    text : String → Json
    array : Items → Json
    object : Fields → Json

  pub data Items : Type 0 where
    nil : Items
    cons : Json → Items → Items

  pub data Fields : Type 0 where
    end : Fields
    field : String → Json → Fields → Fields

hex_digit : ℕ → ℕ
hex_digit n = if ltb n 10 then n + 48 else n + 87

-- One code point inside a JSON string, with `ensure_ascii=False`.
escape : ℕ → Bytes
unfolding utf8 hex_digit
escape c =
    if c == b'"'
    then encode "\\\""
    else if c == b'\\'
    then encode "\\\\"
    else if c == 10
    then encode "\\n"
    else if c == 13
    then encode "\\r"
    else if c == 9
    then encode "\\t"
    else if c == 12
    then encode "\\f"
    else if c == 8
    then encode "\\b"
    else if ltb c 32
    then encode "\\u00" ++ hex_digit (c / 16) ∷ hex_digit (c % 16) ∷ []
    else utf8 c

escape_all : String → Bytes
unfolding escape
escape_all String.[] = []
escape_all (String.◌∷◌ c s) = escape (code c) ++ escape_all s

unfoldable pub dump_text : String → Bytes
unfolding escape_all
dump_text s = b'"' ∷ (escape_all s ++ b'"' ∷ [])

-- One rendered member of an object, put among others in key order (`sort_keys=True`).
insert_member : String → Bytes → List (String × Bytes) → List (String × Bytes)
insert_member k v [] = (k, v) ∷ []
insert_member k v ((j, w) ∷ ms) =
    if text_leb k j then (k, v) ∷ (j, w) ∷ ms else (j, w) ∷ insert_member k v ms

join_members : List (String × Bytes) → Bytes
unfolding dump_text
join_members [] = []
join_members ((k, v) ∷ []) = dump_text k ++ b':' ∷ v
join_members ((k, v) ∷ m ∷ ms) = (dump_text k ++ b':' ∷ v) ++ b',' ∷ join_members (m ∷ ms)

join_items : List Bytes → Bytes
join_items [] = []
join_items (v ∷ []) = v
join_items (v ∷ w ∷ vs) = v ++ b',' ∷ join_items (w ∷ vs)

unfoldable mutual
  unfolding dump_text join_members join_items insert_member encode

  pub canonical_json_bytes : Json → Bytes
  canonical_json_bytes null = encode "null"
  canonical_json_bytes (bool true) = encode "true"
  canonical_json_bytes (bool false) = encode "false"
  canonical_json_bytes (number s) = encode s
  canonical_json_bytes (text s) = dump_text s
  canonical_json_bytes (array xs) = b'[' ∷ (join_items (dump_items xs) ++ b']' ∷ [])
  canonical_json_bytes (object fs) = b'{' ∷ (join_members (dump_fields fs) ++ b'}' ∷ [])

  pub dump_items : Items → List Bytes
  dump_items nil = []
  dump_items (cons x xs) = canonical_json_bytes x ∷ dump_items xs

  pub dump_fields : Fields → List (String × Bytes)
  dump_fields end = []
  dump_fields (field k x fs) = insert_member k (canonical_json_bytes x) (dump_fields fs)
