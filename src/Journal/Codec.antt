-- ===== src/Journal/Codec.antt =====
-- journal/codec.py of civ5_agent.
use Prim.Native.Char.{code}
use Prim.Native.String.{◌++◌}
use mathlib.Core.List.{◌++◌ as append}
use civ5_agent_macos.Base.{
  ℕ, ◌*◌, Bool, true, false, not, ◌||◌, List, [], ◌∷◌, String, length, leb, eqb, last?, none, some,
  is_hex_text, if◌then◌else◌, keep,
}
use civ5_agent_macos.Base.Int.{pos}
use civ5_agent_macos.Python.{
  Value, int, str, dict, Fields, end, field, Result, ok, err, invalid, get, keys, has_exactly,
  one_of, is_null, is_nat, repr_names, require, value_eq, Runtime, ◌>>=◌, ◌>>◌,
}
use civ5_agent_macos.Identity.{validate_match_id, validate_bridge_session_id}
use civ5_agent_macos.Validation.{is_dict, fields_of, in_set}
use civ5_agent_macos.Journal.{JournalRecord, Encoding, Line}
use civ5_agent_macos.Journal.Json.{name_le}

abbrev pub max_record_bytes : ℕ
max_record_bytes = 4 * 1024 * 1024

abbrev pub record_kinds : List String
record_kinds =
    "journal_started" ∷ "session_binding" ∷ "snapshot" ∷ "turn_transition" ∷ "command_submitted"
    ∷ "command_result" ∷ "verification_error" ∷ "correction" ∷ []

abbrev pub record_fields : List String
record_fields =
    "schema_version" ∷ "sequence" ∷ "match_id" ∷ "bridge_session_id" ∷ "captured_at" ∷ "turn"
    ∷ "kind" ∷ "payload" ∷ "previous_hash" ∷ "record_hash" ∷ []

-- `captured_at.endswith("Z")` and `captured_at.removesuffix("Z")`
abbrev pub ends_with_z : String → Bool
ends_with_z String.[] = false
ends_with_z (String.◌∷◌ c String.[]) = eqb (code c) b'Z'
ends_with_z (String.◌∷◌ c (String.◌∷◌ d s)) = ends_with_z (String.◌∷◌ d s)

abbrev pub without_last : String → String
without_last String.[] = String.[]
without_last (String.◌∷◌ c String.[]) = String.[]
without_last (String.◌∷◌ c (String.◌∷◌ d s)) = String.◌∷◌ c (without_last (String.◌∷◌ d s))

abbrev pub is_hash : Value → Bool
is_hash (str s) = is_hex_text 64 s
is_hash _ = false

abbrev pub validate_session : Value → Result Value
validate_session v = if is_null v then ok v else validate_bridge_session_id v

-- `sorted(names)`
abbrev insert_name : String → List String → List String
insert_name n [] = n ∷ []
insert_name n (m ∷ ms) = if name_le n m then n ∷ m ∷ ms else m ∷ insert_name n ms

abbrev sorted_names : List String → List String
sorted_names [] = []
sorted_names (n ∷ ns) = insert_name n (sorted_names ns)

-- `sorted(set(a) - set(b))`
abbrev difference : List String → List String → String
difference a b = repr_names (sorted_names (keep (λ n. not (one_of n b)) a))

-- the nine fields that the hash covers, and `asdict(record)`
abbrev pub content : JournalRecord → Fields → Fields
content r rest = field "schema_version" r.schema_version (
    field "sequence" r.sequence (
      field "match_id" r.match_id (
        field "bridge_session_id" r.bridge_session_id (
          field "captured_at" r.captured_at (
            field "turn" r.turn (
              field "kind" r.kind
                (field "payload" r.payload (field "previous_hash" r.previous_hash rest))))))))

abbrev pub as_dict : JournalRecord → Fields
as_dict r = content r (field "record_hash" r.record_hash end)

-- `{key: item for key, item in d.items() if key != name}`
abbrev pub without : String → Fields → Fields
without name end = end
without name (field k v d) =
    let rest = without name d in
    elim (one_of k (name ∷ [])) [ true ↦ rest | false ↦ field k v rest ]

-- `JournalRecord(**d)`
abbrev pub from_fields : Fields → JournalRecord
from_fields d = record {
  schema_version = get "schema_version" d;
  sequence = get "sequence" d;
  match_id = get "match_id" d;
  bridge_session_id = get "bridge_session_id" d;
  captured_at = get "captured_at" d;
  turn = get "turn" d;
  kind = get "kind" d;
  payload = get "payload" d;
  previous_hash = get "previous_hash" d;
  record_hash = get "record_hash" d;
}

module _ {Byte : Type 0} (py : Runtime) (json : Encoding Byte) where
  abbrev pub is_utc_timestamp : Value → Bool
  is_utc_timestamp (str s) =
      if ends_with_z s then json.is_utc (without_last s ++ "+00:00") else false
  is_utc_timestamp _ = false

  unfoldable pub validate_values : Fields → Bool → Result (Unit {0})
  validate_values d require_hash = do
    require (value_eq (get "schema_version" d) (int (pos 1))) "unsupported journal schema_version"
    require (is_nat (get "sequence" d)) "sequence must be a non-negative integer"
    match_id ← validate_match_id (get "match_id" d)
    session_id ← validate_session (get "bridge_session_id" d)
    require (is_utc_timestamp (get "captured_at" d)) "captured_at must be a canonical UTC timestamp"
    require (is_null (get "turn" d) || is_nat (get "turn" d))
        "turn must be null or a non-negative integer"
    known ← in_set (get "kind" d) record_kinds
    require known ("unsupported journal record kind: " ++ py.repr (get "kind" d))
    require (is_dict (get "payload" d)) "payload must be an object"
    require (is_null (get "previous_hash" d) || is_hash (get "previous_hash" d))
        "previous_hash must be null or lowercase SHA-256"
    require (not require_hash || is_hash (get "record_hash" d))
        "record_hash must be lowercase SHA-256"
    elim (json.refusal (get "payload" d)) [
      | none ↦ ok tt
      | some m ↦ err (invalid ("payload is not canonical JSON data: " ++ m))
    ]

  unfoldable pub hash_of : Fields → Value
  hash_of d = str (json.sha256 (dict (without "record_hash" d)))

  unfoldable pub build_record :
      Value → Value → Value → Value → Value → Value → Value → Value → Result JournalRecord
  build_record sequence match_id bridge_session_id captured_at turn kind payload previous_hash = do
    let blank : JournalRecord = record {
      schema_version = int (pos 1);
      sequence = sequence;
      match_id = match_id;
      bridge_session_id = bridge_session_id;
      captured_at = captured_at;
      turn = turn;
      kind = kind;
      payload = payload;
      previous_hash = previous_hash;
      record_hash = hash_of (
          content
            (record {
              schema_version = int (pos 1);
              sequence = sequence;
              match_id = match_id;
              bridge_session_id = bridge_session_id;
              captured_at = captured_at;
              turn = turn;
              kind = kind;
              payload = payload;
              previous_hash = previous_hash;
              record_hash = int (pos 0);
            })
            end);
    }
    validate_values (content blank end) false
    ok blank

  unfoldable pub encode_record : JournalRecord → Result (Line Byte)
  encode_record r = do
    validate_values (as_dict r) true
    require (value_eq r.record_hash (hash_of (as_dict r)))
        "record_hash does not match canonical record content"
    let encoded : Line Byte = append (json.dumps (dict (as_dict r))) (json.newline ∷ [])
    require (leb (length encoded) max_record_bytes) "journal record exceeds maximum size"
    ok encoded

  -- the checks on the object that a line holds
  unfoldable pub check_object : Fields → Result JournalRecord
  check_object d = do
    require (has_exactly record_fields d) (
        "journal record fields mismatch: missing="
        ++ difference record_fields (keys d)
        ++ ", unknown="
        ++ difference (keys d) record_fields)
    validate_values d true
    require (value_eq (get "record_hash" d) (hash_of d))
        "record_hash does not match canonical record content"
    ok (from_fields d)

  abbrev pub is_complete : Line Byte → Bool
  is_complete line = elim (last? line) [ none ↦ false | some b ↦ json.is_newline b ]

  -- `decode_record`; `json.loads` raises a `ValueError` only, which is one of the codec's again
  unfoldable pub decode_record : Line Byte → Result JournalRecord
  decode_record line = do
    require (is_complete line) "journal record is truncated"
    require (leb (length line) max_record_bytes) "journal record exceeds maximum size"
    value ← json.loads line
    require (is_dict value) "journal record must be an object"
    check_object (fields_of value)
