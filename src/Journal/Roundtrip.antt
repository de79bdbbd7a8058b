-- ===== src/Journal/Roundtrip.antt =====
-- journal/codec.py: what `encode_record` writes, `decode_record` reads back, with the fields of the
-- payload in the order of their names.
use mathlib.Core.List.{◌++◌ as append}
use civ5_agent_macos.Base.{◌≡◌, refl, ap, true, [], ◌∷◌, arith, length, leb, ◌∙◌, String}
use civ5_agent_macos.Base.Int.{pos}
use civ5_agent_macos.Python.{
  Value, null, bool, int, str, list, dict, Fields, end, Runtime, ok, has_exactly, value_eq, is_null,
  is_nat,
}
use civ5_agent_macos.Identity.{is_uuid_value, validate_uuid4}
use civ5_agent_macos.Validation.{is_dict, in_set}
use civ5_agent_macos.Journal.{JournalRecord, Encoding, Line}
use civ5_agent_macos.Journal.Json.{sorted, sorted_fields}
use civ5_agent_macos.Journal.Codec.{
  as_dict, is_hash, is_utc_timestamp, validate_values, hash_of, encode_record, is_complete,
  check_object, decode_record, record_kinds, content, max_record_bytes,
}

-- the record as it is read back
abbrev pub canonical : JournalRecord → JournalRecord
canonical r = record {
  schema_version = sorted r.schema_version;
  sequence = sorted r.sequence;
  match_id = sorted r.match_id;
  bridge_session_id = sorted r.bridge_session_id;
  captured_at = sorted r.captured_at;
  turn = sorted r.turn;
  kind = sorted r.kind;
  payload = sorted r.payload;
  previous_hash = sorted r.previous_hash;
  record_hash = sorted r.record_hash;
}

-- What does not look below a value sees no difference.
abbrev Ignores {ℓ} : {A : Type ℓ} → (Value → A) → Type ℓ
Ignores f = (v : Value) → f (sorted v) ≡ f v

equals_int-Ignores : Ignores (λ v. value_eq v (int (pos 1)))
unfolding value_eq
equals_int-Ignores null = refl
equals_int-Ignores (bool b) = refl
equals_int-Ignores (int z) = refl
equals_int-Ignores (str t) = refl
equals_int-Ignores (list xs) = refl
equals_int-Ignores (dict d) = refl

equals_str-Ignores : (s : String) → Ignores (λ v. value_eq v (str s))
unfolding value_eq
equals_str-Ignores s null = refl
equals_str-Ignores s (bool b) = refl
equals_str-Ignores s (int z) = refl
equals_str-Ignores s (str t) = refl
equals_str-Ignores s (list xs) = refl
equals_str-Ignores s (dict d) = refl

is_nat-Ignores : Ignores (is_nat)
is_nat-Ignores null = refl
is_nat-Ignores (bool b) = refl
is_nat-Ignores (int z) = refl
is_nat-Ignores (str t) = refl
is_nat-Ignores (list xs) = refl
is_nat-Ignores (dict d) = refl

is_null-Ignores : Ignores (is_null)
is_null-Ignores null = refl
is_null-Ignores (bool b) = refl
is_null-Ignores (int z) = refl
is_null-Ignores (str t) = refl
is_null-Ignores (list xs) = refl
is_null-Ignores (dict d) = refl

is_uuid_value-Ignores : Ignores (is_uuid_value)
is_uuid_value-Ignores null = refl
is_uuid_value-Ignores (bool b) = refl
is_uuid_value-Ignores (int z) = refl
is_uuid_value-Ignores (str t) = refl
is_uuid_value-Ignores (list xs) = refl
is_uuid_value-Ignores (dict d) = refl

is_dict-Ignores : Ignores (is_dict)
is_dict-Ignores null = refl
is_dict-Ignores (bool b) = refl
is_dict-Ignores (int z) = refl
is_dict-Ignores (str t) = refl
is_dict-Ignores (list xs) = refl
is_dict-Ignores (dict d) = refl

is_hash-Ignores : Ignores (is_hash)
is_hash-Ignores null = refl
is_hash-Ignores (bool b) = refl
is_hash-Ignores (int z) = refl
is_hash-Ignores (str t) = refl
is_hash-Ignores (list xs) = refl
is_hash-Ignores (dict d) = refl

in_set-Ignores : Ignores (λ v. in_set v record_kinds)
in_set-Ignores null = refl
in_set-Ignores (bool b) = refl
in_set-Ignores (int z) = refl
in_set-Ignores (str t) = refl
in_set-Ignores (list xs) = refl
in_set-Ignores (dict d) = refl

module _ {Byte : Type 0} (py : Runtime) (json : Encoding Byte) where
  is_utc_timestamp-Ignores : Ignores (is_utc_timestamp py json)
  is_utc_timestamp-Ignores null = refl
  is_utc_timestamp-Ignores (bool b) = refl
  is_utc_timestamp-Ignores (int z) = refl
  is_utc_timestamp-Ignores (str t) = refl
  is_utc_timestamp-Ignores (list xs) = refl
  is_utc_timestamp-Ignores (dict d) = refl

  validate_values-canonical :
      (r : JournalRecord)
      → validate_values py json (as_dict r) true ≡ ok tt
      → validate_values py json (sorted_fields (as_dict r)) true ≡ ok tt
  unfolding validate_values validate_uuid4
  validate_values-canonical r h =
      rw
        (
          equals_int-Ignores r.schema_version,
          is_nat-Ignores r.sequence,
          is_uuid_value-Ignores r.match_id,
          is_null-Ignores r.bridge_session_id,
          is_uuid_value-Ignores r.bridge_session_id,
          is_utc_timestamp-Ignores r.captured_at,
          is_null-Ignores r.turn,
          is_nat-Ignores r.turn,
          in_set-Ignores r.kind,
          is_dict-Ignores r.payload,
          is_null-Ignores r.previous_hash,
          is_hash-Ignores r.previous_hash,
          is_hash-Ignores r.record_hash,
          json.refusal_sorted r.payload,
        )
        (ground arith)

  hash_of-canonical :
      (r : JournalRecord)
      → hash_of py json (sorted_fields (as_dict r)) ≡ hash_of py json (as_dict r)
  unfolding hash_of
  hash_of-canonical r = ap str (json.sha256_sorted (dict (content r end)))

  -- what `encode_record` checked, and the line it made
  pub record Encoded (r : JournalRecord) (line : Line Byte) : Type 0 where
    pub valid : validate_values py json (as_dict r) true ≡ ok tt
    pub hashed : value_eq r.record_hash (hash_of py json (as_dict r)) ≡ true
    pub bounded : leb (length line) max_record_bytes ≡ true
    pub written : line ≡ append (json.dumps (dict (as_dict r))) (json.newline ∷ [])

  pub encode_record-Encoded :
      (r : JournalRecord) (line : Line Byte) → encode_record py json r ≡ ok line → Encoded r line
  unfolding encode_record
  encode_record-Encoded r line h = ground arith

  check_object-canonical :
      (r : JournalRecord)
      → validate_values py json (as_dict r) true ≡ ok tt
      → value_eq r.record_hash (hash_of py json (as_dict r)) ≡ true
      → check_object py json (sorted_fields (as_dict r)) ≡ ok (canonical r)
  unfolding check_object has_exactly hash_of
  check_object-canonical r valid hashed =
      rw
        (
          validate_values-canonical r valid,
          json.sha256_sorted (dict (content r end)),
          equals_str-Ignores (json.sha256 (dict (content r end))) r.record_hash,
          hashed,
        )
        refl

  newline_terminates : (xs : Line Byte) → is_complete py json (append xs (json.newline ∷ [])) ≡ true
  newline_terminates [] = json.newline_ends
  newline_terminates (x ∷ []) = json.newline_ends
  newline_terminates (x ∷ y ∷ xs) = newline_terminates (y ∷ xs)

  decode_record-object :
      (line : Line Byte) (d : Fields)
      → is_complete py json line ≡ true
      → leb (length line) max_record_bytes ≡ true
      → json.loads line ≡ ok (dict d)
      → decode_record py json line ≡ check_object py json d
  unfolding decode_record
  decode_record-object line d whole small loaded = rw (whole, small, loaded) refl

  pub decode_record-Encoded :
      (r : JournalRecord) (line : Line Byte)
      → Encoded r line
      → decode_record py json line ≡ ok (canonical r)
  decode_record-Encoded r line e =
      let text = json.dumps (dict (as_dict r)) in
      decode_record-object line (sorted_fields (as_dict r)) (rw e.written (newline_terminates text))
        e.bounded (rw e.written (json.loads_dumps (dict (as_dict r))))
      ∙ check_object-canonical r e.valid e.hashed

  -- A line that `encode_record` makes is decoded to the record, but for the order of the fields of
  -- its dictionaries, which becomes that of their names.
  pub decode_record-encode_record :
      (r : JournalRecord) (line : Line Byte)
      → encode_record py json r ≡ ok line
      → decode_record py json line ≡ ok (canonical r)
  decode_record-encode_record r line h =
      decode_record-Encoded r line (encode_record-Encoded r line h)
