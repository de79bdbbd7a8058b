-- ===== src/Examples/Journals.antt =====
-- The theorems on the journal at work on a journal of two records. A byte is a whole JSON text here,
-- or the newline.
use civ5_agent_macos.Base.{
  All, length, ℕ, zero, suc, ◌≡◌, refl, true, false, Bool, Option, none, some, List, [], ◌∷◌,
  String, is_hex_text, is_uuid4, ◌++◌, arith,
}
use civ5_agent_macos.Base.Int.{pos}
use civ5_agent_macos.Python.{
  Value, null, int, str, dict, field, end, Result, ok, err, invalid, unavailable, value_eq,
  has_exactly,
}
use civ5_agent_macos.Identity.{validate_uuid4}
use civ5_agent_macos.Journal.{JournalRecord, Encoding, Line}
use civ5_agent_macos.Journal.Json.{sorted}
use civ5_agent_macos.Journal.Codec.{
  as_dict, encode_record, decode_record, validate_values, hash_of, build_record, check_object,
}
use civ5_agent_macos.Journal.Reader.{
  check_place, check_kind, check_turn, check_record, read_line, read_lines, read_verified,
  bind_session_record, start_record, live_record, correction_record,
}
use civ5_agent_macos.Journal.Writing.{write_all, after_write}
use civ5_agent_macos.Journal.Store.{
  Disk, regular, Kernel, open_existing, open_appending, closed, require_match, check_bound,
  check_order, check_superseded, committed, commit, read_all, next_record, write_prepared,
  append_to, append_locked, check_append, append, check_bind, bind_session,
}
use civ5_agent_macos.Journal.Roundtrip.{canonical, decode_record-encode_record}
use civ5_agent_macos.Journal.Invariants.{IsJournal, At}
use civ5_agent_macos.Journal.Reads.{read_all-IsJournal}
use civ5_agent_macos.Journal.Framed.{IsFramed, read_all-IsFramed}
use civ5_agent_macos.Journal.Writes.{Ends, write_all-Ends}
use civ5_agent_macos.Journal.Appending.{Holds, append-Grows, bind_session-Grows}
use civ5_agent_macos.Journal.Torn.{Leaves, append-Leaves}
use civ5_agent_macos.Examples.{runtime, session}

abbrev Byte : Type 0
Byte = Option Value

abbrev is_newline : Byte → Bool
is_newline none = true
is_newline (some v) = false

abbrev loads : Line Byte → Result Value
loads (some v ∷ none ∷ []) = ok (sorted v)
loads _ = err (invalid "invalid journal JSON")

abbrev some_hash : String
some_hash = "0123456789abcdef0123456789abcdef0123456789abcdef0123456789abcdef"

some_hash-form : is_hex_text 64 some_hash ≡ true
unfolding is_hex_text
some_hash-form = refl

abbrev json : Encoding Byte
json = record {
  newline = none;
  is_newline = is_newline;
  dumps = λ v. some v ∷ [];
  loads = loads;
  sha256 = λ v. some_hash;
  is_utc = λ s. true;
  newline_ends = refl;
  dumps_single_line = λ v. (refl, tt);
  loads_dumps = λ v. refl;
  sha256_sorted = λ v. refl;
  sha256_form = λ v. some_hash-form;
  refusal = λ v. none;
  refusal_sorted = λ v. refl;
}

-- a system that takes one byte at a time, and one whose disk is full behind the first byte
abbrev slow : Kernel
slow = record {
  missing_error = "No such file or directory";
  exists_error = "File exists";
  os_write = λ call offered. ok 1;
  os_fsync = ok tt;
  os_close = ok tt;
}

abbrev full_disk : ℕ → Result ℕ
full_disk zero = ok 1
full_disk (suc n) = err (unavailable "No space left on device")

abbrev full : Kernel
full = record slow { os_write = λ call offered. full_disk call }

abbrev match_id : Value
match_id = str "33333333-3333-4333-8333-333333333333"

abbrev now : String
now = "2026-01-01T00:00:00Z"

abbrev stamped : Value → Value → Value → Value → Value → JournalRecord
stamped sequence turn kind payload previous_hash = record {
  schema_version = int (pos 1);
  sequence = sequence;
  match_id = match_id;
  bridge_session_id = session;
  captured_at = str now;
  turn = turn;
  kind = kind;
  payload = payload;
  previous_hash = previous_hash;
  record_hash = str some_hash;
}

abbrev started : JournalRecord
started = stamped (int (pos 0)) null (str "journal_started") (dict end) null

abbrev snapshot : JournalRecord
snapshot =
    stamped (int (pos 1)) (int (pos 5)) (str "snapshot")
      (dict (field "state" (str "s") (field "a" null end))) (str some_hash)

abbrev line_of : JournalRecord → Line Byte
line_of r = some (dict (as_dict r)) ∷ none ∷ []

abbrev one_record : Disk Byte
one_record = regular (line_of started ∷ [])

abbrev two_records : Disk Byte
two_records = regular (line_of started ∷ line_of snapshot ∷ [])

decode_record-encode_record_example :
    decode_record runtime json (line_of snapshot) ≡ ok (canonical snapshot)
unfolding encode_record validate_values validate_uuid4 is_uuid4 is_hex_text hash_of value_eq
decode_record-encode_record_example =
    decode_record-encode_record runtime json snapshot (line_of snapshot) refl

read_all-IsJournal_example :
    IsJournal (canonical started ∷ canonical snapshot ∷ [])
    × ((f : JournalRecord) × At (canonical started ∷ canonical snapshot ∷ []) 0 f
        × (value_eq f.match_id match_id ≡ true))
unfolding value_eq validate_uuid4 is_uuid4 open_existing closed read_all read_verified read_lines
    read_line decode_record check_object has_exactly validate_values is_hex_text hash_of
    check_record check_place bind_session_record check_kind check_turn correction_record live_record
    start_record require_match
read_all-IsJournal_example =
    read_all-IsJournal runtime json slow match_id two_records
      (canonical started ∷ canonical snapshot ∷ []) refl

append-Grows_example :
    (rs : List JournalRecord) × (read_all runtime json slow match_id one_record ≡ ok rs)
    × (read_all runtime json slow match_id two_records ≡ ok (rs ++ (canonical snapshot ∷ [])))
unfolding value_eq append check_append validate_uuid4 is_uuid4 append_locked open_existing
    open_appending closed read_verified read_lines read_line decode_record check_object has_exactly
    validate_values is_hex_text hash_of check_record check_place build_record encode_record
    bind_session_record check_kind check_turn correction_record live_record start_record append_to
    check_bound check_order check_superseded commit committed next_record require_match
    write_prepared after_write write_all
append-Grows_example =
    append-Grows runtime json slow match_id "snapshot"
      (field "state" (str "s") (field "a" null end)) session (int (pos 5)) now one_record
      two_records snapshot refl

abbrev binding : JournalRecord
binding =
    record (stamped (int (pos 1)) null (str "session_binding")
      (dict (field "authority" (str "operator") end)) (str some_hash)) {
        bridge_session_id = str "44444444-4444-4444-8444-444444444444";
      }

abbrev bound : Disk Byte
bound = regular (line_of started ∷ line_of binding ∷ [])

bind_session-Grows_example :
    ((rs : List JournalRecord) × (read_all runtime json slow match_id one_record ≡ ok rs)
      × (read_all runtime json slow match_id bound ≡ ok (rs ++ (canonical binding ∷ []))))
    × Holds runtime json slow match_id "session_binding"
        (field "authority" (str "operator") end)
        (str "44444444-4444-4444-8444-444444444444")
        null
        binding
unfolding value_eq bind_session check_bind validate_uuid4 is_uuid4 append_locked open_existing
    open_appending closed read_verified read_lines read_line decode_record check_object has_exactly
    validate_values is_hex_text hash_of check_record check_place build_record encode_record
    bind_session_record check_kind check_turn correction_record live_record start_record append_to
    check_bound check_order check_superseded commit committed next_record require_match
    write_prepared after_write write_all
bind_session-Grows_example =
    bind_session-Grows runtime json slow match_id (str "44444444-4444-4444-8444-444444444444")
      (str "operator") now one_record bound binding refl

abbrev torn_record : Disk Byte
torn_record = regular (line_of started ∷ (some (dict (as_dict snapshot)) ∷ []) ∷ [])

append-Leaves_example :
    Leaves runtime json full match_id "snapshot"
      (field "state" (str "s") (field "a" null end))
      (int (pos 5))
      one_record
      torn_record
      (unavailable "No space left on device")
unfolding value_eq append check_append validate_uuid4 is_uuid4 append_locked open_existing
    open_appending closed read_verified read_lines read_line decode_record check_object has_exactly
    validate_values is_hex_text hash_of check_record check_place build_record encode_record
    bind_session_record check_kind check_turn correction_record live_record start_record append_to
    check_bound check_order check_superseded commit committed next_record require_match
    write_prepared after_write write_all
append-Leaves_example =
    append-Leaves runtime json full match_id "snapshot"
      (field "state" (str "s") (field "a" null end)) session (int (pos 5)) now one_record
      torn_record (unavailable "No space left on device") refl

write_all-Ends_example :
    Ends (line_of started) (write_all (λ call offered. ok 1) 3 0 [] (line_of started))
write_all-Ends_example =
    write_all-Ends (λ call offered. ok 1) 3 0 [] (line_of started) (omega arith)

read_all-IsFramed_example :
    (lines : List (Line Byte)) × (two_records ≡ regular lines)
    × All (IsFramed runtime json) lines
    × (2 ≡ length lines)
unfolding value_eq validate_uuid4 is_uuid4 open_existing closed read_all read_verified read_lines
    read_line decode_record check_object has_exactly validate_values is_hex_text hash_of
    check_record check_place bind_session_record check_kind check_turn correction_record live_record
    start_record require_match
read_all-IsFramed_example =
    read_all-IsFramed runtime json slow match_id two_records
      (canonical started ∷ canonical snapshot ∷ []) refl
