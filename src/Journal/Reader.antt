-- ===== src/Journal/Reader.antt =====
-- `_read_verified` of journal/store.py: the journal is read line by line, and each record is checked
-- against those before it.
use civ5_agent_macos.Base.{
  Bool, false, not, ◌&&◌, Option, none, some, List, [], ◌∷◌, ◌++◌, String, length, leb, last?,
  is_empty, if◌then◌else◌, any,
}
use civ5_agent_macos.Base.Int.{pos, leb_ℤ}
use civ5_agent_macos.Python.{
  less_than, Value, null, int, Fields, Result, ok, get, has_exactly, is_null, is_nat, is_str,
  int_of, require, value_eq, Runtime, ◌>>=◌, ◌>>◌, truthy,
}
use civ5_agent_macos.Validation.{fields_of, member}
use civ5_agent_macos.Journal.{JournalRecord, Encoding, Line}
use civ5_agent_macos.Journal.Codec.{max_record_bytes, decode_record}

-- the records so far, the sessions that they bind, and the last turn that is not `None`
pub record Reading : Type 0 where
  pub records : List JournalRecord
  pub bound_sessions : List Value
  pub last_turn : Value

abbrev pub no_records : Reading
no_records = record { records = []; bound_sessions = []; last_turn = null }

abbrev pub live_record_kinds : List String
live_record_kinds =
    "snapshot" ∷ "turn_transition" ∷ "command_submitted" ∷ "command_result" ∷ "verification_error"
    ∷ []

abbrev pub is_one_of : Value → List String → Bool
is_one_of v names = any (λ n. is_str n v) names

-- `supersedes_sequence` is a natural number less than `n`, which is one
abbrev pub supersedes_one_of : Value → Fields → Bool
supersedes_one_of n payload =
    is_nat (get "supersedes_sequence" payload)
    && not (leb_ℤ (int_of n) (int_of (get "supersedes_sequence" payload)))

check_first : JournalRecord → Result (Unit {0})
check_first r = do
  require (is_str "journal_started" r.kind) "first journal record must be journal_started"
  require (is_null r.previous_hash) "first journal record cannot have previous_hash"
  require (not (is_null r.bridge_session_id)) "journal_started requires bridge_session_id"

check_next : JournalRecord → Option JournalRecord → JournalRecord → Result (Unit {0})
check_next first last r = do
  require (value_eq r.match_id first.match_id) "journal mixes match identities"
  require (elim last [ none ↦ false | some l ↦ value_eq r.previous_hash l.record_hash ])
      "journal integrity chain is broken"
  require (not (is_str "journal_started" r.kind)) "journal_started must be the first record"

-- the place of a record behind those before it
unfoldable pub check_place : List JournalRecord → JournalRecord → Result (Unit {0})
unfolding check_first check_next
check_place [] r = check_first r
check_place (f ∷ rs) r = check_next f (last? (f ∷ rs)) r

unfoldable pub bind_session_record : List Value → JournalRecord → Result (List Value)
unfolding has_exactly
bind_session_record bound r = do
  require (not (is_null r.bridge_session_id)) "session_binding requires bridge_session_id"
  require (is_null r.turn && has_exactly ("authority" ∷ []) (fields_of r.payload))
      "invalid session_binding payload"
  require (not (member r.bridge_session_id bound)) "bridge session is bound more than once"
  require (is_str "operator" (get "authority" (fields_of r.payload)))
      "invalid session binding authority"
  ok (r.bridge_session_id ∷ bound)

unfoldable pub start_record : List Value → JournalRecord → Result (List Value)
start_record bound r = do
  require (is_null r.turn && not (truthy r.payload)) "invalid journal_started payload"
  ok (r.bridge_session_id ∷ bound)

unfoldable pub live_record : List Value → JournalRecord → Result (List Value)
live_record bound r = do
  require (member r.bridge_session_id bound) "record uses an unbound bridge session"
  require (not (is_null r.turn)) "live journal record requires turn"
  ok bound

unfoldable pub correction_record : List Value → JournalRecord → Result (List Value)
correction_record bound r = do
  require (supersedes_one_of r.sequence (fields_of r.payload))
      "correction requires an existing supersedes_sequence"
  ok bound

-- the rules of a record's kind, and the sessions that are bound behind it
unfoldable pub check_kind : List Value → JournalRecord → Result (List Value)
unfolding bind_session_record start_record live_record correction_record
check_kind bound r =
    if is_str "session_binding" r.kind
    then bind_session_record bound r
    else if is_str "journal_started" r.kind
    then start_record bound r
    else if is_one_of r.kind live_record_kinds
    then live_record bound r
    else if is_str "correction" r.kind
    then correction_record bound r
    else ok bound

-- the turn behind a record
unfoldable pub check_turn : Value → Value → Result Value
check_turn last turn = if is_null turn then ok last else if is_null last then ok turn else do
  backwards ← less_than turn last
  require (not backwards) "journal turn moves backwards"
  ok turn

unfoldable pub check_record : Reading → JournalRecord → Result Reading
check_record s r = do
  require (value_eq r.sequence (int (pos (length s.records)))) "journal sequence is not contiguous"
  placed ← check_place s.records r
  bound ← check_kind s.bound_sessions r
  turn ← check_turn s.last_turn r.turn
  ok (record { records = s.records ++ (r ∷ []); bound_sessions = bound; last_turn = turn })

module _ {Byte : Type 0} (py : Runtime) (json : Encoding Byte) where
  -- `readline` returns at most one byte more than a record may have, which is refused.
  unfoldable pub read_line : Reading → Line Byte → Result Reading
  read_line s line = do
    require (leb (length line) max_record_bytes) "journal record exceeds maximum size"
    r ← decode_record py json line
    check_record s r

  unfoldable pub read_lines : Reading → List (Line Byte) → Result Reading
  read_lines s [] = ok s
  read_lines s (line ∷ lines) = read_line s line >>= λ t. read_lines t lines

  unfoldable pub read_verified : List (Line Byte) → Result Reading
  read_verified lines = do
    s ← read_lines no_records lines
    require (not (is_empty s.records)) "journal is empty"
    ok s
