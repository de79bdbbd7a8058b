-- ===== src/Journal/Store.antt =====
-- journal/store.py of civ5_agent: `JournalStore`. An operation holds the lock of the file, and is
-- one step on it; a new match id and the time are arguments.
use Prim.Native.String.{◌++◌}
use mathlib.Core.List.{◌++◌ as append_list}
use civ5_agent_macos.Base.{
  suc, not, ◌||◌, ◌&&◌, Option, none, some, List, [], ◌∷◌, String, length, last?, if◌then◌else◌,
}
use civ5_agent_macos.Base.Int.{pos}
use civ5_agent_macos.Python.{
  less_than, Value, null, int, str, dict, Fields, end, field, unexpected, invalid, Result, ok, err,
  one_of, is_null, is_str, require, value_eq, Runtime, ◌>>=◌, ◌>>◌,
}
use civ5_agent_macos.Identity.{validate_match_id, validate_bridge_session_id}
use civ5_agent_macos.Validation.{member}
use civ5_agent_macos.Journal.{JournalRecord, Encoding, Line}
use civ5_agent_macos.Journal.Codec.{build_record, encode_record, validate_session}
use civ5_agent_macos.Journal.Reader.{Reading, live_record_kinds, supersedes_one_of, read_verified}
use civ5_agent_macos.Journal.Writing.{
  OsWrite, Written, all_written, cut_short, out_of_fuel, write_all,
}

-- What stands at the journal's path: nothing, something that the system refuses to open (a symbolic link,
-- a file without permission), with its error, something else that is no regular file, with the error, if
-- any, that opening it for writing raises (a directory), or the lines of a file, of which only the last
-- can lack its newline.
pub data Disk (Byte : Type 0) : Type 0 where
  absent : Disk Byte
  denied : String → Disk Byte
  special : Option String → Disk Byte
  regular : List (Line Byte) → Disk Byte

-- the texts of the system's errors, its `write`, and the outcomes of `os.fsync` and `os.close`
pub record Kernel : Type 0 where
  pub missing_error : String
  pub exists_error : String
  pub os_write : OsWrite
  pub os_fsync : Result (Unit {0})
  pub os_close : Result (Unit {0})

abbrev pub appendable_record_kinds : List String
appendable_record_kinds = append_list live_record_kinds ("correction" ∷ [])

-- the turn of the last record that has one
abbrev pub prior_turn : List JournalRecord → Value
prior_turn [] = null
prior_turn (r ∷ rs) = let later = prior_turn rs in if is_null later then r.turn else later

unfoldable pub require_match : Value → List JournalRecord → Result JournalRecord
require_match match_id [] = err (invalid "journal match_id changed")
require_match match_id (r ∷ rs) =
    if value_eq r.match_id match_id then ok r else err (invalid "journal match_id changed")

module _ (kind : String) (session turn : Value) (payload : Fields) (s : Reading) where
  unfoldable pub check_bound : Result (Unit {0})
  check_bound =
      if is_str "session_binding" (str kind)
      then require (not (member session s.bound_sessions))
          "bridge session is already bound to this journal"
      else require (is_null session || member session s.bound_sessions)
          "bridge session is not bound to this journal"

  unfoldable pub check_order : Result (Unit {0})
  check_order = if is_null turn || is_null (prior_turn s.records) then ok tt else do
    backwards ← less_than turn (prior_turn s.records)
    require (not backwards) "journal turn cannot move backwards"

  unfoldable pub check_superseded : Result (Unit {0})
  check_superseded =
      if is_str "correction" (str kind)
      then require (supersedes_one_of (int (pos (length s.records))) payload)
          "correction requires an existing supersedes_sequence"
      else ok tt

module _ {Byte : Type 0} (py : Runtime) (json : Encoding Byte) (kernel : Kernel) where
  unfoldable pub open_existing : Disk Byte → Result (List (Line Byte))
  open_existing absent = err (invalid ("cannot open journal: " ++ kernel.missing_error))
  open_existing (denied m) = err (invalid ("cannot open journal: " ++ m))
  open_existing (special m) = err (invalid "journal path is not a regular file")
  open_existing (regular lines) = ok lines

  -- the same with `os.O_RDWR`
  unfoldable pub open_appending : Disk Byte → Result (List (Line Byte))
  unfolding open_existing
  open_appending (special (some m)) = err (invalid ("cannot open journal: " ++ m))
  open_appending disk = open_existing disk

  -- `finally: os.close(fd)`, whose exception replaces the outcome
  unfoldable pub closed : {A : Type 0} → Result A → Result A
  closed r = elim kernel.os_close [ ok u ↦ r | err e ↦ err e ]

  -- the bytes that reach the file when a line is written behind the others
  abbrev pub with_line : List (Line Byte) → Line Byte → Disk Byte
  with_line lines [] = regular lines
  with_line lines (b ∷ line) = regular (append_list lines ((b ∷ line) ∷ []))

  -- the file and the result of the operation behind `_write_all` and `os.fsync`
  unfoldable pub committed :
      {A : Type 0} → List (Line Byte) → A → Written Byte → Disk Byte × Result A
  committed lines result (all_written line) =
      (with_line lines line, elim kernel.os_fsync [ ok u ↦ ok result | err e ↦ err e ])
  committed lines result (cut_short line e) = (with_line lines line, err e)
  committed lines result out_of_fuel = (regular lines, err (unexpected "out of fuel"))

  unfoldable pub commit : {A : Type 0} → List (Line Byte) → Line Byte → A → Disk Byte × Result A
  unfolding committed
  commit lines encoded result =
      committed lines result (write_all kernel.os_write (suc (length encoded)) 0 [] encoded)

  -- a record that was built, with its line
  abbrev pub with_encoding : JournalRecord → Result (JournalRecord × Line Byte)
  with_encoding r = do line ← encode_record py json r; ok (r, line)

  module _ (match_id : Value) where
    -- `read_all` of the store for a match
    unfoldable pub read_all : Disk Byte → Result (List JournalRecord)
    read_all disk = do
      lines ← open_existing disk
      s ← closed (read_verified py json lines)
      first ← require_match match_id s.records
      ok s.records

    -- the record that is appended to what was read, and its line
    unfoldable pub next_record :
        String → Fields → Value → Value → String → Reading → Result (JournalRecord × Line Byte)
    unfolding check_bound check_order check_superseded
    next_record kind payload session turn now s = do
      first ← require_match match_id s.records
      check_bound kind session turn payload s
      check_order kind session turn payload s
      check_superseded kind session turn payload s
      last ← elim (last? s.records) [ none ↦ err (unexpected "IndexError") | some l ↦ ok l ]
      r ←
          build_record py json (int (pos (length s.records))) match_id session (str now) turn
            (str kind) (dict payload) last.record_hash
      with_encoding r

    -- the write of what was prepared, if it was
    unfoldable pub write_prepared :
        List (Line Byte) → Result (JournalRecord × Line Byte) → Disk Byte × Result JournalRecord
    write_prepared lines (err e) = (regular lines, err e)
    write_prepared lines (ok (r, line)) = commit lines line r

    unfoldable pub append_to :
        String
        → Fields
        → Value
        → Value
        → String
        → List (Line Byte)
        → Disk Byte × Result JournalRecord
    unfolding write_prepared
    append_to kind payload session turn now lines =
        write_prepared lines
          (read_verified py json lines >>= next_record kind payload session turn now)

    unfoldable pub append_locked :
        String → Fields → Value → Value → String → Disk Byte → Disk Byte × Result JournalRecord
    unfolding append_to
    append_locked kind payload session turn now disk = elim (open_appending disk) [
      | err e ↦ (disk, err e)
      | ok lines ↦
          let done = append_to kind payload session turn now lines in (done.0, closed done.1)
    ]

    -- the checks of `append` before the file is opened
    unfoldable pub check_append : String → Value → Value → Result Value
    check_append kind session turn = do
      require (one_of kind appendable_record_kinds)
          ("record kind must use a dedicated operation: " ++ py.repr (str kind))
      session_id ← validate_session session
      require (not (one_of kind live_record_kinds && is_null session))
          (kind ++ " requires bridge_session_id")
      require (not (one_of kind live_record_kinds && is_null turn)) (kind ++ " requires turn")
      ok session_id

    unfoldable pub append :
        String → Fields → Value → Value → String → Disk Byte → Disk Byte × Result JournalRecord
    append kind payload session turn now disk = elim (check_append kind session turn) [
      | err e ↦ (disk, err e)
      | ok session_id ↦ append_locked kind payload session_id turn now disk
    ]

    unfoldable pub check_bind : Value → Value → Result Value
    check_bind session authority = do
      session_id ← validate_bridge_session_id session
      require (is_str "operator" authority) "binding authority must be 'operator'"
      ok session_id

    unfoldable pub bind_session :
        Value → Value → String → Disk Byte → Disk Byte × Result JournalRecord
    unfolding check_bind
    bind_session session authority now disk = elim (check_bind session authority) [
      | err e ↦ (disk, err e)
      | ok session_id ↦
          append_locked "session_binding" (field "authority" authority end) session_id null now disk
    ]

  -- the first record of a journal, and its line
  unfoldable pub first_record : Value → Value → String → Result (JournalRecord × Line Byte)
  first_record session match_id now = do
    r ←
        build_record py json (int (pos 0)) match_id session (str now) null (str "journal_started")
          (dict end) null
    with_encoding r

  create_file : Value → Value → String → Disk Byte → Disk Byte × Result Value
  create_file session match_id now absent = elim (first_record session match_id now) [
    | err e ↦ (regular [], closed (err e))
    | ok (r, line) ↦ let done = commit [] line match_id in (done.0, closed done.1)
  ]
  create_file session match_id now disk =
      (disk, err (invalid ("cannot open journal: " ++ kernel.exists_error)))

  -- `create` returns the store, here its match id; `match_id` is the given or the new one.
  unfoldable pub create : Value → Value → String → Disk Byte → Disk Byte × Result Value
  unfolding create_file
  create session match_id now disk =
      elim (validate_bridge_session_id session >>= λ s. validate_match_id match_id) [
        | err e ↦ (disk, err e)
        | ok m ↦ create_file session m now disk
      ]

  unfoldable pub open_store : Disk Byte → Result Value
  open_store disk = do
    lines ← open_existing disk
    s ← closed (read_verified py json lines)
    first ← elim s.records [ [] ↦ err (invalid "journal is empty") | r ∷ rs ↦ ok r ]
    validate_match_id first.match_id
