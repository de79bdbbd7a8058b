-- ===== src/Journal/Reopens.antt =====
-- journal/store.py: behind the lines of a journal, the line of an appended record is read.
use civ5_agent_macos.Base.{
  ◌≡◌, refl, ◌∙◌, true, List, [], ◌∷◌, String, Bool-cases, inl, inr, if◌then◌else◌, ◌++◌,
}
use civ5_agent_macos.Python.{
  Value, null, bool, int, str, list, dict, Fields, Runtime, ok, is_null, ◌>>=◌, Result-cases,
}
use civ5_agent_macos.Journal.{JournalRecord, Encoding, Line}
use civ5_agent_macos.Journal.Reader.{Reading, no_records, check_record, read_line, read_lines}
use civ5_agent_macos.Journal.Invariants.{check_turn-le}
use civ5_agent_macos.Journal.Chain.{Accepted, read_lines_inv}
use civ5_agent_macos.Journal.Roundtrip.{
  canonical, Encoded, encode_record-Encoded, decode_record-Encoded,
}
use civ5_agent_macos.Journal.Prepares.{next_record-Prepared}
use civ5_agent_macos.Journal.Appends.{Request, accepted}
use civ5_agent_macos.Journal.Store.{Kernel, next_record, prior_turn}

is_null-eq : (v : Value) → is_null v ≡ true → v ≡ null
is_null-eq null h = refl
is_null-eq (bool b) h = cc
is_null-eq (int z) h = cc
is_null-eq (str s) h = cc
is_null-eq (list xs) h = cc
is_null-eq (dict d) h = cc

prior_turn-snoc :
    (rs : List JournalRecord) (r : JournalRecord)
    → prior_turn (rs ++ (r ∷ [])) ≡ (if is_null r.turn then prior_turn rs else r.turn)
prior_turn-snoc [] r = elim (Bool-cases (is_null r.turn)) [
  | inl n ↦ rw n (is_null-eq r.turn n)
  | inr n ↦ rw n refl
]
prior_turn-snoc (x ∷ rs) r = elim (Bool-cases (is_null r.turn)) [
  | inl n ↦ rw (prior_turn-snoc rs r, n) refl
  | inr n ↦ rw (prior_turn-snoc rs r, n) (rw n refl)
]

-- the last turn of a reading is that of its last record with one
abbrev LastTurn : Reading → Type 0
LastTurn s = s.last_turn ≡ prior_turn s.records

Accepted-LastTurn :
    (s : Reading) (r : JournalRecord) (t : Reading) → Accepted s r t → LastTurn s → LastTurn t
Accepted-LastTurn s r t a e =
    let (new, old, later) = check_turn-le s.last_turn r.turn t.last_turn a.timed in
    rw (a.extended, prior_turn-snoc s.records r)
      (elim (Bool-cases (is_null r.turn)) [ inl n ↦ rw n (old n ∙ e) | inr n ↦ rw n (new n) ])

module _ {Byte : Type 0} (py : Runtime) (json : Encoding Byte) where
  pub read_lines-snoc :
      (lines : List (Line Byte)) (line : Line Byte) (s : Reading)
      → read_lines py json s (lines ++ (line ∷ []))
        ≡ (read_lines py json s lines >>= λ t. read_line py json t line)
  unfolding read_lines
  read_lines-snoc [] line s = elim (Result-cases (read_line py json s line)) [
    | inl (t, e) ↦ rw e refl
    | inr (x, e) ↦ rw e refl
  ]
  read_lines-snoc (l ∷ lines) line s = elim (Result-cases (read_line py json s l)) [
    | inl (t, e) ↦ rw e (read_lines-snoc lines line t)
    | inr (x, e) ↦ rw e refl
  ]

  read_line-canonical :
      (s t : Reading) (r : JournalRecord) (line : Line Byte)
      → Encoded py json r line
      → check_record s (canonical r) ≡ ok t
      → read_line py json s line ≡ ok t
  unfolding read_line
  read_line-canonical s t r line w e = rw (w.bounded, decode_record-Encoded py json r line w) e

  module _ (kernel : Kernel) (match_id : Value) where
    -- an append that wrote its line left a file that reads as before, and the record
    pub prepared_reads :
        (kind : String) (payload : Fields) (session turn : Value) (now : String)
        (lines : List (Line Byte)) (s : Reading) (r : JournalRecord) (line : Line Byte)
        → Request kind payload session turn
        → read_lines py json no_records lines ≡ ok s
        → next_record py json kernel match_id kind payload session turn now s ≡ ok (r, line)
        → (t : Reading) × (read_lines py json no_records (lines ++ (line ∷ [])) ≡ ok t)
          × (t.records ≡ s.records ++ (canonical r ∷ []))
    prepared_reads kind payload session turn now lines s r line q reads h =
        let p =
          next_record-Prepared py json kernel match_id kind payload session turn now s r line h in
        let last =
          read_lines_inv py json LastTurn Accepted-LastTurn lines no_records s reads start in
        let (t, accept, more) =
          accepted py json kernel match_id kind payload session turn now s r line p q last in
        let next =
          read_line-canonical s t r line (encode_record-Encoded py json r line p.encoded) accept in
        (t, rw (read_lines-snoc lines line no_records, reads) next, more)
      where
        start : LastTurn no_records
        start = refl
