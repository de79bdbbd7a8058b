-- ===== src/Journal/Framed.antt =====
-- journal/store.py: what `read_all` asks of the bytes of the file.
use civ5_agent_macos.Base.{
  suc, ◌+◌, ◌≡◌, true, List, [], ◌∷◌, All, length, leb, arith, length-append, refl, ap, ◌∙◌, sym,
  inl, inr, Bool-cases,
}
use civ5_agent_macos.Python.{Value, Runtime, ok, err, Result-cases, >>=-ok}
use civ5_agent_macos.Journal.{JournalRecord, Encoding, Line}
use civ5_agent_macos.Journal.Codec.{max_record_bytes, is_complete, decode_record}
use civ5_agent_macos.Journal.Reader.{Reading, no_records, read_line, read_lines, read_verified}
use civ5_agent_macos.Journal.Store.{
  Disk, absent, denied, special, regular, Kernel, open_existing, closed, require_match, read_all,
}
use civ5_agent_macos.Journal.Chain.{check_record-Accepted}
use civ5_agent_macos.Journal.Outcomes.{closed-ok}
use civ5_agent_macos.Journal.Reads.{read_verified-lines}

module _ {Byte : Type 0} (py : Runtime) (json : Encoding Byte) where
  -- a line that holds at most as many bytes as a record may have, the last of them a newline
  abbrev pub IsFramed : Line Byte → Type 0
  IsFramed line = (leb (length line) max_record_bytes ≡ true) × (is_complete py json line ≡ true)

  decode_record-is_complete :
      (line : Line Byte) (r : JournalRecord)
      → decode_record py json line ≡ ok r
      → is_complete py json line ≡ true
  unfolding decode_record
  decode_record-is_complete line r h = ground arith

  -- a line that is read is framed and adds one record
  read_line-IsFramed :
      (s : Reading) (line : Line Byte) (t : Reading)
      → read_line py json s line ≡ ok t
      → IsFramed line × (length t.records ≡ suc (length s.records))
  unfolding read_line
  read_line-IsFramed s line t h = elim (Bool-cases (leb (length line) max_record_bytes)) [
    | inr n ↦ absurd (let x : err _ ≡ ok t = rw n at h in cc)
    | inl n ↦ elim (Result-cases (decode_record py json line)) [
      | inr (e, q) ↦ ground arith
      | inl (r, q) ↦
          let a = check_record-Accepted s r t (rw (n, q) at h) in
          let more = length-append s.records (r ∷ []) in
          ((n, decode_record-is_complete line r q), ap length a.extended ∙ more ∙ omega arith)
    ]
  ]

  read_lines-IsFramed :
      (s : Reading) (lines : List (Line Byte)) (t : Reading)
      → read_lines py json s lines ≡ ok t
      → All IsFramed lines × (length t.records ≡ length s.records + length lines)
  unfolding read_lines
  read_lines-IsFramed s [] t h =
      let same : s ≡ t = cc in (tt, ap (λ (u : Reading). length u.records) (sym same) ∙ omega arith)
  read_lines-IsFramed s (line ∷ lines) t h =
      let (u, first, rest) = >>=-ok (read_line py json s line) _ h in
      let (framed, one) = read_line-IsFramed s line u first in
      let (all, more) = read_lines-IsFramed u lines t rest in ((framed, all), omega arith)

  module _ (kernel : Kernel) (match_id : Value) where
    -- If `read_all` returns, the file is made of as many lines as there are records, each of at most
    -- `max_record_bytes` bytes and ended by a newline.
    pub read_all-IsFramed :
        (disk : Disk Byte) (rs : List JournalRecord)
        → read_all py json kernel match_id disk ≡ ok rs
        → (lines : List (Line Byte)) × (disk ≡ regular lines)
          × All IsFramed lines
          × (length rs ≡ length lines)
    unfolding read_all open_existing
    read_all-IsFramed absent rs h = cc
    read_all-IsFramed (denied m) rs h = cc
    read_all-IsFramed (special m) rs h = cc
    read_all-IsFramed (regular lines) rs h =
        let (s, ended, rest) = >>=-ok (closed py json kernel (read_verified py json lines)) _ h in
        let reads = (closed-ok py json kernel (read_verified py json lines) s ended).0 in
        let (f, first, last) = >>=-ok (require_match match_id s.records) _ rest in
        let same : s.records ≡ rs = cc in
        let (all, count) =
          read_lines-IsFramed no_records lines s (read_verified-lines py json lines s reads).0 in
        (lines, refl, all, ap length (sym same) ∙ count ∙ omega arith)
