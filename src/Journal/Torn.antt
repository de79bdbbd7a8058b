-- ===== src/Journal/Torn.antt =====
-- journal/store.py: what an append that raises leaves in the file.
use civ5_agent_macos.Base.{
  ◌≡◌, refl, ap, subst, none, some, ◌∙◌, false, List, [], ◌∷◌, String, inl, inr, ◌++◌, ◌⊎◌,
}
use civ5_agent_macos.Python.{
  Value, str, dict, Fields, Error, invalid, Runtime, Result, ok, err, >>=-ok, ◌>>=◌, Result-cases,
}
use civ5_agent_macos.Journal.{JournalRecord, Encoding, Line}
use civ5_agent_macos.Journal.Codec.{is_complete, as_dict, encode_record}
use civ5_agent_macos.Journal.Reader.{Reading, no_records, read_line, read_lines, read_verified}
use civ5_agent_macos.Journal.Roundtrip.{encode_record-Encoded}
use civ5_agent_macos.Journal.Prepares.{Prepared, next_record-Prepared}
use civ5_agent_macos.Journal.Reads.{read_verified-lines}
use civ5_agent_macos.Journal.Reopens.{read_lines-snoc}
use civ5_agent_macos.Journal.Outcomes.{
  closed-err, commit-ok, whole_line, torn_newline, unfinished, read_line-unfinished, commit-err,
}
use civ5_agent_macos.Journal.Store.{
  Disk, absent, denied, special, regular, Kernel, open_existing, open_appending, closed, with_line,
  commit, write_prepared, read_all, next_record, append_to, append_locked, check_append, append,
}

module _ {Byte : Type 0} (py : Runtime) (json : Encoding Byte) (kernel : Kernel)
    (match_id : Value) where
  -- a part of a line stands behind the lines of the file, and is refused at the next reading
  pub record IsTorn (disk disk' : Disk Byte) : Type 0 where
    pub lines : List (Line Byte)
    pub part : Line Byte
    pub before : disk ≡ regular lines
    pub after : disk' ≡ regular (lines ++ (part ∷ []))
    pub incomplete : is_complete py json part ≡ false
    pub reason : Error
    pub refused : read_all py json kernel match_id disk' ≡ err reason

  read_all-refused :
      (lines : List (Line Byte)) (s : Reading) (part : Line Byte) (m : String)
      → read_lines py json no_records lines ≡ ok s
      → read_line py json s part ≡ err (invalid m)
      → (x : Error) × (read_all py json kernel match_id (regular (lines ++ (part ∷ []))) ≡ err x)
  unfolding read_all open_existing read_verified closed
  read_all-refused lines s part m reads e = elim (Result-cases kernel.os_close) [
    | inr (x, p) ↦ (x, rw (p, read_all, closed) refl)
    | inl (u, p) ↦ (
      invalid m,
      rw (p, read_all, closed, read_lines-snoc py json lines part no_records, reads, e) refl,
    )
  ]

  read_all-unfinished :
      (lines : List (Line Byte)) (s : Reading) (part : Line Byte)
      → read_lines py json no_records lines ≡ ok s
      → is_complete py json part ≡ false
      → (x : Error) × (read_all py json kernel match_id (regular (lines ++ (part ∷ []))) ≡ err x)
  read_all-unfinished lines s part reads h =
      let (m, e) = read_line-unfinished py json kernel s part h in
      read_all-refused lines s part m reads e

  -- the whole line of a record as it was asked for stands behind the lines of the file; what is raised is the exception of
  -- `os.fsync` or `os.close`
  pub record IsUnconfirmed (kind : String) (payload : Fields) (turn : Value)
      (disk disk' : Disk Byte) (x : Error) : Type 0 where
    pub lines : List (Line Byte)
    pub added : JournalRecord
    pub same_kind : added.kind ≡ str kind
    pub same_payload : added.payload ≡ dict payload
    pub same_turn : added.turn ≡ turn
    pub line : Line Byte
    pub encoded : encode_record py json added ≡ ok line
    pub before : disk ≡ regular lines
    pub after : disk' ≡ regular (lines ++ (line ∷ []))
    pub failed : (kernel.os_fsync ≡ err x) ⊎ (kernel.os_close ≡ err x)

  -- what an append that raised left
  abbrev pub Leaves : String → Fields → Value → Disk Byte → Disk Byte → Error → Type 0
  Leaves kind payload turn disk disk' x =
      (disk' ≡ disk) ⊎ (IsTorn disk disk' ⊎ IsUnconfirmed kind payload turn disk disk' x)

  IsTorn-or_same :
      (lines : List (Line Byte)) (s : Reading) (part : Line Byte) (disk : Disk Byte)
      → read_lines py json no_records lines ≡ ok s
      → is_complete py json part ≡ false
      → disk ≡ with_line py json kernel lines part
      → (disk ≡ regular lines) ⊎ IsTorn (regular lines) disk
  IsTorn-or_same lines s [] disk reads h e = inl e
  IsTorn-or_same lines s (b ∷ part) disk reads h e =
      let (m, refused) = read_all-unfinished lines s (b ∷ part) reads h in
      inr (record {
        lines = lines;
        part = b ∷ part;
        before = refl;
        after = e;
        incomplete = h;
        reason = m;
        refused = rw e refused;
      })

  module _ (kind : String) (payload : Fields) (session turn : Value) (now : String) where
    module _ (lines : List (Line Byte)) (s : Reading) (r : JournalRecord) (line : Line Byte)
        (read : read_verified py json lines ≡ ok s)
        (next : next_record py json kernel match_id kind payload session turn now s
          ≡ ok (r, line)) where
      prepared : Prepared py json kernel match_id kind payload session turn now s r line
      prepared =
          next_record-Prepared py json kernel match_id kind payload session turn now s r line next

      encoded : encode_record py json r ≡ ok line
      encoded = prepared.encoded

      whole : with_line py json kernel lines line ≡ regular (lines ++ (line ∷ []))
      whole =
          rw (encode_record-Encoded py json r line encoded).written
            (whole_line py json kernel lines (json.dumps (dict (as_dict r))) json.newline)

      -- `y` is what the write or `os.fsync` raised
      prepared-Leaves :
          (disk : Disk Byte) (y x : Error)
          → commit py json kernel lines line r ≡ (disk, err y)
          → (kernel.os_fsync ≡ err y → (kernel.os_fsync ≡ err x) ⊎ (kernel.os_close ≡ err x))
          → Leaves kind payload turn (regular lines) disk x
      prepared-Leaves disk y x done raises =
          elim (commit-err py json kernel lines line r disk y done) [
            | inr (failed, file) ↦ inr (
                inr (record {
                  lines = lines;
                  added = r;
                  same_kind = prepared.built.kind_lem;
                  same_payload = prepared.built.payload_lem;
                  same_turn = prepared.built.turn_lem;
                  line = line;
                  encoded = encoded;
                  before = refl;
                  after = file ∙ whole;
                  failed = raises failed;
                }))
            | inl (part, b, rest, cut, file) ↦
                let w = encode_record-Encoded py json r line encoded in
                let single =
                  torn_newline py json kernel part (json.dumps (dict (as_dict r))) b json.newline
                    rest (cut ∙ w.written) (json.dumps_single_line (dict (as_dict r))) in
                elim (IsTorn-or_same lines s part disk (read_verified-lines py json lines s read).0
                  (unfinished py json kernel part single) file) [
                    | inl same ↦ inl same
                    | inr torn ↦ inr (inl torn)
                  ]
          ]

      -- an append that had succeeded, but whose file could not be closed
      unclosed-Leaves :
          (disk : Disk Byte) (x : Error) (a : JournalRecord)
          → commit py json kernel lines line r ≡ (disk, ok a)
          → kernel.os_close ≡ err x
          → Leaves kind payload turn (regular lines) disk x
      unclosed-Leaves disk x a done failed = inr (
          inr (record {
            lines = lines;
            added = r;
            same_kind = prepared.built.kind_lem;
            same_payload = prepared.built.payload_lem;
            same_turn = prepared.built.turn_lem;
            line = line;
            encoded = encoded;
            before = refl;
            after = (commit-ok py json kernel lines line r disk a done).0 ∙ whole;
            failed = inr failed;
          }))

      -- The exception of `os.close` replaces another one.
      closed-Leaves :
          (done : Disk Byte × Result JournalRecord) (x : Error)
          → commit py json kernel lines line r ≡ done
          → closed py json kernel done.1 ≡ err x
          → Leaves kind payload turn (regular lines) done.0 x
      closed-Leaves (disk, ok a) x h e = elim (closed-err py json kernel (ok a) x e) [
        | inl bad ↦ cc
        | inr failed ↦ unclosed-Leaves disk x a h failed
      ]
      closed-Leaves (disk, err y) x h e = elim (closed-err py json kernel (err y) x e) [
        | inl same ↦
            prepared-Leaves disk y x h
              (λ k. inl (k ∙ (let also : ◌≡◌ {A = Result (Unit {0})} (err y) (err x) = cc in also)))
        | inr failed ↦ prepared-Leaves disk y x h (λ k. inr failed)
      ]

    append_to-Leaves :
        (lines : List (Line Byte)) (x : Error)
        → closed py json kernel
            (append_to py json kernel match_id kind payload session turn now lines).1
          ≡ err x
        → Leaves kind payload turn
            (regular lines)
            (append_to py json kernel match_id kind payload session turn now lines).0
            x
    unfolding append_to write_prepared
    append_to-Leaves lines x h =
        elim (Result-cases (
          read_verified py json lines
          >>= next_record py json kernel match_id kind payload session turn now)) [
            | inr (e, p) ↦ rw (p, append_to) (inl refl)
            | inl ((r, line), p) ↦
                let (s, read, next) = >>=-ok (read_verified py json lines) _ p in
                rw (p, append_to)
                  (closed-Leaves lines s r line read next (commit py json kernel lines line r) x
                    refl (rw (p, append_to) at h))
          ]

    append_locked-Leaves :
        (disk disk' : Disk Byte) (x : Error)
        → append_locked py json kernel match_id kind payload session turn now disk ≡ (disk', err x)
        → Leaves kind payload turn disk disk' x
    unfolding append_locked open_existing open_appending
    append_locked-Leaves absent disk' x h = inl (cc)
    append_locked-Leaves (denied m) disk' x h = inl (cc)
    append_locked-Leaves (special none) disk' x h = inl (cc)
    append_locked-Leaves (special (some m)) disk' x h = inl (cc)
    append_locked-Leaves (regular lines) disk' x h =
        subst (λ d. Leaves kind payload turn (regular lines) d x)
          (ap (λ (y : Disk Byte × Result JournalRecord). y.0) h)
          (append_to-Leaves lines x (ap (λ (y : Disk Byte × Result JournalRecord). y.1) h))

  -- An `append` that raises leaves the file as it was; or with a part of a line behind the lines from
  -- before, and then every reading of the journal is refused; or with the whole line of a record of the
  -- given kind, payload and turn behind them, and then what it raises is the exception of `os.fsync` or
  -- of `os.close`.
  pub append-Leaves :
      (kind : String) (payload : Fields) (session turn : Value) (now : String)
      (disk disk' : Disk Byte) (x : Error)
      → append py json kernel match_id kind payload session turn now disk ≡ (disk', err x)
      → Leaves kind payload turn disk disk' x
  unfolding append
  append-Leaves kind payload session turn now disk disk' x h =
      elim (Result-cases (check_append py json kernel match_id kind session turn)) [
        | inr (e, p) ↦ inl (let same : (disk, err e) ≡ (disk', err x) = rw (p, append) at h in cc)
        | inl (session_id, p) ↦
            append_locked-Leaves kind payload session_id turn now disk disk' x (rw (p, append) at h)
      ]
