-- ===== src/Journal/Appending.antt =====
-- journal/store.py: what `append` and `bind_session` leave in the file, whether they return or raise.
use civ5_agent_macos.Base.{
  ◌≡◌, refl, ap, ◌∙◌, true, false, List, [], ◌∷◌, String, arith, Bool-cases, inl, inr, ◌++◌,
  is_empty, eq_iff, none, some,
}
use civ5_agent_macos.Python.{
  Value, Result, null, bool, int, str, list, dict, Fields, field, end, Runtime, ok, err, is_null,
  >>=-ok, ◌>>=◌, one_of, Result-cases, is_str-eq,
}
use civ5_agent_macos.Identity.{validate_uuid4, is_uuid_value}
use civ5_agent_macos.Journal.{JournalRecord, Encoding, Line}
use civ5_agent_macos.Journal.Codec.{as_dict}
use civ5_agent_macos.Journal.Reader.{
  Reading, no_records, live_record_kinds, read_lines, read_verified,
}
use civ5_agent_macos.Journal.Roundtrip.{canonical, encode_record-Encoded}
use civ5_agent_macos.Journal.Prepares.{next_record-Prepared}
use civ5_agent_macos.Journal.Appends.{Request, live, correction, binding, is_one_of_text}
use civ5_agent_macos.Journal.Reads.{read_verified-lines}
use civ5_agent_macos.Journal.Reopens.{prepared_reads}
use civ5_agent_macos.Journal.Outcomes.{whole_line, commit-ok, closed-ok}
use civ5_agent_macos.Journal.Store.{
  Disk, absent, denied, special, regular, Kernel, open_existing, open_appending, closed, commit,
  write_prepared, require_match, read_all, next_record, append_to, append_locked, check_append,
  append, check_bind, bind_session,
}

-- a pair, from its components
pub pair : {A B : Type 0} (x : A × B) {a : A} {b : B} → x.0 ≡ a → x.1 ≡ b → x ≡ (a, b)
pair (y, z) h k = cc

nonempty_snoc : {A : Type 0} (xs : List A) (x : A) → is_empty (xs ++ (x ∷ [])) ≡ false
nonempty_snoc [] x = refl
nonempty_snoc (y ∷ xs) x = refl

module _ {Byte : Type 0} (py : Runtime) (json : Encoding Byte) (kernel : Kernel)
    (match_id : Value) where
  read_all-regular :
      (lines : List (Line Byte)) (s : Reading) (owner : JournalRecord)
      → read_lines py json no_records lines ≡ ok s
      → is_empty s.records ≡ false
      → require_match match_id s.records ≡ ok owner
      → kernel.os_close ≡ ok tt
      → read_all py json kernel match_id (regular lines) ≡ ok s.records
  unfolding read_all open_existing read_verified closed
  read_all-regular lines s owner reads some_record owned ends =
      rw (ends, read_all, closed, reads, some_record, owned) refl

  require_match-append :
      (rs more : List JournalRecord) (owner : JournalRecord)
      → require_match match_id rs ≡ ok owner
      → require_match match_id (rs ++ more) ≡ ok owner
  unfolding require_match
  require_match-append [] more owner h = cc
  require_match-append (r ∷ rs) more owner h = h

  -- the file reads as before, and then as the new record
  abbrev Grows : Disk Byte → Disk Byte → JournalRecord → Type 0
  Grows disk disk' r =
      (rs : List JournalRecord) × (read_all py json kernel match_id disk ≡ ok rs)
      × (read_all py json kernel match_id disk' ≡ ok (rs ++ (canonical r ∷ [])))

  -- what a record was asked to hold
  abbrev pub Holds : String → Fields → Value → Value → JournalRecord → Type 0
  Holds kind payload session turn r =
      (r.kind ≡ str kind)
      × (r.payload ≡ dict payload)
      × (r.bridge_session_id ≡ session)
      × (r.turn ≡ turn)

  module _ (kind : String) (payload : Fields) (session turn : Value) (now : String) where
    prepared-Grows :
        (lines : List (Line Byte)) (s : Reading) (r : JournalRecord) (line : Line Byte)
        (disk : Disk Byte) (x : JournalRecord)
        → Request kind payload session turn
        → read_verified py json lines ≡ ok s
        → next_record py json kernel match_id kind payload session turn now s ≡ ok (r, line)
        → commit py json kernel lines line r ≡ (disk, ok x)
        → kernel.os_close ≡ ok tt
        → Grows (regular lines) disk x × Holds kind payload session turn x
    prepared-Grows lines s r line disk x q read h done ends =
        let (reads, some_record) = read_verified-lines py json lines s read in
        let p =
          next_record-Prepared py json kernel match_id kind payload session turn now s r line h in
        let (t, again, more) =
          prepared_reads py json kernel match_id kind payload session turn now lines s r line q
            reads h in
        let (written, same) = commit-ok py json kernel lines line r disk x done in
        let w = encode_record-Encoded py json r line p.encoded in
        let file : disk ≡ regular (lines ++ (line ∷ [])) =
          written
          ∙ rw w.written
              (whole_line py json kernel lines (json.dumps (dict (as_dict r))) json.newline) in
        let owned : require_match match_id t.records ≡ ok p.first =
          rw more (require_match-append s.records (canonical r ∷ []) p.first p.owned) in
        let filled : is_empty t.records ≡ false = rw more (nonempty_snoc s.records (canonical r)) in
        let full = read_all-regular (lines ++ (line ∷ [])) t p.first again filled owned ends in
        let b = p.built in
        (
          (
            s.records,
            read_all-regular lines s p.first reads some_record p.owned ends,
            rw (file, ← same) (full ∙ ap ok more),
          ),
          rw (← same) (b.kind_lem, b.payload_lem, b.session_lem, b.turn_lem),
        )

    append_to-Grows :
        (lines : List (Line Byte)) (disk : Disk Byte) (x : JournalRecord)
        → Request kind payload session turn
        → append_to py json kernel match_id kind payload session turn now lines ≡ (disk, ok x)
        → kernel.os_close ≡ ok tt
        → Grows (regular lines) disk x × Holds kind payload session turn x
    unfolding append_to write_prepared
    append_to-Grows lines disk x q h ends =
        elim (Result-cases (
          read_verified py json lines
          >>= next_record py json kernel match_id kind payload session turn now)) [
            | inr (e, p) ↦
                absurd (let bad : (regular lines, err e) ≡ (disk, ok x) = rw p at h in cc)
            | inl ((r, line), p) ↦
                let (s, read, next) = >>=-ok (read_verified py json lines) _ p in
                prepared-Grows lines s r line disk x q read next (rw p at h) ends
          ]

    append_locked-Grows :
        (disk disk' : Disk Byte) (x : JournalRecord)
        → Request kind payload session turn
        → append_locked py json kernel match_id kind payload session turn now disk ≡ (disk', ok x)
        → Grows disk disk' x × Holds kind payload session turn x
    unfolding append_locked open_existing open_appending
    append_locked-Grows absent disk' x q h = cc
    append_locked-Grows (denied m) disk' x q h = cc
    append_locked-Grows (special none) disk' x q h = cc
    append_locked-Grows (special (some m)) disk' x q h = cc
    append_locked-Grows (regular lines) disk' x q h =
        let done = append_to py json kernel match_id kind payload session turn now lines in
        let (made, ends) =
          closed-ok py json kernel done.1 x
            (ap (λ (y : Disk Byte × Result JournalRecord). y.1) h) in
        let left = ap (λ (y : Disk Byte × Result JournalRecord). y.0) h in
        append_to-Grows lines disk' x q (pair done left made) ends

  check_append-Request :
      (kind : String) (payload : Fields) (session turn session_id : Value)
      → check_append py json kernel match_id kind session turn ≡ ok session_id
      → Request kind payload session_id turn
  unfolding check_append validate_uuid4
  check_append-Request kind payload session turn session_id h =
      elim (Bool-cases (one_of kind live_record_kinds)) [
        | inl l ↦
            live (is_one_of_text kind live_record_kinds l) (ground (arith, l, h))
              (ground (arith, l, h))
        | inr n ↦ correction (ground (arith, n, h, eq_iff "correction" kind))
      ]

  -- An `append` that returns leaves a journal that `read_all` accepts: the records from before,
  -- and behind them the new one, with the fields of its payload in the order of their names.
  pub append-Grows :
      (kind : String) (payload : Fields) (session turn : Value) (now : String)
      (disk disk' : Disk Byte) (r : JournalRecord)
      → append py json kernel match_id kind payload session turn now disk ≡ (disk', ok r)
      → Grows disk disk' r
  unfolding append
  append-Grows kind payload session turn now disk disk' r h =
      elim (Result-cases (check_append py json kernel match_id kind session turn)) [
        | inr (e, p) ↦ absurd (let bad : (disk, err e) ≡ (disk', ok r) = rw (p, append) at h in cc)
        | inl (session_id, p) ↦
            (append_locked-Grows kind payload session_id turn now disk disk' r
              (check_append-Request kind payload session turn session_id p) (rw (p, append) at h)).0
      ]

  check_bind-Request :
      (session authority session_id : Value)
      → check_bind py json kernel match_id session authority ≡ ok session_id
      → Request "session_binding" (field "authority" authority end) session_id null
  unfolding check_bind validate_uuid4
  check_bind-Request session authority session_id h =
      binding refl
        (ap (λ v. field "authority" v end) (is_str-eq "operator" authority (ground (arith, h))))
        (is_text session_id (ground (arith, h))) refl
    where
      is_text : (v : Value) → is_uuid_value v ≡ true → is_null v ≡ false
      is_text null k = cc
      is_text (bool b) k = refl
      is_text (int z) k = refl
      is_text (str t) k = refl
      is_text (list xs) k = refl
      is_text (dict d) k = refl

  check_bind-same :
      (session authority session_id : Value)
      → check_bind py json kernel match_id session authority ≡ ok session_id
      → (authority ≡ str "operator") × (session_id ≡ session)
  unfolding check_bind validate_uuid4
  check_bind-same session authority session_id h =
      (is_str-eq "operator" authority (ground (arith, h)), ground (arith, h))

  -- A `bind_session` that returns leaves a journal that `read_all` accepts: the records from before, and
  -- behind them the record that it returns, a `session_binding` of the session by the operator, without
  -- a turn.
  pub bind_session-Grows :
      (session authority : Value) (now : String) (disk disk' : Disk Byte) (r : JournalRecord)
      → bind_session py json kernel match_id session authority now disk ≡ (disk', ok r)
      → Grows disk disk' r
        × Holds "session_binding" (field "authority" (str "operator") end) session null r
  unfolding bind_session
  bind_session-Grows session authority now disk disk' r h =
      elim (Result-cases (check_bind py json kernel match_id session authority)) [
        | inr (e, p) ↦
            absurd (let bad : (disk, err e) ≡ (disk', ok r) = rw (p, bind_session) at h in cc)
        | inl (session_id, p) ↦
            let (grows, holds) =
              append_locked-Grows "session_binding" (field "authority" authority end) session_id
                null now disk disk' r (check_bind-Request session authority session_id p)
                (rw (p, bind_session) at h) in
            let (operator, same) = check_bind-same session authority session_id p in
            (grows, rw (← operator, ← same) holds)
      ]
