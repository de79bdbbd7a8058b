-- ===== src/Journal/Reads.antt =====
-- journal/store.py: `_read_verified` returns the records of one journal.
use civ5_agent_macos.Base.{
  ℕ, suc, ◌≡◌, refl, subst, inl, inr, ◌≤◌, ◌<◌, true, false, List, [], ◌∷◌, ◌++◌, arith, length,
  is_empty, leb, length-append,
}
use civ5_agent_macos.Base.Int.{pos}
use civ5_agent_macos.Python.{Value, int, Runtime, ok, is_null, is_str, int_of, value_eq, >>=-ok}
use civ5_agent_macos.Journal.Store.{Disk, Kernel, open_existing, closed, require_match, read_all}
use civ5_agent_macos.Journal.Outcomes.{closed-ok}
use civ5_agent_macos.Validation.{member}
use civ5_agent_macos.Journal.{JournalRecord, Encoding, Line}
use civ5_agent_macos.Journal.Reader.{
  Reading, no_records, live_record_kinds, is_one_of, read_lines, read_verified,
}
use civ5_agent_macos.Journal.Chain.{Accepted, read_lines_inv, get_elem?-snoc}
use civ5_agent_macos.Journal.Invariants.{
  turn_le, Binds, At, IsJournal, IsReading, no_records-IsReading, leb_ℤ_trans, leb_ℤ_refl,
  check_turn-le,
}
use civ5_agent_macos.Journal.Extends.{
  last?-At, get_elem?-append, get_elem?-length, check_place-first, Follows, check_place-Follows,
  check_kind-live, check_kind-known,
}

module _ (s : Reading) (r : JournalRecord) (t : Reading) (a : Accepted s r t)
    (p : IsReading s) where
  open p use {journal, latest, known}

  abbrev more : List JournalRecord
  more = s.records ++ (r ∷ [])

  -- the first record was there before, if any was
  first_before :
      (i : ℕ) (q : JournalRecord) → At more 0 q → suc i ≤ length s.records → At s.records 0 q
  first_before i q h lt = elim (get_elem?-snoc s.records r 0 q h) [
    | inl (k, e) ↦ e
    | inr (e, k) ↦ absurd (omega arith)
  ]

  numbered_more :
      (i : ℕ) (q : JournalRecord) → At more i q → value_eq q.sequence (int (pos i)) ≡ true
  numbered_more i q h = elim (get_elem?-snoc s.records r i q h) [
    | inl (lt, e) ↦ journal.numbered i q e
    | inr (n, e) ↦ rw (n, e) a.numbered
  ]

  follows : (f : JournalRecord) → At s.records 0 f → Follows s.records f r
  follows f h = check_place-Follows s.records f r a.placed h

  first_of : (rs : List JournalRecord) → 0 < length rs → (f : JournalRecord) × At rs 0 f
  first_of [] h = absurd (omega arith)
  first_of (f ∷ rs) h = (f, refl)

  started_new :
      (rs : List JournalRecord)
      → rs ≡ s.records
      → is_str "journal_started" r.kind ≡ leb (length rs) 0
  started_new [] e = check_place-first r (rw (← e) at a.placed)
  started_new (f ∷ rs) e =
      let new = (follows f (subst (λ xs. At xs 0 f) e refl)).not_started in rw new (ground arith)

  started_more :
      (i : ℕ) (q : JournalRecord) → At more i q → is_str "journal_started" q.kind ≡ leb i 0
  started_more i q h = elim (get_elem?-snoc s.records r i q h) [
    | inl (lt, e) ↦ journal.started i q e
    | inr (n, e) ↦ rw (n, e) (started_new s.records refl)
  ]

  linked_more :
      (i : ℕ) (q u : JournalRecord)
      → At more i q
      → At more (suc i) u
      → value_eq u.previous_hash q.record_hash ≡ true
  linked_more i q u h k = elim (get_elem?-snoc s.records r (suc i) u k) [
    | inl (lt, e) ↦ elim (get_elem?-snoc s.records r i q h) [
      | inl (lt', e') ↦ journal.linked i q u e' e
      | inr (n, e') ↦ absurd (omega arith)
    ]
    | inr (n, e) ↦ elim (get_elem?-snoc s.records r i q h) [
      | inr (n', e') ↦ absurd (omega arith)
      | inl (lt, e') ↦
          let (f, first) = first_of s.records (omega arith) in
          rw e ((follows f first).chained q (last?-At s.records i q e' n))
    ]
  ]

  one_match_more :
      (i : ℕ) (q u : JournalRecord)
      → At more 0 q
      → At more (suc i) u
      → value_eq u.match_id q.match_id ≡ true
  one_match_more i q u h k = elim (get_elem?-snoc s.records r (suc i) u k) [
    | inl (lt, e) ↦ journal.one_match i q u (first_before i q h (omega arith)) e
    | inr (n, e) ↦ rw e (follows q (first_before i q h (omega arith))).same_match
  ]

  ordered_more :
      (i j : ℕ) (q u : JournalRecord)
      → At more i q
      → At more j u
      → i < j
      → is_null q.turn ≡ false
      → is_null u.turn ≡ false
      → turn_le q.turn u.turn ≡ true
  ordered_more i j q u h k lt m n = elim (get_elem?-snoc s.records r i q h) [
    | inr (at_end, e') ↦ elim (get_elem?-snoc s.records r j u k) [
      | inl (lt', e) ↦ absurd (omega arith)
      | inr (last, e) ↦ absurd (omega arith)
    ]
    | inl (lt', e') ↦ elim (get_elem?-snoc s.records r j u k) [
      | inl (lt'', e) ↦ journal.ordered i j q u e' e lt m n
      | inr (last, e) ↦
          let (some_turn, le) = latest i q e' m in
          let (new, old, later) = check_turn-le s.last_turn r.turn t.last_turn a.timed in
          let up = (later some_turn).1 in
          let same : t.last_turn ≡ u.turn = rw e (new (rw e at n)) in
          leb_ℤ_trans (int_of q.turn) (int_of s.last_turn) (int_of u.turn) le (rw (← same) up)
    ]
  ]

  bound_more :
      (i : ℕ) (u : JournalRecord)
      → At more i u
      → is_one_of u.kind live_record_kinds ≡ true
      → (j : ℕ) × (q : JournalRecord) × (j < i) × At more j q × Binds q u.bridge_session_id
  bound_more i u h live = elim (get_elem?-snoc s.records r i u h) [
    | inl (lt, e) ↦
        let (j, q, k, at_j, b) = journal.bound i u e live in
        (j, q, k, get_elem?-append s.records (r ∷ []) j q at_j, b)
    | inr (n, e) ↦
        let m = check_kind-live s.bound_sessions t.bound_sessions r a.bound (rw e at live) in
        let (j, q, k, at_j, b) = known r.bridge_session_id m in
        (j, q, omega arith, get_elem?-append s.records (r ∷ []) j q at_j, rw e b)
  ]

  more-IsJournal : IsJournal more
  more-IsJournal = record {
    numbered = numbered_more;
    started = started_more;
    linked = linked_more;
    one_match = one_match_more;
    ordered = ordered_more;
    bound = bound_more;
  }

  latest_more :
      (i : ℕ) (q : JournalRecord)
      → At more i q
      → is_null q.turn ≡ false
      → (is_null t.last_turn ≡ false) × (turn_le q.turn t.last_turn ≡ true)
  latest_more i q h m = elim (get_elem?-snoc s.records r i q h) [
    | inl (lt, e) ↦
        let (some_turn, le) = latest i q e m in
        let (new, old, later) = check_turn-le s.last_turn r.turn t.last_turn a.timed in
        let (found, up) = later some_turn in
        (found, leb_ℤ_trans (int_of q.turn) (int_of s.last_turn) (int_of t.last_turn) le up)
    | inr (n, e) ↦
        let (new, old, later) = check_turn-le s.last_turn r.turn t.last_turn a.timed in
        let same : t.last_turn ≡ q.turn = rw e (new (rw e at m)) in
        rw same (m, leb_ℤ_refl (int_of q.turn))
  ]

  known_more :
      (session : Value)
      → member session t.bound_sessions ≡ true
      → (i : ℕ) × (q : JournalRecord) × (i < length more) × At more i q × Binds q session
  known_more session m =
      elim (check_kind-known s.bound_sessions t.bound_sessions r a.bound session m) [
        | inl old ↦
            let (i, q, lt, at_i, b) = known session old in
            (
              i,
              q,
              omega (arith, length-append s.records (r ∷ [])),
              get_elem?-append s.records (r ∷ []) i q at_i,
              b,
            )
        | inr b ↦ (
          length s.records,
          r,
          omega (arith, length-append s.records (r ∷ [])),
          get_elem?-length s.records r,
          b,
        )
      ]

  Accepted-IsReading : IsReading t
  Accepted-IsReading = record {
    journal = rw a.extended more-IsJournal;
    latest = rw a.extended latest_more;
    known = rw a.extended known_more;
  }

module _ {Byte : Type 0} (py : Runtime) (json : Encoding Byte) where
  pub read_lines-IsReading :
      (lines : List (Line Byte)) (s : Reading)
      → read_lines py json no_records lines ≡ ok s
      → IsReading s
  read_lines-IsReading lines s h =
      read_lines_inv py json IsReading Accepted-IsReading lines no_records s h no_records-IsReading

  pub read_verified-lines :
      (lines : List (Line Byte)) (s : Reading)
      → read_verified py json lines ≡ ok s
      → (read_lines py json no_records lines ≡ ok s) × (is_empty s.records ≡ false)
  unfolding read_verified
  read_verified-lines lines s h = ground arith

  module _ (kernel : Kernel) (match_id : Value) where
    pub require_match-At :
        (rs : List JournalRecord) (f : JournalRecord)
        → require_match match_id rs ≡ ok f
        → At rs 0 f × (value_eq f.match_id match_id ≡ true)
    unfolding require_match
    require_match-At [] f h = cc
    require_match-At (r ∷ rs) f h = ground arith

    -- The records that `read_all` returns are numbered from zero, the first and no other is
    -- `journal_started`, each holds the hash of the one before and the match id of the first, which
    -- is that of the store, their turns never decrease, and every live record belongs to a session
    -- that an earlier record bound.
    pub read_all-IsJournal :
        (disk : Disk Byte) (rs : List JournalRecord)
        → read_all py json kernel match_id disk ≡ ok rs
        → IsJournal rs × ((f : JournalRecord) × At rs 0 f × (value_eq f.match_id match_id ≡ true))
    unfolding read_all
    read_all-IsJournal disk rs h =
        let (lines, opened, h1) = >>=-ok (open_existing py json kernel disk) _ h in
        let (s, ended, h2) = >>=-ok (closed py json kernel (read_verified py json lines)) _ h1 in
        let reads = (closed-ok py json kernel (read_verified py json lines) s ended).0 in
        let (f, first, h3) = >>=-ok (require_match match_id s.records) _ h2 in
        let same : s.records ≡ rs = cc in
        let whole = read_lines-IsReading lines s (read_verified-lines lines s reads).0 in
        let (at_start, owned) = require_match-At s.records f first in
        rw (← same) (whole.journal, (f, at_start, owned))
