-- ===== src/Journal/Invariants.antt =====
-- journal/store.py: the records that `_read_verified` returns form one journal.
use civ5_agent_macos.Base.{
  ℕ, suc, ◌≡◌, refl, sym, subst, inl, inr, ◌<◌, Bool, true, false, ◌||◌, none, some, List, arith,
  length, get_elem?, leb, Bool-cases,
}
use civ5_agent_macos.Base.Int.{pos, negsuc, ℤ, leb_ℤ}
use civ5_agent_macos.Python.{Value, int, ok, is_null, is_str, int_of, value_eq}
use civ5_agent_macos.Validation.{member}
use civ5_agent_macos.Journal.{JournalRecord}
use civ5_agent_macos.Journal.Reader.{Reading, no_records, live_record_kinds, is_one_of, check_turn}

-- `a <= b` on turns
abbrev pub turn_le : Value → Value → Bool
turn_le a b = leb_ℤ (int_of a) (int_of b)

-- a record that binds a session
abbrev pub Binds : JournalRecord → Value → Type 0
Binds r session =
    ((is_str "journal_started" r.kind || is_str "session_binding" r.kind) ≡ true)
    × (value_eq session r.bridge_session_id ≡ true)

-- the record at an index
abbrev pub At : List JournalRecord → ℕ → JournalRecord → Type 0
At rs i r = get_elem? rs i ≡ some r

pub record IsJournal (rs : List JournalRecord) : Type 0 where
  pub numbered : (i : ℕ) (r : JournalRecord) → At rs i r → value_eq r.sequence (int (pos i)) ≡ true
  pub started : (i : ℕ) (r : JournalRecord) → At rs i r → is_str "journal_started" r.kind ≡ leb i 0
  pub linked :
      (i : ℕ) (q r : JournalRecord)
      → At rs i q
      → At rs (suc i) r
      → value_eq r.previous_hash q.record_hash ≡ true
  pub one_match :
      (i : ℕ) (q r : JournalRecord)
      → At rs 0 q
      → At rs (suc i) r
      → value_eq r.match_id q.match_id ≡ true
  pub ordered :
      (i j : ℕ) (q r : JournalRecord)
      → At rs i q
      → At rs j r
      → i < j
      → is_null q.turn ≡ false
      → is_null r.turn ≡ false
      → turn_le q.turn r.turn ≡ true
  pub bound :
      (i : ℕ) (r : JournalRecord)
      → At rs i r
      → is_one_of r.kind live_record_kinds ≡ true
      → (j : ℕ) × (q : JournalRecord) × (j < i) × At rs j q × Binds q r.bridge_session_id

-- the other two parts of a reading, seen from its records
pub record IsReading (s : Reading) : Type 0 where
  pub journal : IsJournal s.records
  pub latest :
      (i : ℕ) (r : JournalRecord)
      → At s.records i r
      → is_null r.turn ≡ false
      → (is_null s.last_turn ≡ false) × (turn_le r.turn s.last_turn ≡ true)
  pub known :
      (session : Value)
      → member session s.bound_sessions ≡ true
      → (i : ℕ) × (r : JournalRecord) × (i < length s.records) × At s.records i r × Binds r session

pub no_records-IsReading : IsReading no_records
no_records-IsReading = record {
  journal = record {
    numbered = λ i r h. cc;
    started = λ i r h. cc;
    linked = λ i q r h k. cc;
    one_match = λ i q r h k. cc;
    ordered = λ i j q r h k lt m n. cc;
    bound = λ i r h live. absurd (let e : none ≡ some r = h in cc);
  };
  latest = λ i r h k. absurd (let e : none ≡ some r = h in cc);
  known = λ session h. absurd (let e : false ≡ true = h in cc);
}

pub leb_ℤ_trans : (a b c : ℤ) → leb_ℤ a b ≡ true → leb_ℤ b c ≡ true → leb_ℤ a c ≡ true
leb_ℤ_trans (pos a) (pos b) (pos c) h k = ground arith
leb_ℤ_trans (pos a) (pos b) (negsuc c) h k = cc
leb_ℤ_trans (pos a) (negsuc b) c h k = cc
leb_ℤ_trans (negsuc a) b (pos c) h k = refl
leb_ℤ_trans (negsuc a) (pos b) (negsuc c) h k = cc
leb_ℤ_trans (negsuc a) (negsuc b) (negsuc c) h k = ground arith

pub leb_ℤ_refl : (a : ℤ) → leb_ℤ a a ≡ true
leb_ℤ_refl (pos a) = ground arith
leb_ℤ_refl (negsuc a) = ground arith

-- what `check_turn` makes of the last turn
pub check_turn-le :
    (last turn next : Value)
    → check_turn last turn ≡ ok next
    → (is_null turn ≡ false → next ≡ turn)
      × (is_null turn ≡ true → next ≡ last)
      × (is_null last ≡ false → (is_null next ≡ false) × (turn_le last next ≡ true))
unfolding check_turn
check_turn-le last turn next h = elim (Bool-cases (is_null turn)) [
  | inl n ↦
      let e : last ≡ next = let x : ok last ≡ ok next = rw n at h in cc in
      (
        λ t. absurd (cc),
        λ t. sym e,
        λ t.
            subst (λ v. (is_null v ≡ false) × (turn_le last v ≡ true)) e
              (t, leb_ℤ_refl (int_of last)),
      )
  | inr n ↦ elim (Bool-cases (is_null last)) [
    | inl m ↦ let x : ok turn ≡ ok next = rw (n, m) at h in (λ t. cc, λ t. cc, λ t. cc)
    | inr m ↦ (λ t. ground arith, λ t. cc, λ t. ground (arith, n, m, h))
  ]
]
