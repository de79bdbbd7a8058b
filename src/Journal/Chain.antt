-- ===== src/Journal/Chain.antt =====
-- journal/store.py: what `_read_verified` guarantees of the records that it returns.
use civ5_agent_macos.Base.{
  ℕ, zero, suc, ◌≡◌, refl, subst, ◌⊎◌, inl, inr, ◌<◌, true, none, some, List, [], ◌∷◌, ◌++◌, arith,
  length, get_elem?, leb, Bool-cases,
}
use civ5_agent_macos.Base.Int.{pos}
use civ5_agent_macos.Python.{int, Runtime, ok, err, value_eq, Result-cases}
use civ5_agent_macos.Journal.{JournalRecord, Encoding, Line}
use civ5_agent_macos.Journal.Codec.{max_record_bytes, decode_record}
use civ5_agent_macos.Journal.Reader.{
  Reading, check_place, check_kind, check_turn, check_record, read_line, read_lines,
}

-- what one accepted record adds to a reading
pub record Accepted (s : Reading) (r : JournalRecord) (t : Reading) : Type 0 where
  pub numbered : value_eq r.sequence (int (pos (length s.records))) ≡ true
  pub placed : check_place s.records r ≡ ok tt
  pub bound : check_kind s.bound_sessions r ≡ ok t.bound_sessions
  pub timed : check_turn s.last_turn r.turn ≡ ok t.last_turn
  pub extended : t.records ≡ s.records ++ (r ∷ [])

pub check_record-Accepted :
    (s : Reading) (r : JournalRecord) (t : Reading) → check_record s r ≡ ok t → Accepted s r t
unfolding check_record
check_record-Accepted s r t h = ground arith

module _ {Byte : Type 0} (py : Runtime) (json : Encoding Byte) where
  read_line-Accepted :
      (s : Reading) (line : Line Byte) (t : Reading)
      → read_line py json s line ≡ ok t
      → (r : JournalRecord) × Accepted s r t
  unfolding read_line
  read_line-Accepted s line t h = elim (Bool-cases (leb (length line) max_record_bytes)) [
    | inr n ↦ absurd (let x : err _ ≡ ok t = rw n at h in cc)
    | inl n ↦ elim (Result-cases (decode_record py json line)) [
      | inr (e, q) ↦ ground arith
      | inl (r, q) ↦ (r, check_record-Accepted s r t (rw (n, q) at h))
    ]
  ]

  -- the rule of the loop: what every accepted record keeps holds of what is read
  pub read_lines_inv {ℓ} :
      (P : Reading → Type ℓ)
      → ((s : Reading) (r : JournalRecord) (t : Reading) → Accepted s r t → P s → P t)
      → (lines : List (Line Byte)) (s t : Reading) → read_lines py json s lines ≡ ok t
      → P s
      → P t
  unfolding read_lines
  read_lines_inv P keep [] s t h p = subst P (let e : s ≡ t = cc in e) p
  read_lines_inv P keep (line ∷ lines) s t h p = elim (Result-cases (read_line py json s line)) [
    | inr (e, q) ↦ absurd (let x : err e ≡ ok t = rw q at h in cc)
    | inl (u, q) ↦
        let (r, a) = read_line-Accepted s line u q in
        read_lines_inv P keep lines u t (rw q at h) (keep s r u a p)
  ]

-- An element of a list that one was added to is that one, or was there before.
pub get_elem?-snoc {ℓ} :
    {A : Type ℓ} (xs : List A) (y : A) (i : ℕ) (x : A)
    → get_elem? (xs ++ (y ∷ [])) i ≡ some x
    → ((i < length xs) × (get_elem? xs i ≡ some x)) ⊎ ((i ≡ length xs) × (x ≡ y))
get_elem?-snoc [] y zero x h = inr (refl, cc)
get_elem?-snoc [] y (suc i) x h = absurd (let e : none ≡ some x = h in cc)
get_elem?-snoc (z ∷ xs) y zero x h = inl (omega arith, h)
get_elem?-snoc (z ∷ xs) y (suc i) x h = elim (get_elem?-snoc xs y i x h) [
  | inl (lt, e) ↦ inl (omega arith, e)
  | inr (n, e) ↦ inr (omega arith, e)
]
