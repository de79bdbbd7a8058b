-- ===== src/Journal/Outcomes.antt =====
-- journal/store.py: what a write leaves behind the lines of a file, whether it returns or raises.
use civ5_agent_macos.Base.{
  suc, ◌≡◌, refl, sym, ap, ◌∙◌, false, List, [], ◌∷◌, String, arith, length, Bool-cases, inl, inr,
  ◌⊎◌, ◌++◌, leb, All,
}
use civ5_agent_macos.Python.{Error, invalid, Runtime, Result, ok, err, Result-cases}
use civ5_agent_macos.Journal.{Encoding, Line}
use civ5_agent_macos.Journal.Codec.{max_record_bytes, decode_record, is_complete}
use civ5_agent_macos.Journal.Reader.{Reading, read_line}
use civ5_agent_macos.Journal.Writing.{Written, all_written, cut_short, out_of_fuel}
use civ5_agent_macos.Journal.Writes.{Ends, write_all-Ends}
use civ5_agent_macos.Journal.Store.{Disk, regular, Kernel, with_line, commit, committed, closed}

module _ {Byte : Type 0} (py : Runtime) (json : Encoding Byte) (kernel : Kernel) where
  -- A part of a line that lacks its end has no newline.
  pub torn_newline :
      (line text : Line Byte) (b e : Byte) (rest : Line Byte)
      → line ++ (b ∷ rest) ≡ text ++ (e ∷ [])
      → All (λ x. json.is_newline x ≡ false) text
      → All (λ x. json.is_newline x ≡ false) line
  torn_newline [] text b e rest h none_in = tt
  torn_newline (x ∷ []) [] b e rest h none_in = cc
  torn_newline (x ∷ y ∷ line) [] b e rest h none_in = cc
  torn_newline (x ∷ line) (y ∷ text) b e rest h none_in =
      let same : x ≡ y = cc in (rw same none_in.0, torn_newline line text b e rest (cc) none_in.1)

  pub unfinished :
      (line : Line Byte)
      → All (λ x. json.is_newline x ≡ false) line
      → is_complete py json line ≡ false
  unfinished [] h = refl
  unfinished (x ∷ []) h = h.0
  unfinished (x ∷ y ∷ line) h = unfinished (y ∷ line) h.1

  pub read_line-unfinished :
      (s : Reading) (line : Line Byte)
      → is_complete py json line ≡ false
      → (m : String) × (read_line py json s line ≡ err (invalid m))
  unfolding read_line decode_record
  read_line-unfinished s line h = elim (Bool-cases (leb (length line) max_record_bytes)) [
    | inl small ↦ ("journal record is truncated", rw (small, h) refl)
    | inr large ↦ ("journal record exceeds maximum size", rw large refl)
  ]

  pub whole_line :
      (lines : List (Line Byte)) (text : Line Byte) (b : Byte)
      → with_line py json kernel lines (text ++ (b ∷ []))
        ≡ regular (lines ++ ((text ++ (b ∷ [])) ∷ []))
  whole_line lines [] b = refl
  whole_line lines (x ∷ text) b = refl

  -- an operation that returns closed the file and had returned before
  pub closed-ok :
      {A : Type 0} (r : Result A) (a : A)
      → closed py json kernel r ≡ ok a
      → (r ≡ ok a) × (kernel.os_close ≡ ok tt)
  unfolding closed
  closed-ok r a h = elim (Result-cases kernel.os_close) [
    | inl (u, p) ↦ (rw (p, closed) at h, p)
    | inr (e, p) ↦ absurd (let bad : err e ≡ ok a = rw (p, closed) at h in cc)
  ]

  -- an operation that raises had raised before, or raises what closing the file did
  pub closed-err :
      {A : Type 0} (r : Result A) (x : Error)
      → closed py json kernel r ≡ err x
      → (r ≡ err x) ⊎ (kernel.os_close ≡ err x)
  unfolding closed
  closed-err r x h = elim (Result-cases kernel.os_close) [
    | inl (u, p) ↦ inl (rw (p, closed) at h)
    | inr (e, p) ↦ inr (
        p
        ∙ (let same : ◌≡◌ {A = Result (Unit {0})} (err e) (err x) =
              let bad = rw (p, closed) at h in cc in
            same))
  ]

  module _ {A : Type 0} (lines : List (Line Byte)) (encoded : Line Byte) (a : A) where
    committed-ok :
        (w : Written Byte) (disk : Disk Byte) (result : A)
        → Ends encoded w
        → committed py json kernel lines a w ≡ (disk, ok result)
        → (disk ≡ with_line py json kernel lines encoded) × (a ≡ result)
    unfolding committed
    committed-ok (all_written line) disk result h e = elim (Result-cases kernel.os_fsync) [
      | inr (x, p) ↦ absurd (
          let bad : ◌≡◌ {A = Disk Byte × Result A} (with_line py json kernel lines line, err x)
              (disk, ok result) =
            rw (p, committed) at e in
          cc)
      | inl (u, p) ↦
          let done : ◌≡◌ {A = Disk Byte × Result A} (with_line py json kernel lines line, ok a)
              (disk, ok result) =
            rw (p, committed) at e in
          let same : with_line py json kernel lines line ≡ disk = cc in
          (sym same ∙ ap (with_line py json kernel lines) h, cc)
    ]
    committed-ok (cut_short line x) disk result h e = cc
    committed-ok out_of_fuel disk result h e = absurd h

    -- a part of the line was written, or the whole line before `os.fsync` raised
    abbrev pub Failed : Disk Byte → Error → Type 0
    Failed disk x =
        ((line : Line Byte) × (b : Byte) × (rest : Line Byte) × (line ++ (b ∷ rest) ≡ encoded)
          × (disk ≡ with_line py json kernel lines line))
        ⊎ ((kernel.os_fsync ≡ err x) × (disk ≡ with_line py json kernel lines encoded))

    committed-err :
        (w : Written Byte) (disk : Disk Byte) (x : Error)
        → Ends encoded w
        → committed py json kernel lines a w ≡ (disk, err x)
        → Failed disk x
    unfolding committed
    committed-err (all_written line) disk x h e = elim (Result-cases kernel.os_fsync) [
      | inl (u, p) ↦ absurd (
          let bad : ◌≡◌ {A = Disk Byte × Result A} (with_line py json kernel lines line, ok a)
              (disk, err x) =
            rw (p, committed) at e in
          cc)
      | inr (y, p) ↦
          let done : ◌≡◌ {A = Disk Byte × Result A} (with_line py json kernel lines line, err y)
              (disk, err x) =
            rw (p, committed) at e in
          let same : with_line py json kernel lines line ≡ disk = cc in
          let error : ◌≡◌ {A = Result (Unit {0})} (err y) (err x) = cc in
          inr (p ∙ error, sym same ∙ ap (with_line py json kernel lines) h)
    ]
    committed-err (cut_short line y) disk x (b, rest, h) e = inl (line, b, rest, h, cc)
    committed-err out_of_fuel disk x h e = absurd h

    pub commit-ok :
        (disk : Disk Byte) (result : A)
        → commit py json kernel lines encoded a ≡ (disk, ok result)
        → (disk ≡ with_line py json kernel lines encoded) × (a ≡ result)
    unfolding commit
    commit-ok disk result h =
        committed-ok _ disk result
          (write_all-Ends kernel.os_write (suc (length encoded)) 0 [] encoded (omega arith)) h

    pub commit-err :
        (disk : Disk Byte) (x : Error)
        → commit py json kernel lines encoded a ≡ (disk, err x)
        → Failed disk x
    unfolding commit
    commit-err disk x h =
        committed-err _ disk x
          (write_all-Ends kernel.os_write (suc (length encoded)) 0 [] encoded (omega arith)) h
