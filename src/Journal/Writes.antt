-- ===== src/Journal/Writes.antt =====
-- `_write_all` of journal/store.py: the loop ends, and what it left in the file.
use mathlib.Core.List.{◌++◌ as append, append_assoc, append-nil}
use civ5_agent_macos.Base.{
  ℕ, zero, suc, ◌≤◌, ◌<◌, ◌≡◌, refl, sym, ap, ◌∙◌, List, [], ◌∷◌, length, take, arith, subst,
}
use civ5_agent_macos.Python.{Result, ok, err}
use civ5_agent_macos.Journal.{Line}
use civ5_agent_macos.Journal.Writing.{
  OsWrite, Written, all_written, cut_short, out_of_fuel, drop, write_all, after_write,
}

take-append-drop : {A : Type 0} (n : ℕ) (xs : List A) → append (take n xs) (drop n xs) ≡ xs
take-append-drop zero xs = refl
take-append-drop (suc n) [] = refl
take-append-drop (suc n) (x ∷ xs) = ap (λ r. x ∷ r) (take-append-drop n xs)

length-drop : {A : Type 0} (n : ℕ) (xs : List A) → length (drop n xs) ≤ length xs
length-drop zero xs = omega arith
length-drop (suc n) [] = omega arith
length-drop (suc n) (x ∷ xs) = omega (arith, length-drop n xs)

-- the whole text was written, or an exception left a part that lacks at least its last byte
abbrev pub Ends : {Byte : Type 0} → Line Byte → Written Byte → Type 0
Ends text (all_written line) = line ≡ text
Ends {Byte} text (cut_short line e) =
    (b : Byte) × (rest : Line Byte) × (append line (b ∷ rest) ≡ text)
Ends text out_of_fuel = ⊥

after_write-Ends :
    {Byte : Type 0} (answer : Result ℕ) (written rest : Line Byte) (b : Byte)
    (next : ℕ → Written Byte)
    → ((n : ℕ) → Ends (append written (b ∷ rest)) (next (suc n)))
    → Ends (append written (b ∷ rest)) (after_write answer written next)
unfolding after_write
after_write-Ends (err e) written rest b next h = (b, rest, refl)
after_write-Ends (ok zero) written rest b next h = (b, rest, refl)
after_write-Ends (ok (suc n)) written rest b next h = h n

module _ {Byte : Type 0} (os_write : OsWrite) where
  -- Whatever the system's writes accept, a loop with more fuel than there are bytes ends: either
  -- it wrote the bytes behind those before, all of them and in order, or an exception stopped it
  -- with bytes still to be written.
  pub write_all-Ends :
      (fuel call : ℕ) (written view : Line Byte)
      → length view < fuel
      → Ends (append written view) (write_all os_write fuel call written view)
  unfolding write_all
  write_all-Ends zero call written view h = absurd (omega arith)
  write_all-Ends (suc fuel) call written [] h = sym (append-nil written)
  write_all-Ends (suc fuel) call written (b ∷ view) h =
      after_write-Ends (os_write call (length (b ∷ view))) written view b _ (λ n.
        let whole : append (append written (b ∷ take n view)) (drop n view)
            ≡ append written (b ∷ view) =
          append_assoc written (b ∷ take n view) (drop n view)
          ∙ ap (λ r. append written (b ∷ r)) (take-append-drop n view) in
        subst
          (λ text.
            Ends text
              (write_all os_write fuel (suc call) (append written (b ∷ take n view)) (drop n view)))
          whole
          (write_all-Ends fuel (suc call) (append written (b ∷ take n view)) (drop n view)
            (omega (arith, length-drop n view))))
