-- ===== src/Journal/Writing.antt =====
-- `_write_all` of journal/store.py: a loop of writes, each of which the system may cut short. The
-- loop takes fuel.
use mathlib.Core.List.{◌++◌ as append}
use civ5_agent_macos.Base.{ℕ, zero, suc, List, [], ◌∷◌, length, take}
use civ5_agent_macos.Python.{Error, invalid, Result, ok, err}
use civ5_agent_macos.Journal.{Line}

-- What reached the file, and how the loop ended: `os.write` on its call of a given number, offered
-- a number of bytes, raises or accepts a number of them.
abbrev pub OsWrite : Type 0
OsWrite = ℕ → ℕ → Result ℕ

pub data Written (Byte : Type 0) : Type 0 where
  all_written : Line Byte → Written Byte
  cut_short : Line Byte → Error → Written Byte
  out_of_fuel : Written Byte

abbrev pub drop : {A : Type 0} → ℕ → List A → List A
drop zero xs = xs
drop (suc n) [] = []
drop (suc n) (x ∷ xs) = drop n xs

module _ {Byte : Type 0} where
  -- one round: what the write accepted is passed on
  unfoldable pub after_write : Result ℕ → Line Byte → (ℕ → Written Byte) → Written Byte
  after_write (err e) written next = cut_short written e
  after_write (ok zero) written next = cut_short written (invalid "journal append made no progress")
  after_write (ok (suc n)) written next = next (suc n)

  module _ (os_write : OsWrite) where
    unfoldable pub write_all : ℕ → ℕ → Line Byte → Line Byte → Written Byte
    unfolding after_write
    write_all zero call written view = out_of_fuel
    write_all (suc fuel) call written [] = all_written written
    write_all (suc fuel) call written (b ∷ view) =
        after_write (os_write call (length (b ∷ view))) written
          (λ n. write_all fuel (suc call) (append written (take n (b ∷ view))) (drop n (b ∷ view)))
