-- ===== src/Journal.antt =====
-- The journal of civ5_agent, journal/: `JournalRecord` of models.py, and what the codec and the
-- store take from the standard library. A line of the file is the list of its bytes.
pub mod Json
pub mod Codec
pub mod Reader
pub mod Writing
pub mod Store
pub mod Roundtrip
pub mod Chain
pub mod Invariants
pub mod Extends
pub mod Reads
pub mod Writes
pub mod Prepares
pub mod Sorting
pub mod Appends
pub mod Reopens
pub mod Outcomes
pub mod Appending
pub mod Torn
pub mod Framed
use civ5_agent_macos.Base.{
  ℕ, ◌≡◌, Bool, Option, true, false, List, [], ◌∷◌, ◌++◌, String, is_hex_text, All, eqb, map,
}
use civ5_agent_macos.Python.{Value, Result, ok}
use Json.{sorted}

pub record JournalRecord : Type 0 where
  pub schema_version : Value
  pub sequence : Value
  pub match_id : Value
  pub bridge_session_id : Value
  pub captured_at : Value
  pub turn : Value
  pub kind : Value
  pub payload : Value
  pub previous_hash : Value
  pub record_hash : Value

abbrev pub Line : Type 0 → Type 0
Line Byte = List Byte

-- `dumps v` is the canonical JSON of `v`, UTF-8 encoded, without the newline; `loads` is
-- `json.loads` with the two hooks of the source; `sha256` is the hash of the canonical JSON, in
-- hexadecimal. `refusal v` is the message of the exception that `_canonical_bytes` raises at `v` (a
-- text that has no UTF-8 form), if any; where there is one, nothing is made of `dumps v`. `is_utc s`
-- holds if `datetime.fromisoformat` reads `s` with offset zero.
pub record Encoding (Byte : Type 0) : Type 0 where
  pub newline : Byte
  pub is_newline : Byte → Bool
  pub dumps : Value → Line Byte
  pub loads : Line Byte → Result Value
  pub sha256 : Value → String
  pub is_utc : String → Bool
  pub refusal : Value → Option String
  pub newline_ends : is_newline newline ≡ true
  pub dumps_single_line : (v : Value) → All (λ b. is_newline b ≡ false) (dumps v)
  pub loads_dumps : (v : Value) → loads (dumps v ++ (newline ∷ [])) ≡ ok (sorted v)
  pub refusal_sorted : (v : Value) → refusal (sorted v) ≡ refusal v
  pub sha256_sorted : (v : Value) → sha256 (sorted v) ≡ sha256 v
  pub sha256_form : (v : Value) → is_hex_text 64 (sha256 v) ≡ true
