-- ===== src/Base/Text.antt =====
-- Texts: lengths and prefixes counted in characters, as Python counts them, and the regular
-- expressions of the source as functions on code points.
use Prim.Native.Nat.{ℕ, zero, suc, ◌≤◌}
use Prim.Native.Char.{code}
use Prim.Native.String.{String}
use mathlib.Core.Bool.{Bool, true, false, not, ◌&&◌, ◌||◌}
use mathlib.Core.List.{List, [], ◌∷◌}
use mathlib.Core.Option.{Option, none, some}
use native.Mathlib.Omega.{arith}
use civ5_agent_macos.Base.Tests.{leb, eqb, if◌then◌else◌}
use civ5_agent_macos.Base.Lists.{length, is_empty, all}

abbrev pub codes : String → List ℕ
codes String.[] = []
codes (String.◌∷◌ c s) = code c ∷ codes s

-- `len(s)`
abbrev pub text_length : String → ℕ
text_length String.[] = 0
text_length (String.◌∷◌ c s) = suc (text_length s)

-- `s[:n]`
unfoldable pub text_take : ℕ → String → String
text_take zero s = String.[]
text_take (suc n) String.[] = String.[]
text_take (suc n) (String.◌∷◌ c s) = String.◌∷◌ c (text_take n s)

pub text_length-text_take : (n : ℕ) (s : String) → text_length (text_take n s) ≤ n
unfolding text_take
text_length-text_take zero s = omega arith
text_length-text_take (suc n) String.[] = omega arith
text_length-text_take (suc n) (String.◌∷◌ c s) = omega (arith, text_length-text_take n s)

abbrev pub is_lower : ℕ → Bool
is_lower c = leb b'a' c && leb c b'z'

abbrev pub is_upper : ℕ → Bool
is_upper c = leb b'A' c && leb c b'Z'

abbrev pub is_digit : ℕ → Bool
is_digit c = leb b'0' c && leb c b'9'

-- `[0-9a-f]`
abbrev pub is_hex : ℕ → Bool
is_hex c = is_digit c || leb b'a' c && leb c b'f'

-- `[A-Z0-9_]`
abbrev pub is_type_char : ℕ → Bool
is_type_char c = is_upper c || is_digit c || eqb c b'_'

-- `[a-z0-9_]`
abbrev pub is_snake_char : ℕ → Bool
is_snake_char c = is_lower c || is_digit c || eqb c b'_'

-- What follows a literal prefix.
pub strip_prefix : List ℕ → List ℕ → Option (List ℕ)
strip_prefix [] s = some s
strip_prefix (p ∷ ps) [] = none
strip_prefix (p ∷ ps) (c ∷ s) = if eqb p c then strip_prefix ps s else none

-- `PREFIX[A-Z0-9_]+\Z`, matched in full
unfoldable pub is_type_id : String → String → Bool
unfolding strip_prefix
is_type_id prefix s = elim (strip_prefix (codes prefix) (codes s)) [
  | none ↦ false
  | some rest ↦ not (is_empty rest) && all is_type_char rest
]

-- `[0-9a-f]{n}`, matched in full
unfoldable pub is_hex_text : ℕ → String → Bool
is_hex_text n s = eqb (length (codes s)) n && all is_hex (codes s)

-- `[a-z][a-z0-9_]{0,63}\Z`, matched in full
unfoldable pub is_reason_code : String → Bool
is_reason_code String.[] = false
is_reason_code (String.◌∷◌ c s) =
    is_lower (code c) && leb (text_length s) 63 && all is_snake_char (codes s)

-- The character classes of `str(UUID)` with version 4 and the RFC 4122 variant: a pattern byte
-- `x` stands for a hexadecimal digit, `y` for one of 8, 9, a and b, any other for itself.
uuid_char : ℕ → ℕ → Bool
uuid_char p c =
    if eqb p b'x'
    then is_hex c
    else if eqb p b'y'
    then eqb c b'8' || eqb c b'9' || eqb c b'a' || eqb c b'b'
    else eqb p c

uuid_chars : List ℕ → List ℕ → Bool
unfolding uuid_char
uuid_chars [] [] = true
uuid_chars (p ∷ ps) (c ∷ cs) = uuid_char p c && uuid_chars ps cs
uuid_chars _ _ = false

unfoldable pub is_uuid4 : String → Bool
unfolding uuid_chars
is_uuid4 s = uuid_chars (codes "xxxxxxxx-xxxx-4xxx-yxxx-xxxxxxxxxxxx") (codes s)
