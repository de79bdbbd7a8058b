-- ===== src/Validation/Scalars.antt =====
-- The first checks of `validate_live_state`: required fields, integers, booleans and their ranges.
use Prim.Native.String.{◌++◌}
use civ5_agent_macos.Base.{not, ◌&&◌, ◌||◌, List, [], ◌∷◌, String, is_empty, keep, map}
use civ5_agent_macos.Base.Int.{pos}
use civ5_agent_macos.Python.{
  Value, int, Runtime, Result, ◌>>◌, require, for_each, is_null, is_int, is_bool,
}
use civ5_agent_macos.State.{GameState}
use civ5_agent_macos.Validation.Checks.{is_int_from, schema_from, member}

-- The required fields that are absent, by name.
abbrev required : GameState → List (String × Value)
required s =
    ("active_player", s.active_player)
    ∷ ("can_end_turn", s.can_end_turn)
    ∷ ("end_turn_blocking_type", s.end_turn_blocking_type)
    ∷ ("gold", s.gold)
    ∷ ("schema_version", s.schema_version)
    ∷ ("turn", s.turn)
    ∷ ("turn_active", s.turn_active)
    ∷ []

-- `", ".join(names)`
abbrev pub join : List String → String
join [] = ""
join (n ∷ []) = n
join (n ∷ m ∷ r) = n ++ ", " ++ join (m ∷ r)

missing : GameState → List String
missing s = map (λ e. e.0) (keep (λ e. is_null e.1) (required s))

integers : GameState → List (String × Value)
integers s =
    ("schema_version", s.schema_version)
    ∷ ("turn", s.turn)
    ∷ ("active_player", s.active_player)
    ∷ ("gold", s.gold)
    ∷ ("end_turn_blocking_type", s.end_turn_blocking_type)
    ∷ []

optional_integers : GameState → List (String × Value)
optional_integers s =
    ("gold_per_turn", s.gold_per_turn)
    ∷ ("science_per_turn", s.science_per_turn)
    ∷ ("happiness", s.happiness)
    ∷ ("culture", s.culture)
    ∷ ("culture_per_turn", s.culture_per_turn)
    ∷ ("score", s.score)
    ∷ ("current_era", s.current_era)
    ∷ []

booleans : GameState → List (String × Value)
booleans s = ("turn_active", s.turn_active) ∷ ("can_end_turn", s.can_end_turn) ∷ []

abbrev supported_schemas : List Value
supported_schemas =
    int (pos 2)
    ∷ int (pos 3)
    ∷ int (pos 4)
    ∷ int (pos 5)
    ∷ int (pos 6)
    ∷ int (pos 7)
    ∷ int (pos 8)
    ∷ []

module _ (py : Runtime) where
  unfoldable pub validate_scalars : GameState → Result (Unit {0})
  unfolding missing integers optional_integers booleans
  validate_scalars s = do
    require (is_empty (missing s)) ("live state is missing: " ++ join (missing s))
    for_each (λ e. require (is_int e.1) (e.0 ++ " must be an integer")) (integers s)
    for_each (λ e. require (is_null e.1 || is_int e.1) (e.0 ++ " must be an integer when present"))
        (optional_integers s)
    for_each (λ e. require (is_bool e.1) (e.0 ++ " must be a boolean")) (booleans s)
    require (member s.schema_version supported_schemas)
        ("unsupported schema_version: " ++ py.repr s.schema_version)
    require (is_int_from (pos 0) s.turn) "turn must be non-negative"
    require (is_int_from (pos 0) s.active_player) "active_player must be non-negative"
    require (is_null s.score || is_int_from (pos 0) s.score) "score must be non-negative"
    require (is_null s.current_era || is_int_from (pos 0) s.current_era)
        "current_era must be non-negative"
    require (not (schema_from 3 s && (is_null s.score || is_null s.current_era)))
        "schema 3+ requires score and current_era"
