-- ===== src/Command.antt =====
-- actions.py of civ5_agent, and `Command` of models.py.
use Prim.Native.String.{◌++◌}
use civ5_agent_macos.Base.{
  Bool, true, false, ◌&&◌, List, [], ◌∷◌, String, leb, text_length, is_type_id, if◌then◌else◌,
}
use civ5_agent_macos.Base.Int.{pos}
use civ5_agent_macos.Python.{
  Value, str, Fields, Runtime, Result, ok, get, has_exactly, repr_names, require, is_str, ◌>>=◌,
  ◌>>◌,
}
use civ5_agent_macos.Identity.{validate_command_id}
use civ5_agent_macos.Validation.{
  is_dict, fields_of, is_int_from, is_coordinate, is_id_text, in_set, max_build_identifier_length,
}

pub record Command : Type 0 where
  pub action : Value
  pub args : Value
  pub id : Value

abbrev pub allowed_actions : List String
allowed_actions =
    "end_turn" ∷ "choose_research" ∷ "set_city_production" ∷ "skip_unit" ∷ "move_unit"
    ∷ "worker_build" ∷ []

require_fields : Fields → List String → String → Result (Unit {0})
unfolding has_exactly
require_fields d names action =
    require (has_exactly names d)
      (action ++ " argument fields must be exactly " ++ repr_names names)

validate_unit_and_coordinates : Fields → Result (Unit {0})
validate_unit_and_coordinates d = do
  require (is_int_from (pos 0) (get "unit_id" d)) "unit_id must be a non-negative integer"
  require (is_coordinate (get "x" d)) "x must be an integer from 0 to 65535"
  require (is_coordinate (get "y" d)) "y must be an integer from 0 to 65535"

-- `_PRODUCTION_PATTERNS.get(kind)`, by the pattern's prefix; "" where there is none
abbrev production_prefix : Value → String
production_prefix kind =
    if is_str "unit" kind
    then "UNIT_"
    else if is_str "building" kind
    then "BUILDING_"
    else if is_str "project" kind
    then "PROJECT_"
    else ""

abbrev kind_text : Value → String
kind_text (str s) = s
kind_text _ = ""

abbrev is_production_kind : Value → Bool
is_production_kind kind =
    if is_str "unit" kind
    then true
    else if is_str "building" kind
    then true
    else is_str "project" kind

abbrev is_build_identifier : Value → Bool
is_build_identifier (str s) =
    leb (text_length s) max_build_identifier_length && is_type_id "BUILD_" s
is_build_identifier _ = false

-- The check of the arguments, by action; the last case is `worker_build`.
unfoldable pub validate_arguments : Value → Fields → Result (Unit {0})
unfolding require_fields validate_unit_and_coordinates
validate_arguments action d =
    if is_str "end_turn" action
    then require_fields d [] "end_turn"
    else if is_str "choose_research" action
    then (do
      require_fields d ("tech_type" ∷ []) "choose_research"
      require (is_id_text "TECH_" (get "tech_type" d)) "tech_type must match TECH_[A-Z0-9_]+")
    else if is_str "set_city_production" action
    then (do
      require_fields d ("city_id" ∷ "item_type" ∷ "kind" ∷ []) "set_city_production"
      require (is_int_from (pos 0) (get "city_id" d)) "city_id must be a non-negative integer"
      require (is_production_kind (get "kind" d))
          "production kind must be unit, building, or project"
      require (is_id_text (production_prefix (get "kind" d)) (get "item_type" d))
          (kind_text (get "kind" d) ++ " item_type has an invalid format"))
    else if is_str "skip_unit" action
    then (do
      require_fields d ("unit_id" ∷ []) "skip_unit"
      require (is_int_from (pos 0) (get "unit_id" d)) "unit_id must be a non-negative integer")
    else if is_str "move_unit" action
    then (do
      require_fields d ("unit_id" ∷ "x" ∷ "y" ∷ []) "move_unit"
      validate_unit_and_coordinates d)
    else (do
      require_fields d ("build_type" ∷ "unit_id" ∷ "x" ∷ "y" ∷ []) "worker_build"
      validate_unit_and_coordinates d
      require (is_build_identifier (get "build_type" d))
          "build_type must be a bounded BUILD_[A-Z0-9_]+ identifier")

module _ (py : Runtime) where
  unfoldable pub validate_command : Command → Result Command
  validate_command c = do
    command_id ← validate_command_id c.id
    allowed ← in_set c.action allowed_actions
    require allowed ("unsupported action: " ++ py.repr c.action)
    require (is_dict c.args) "command args must be an object"
    validate_arguments c.action (fields_of c.args)
    ok (record { action = c.action; args = c.args; id = command_id })
