-- ===== src/Commands/Cities.antt =====
-- command.py of civ5_agent: `execute_city_production`.
use Prim.Native.String.{◌++◌}
use civ5_agent_macos.Base.{ℕ, Bool, false, not, ◌&&◌, none, some, String, if◌then◌else◌, first, any}
use civ5_agent_macos.Python.{Value, null, Runtime, ok, get, is_nat, is_text, value_eq}
use civ5_agent_macos.State.{GameState, game_state_to_dict}
use civ5_agent_macos.Command.{Command}
use civ5_agent_macos.Validation.{fields_of, items_of}
use civ5_agent_macos.Executor.Postconditions.{has_id}
use civ5_agent_macos.Executor.Steps.{CommandResult}
use civ5_agent_macos.Commands.{
  Act, Client, ◌>>=◌, pure, shown, make_result, failed_result, arg, read_validated, is_taken,
}
use civ5_agent_macos.Commands.Polling.{Check, verify}

-- the city with an id produces what was expected
abbrev pub produces : Value → Value → GameState → Bool
produces city_id expected s = elim (first (has_id city_id) (items_of s.cities)) [
  | none ↦ false
  | some city ↦ value_eq (get "production" (fields_of city)) expected
]

module _ {World : Type 0} (py : Runtime) (client : Client World) (verify_timeout : ℕ)
    (limit : String) (c : Command) where
  abbrev city_id : Value
  city_id = arg c "city_id"

  abbrev item_type : Value
  item_type = arg c "item_type"

  abbrev pub check_production : Value → GameState → Check
  check_production expected before after =
      if produces city_id expected after
      then ok (
          some (
            make_result c "success"
              ("verified city " ++ shown py city_id ++ " production: " ++ shown py item_type)
              (game_state_to_dict before) (game_state_to_dict after)))
      else ok none

  unfoldable pub production_requested : GameState → Value × Value × Value → Act World CommandResult
  production_requested before (status, item_id, expected) =
      if is_taken status
      then verify py client verify_timeout (check_production expected before) before (λ after.
        failed_result c
          ("production request was accepted but "
            ++ shown py item_type
            ++ " was not observed within "
            ++ limit
            ++ "s")
          (game_state_to_dict before) (game_state_to_dict after))
      else pure (
          failed_result c
            ("Civ V rejected "
              ++ shown py item_type
              ++ " ("
              ++ shown py status
              ++ ", item_id="
              ++ shown py item_id
              ++ ")")
            (game_state_to_dict before) (game_state_to_dict before))

  unfoldable pub production_from : GameState → Act World CommandResult
  production_from before =
      if any (has_id city_id) (items_of before.cities)
      then client.request_city_production city_id (arg c "kind") item_type
        >>= production_requested before
      else pure (
          failed_result c ("city " ++ shown py city_id ++ " is not owned by the active player")
            (game_state_to_dict before) (game_state_to_dict before))

  unfoldable pub execute_city_production : Act World CommandResult
  unfolding production_requested production_from
  execute_city_production =
      if not (is_nat city_id)
      then pure (failed_result c "set_city_production requires city_id" null null)
      else if not (is_text (arg c "kind") && is_text item_type)
      then pure (failed_result c "set_city_production requires kind and item_type" null null)
      else read_validated py client >>= production_from
