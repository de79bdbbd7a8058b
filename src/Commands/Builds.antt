-- ===== src/Commands/Builds.antt =====
-- command.py of civ5_agent: `execute_worker_build`. What a validated state of schema 7 or later holds of
-- a unit is read by `get`.
use Prim.Native.String.{◌++◌}
use civ5_agent_macos.Base.{
  ℕ, Bool, true, false, not, ◌&&◌, ◌||◌, Option, none, some, List, [], ◌∷◌, String, if◌then◌else◌,
  keep, map, ◌==◌,
}
use civ5_agent_macos.Base.Int.{pos, leb_ℤ}
use civ5_agent_macos.Python.{
  Value, null, Fields, field, end, invalid, message_of, Runtime, Result, ok, err, get, is_null,
  is_str, value_eq, less_than, truthy, int_of, ◌>>=◌ as bind,
}
use civ5_agent_macos.State.{GameState, game_state_to_dict}
use civ5_agent_macos.Command.{Command, validate_command}
use civ5_agent_macos.Validation.{items_of, fields_of, schema_from}
use civ5_agent_macos.Executor.Postconditions.{has_id}
use civ5_agent_macos.Executor.Steps.{CommandResult}
use civ5_agent_macos.Commands.{
  Act, Client, ◌>>=◌, pure, shown, make_result, failed_result, arg, is_value_error, read_validated,
  turn_changed,
}
use civ5_agent_macos.Commands.Polling.{Check, verify}

-- `[unit for unit in state.units if unit.get("id") == unit_id]`
abbrev pub units_with : Value → GameState → List Fields
units_with unit_id s = map fields_of (keep (has_id unit_id) (items_of s.units))

abbrev pub offers : Value → Value → Bool
offers build_type candidate = value_eq (get "build_type" (fields_of candidate)) build_type

-- the build is under way, or done
abbrev pub is_active : Value → Fields → Bool
is_active build_type after_unit =
    value_eq (get "current_build_type" after_unit) build_type
    && is_null (get "improvement_type" (fields_of (get "current_plot" after_unit)))

abbrev pub is_completed : Value → Fields → Bool
is_completed expected_improvement after_unit =
    is_null (get "current_build_type" after_unit)
    && value_eq (get "improvement_type" (fields_of (get "current_plot" after_unit)))
        expected_improvement

-- `any(after[field] != before[field] for field in set(before) - {"improvement_type"})`
abbrev pub plot_differs : Fields → Fields → Bool
plot_differs end after = false
plot_differs (field k v rest) after =
    not (k == "improvement_type") && not (value_eq (get k after) v) || plot_differs rest after

-- `active != completed`
abbrev pub differ : Bool → Bool → Bool
differ true b = not b
differ false b = b

module _ {World : Type 0} (py : Runtime) (client : Client World) (verify_timeout : ℕ)
    (limit : String) (c : Command) where
  abbrev unit_id : Value
  unit_id = arg c "unit_id"

  abbrev source_x : Value
  source_x = arg c "x"

  abbrev source_y : Value
  source_y = arg c "y"

  abbrev build_type : Value
  build_type = arg c "build_type"

  abbrev unit_text : String
  unit_text = "unit " ++ shown py unit_id

  abbrev source : String
  source = "(" ++ shown py source_x ++ ", " ++ shown py source_y ++ ")"

  abbrev refuse : GameState → String → Act World CommandResult
  refuse before m = pure (failed_result c m (game_state_to_dict before) (game_state_to_dict before))

  abbrev late : GameState → String → GameState → CommandResult
  late before m after = failed_result c m (game_state_to_dict before) (game_state_to_dict after)

  abbrev at_source : Fields → Bool
  at_source unit = value_eq (get "x" unit) source_x && value_eq (get "y" unit) source_y

  -- the movement points, and the branch of success that the unit shows
  unfoldable pub built :
      GameState → Fields → Value → GameState → Fields → Result (Option CommandResult)
  built before before_unit expected after after_unit =
      let active = is_active build_type after_unit in
      let completed = is_completed expected after_unit in
      bind (less_than (get "moves" after_unit) (get "moves" before_unit)) (λ lower.
        bind (less_than (get "moves" before_unit) (get "moves" after_unit)) (λ higher.
          if lower && differ active completed
          then ok (
              some (
                make_result c "success"
                  ("verified "
                    ++ (if active then "active" else "completed")
                    ++ " "
                    ++ shown py build_type
                    ++ " for "
                    ++ unit_text
                    ++ " at "
                    ++ source)
                  (game_state_to_dict before) (game_state_to_dict after)))
          else if higher || lower && not (active || completed)
          then ok (
              some (
                late before ("worker_build produced an unexpected result for " ++ unit_text) after))
          else ok none))

  unfoldable pub built_by :
      GameState → Fields → Value → GameState → List Fields → Result (Option CommandResult)
  built_by before before_unit expected after (after_unit ∷ []) =
      if not (value_eq (get "type" after_unit) (get "type" before_unit))
      then ok
          (some (late before ("worker_build read-back lost or transformed " ++ unit_text) after))
      else if not (at_source after_unit)
      then ok (some (late before (unit_text ++ " moved while verifying worker_build") after))
      else if plot_differs (fields_of (get "current_plot" before_unit))
          (fields_of (get "current_plot" after_unit))
      then ok (some (late before "worker_build changed an unsupported plot fact" after))
      else built before before_unit expected after after_unit
  built_by before before_unit expected after _ =
      ok (some (late before ("worker_build read-back lost or transformed " ++ unit_text) after))

  unfoldable pub check_build : GameState → Fields → Value → Check
  unfolding built built_by
  check_build before before_unit expected after =
      if not (value_eq after.schema_version before.schema_version) || turn_changed before after
      then ok (
          some (
            late before "worker_build read-back changed schema, turn, player, or active-turn state"
              after))
      else built_by before before_unit expected after (units_with unit_id after)

  unfoldable pub build_requested :
      GameState → Fields → Value → Value × Value × Value → Act World CommandResult
  build_requested before before_unit expected (status, returned, returned_type) =
      if is_str "accepted" status && value_eq returned unit_id && value_eq returned_type build_type
      then verify py client verify_timeout (check_build before before_unit expected) before (
          late before
            ("worker build was accepted but no exact result was observed within " ++ limit ++ "s"))
      else refuse before
          ("Civ V rejected worker build for " ++ unit_text ++ " (" ++ shown py status ++ ")")

  unfoldable pub build_candidate : GameState → Fields → List Value → Act World CommandResult
  build_candidate before before_unit (candidate ∷ []) =
      client.request_worker_build unit_id source_x source_y build_type
      >>= build_requested before before_unit (get "improvement_type" (fields_of candidate))
  build_candidate before before_unit _ =
      refuse before
        (shown py build_type ++ " is not one exact admitted ordinary build for " ++ unit_text)

  -- `before_unit["moves"] <= 0`, for an integer
  abbrev pub is_barred : Fields → Bool
  is_barred unit =
      let plot = fields_of (get "current_plot" unit) in
      truthy (get "is_water" plot)
      || not (is_null (get "feature_type" plot))
      || not (is_null (get "improvement_type" plot))
      || not (truthy (get "ready_to_move" unit))
      || leb_ℤ (int_of (get "moves" unit)) (pos 0)

  unfoldable pub build_by : GameState → List Fields → Act World CommandResult
  build_by before (unit ∷ []) =
      if not (at_source unit)
      then refuse before ("worker_build source " ++ source ++ " is stale for " ++ unit_text)
      else if not (is_null (get "current_build_type" unit))
      then refuse before (unit_text ++ " is already executing a build")
      else if is_barred unit
      then refuse before (unit_text ++ " is not in the admitted ordinary-build state")
      else build_candidate before unit
          (keep (offers build_type) (items_of (get "ordinary_build_actions" unit)))
  build_by before _ = refuse before ("worker_build requires exactly one owned " ++ unit_text)

  unfoldable pub build_from : World × Result GameState → World × Result CommandResult
  build_from (w, err e) =
      if is_value_error e
      then (w, err (invalid ("worker_build rejected malformed live state: " ++ message_of e)))
      else (w, err e)
  build_from (w, ok before) =
      if schema_from 7 before
      then build_by before (units_with unit_id before) w
      else refuse before "worker_build requires a fresh schema 7+ state" w

  unfoldable pub build_validated : Result Command → Act World CommandResult
  build_validated (err e) w =
      if is_value_error e then (w, ok (failed_result c (message_of e) null null)) else (w, err e)
  build_validated (ok normalized) w =
      if is_str "worker_build" normalized.action
      then build_from (read_validated py client w)
      else (w, ok (failed_result c "worker_build command required" null null))

  unfoldable pub execute_worker_build : Act World CommandResult
  unfolding build_requested build_candidate build_by build_from build_validated
  execute_worker_build = build_validated (validate_command py c)
