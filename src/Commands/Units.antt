-- ===== src/Commands/Units.antt =====
-- command.py of civ5_agent: `execute_skip_unit` and `execute_move_unit`.
use Prim.Native.String.{◌++◌}
use civ5_agent_macos.Base.{
  ℕ, Bool, false, not, ◌&&◌, ◌||◌, Option, none, some, String, if◌then◌else◌,
}
use civ5_agent_macos.Python.{
  Value, null, bool, dict, Fields, field, end, Runtime, Result, ok, get, is_nat, is_int, is_bool,
  is_str, value_eq, less_than, ◌>>=◌ as bind,
}
use civ5_agent_macos.State.{GameState, game_state_to_dict}
use civ5_agent_macos.Command.{Command}
use civ5_agent_macos.Validation.{items_of, schema_from, member, is_coordinate}
use civ5_agent_macos.Requirements.{is_true}
use civ5_agent_macos.Executor.Steps.{CommandResult}
use civ5_agent_macos.Commands.{
  Act, Client, ◌>>=◌, pure, lift, shown, item, make_result, failed_result, arg, read_validated,
  find_unit, turn_changed,
}
use civ5_agent_macos.Commands.Polling.{Check, verify}

-- the unit stands where it stood, with the movement that it had, and needs no orders
abbrev pub is_skipped : Fields → Fields → Bool
is_skipped before_unit after_unit =
    value_eq (get "ready_to_move" after_unit) (bool false)
    && is_bool (get "ready_to_move" after_unit)
    && value_eq (get "x" after_unit) (get "x" before_unit)
    && value_eq (get "y" after_unit) (get "y" before_unit)
    && value_eq (get "moves" after_unit) (get "moves" before_unit)

module _ {World : Type 0} (py : Runtime) (client : Client World) (verify_timeout : ℕ)
    (limit : String) (c : Command) where
  abbrev pub unit_id : Value
  unit_id = arg c "unit_id"

  abbrev unit_text : String
  unit_text = "unit " ++ shown py unit_id

  -- an error that was seen at once: the state is that before, twice
  abbrev refuse : GameState → String → Act World CommandResult
  refuse before m = pure (failed_result c m (game_state_to_dict before) (game_state_to_dict before))

  abbrev late : GameState → String → GameState → CommandResult
  late before m after = failed_result c m (game_state_to_dict before) (game_state_to_dict after)

  abbrev pub check_skip : GameState → Fields → Check
  check_skip before before_unit after = ok (elim (find_unit unit_id after) [
    | none ↦ none
    | some after_unit ↦
        if is_skipped before_unit after_unit
        then some (
            make_result c "success"
              ("verified " ++ unit_text ++ " skipped without moving or spending movement")
              (game_state_to_dict before) (game_state_to_dict after))
        else none
  ])

  unfoldable pub skip_requested : GameState → Fields → Value × Value → Act World CommandResult
  skip_requested before before_unit (status, returned) =
      if is_str "accepted" status && value_eq returned unit_id
      then verify py client verify_timeout (check_skip before before_unit) before (
          late before (
            "skip request was accepted but " ++ unit_text
            ++ " was not observed out of the ready-unit cycle in place with unchanged movement within "
            ++ limit ++ "s"))
      else refuse before (
          "Civ V rejected skip for "
          ++ unit_text
          ++ " ("
          ++ shown py status
          ++ ", unit_id="
          ++ shown py returned
          ++ ")")

  unfoldable pub skip_unit_of : GameState → Option Fields → Act World CommandResult
  skip_unit_of before none = refuse before (unit_text ++ " is not owned by the active player")
  skip_unit_of before (some before_unit) =
      let ready = get "ready_to_move" before_unit in
      if not (is_bool ready)
      then refuse before (unit_text ++ " state does not expose ready_to_move")
      else if not (is_true ready)
      then pure (
          make_result c "success" ("verified " ++ unit_text ++ " already does not need orders")
            (game_state_to_dict before) (game_state_to_dict before))
      else client.request_skip_unit unit_id >>= skip_requested before before_unit

  unfoldable pub execute_skip_unit : Act World CommandResult
  unfolding skip_requested skip_unit_of
  execute_skip_unit =
      if is_nat unit_id
      then read_validated py client >>= (λ before. skip_unit_of before (find_unit unit_id before))
      else pure (failed_result c "skip_unit requires unit_id" null null)

  abbrev pub target_x : Value
  target_x = arg c "x"

  abbrev pub target_y : Value
  target_y = arg c "y"

  abbrev point : Value → Value → String
  point x y = "(" ++ shown py x ++ ", " ++ shown py y ++ ")"

  abbrev pub stands : Fields → Value → Value → Bool
  stands unit x y = value_eq (get "x" unit) x && value_eq (get "y" unit) y

  -- a unit that was found again, with its type
  unfoldable pub moved : GameState → Fields → GameState → Fields → Result (Option CommandResult)
  moved before before_unit after after_unit =
      let source_x = get "x" before_unit in
      let source_y = get "y" before_unit in
      let before_moves = get "moves" before_unit in
      let after_moves = get "moves" after_unit in
      let unexpected_move = ok (
        some
          (late before (unit_text ++ " changed unexpectedly while verifying move_unit") after)) in
      let unmoved = ok (
        some (
          late before (unit_text ++ " reached the destination without lower movement points")
            after)) in
      if stands after_unit target_x target_y
      then (if is_int after_moves || is_bool after_moves
          then bind (less_than after_moves before_moves) (λ lower.
            if lower
            then ok (
                some (
                  make_result c "success"
                    ("verified "
                      ++ unit_text
                      ++ " moved "
                      ++ point source_x source_y
                      ++ " -> "
                      ++ point target_x target_y)
                    (game_state_to_dict before) (game_state_to_dict after)))
            else unmoved)
          else unmoved)
      else if not (stands after_unit source_x source_y) || not (value_eq after_moves before_moves)
      then unexpected_move
      else ok none

  unfoldable pub moved_unit :
      GameState → Fields → GameState → Option Fields → Result (Option CommandResult)
  moved_unit before before_unit after none =
      ok (some (late before ("move_unit read-back lost or transformed " ++ unit_text) after))
  moved_unit before before_unit after (some after_unit) =
      if value_eq (get "type" after_unit) (get "type" before_unit)
      then moved before before_unit after after_unit
      else ok (some (late before ("move_unit read-back lost or transformed " ++ unit_text) after))

  unfoldable pub check_move : GameState → Fields → Check
  unfolding moved moved_unit
  check_move before before_unit after =
      if not (value_eq after.schema_version before.schema_version)
      then ok (some (late before "move_unit read-back changed live-state schema" after))
      else if turn_changed before after
      then ok (
          some (
            late before "move_unit read-back changed turn, active player, or active-turn state"
              after))
      else moved_unit before before_unit after (find_unit unit_id after)

  unfoldable pub move_requested :
      GameState → Fields → Value × Value × Value × Value → Act World CommandResult
  move_requested before before_unit (status, returned, x, y) =
      if is_str "accepted" status
        && value_eq returned unit_id
        && value_eq x target_x
        && value_eq y target_y
      then verify py client verify_timeout (check_move before before_unit) before (
          late before (
            "move request was accepted but "
            ++ unit_text
            ++ " did not reach "
            ++ point target_x target_y
            ++ " within "
            ++ limit
            ++ "s"))
      else refuse before (
          "Civ V rejected move for "
          ++ unit_text
          ++ " to "
          ++ point target_x target_y
          ++ " ("
          ++ shown py status
          ++ ")")

  -- the keys are read in the order of the source
  unfoldable pub move_admitted : GameState → Fields → Act World CommandResult
  move_admitted before before_unit = do
    x ← lift (item "x" before_unit)
    y ← lift (item "y" before_unit)
    moves ← lift (item "moves" before_unit)
    type ← lift (item "type" before_unit)
    answer ← client.request_move_unit unit_id x y target_x target_y
    move_requested before before_unit answer

  unfoldable pub move_unit_of : GameState → Option Fields → Act World CommandResult
  move_unit_of before none = refuse before (unit_text ++ " is not owned by the active player")
  move_unit_of before (some before_unit) = do
    targets ← lift (item "ordinary_move_targets" before_unit)
    (if member (dict (field "x" target_x (field "y" target_y end))) (items_of targets)
        then move_admitted before before_unit
        else refuse before (
            "destination "
            ++ point target_x target_y
            ++ " is not an admitted ordinary move target for "
            ++ unit_text))

  unfoldable pub move_from : GameState → Act World CommandResult
  move_from before =
      if schema_from 6 before
      then move_unit_of before (find_unit unit_id before)
      else refuse before "move_unit requires a fresh schema 6+ state"

  unfoldable pub execute_move_unit : Act World CommandResult
  unfolding move_requested move_admitted move_unit_of move_from
  execute_move_unit =
      if not (is_nat unit_id)
      then pure (failed_result c "move_unit requires unit_id" null null)
      else if not (is_coordinate target_x)
      then pure (failed_result c "move_unit x must be an integer from 0 to 65535" null null)
      else if not (is_coordinate target_y)
      then pure (failed_result c "move_unit y must be an integer from 0 to 65535" null null)
      else read_validated py client >>= move_from
