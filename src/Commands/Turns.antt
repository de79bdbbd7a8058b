-- ===== src/Commands/Turns.antt =====
-- command.py of civ5_agent: `execute_end_turn` and `execute_choose_research`. `limit` is the time limit
-- as messages show it.
use Prim.Native.String.{◌++◌}
use civ5_agent_macos.Base.{ℕ, Bool, true, false, not, ◌&&◌, none, some, String, if◌then◌else◌}
use civ5_agent_macos.Python.{Value, null, Runtime, ok, get, is_null, is_text, truthy, value_eq}
use civ5_agent_macos.State.{GameState, game_state_to_dict}
use civ5_agent_macos.Command.{Command}
use civ5_agent_macos.Validation.{fields_of}
use civ5_agent_macos.Executor.Postconditions.{int_lt}
use civ5_agent_macos.Executor.Steps.{CommandResult}
use civ5_agent_macos.Commands.{
  Act, Client, ◌>>=◌, pure, shown, make_result, failed_result, arg, read_validated, is_taken,
}
use civ5_agent_macos.Commands.Polling.{Check, verify}

-- the turn has advanced; both turns are not `None`
abbrev pub turn_advanced : GameState → GameState → Bool
turn_advanced before after =
    not (is_null after.turn) && not (is_null before.turn) && int_lt before.turn after.turn

-- `state.research and state.research.get("type") == tech_type`
abbrev pub researches : Value → GameState → Bool
researches tech_type s = truthy s.research && value_eq (get "type" (fields_of s.research)) tech_type

module _ {World : Type 0} (py : Runtime) (client : Client World) (verify_timeout : ℕ)
    (limit : String) where
  abbrev pub check_turn : Command → GameState → Check
  check_turn c before after =
      if turn_advanced before after
      then ok (
          some (
            make_result c "success"
              ("verified turn " ++ shown py before.turn ++ " -> " ++ shown py after.turn)
              (game_state_to_dict before) (game_state_to_dict after)))
      else ok none

  unfoldable pub end_turn_requested : Command → GameState → Bool × Value → Act World CommandResult
  end_turn_requested c before (false, blocking_type) = pure (
      failed_result c ("Civ V blocked end_turn (blocking_type=" ++ shown py blocking_type ++ ")")
        (game_state_to_dict before) (game_state_to_dict before))
  end_turn_requested c before (true, blocking_type) =
      verify py client verify_timeout (check_turn c before) before (λ after.
        failed_result c ("end_turn was accepted but turn did not advance within " ++ limit ++ "s")
          (game_state_to_dict before) (game_state_to_dict after))

  unfoldable pub execute_end_turn : Command → Act World CommandResult
  unfolding end_turn_requested
  execute_end_turn c = do
    before ← read_validated py client
    answer ← client.request_end_turn
    end_turn_requested c before answer

  abbrev pub check_research : Command → Value → GameState → Check
  check_research c tech_type before after =
      if researches tech_type after
      then ok (
          some (
            make_result c "success" ("verified research selection: " ++ shown py tech_type)
              (game_state_to_dict before) (game_state_to_dict after)))
      else ok none

  unfoldable pub research_requested :
      Command → Value → GameState → Value × Value → Act World CommandResult
  research_requested c tech_type before (status, tech_id) =
      if is_taken status
      then verify py client verify_timeout (check_research c tech_type before) before (λ after.
        failed_result c
          ("research request was accepted but "
            ++ shown py tech_type
            ++ " was not observed within "
            ++ limit
            ++ "s")
          (game_state_to_dict before) (game_state_to_dict after))
      else pure (
          failed_result c
            ("Civ V rejected "
              ++ shown py tech_type
              ++ " ("
              ++ shown py status
              ++ ", tech_id="
              ++ shown py tech_id
              ++ ")")
            (game_state_to_dict before) (game_state_to_dict before))

  unfoldable pub research_from : Command → Value → GameState → Act World CommandResult
  research_from c tech_type before =
      if researches tech_type before
      then pure (
          make_result c "success" ("verified research already selected: " ++ shown py tech_type)
            (game_state_to_dict before) (game_state_to_dict before))
      else client.request_choose_research tech_type >>= research_requested c tech_type before

  unfoldable pub execute_choose_research : Command → Act World CommandResult
  unfolding research_requested research_from
  execute_choose_research c =
      if is_text (arg c "tech_type")
      then read_validated py client >>= research_from c (arg c "tech_type")
      else pure (failed_result c "choose_research requires tech_type" null null)
