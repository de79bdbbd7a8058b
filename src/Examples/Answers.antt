-- ===== src/Examples/Answers.antt =====
-- The theorem on the answers of the watcher at work: a city is told to train a warrior, and the status of
-- that command is asked for.
use civ5_agent_macos.Base.{ℕ, refl, false, none, [], ◌∷◌, String, is_uuid4}
use civ5_agent_macos.Base.Int.{pos}
use civ5_agent_macos.Python.{int, str, Fields, field, end, ok, value_eq}
use civ5_agent_macos.Identity.{validate_uuid4}
use civ5_agent_macos.Validation.{validate_live_state}
use civ5_agent_macos.Validation.Scalars.{validate_scalars}
use civ5_agent_macos.Validation.Records.{
  validate_lists, validate_cities, validate_units, validate_diplomacy, validate_victory,
}
use civ5_agent_macos.Validation.Research.{validate_research}
use civ5_agent_macos.Commands.{read_validated}
use civ5_agent_macos.Commands.Polling.{poll, verify, after_reading, after_check}
use civ5_agent_macos.Commands.Cities.{
  production_requested, production_from, execute_city_production,
}
use civ5_agent_macos.Watch.{Backend, safe, parse_command}
use civ5_agent_macos.Watch.Locked.{
  journal_submission, journal_result, audited, complete, complete_audited, after_execution,
  execute_submitted, run_command, locked,
}
use civ5_agent_macos.Watch.Requests.{
  handle_request, after_parse, after_safety, after_session, command_request, dispatch,
  command_status, status_of, named_command, found,
}
use civ5_agent_macos.Watch.Traces.{handle_all}
use civ5_agent_macos.Watch.Honest.{Answers}
use civ5_agent_macos.Watch.Game.{game_backend, Achieves, execute_operation, command_status-Achieves}
use civ5_agent_macos.Examples.{runtime}
use civ5_agent_macos.Examples.Cities.{training}

abbrev session_id : String
session_id = "11111111-1111-4111-8111-111111111111"

abbrev backend : Backend ℕ
backend =
    game_backend runtime training 1 (λ z. "30") session_id false (λ n. (n, safe))
      (λ c r n. (n, ok tt)) none

abbrev train_request : Fields
train_request = field "op" (str "set_city_production") (
    field "bridge_session_id" (str session_id) (
      field "id" (str "22222222-2222-4222-8222-222222222222") (
        field "city_id" (int (pos 7))
          (field "kind" (str "unit") (field "item_type" (str "UNIT_WARRIOR") end)))))

abbrev status_request : Fields
status_request = field "op" (str "command_status") (
    field "bridge_session_id" (str session_id)
      (field "command_id" (str "22222222-2222-4222-8222-222222222222") end))

abbrev answer : Fields
answer =
    command_status runtime backend
      (handle_all runtime backend (("unused", train_request) ∷ [])
        (record { completed_commands = []; uncertain_commands = [] }) 0).0
      status_request

command_status-Achieves_example :
    Answers
      (Achieves runtime training 1 (λ z. "30"))
      (("unused", train_request) ∷ [])
      status_request
      answer
unfolding read_validated validate_live_state validate_scalars validate_lists validate_cities
    validate_units validate_diplomacy validate_victory validate_research value_eq verify poll
    after_reading after_check execute_city_production production_from production_requested
    execute_operation handle_all handle_request dispatch command_request after_session after_safety
    after_parse parse_command locked run_command journal_submission execute_submitted
    after_execution audited complete_audited journal_result complete command_status status_of
    named_command found validate_uuid4 is_uuid4
command_status-Achieves_example =
    command_status-Achieves runtime training 1 (λ z. "30") session_id false (λ n. (n, safe))
      (λ c r n. (n, ok tt)) none (("unused", train_request) ∷ []) 0 status_request answer refl refl
