-- ===== src/Examples/Executions.antt =====
-- The theorems on answers, sinks and reconciliations at work on the small game.
use Prim.Native.String.{◌++◌}
use civ5_agent_macos.Base.{
  ℕ, suc, ◌≡◌, refl, is_uuid4, is_hex_text, is_reason_code, text_take, All, get_elem?, Option, some,
  [], ◌∷◌,
}
use civ5_agent_macos.Python.{Value, str, type_error, invalid, ok, err, value_eq, Result}
use civ5_agent_macos.Identity.{validate_uuid4}
use civ5_agent_macos.State.{GameState, game_state_to_dict, game_state_from_fields}
use civ5_agent_macos.Validation.{validate_live_state}
use civ5_agent_macos.Validation.Scalars.{validate_scalars}
use civ5_agent_macos.Validation.Records.{
  validate_lists, validate_cities, validate_units, validate_diplomacy, validate_victory,
}
use civ5_agent_macos.Validation.Research.{validate_research}
use civ5_agent_macos.Plan.{PlannedAction, live_state_digest}
use civ5_agent_macos.Plan.Report.{
  ExecutionReport, paused, recovery_required, validate_execution_report, validate_steps,
  validate_step, validate_outcome,
}
use civ5_agent_macos.Executor.{settle, execute_turn_plan_core}
use civ5_agent_macos.Executor.Bridges.{stop}
use civ5_agent_macos.Executor.Steps.{
  CommandResult, report, validated_reading, validated_step, check_result, result_states,
  step_between, check_success,
}
use civ5_agent_macos.Executor.Events.{execute_turn_plan}
use civ5_agent_macos.Executor.Transparent.{IsSelfEqual, SameOutcome, execute_turn_plan-transparent}
use civ5_agent_macos.Executor.Reconcile.{
  reconcile_turn_plan, report_again, expected_before, uncertain_action, confirm, recover,
}
use civ5_agent_macos.Executor.Resumes.{reconcile_turn_plan-Resumes}
use civ5_agent_macos.Executor.Outcomes.{Resumes}
use civ5_agent_macos.Executor.Refusals.{settle_raises}
use civ5_agent_macos.Executor.Postconditions.{action_postcondition_error}
use civ5_agent_macos.Executor.Standing.{standing}
use civ5_agent_macos.Executor.Advances.{Advances, settle-Advances}
use civ5_agent_macos.Executor.Bridges.{go, after_step, settle_checked}
use civ5_agent_macos.Examples.{
  chosen_step, broken_sink, long_name, garbled, runtime, decided, plan, choose, session, bridge,
  chosen, awaiting, undecided_digest, decided_digest,
}
use civ5_agent_macos.Examples.Runs.{plan-IsExecutable}

chosen-settled :
    settle runtime plan 0 choose [] undecided_digest (ok chosen)
    ≡ go (chosen_step ∷ []) (str decided_digest)
unfolding settle settle_checked after_step validated_step check_result result_states step_between
    check_success game_state_from_fields game_state_to_dict live_state_digest validate_live_state
    validate_scalars validate_lists validate_cities validate_units validate_diplomacy
    validate_victory validate_research value_eq
chosen-settled = refl

settle-Advances_example :
    Advances runtime plan 0 choose [] undecided_digest
      (ok chosen)
      (chosen_step ∷ [])
      (str decided_digest)
settle-Advances_example =
    settle-Advances runtime plan 0 choose [] undecided_digest (chosen_step ∷ [])
      (str decided_digest) (ok chosen) chosen-settled

plan-IsSelfEqual : All IsSelfEqual plan.actions
unfolding value_eq
plan-IsSelfEqual = (refl, (refl, tt))

execute_turn_plan-transparent_example :
    SameOutcome
      (execute_turn_plan_core runtime bridge plan 0).0
      (execute_turn_plan runtime bridge broken_sink plan 0 0).0
    × ((execute_turn_plan runtime bridge broken_sink plan 0 0).1.0
        ≡ (execute_turn_plan_core runtime bridge plan 0).1)
execute_turn_plan-transparent_example =
    execute_turn_plan-transparent runtime bridge broken_sink plan plan-IsSelfEqual 0 0

garbled-refused :
    validated_step runtime 0 choose garbled (str undecided_digest)
    ≡ err (
        type_error
          ("GameState.__init__() got an unexpected keyword argument '" ++ long_name ++ "'"))
unfolding validated_step check_result result_states step_between check_success
    game_state_from_fields game_state_to_dict live_state_digest validate_live_state validate_scalars
    validate_lists validate_cities validate_units validate_diplomacy validate_victory
    validate_research value_eq
garbled-refused = refl

settle_raises_example :
    settle runtime plan 0 choose [] undecided_digest (ok garbled)
    ≡ stop (err (invalid "execution step message is invalid or too long"))
settle_raises_example =
    settle_raises plan-IsExecutable (standing plan-IsExecutable) runtime garbled
      ("GameState.__init__() got an unexpected keyword argument '" ++ long_name ++ "'")
      undecided_digest garbled-refused refl

reconciled : ExecutionReport
reconciled = record awaiting {
  status = paused;
  next_action_index = 1;
  steps = chosen_step ∷ [];
  reason_code = "action_reconciled";
  message = "uncertain action succeeded and fresh state matches its result";
}

read_decided : ℕ → Result (Value × GameState) × ℕ
read_decided n = (ok (session, decided), suc n)

find_chosen : PlannedAction → Value → ℕ → Result (Option CommandResult) × ℕ
find_chosen a s n = (ok (some chosen), suc n)

awaiting-reconciled :
    (reconcile_turn_plan runtime read_decided find_chosen plan awaiting 0).0 ≡ ok reconciled
unfolding reconciled read_decided find_chosen reconcile_turn_plan report_again report validated_step
    check_result result_states step_between check_success game_state_from_fields game_state_to_dict
    live_state_digest validate_live_state validate_scalars validate_lists validate_cities
    validate_units validate_diplomacy validate_victory validate_research value_eq
    validate_execution_report validate_steps validate_step validate_outcome validate_uuid4 is_uuid4
    is_hex_text is_reason_code expected_before uncertain_action confirm recover validated_reading
    action_postcondition_error text_take
awaiting-reconciled = refl

reconcile_turn_plan-Resumes_example :
    (a : PlannedAction) × (validate_execution_report awaiting plan ≡ ok awaiting)
    × (awaiting.status ≡ recovery_required)
    × (get_elem? plan.actions awaiting.next_action_index ≡ some a)
    × Resumes plan a awaiting reconciled
reconcile_turn_plan-Resumes_example =
    reconcile_turn_plan-Resumes runtime read_decided find_chosen plan awaiting 0 reconciled
      awaiting-reconciled
