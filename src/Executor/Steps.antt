-- ===== src/Executor/Steps.antt =====
-- turn_executor.py: the reports that the executor makes, and the check of an action's result.
-- A value that is no `CommandResult` is not an answer of the model's executor.
use civ5_agent_macos.Base.{
  ℕ, Bool, false, ◌&&◌, Option, none, some, List, [], ◌∷◌, String, text_take, if◌then◌else◌,
}
use civ5_agent_macos.Python.{
  Value, str, Runtime, Result, ok, err, invalid, require, is_str, value_eq, ◌>>=◌, ◌>>◌,
}
use civ5_agent_macos.State.{GameState, game_state_from_fields}
use civ5_agent_macos.Identity.{validate_bridge_session_id}
use civ5_agent_macos.Plan.{PlannedAction, TurnPlan, live_state_digest}
use civ5_agent_macos.Plan.Report.{
  ExecutionStepReport, ExecutionReport, StepStatus, success, error, Status, fits,
  max_report_message_length, execution_report_schema_version, validate_execution_report,
}
use civ5_agent_macos.Validation.{is_dict, fields_of, in_set, validate_live_state}
use civ5_agent_macos.Executor.Postconditions.{
  move_unit_postcondition_error, worker_build_postcondition_error,
}

-- `CommandResult` of models.py
pub record CommandResult : Type 0 where
  pub id : Value
  pub status : Value
  pub message : Value
  pub before : Value
  pub after : Value

-- The report that `_report` makes, before its validation.
abbrev pub make_report :
    TurnPlan → Status → ℕ → List ExecutionStepReport → String → String → ExecutionReport
make_report plan status next steps reason message = record {
  schema_version = execution_report_schema_version;
  plan_id = plan.plan_id;
  bridge_session_id = plan.bridge_session_id;
  status = status;
  next_action_index = next;
  steps = steps;
  reason_code = reason;
  message = text_take max_report_message_length message;
  event_sink_errors = [];
}

-- `_report`
unfoldable pub report :
    TurnPlan → Status → ℕ → List ExecutionStepReport → String → String → Result ExecutionReport
report plan status next steps reason message =
    validate_execution_report (make_report plan status next steps reason message) plan

abbrev pub failed_step : ℕ → PlannedAction → String → String → Option String → ExecutionStepReport
failed_step index a message before after = record {
  index = index;
  command_id = a.command_id;
  action = a.action;
  status = error;
  message = message;
  before_state_digest = some before;
  after_state_digest = after;
}

abbrev is_fitting : Value → Bool
is_fitting (str s) = fits s
is_fitting _ = false

abbrev pub text_of : Value → String
text_of (str s) = s
text_of _ = ""

-- the status of a result that has been checked to be terminal
abbrev pub step_status : Value → StepStatus
step_status v = if is_str "success" v then success else error

-- `if error is not None: raise ValueError(error)`
abbrev pub raise_fault : Option String → Result (Unit {0})
raise_fault none = ok tt
raise_fault (some m) = err (invalid m)

abbrev pub succeeded : String → PlannedAction → CommandResult → Bool
succeeded action a r = is_str "success" r.status && is_str action a.action

-- the tests on the result itself
unfoldable pub check_result : PlannedAction → CommandResult → Result (Unit {0})
check_result a r = do
  require (value_eq r.id a.command_id) "action result command id does not match TurnPlan"
  terminal ← in_set r.status ("success" ∷ "error" ∷ [])
  require terminal "action result must be terminal"
  require (is_fitting r.message) "action result message is invalid or too long"
  require (is_dict r.before && is_dict r.after)
      "action result requires before and after live states"

module _ (py : Runtime) where
  -- `_read_validated_state`, on what the reader returned
  unfoldable pub validated_reading : Value × GameState → Result (Value × GameState)
  validated_reading (session, state) = do
    session_id ← validate_bridge_session_id session
    validated ← validate_live_state py state
    ok (session_id, validated)

  -- the postcondition of the action, if the result claims success
  unfoldable pub check_success :
      PlannedAction → CommandResult → GameState → GameState → Result (Unit {0})
  check_success a r before after = do
    (if succeeded "move_unit" a r
        then move_unit_postcondition_error a before after >>= raise_fault
        else ok tt)
    (if succeeded "worker_build" a r
        then worker_build_postcondition_error a before after >>= raise_fault
        else ok tt)

  -- the two states of a result
  unfoldable pub result_states : CommandResult → Result (GameState × GameState)
  result_states r = do
    raw_before ← game_state_from_fields (fields_of r.before)
    before ← validate_live_state py raw_before
    raw_after ← game_state_from_fields (fields_of r.after)
    after ← validate_live_state py raw_after
    ok (before, after)

  -- the step from the one to the other
  unfoldable pub step_between :
      ℕ
      → PlannedAction
      → CommandResult
      → Value
      → GameState × GameState
      → Result (ExecutionStepReport × GameState)
  step_between index a r expected_before (before, after) = do
    before_digest ← live_state_digest py before
    require (is_str before_digest expected_before)
        "action result before-state differs from executor observation"
    check_success a r before after
    after_digest ← live_state_digest py after
    ok (
      record {
        index = index;
        command_id = a.command_id;
        action = a.action;
        status = step_status r.status;
        message = text_of r.message;
        before_state_digest = some before_digest;
        after_state_digest = some after_digest;
      },
      after,
    )

  unfoldable pub validated_step :
      ℕ → PlannedAction → CommandResult → Value → Result (ExecutionStepReport × GameState)
  unfolding check_result result_states step_between
  validated_step index a r expected_before = do
    check_result a r
    states ← result_states r
    step_between index a r expected_before states
