-- ===== src/Plan/Report.antt =====
-- The execution reports and events of turn_plan.py, and their validation. Where a field is declared
-- with a Python type that the model has, its `isinstance` test holds by typing: a step's and a
-- report's index are natural numbers, so the refusal of a negative index has no case here.
use civ5_agent_macos.Base.{
  ℕ, suc, Bool, true, false, not, ◌&&◌, ◌||◌, Option, none, some, List, [], ◌∷◌, String, leb, ltb,
  eqb, all, any, keep, length, is_empty, last?, text_length, is_hex_text, is_reason_code,
  if◌then◌else◌,
}
use civ5_agent_macos.Base.Int.{pos}
use civ5_agent_macos.Python.{
  Value, int, null, Result, ok, err, unexpected, require, is_null, value_eq, ◌>>=◌, ◌>>◌,
}
use civ5_agent_macos.Identity.{validate_plan_id, validate_bridge_session_id, validate_command_id}
use civ5_agent_macos.Plan.{PlannedAction, TurnPlan, max_plan_actions, is_version_one}

pub data StepStatus : Type 0 where
  success error unknown_step : StepStatus

pub data Status : Type 0 where
  completed paused stale failed recovery_required unknown_status : Status

pub record ExecutionStepReport : Type 0 where
  pub index : ℕ
  pub command_id : Value
  pub action : Value
  pub status : StepStatus
  pub message : String
  pub before_state_digest : Option String
  pub after_state_digest : Option String

pub record ExecutionReport : Type 0 where
  pub schema_version : Value
  pub plan_id : Value
  pub bridge_session_id : Value
  pub status : Status
  pub next_action_index : ℕ
  pub steps : List ExecutionStepReport
  pub reason_code : String
  pub message : String
  pub event_sink_errors : List String

abbrev pub execution_report_schema_version : Value
execution_report_schema_version = int (pos 1)

abbrev pub max_report_message_length : ℕ
max_report_message_length = 1024

-- `MAX_PLAN_ACTIONS * 2 + 2`
abbrev pub max_event_sink_errors : ℕ
max_event_sink_errors = 130

abbrev pub is_error : ExecutionStepReport → Bool
is_error s = elim s.status [ error ↦ true | _ ↦ false ]

abbrev pub is_success : ExecutionStepReport → Bool
is_success s = elim s.status [ success ↦ true | _ ↦ false ]

abbrev pub is_known_step : StepStatus → Bool
is_known_step success = true
is_known_step error = true
is_known_step unknown_step = false

abbrev pub is_known_status : Status → Bool
is_known_status unknown_status = false
is_known_status _ = true

abbrev pub fits : String → Bool
fits s = leb (text_length s) max_report_message_length

abbrev pub is_optional_digest : Option String → Bool
is_optional_digest none = true
is_optional_digest (some d) = is_hex_text 64 d

unfoldable pub validate_step : ℕ → ExecutionStepReport → PlannedAction → Result (Unit {0})
validate_step index step planned = do
  require (eqb step.index index) "execution report step indexes must be contiguous"
  require (value_eq step.command_id planned.command_id && value_eq step.action planned.action)
      "execution report step does not match TurnPlan action"
  require (is_known_step step.status) "unsupported execution step status"
  require (fits step.message) "execution step message is invalid or too long"
  require
      (is_optional_digest step.before_state_digest && is_optional_digest step.after_state_digest)
      "execution step digest must be lowercase SHA-256"

-- the loop over `report.steps`, beside the plan's actions from the same index on
unfoldable pub validate_steps :
    ℕ → List ExecutionStepReport → List PlannedAction → Result (Unit {0})
validate_steps index [] actions = ok tt
validate_steps index (s ∷ ss) [] = err (unexpected "tuple index out of range")
validate_steps index (s ∷ ss) (a ∷ more) =
    validate_step index s a >>= λ _. validate_steps (suc index) ss more

abbrev pub all_but_last {ℓ} : {A : Type ℓ} → List A → List A
all_but_last [] = []
all_but_last (x ∷ []) = []
all_but_last (x ∷ y ∷ r) = x ∷ all_but_last (y ∷ r)

-- `valid_action_failure`: one failed step, and it is the last
unfoldable pub is_action_failure : ExecutionReport → Bool
is_action_failure r = elim (last? r.steps) [
  | none ↦ false
  | some s ↦
      eqb (length (keep is_error r.steps)) 1
      && is_error s
      && eqb r.next_action_index s.index
      && all is_success (all_but_last r.steps)
]

unfoldable pub validate_outcome : ExecutionReport → TurnPlan → Result (Unit {0})
validate_outcome r plan = elim r.status [
  | completed ↦
      require
        (eqb r.next_action_index (length plan.actions)
          && eqb (length r.steps) (length plan.actions)
          && not (any is_error r.steps))
        "completed report requires every action to succeed"
  | failed ↦
      require (is_empty r.steps && eqb r.next_action_index 0 || is_action_failure r)
        "failed report requires one final failed step"
  | _ ↦
      require (not (any is_error r.steps) && eqb r.next_action_index (length r.steps))
        "paused, stale, and recovery reports contain only completed steps"
]

unfoldable pub validate_execution_report : ExecutionReport → TurnPlan → Result ExecutionReport
validate_execution_report r plan = do
  require (is_version_one r.schema_version) "unsupported ExecutionReport schema_version"
  _ ← validate_plan_id r.plan_id
  _ ← validate_bridge_session_id r.bridge_session_id
  require (value_eq r.plan_id plan.plan_id && value_eq r.bridge_session_id plan.bridge_session_id)
      "execution report identity does not match TurnPlan"
  require (is_known_status r.status) "unsupported execution report status"
  require (leb r.next_action_index (length plan.actions))
      "next_action_index is outside the TurnPlan"
  require (leb (length r.steps) (length plan.actions)) "execution report steps exceed the TurnPlan"
  require (is_reason_code r.reason_code) "reason_code must be a bounded snake-case identifier"
  require (fits r.message) "execution report message is invalid or too long"
  require (leb (length r.event_sink_errors) max_event_sink_errors && all fits r.event_sink_errors)
      "event_sink_errors is invalid or unbounded"
  validate_steps 0 r.steps plan.actions
  validate_outcome r plan
  ok r

pub data EventKind : Type 0 where
  plan_received action_started action_result_received action_rejected : EventKind
  action_outcome_unknown : EventKind
  reported : Status → EventKind
  unknown_kind : EventKind

pub record ExecutionEvent : Type 0 where
  pub schema_version : Value
  pub plan_id : Value
  pub bridge_session_id : Value
  pub kind : EventKind
  pub action_index : Option ℕ
  pub command_id : Value
  pub reason_code : String
  pub message : String

abbrev is_known_kind : EventKind → Bool
is_known_kind unknown_kind = false
is_known_kind (reported s) = is_known_status s
is_known_kind _ = true

abbrev is_some {ℓ} : {A : Type ℓ} → Option A → Bool
is_some none = false
is_some (some _) = true

-- `has_action == (both parts are given)`, which is: both or neither
unfoldable pub validate_execution_event : ExecutionEvent → Result ExecutionEvent
validate_execution_event e = do
  require (is_version_one e.schema_version) "unsupported ExecutionEvent schema_version"
  _ ← validate_plan_id e.plan_id
  _ ← validate_bridge_session_id e.bridge_session_id
  _ ← (if is_null e.command_id then ok null else validate_command_id e.command_id)
  require (is_known_kind e.kind) "unsupported ExecutionEvent kind"
  require (elim e.action_index [ none ↦ true | some i ↦ ltb i max_plan_actions ])
      "execution event action_index is invalid"
  require
      (if is_some e.action_index || not (is_null e.command_id)
        then is_some e.action_index && not (is_null e.command_id)
        else true)
      "execution event action identity must be complete"
  require (is_reason_code e.reason_code && fits e.message)
      "execution event reason or message is invalid"
  ok e
