-- ===== src/Executor/Events.antt =====
-- turn_executor.py: `_EventEmitter`, `observed_action_executor` and `execute_turn_plan`. The sink has
-- a state of its own: what it does is not seen by the bridge.
use civ5_agent_macos.Base.{
  ℕ, suc, ◌&&◌, Option, none, some, List, [], ◌∷◌, ◌++◌, String, ltb, length, text_take,
  if◌then◌else◌,
}
use civ5_agent_macos.Python.{
  Value, null, str, stale_plan, invalid, unavailable, unexpected, message_of, Runtime, Result, ok,
  err, value_eq, ◌>>=◌,
}
use civ5_agent_macos.State.{GameState}
use civ5_agent_macos.Plan.{PlannedAction, TurnPlan}
use civ5_agent_macos.Plan.Report.{
  ExecutionReport, ExecutionEvent, EventKind, plan_received, action_started, action_result_received,
  action_rejected, action_outcome_unknown, reported, max_report_message_length,
  max_event_sink_errors, execution_report_schema_version, validate_execution_report,
  validate_execution_event,
}
use civ5_agent_macos.Executor.{execute_turn_plan_core}
use civ5_agent_macos.Executor.Bridges.{Bridge}
use civ5_agent_macos.Executor.Steps.{CommandResult}

abbrev pub Sink : Type 0 → Type 0
Sink S = Option (ExecutionEvent → S → Result (Unit {0}) × S)

-- the emitter's `errors`, and the state of the sink
pub record Emitter (S : Type 0) : Type 0 where
  pub errors : List String
  pub sink_state : S

-- `plan.actions.index(action)`
unfoldable pub index_of : PlannedAction → List PlannedAction → Result ℕ
index_of a [] = err (invalid "tuple.index(x): x not in tuple")
index_of a (b ∷ rest) =
    if value_eq b.command_id a.command_id
      && value_eq b.action a.action
      && value_eq b.arguments a.arguments
    then ok 0
    else index_of a rest >>= λ i. ok (suc i)

abbrev result_message : Value → String
result_message (str m) = m
result_message _ = "invalid result"

module _ {S : Type 0} (plan : TurnPlan) (sink : Sink S) where
  -- one delivery: the event is validated, and given to the sink
  deliver :
      (ExecutionEvent → S → Result (Unit {0}) × S) → ExecutionEvent → S → Result (Unit {0}) × S
  deliver f e s = elim (validate_execution_event e) [
    | ok checked ↦ f checked s
    | err x ↦ (err x, s)
  ]

  record_failure : Result (Unit {0}) → List String → List String
  record_failure (ok _) errors = errors
  record_failure (err e) errors =
      if ltb (length errors) max_event_sink_errors
      then errors ++ (text_take max_report_message_length (message_of e) ∷ [])
      else errors

  -- `emit`
  unfoldable pub emit : EventKind → String → String → Option ℕ → Value → Emitter S → Emitter S
  unfolding deliver record_failure
  emit kind reason message index command_id em = elim sink [
    | none ↦ em
    | some f ↦
        let event : ExecutionEvent = record {
          schema_version = execution_report_schema_version;
          plan_id = plan.plan_id;
          bridge_session_id = plan.bridge_session_id;
          kind = kind;
          action_index = index;
          command_id = command_id;
          reason_code = reason;
          message = text_take max_report_message_length message;
        } in
        let (r, s') = deliver f event em.sink_state in
        record { errors = record_failure r em.errors; sink_state = s' }
  ]

  -- the event that follows the answer of the bridge
  answer_event : PlannedAction → ℕ → Result CommandResult → Emitter S → Emitter S
  answer_event a i (ok r) =
      emit action_result_received "action_result_received" (result_message r.message) (some i)
        a.command_id
  answer_event a i (err (unavailable m)) =
      emit action_outcome_unknown "action_outcome_unknown" "bridge outcome is unknown" (some i)
        a.command_id
  answer_event a i (err (unexpected m)) = λ em. em
  answer_event a i (err e) =
      emit action_rejected "action_rejected" (message_of e) (some i) a.command_id

  module _ {W : Type 0} (bridge : Bridge W) where
    -- `observed_action_executor`
    unfoldable pub submit_observed :
        PlannedAction → Value → W × Emitter S → Result ℕ → Result CommandResult × (W × Emitter S)
    unfolding answer_event
    submit_observed a session (w, em) (err e) = (err e, (w, em))
    submit_observed a session (w, em) (ok i) =
        let started =
          emit action_started "action_started" "planned action submitted to bridge" (some i)
            a.command_id em in
        let (answer, w') = bridge.execute_action a session w in
        (answer, (w', answer_event a i answer started))

    observed_action : PlannedAction → Value → W × Emitter S → Result CommandResult × (W × Emitter S)
    unfolding index_of submit_observed
    observed_action a session world = submit_observed a session world (index_of a plan.actions)

    observed_reading : W × Emitter S → Result (Value × GameState) × (W × Emitter S)
    observed_reading (w, em) = let (r, w') = bridge.read_state w in (r, (w', em))

    unfoldable pub observed : Bridge (W × Emitter S)
    unfolding observed_action observed_reading
    observed = record { read_state = observed_reading; execute_action = observed_action }

-- the last `try`: a report that `validate_execution_report` refuses is returned all the same
unfoldable pub returned : ExecutionReport → Result ExecutionReport → Result ExecutionReport
returned final (ok checked) = ok checked
returned final (err (stale_plan m)) = ok final
returned final (err (invalid m)) = ok final
returned final (err e) = err e

unfoldable pub with_sink_errors : TurnPlan → ExecutionReport → List String → Result ExecutionReport
unfolding returned
with_sink_errors plan r errors =
    let final : ExecutionReport = record r { event_sink_errors = errors } in
    returned final (validate_execution_report final plan)

module _ (py : Runtime) {W S : Type 0} (bridge : Bridge W) (sink : Sink S) where
  -- the last event, and the report with the errors of the sink
  unfoldable pub close :
      TurnPlan → Result ExecutionReport × (W × Emitter S) → Result ExecutionReport × (W × Emitter S)
  unfolding with_sink_errors emit
  close plan (err e, world) = (err e, world)
  close plan (ok x, (w, em)) =
      let last = emit plan sink (reported x.status) x.reason_code x.message none null em in
      (with_sink_errors plan x last.errors, (w, last))

  unfoldable pub execute_turn_plan : TurnPlan → W → S → Result ExecutionReport × (W × Emitter S)
  unfolding emit observed close
  execute_turn_plan plan w s =
      let received =
        emit plan sink plan_received "plan_received" "plan received" none null
          (record { errors = []; sink_state = s }) in
      close plan (execute_turn_plan_core py (observed plan sink bridge) plan (w, received))
