-- ===== src/Executor/Reconcile.antt =====
-- turn_executor.py: `reconcile_turn_plan`, which looks up the result of the one action whose outcome
-- is unknown, and submits nothing.
use civ5_agent_macos.Base.{
  ℕ, suc, not, Option, none, some, List, [], ◌∷◌, ◌++◌, String, last?, get_elem?, eqb,
  if◌then◌else◌,
}
use civ5_agent_macos.Python.{
  Value, null, str, invalid, Runtime, Result, ok, err, is_str, value_eq, ◌>>=◌,
}
use civ5_agent_macos.State.{GameState}
use civ5_agent_macos.Plan.{PlannedAction, TurnPlan, live_state_digest}
use civ5_agent_macos.Plan.Report.{
  ExecutionReport, ExecutionStepReport, Status, completed, paused, stale, failed, recovery_required,
  is_error, validate_execution_report,
}
use civ5_agent_macos.Executor.Bridges.{caught, digest_value}
use civ5_agent_macos.Executor.Steps.{CommandResult, report, validated_reading, validated_step}
use civ5_agent_macos.Executor.Postconditions.{int_lt, action_postcondition_error}

-- `_preserve_event_errors` around `_report`
unfoldable pub report_again :
    TurnPlan
    → ExecutionReport
    → Status
    → ℕ
    → List ExecutionStepReport
    → String
    → String
    → Result ExecutionReport
report_again plan previous status next steps reason message =
    report plan status next steps reason message >>= λ r.
    validate_execution_report (record r { event_sink_errors = previous.event_sink_errors }) plan

-- the digest that the uncertain action's before-state must have
unfoldable pub expected_before : TurnPlan → ExecutionReport → Value
expected_before plan r =
    if eqb r.next_action_index 0
    then plan.state_basis_digest
    else elim (last? r.steps) [ none ↦ null | some s ↦ digest_value s.after_state_digest ]

-- the action at `report.next_action_index`, of a report that awaits recovery
unfoldable pub uncertain_action : TurnPlan → ExecutionReport → Result PlannedAction
uncertain_action plan r = elim r.status [
  | recovery_required ↦ elim (get_elem? plan.actions r.next_action_index) [
    | none ↦ err (invalid "recovery report has no uncertain action")
    | some a ↦ elim (expected_before plan r) [
      | null ↦ err (invalid "recovery report lacks the last verified state basis")
      | _ ↦ ok a
    ]
  ]
  | _ ↦ err (invalid "only a recovery_required report can be reconciled")
]

-- the step that the looked-up result proves, before any state is read
pub data Recovered : Type 0 where
  settled : Result ExecutionReport → Recovered
  succeeded : List ExecutionStepReport → GameState → Recovered

module _ (py : Runtime) where
  -- the answer for the state that is read after a recovered success
  unfoldable pub confirm :
      TurnPlan
      → ExecutionReport
      → PlannedAction
      → List ExecutionStepReport
      → GameState
      → Value
      → GameState
      → Result ExecutionReport
  confirm plan previous a recovered after session current =
      let next = suc previous.next_action_index in
      if not (value_eq session plan.bridge_session_id)
      then report_again plan previous stale next recovered "bridge_session_changed"
          "bridge session changed after cached result was recovered"
      else if is_str "end_turn" a.action
      then (if int_lt plan.turn current.turn
          then report_again plan previous completed next recovered "turn_ended"
              "uncertain final end_turn was recovered and freshly confirmed"
          else report_again plan previous stale next recovered "state_drift"
              "fresh state does not confirm the recovered turn advance")
      else do
        now ← live_state_digest py current
        then_ ← live_state_digest py after
        if is_str now (str then_)
            then report_again plan previous paused next recovered "action_reconciled"
                "uncertain action succeeded and fresh state matches its result"
            else report_again plan previous stale next recovered "state_drift"
                "fresh state differs from the recovered action result"

  unfoldable pub unresolved : TurnPlan → ExecutionReport → String → String → Result ExecutionReport
  unresolved plan previous reason message =
      report_again plan previous recovery_required previous.next_action_index previous.steps reason
        message

  -- a success, once its postcondition has been checked
  unfoldable pub recover_success :
      TurnPlan → ExecutionReport → ExecutionStepReport → GameState → Option String → Recovered
  unfolding unresolved
  recover_success plan previous step after (some m) =
      settled (unresolved plan previous "invalid_recovery_evidence" m)
  recover_success plan previous step after none = succeeded (previous.steps ++ (step ∷ [])) after

  unfoldable pub recover_step :
      TurnPlan
      → ExecutionReport
      → PlannedAction
      → Result (ExecutionStepReport × GameState)
      → Recovered
  unfolding recover_success
  recover_step plan previous a (err e) =
      settled (caught e (unresolved plan previous "invalid_recovery_evidence"))
  recover_step plan previous a (ok (step, after)) =
      let proven =
        recover_success plan previous step after (action_postcondition_error plan a after) in
      if is_error step
      then settled (
          report_again plan previous failed previous.next_action_index
            (previous.steps ++ (step ∷ [])) "action_failed" step.message)
      else proven

  unfoldable pub recover : TurnPlan → ExecutionReport → PlannedAction → CommandResult → Recovered
  unfolding recover_step
  recover plan previous a result =
      recover_step plan previous a
        (validated_step py previous.next_action_index a result (expected_before plan previous))

  -- the answer for the state, if it can be read
  unfoldable pub confirm_reading :
      TurnPlan
      → ExecutionReport
      → PlannedAction
      → List ExecutionStepReport
      → GameState
      → Result (Value × GameState)
      → Result ExecutionReport
  unfolding confirm
  confirm_reading plan previous a recovered after (err e) = caught e (
      report_again plan previous paused (suc previous.next_action_index) recovered
        "state_unavailable")
  confirm_reading plan previous a recovered after (ok (session, current)) =
      confirm plan previous a recovered after session current

  module _ {W : Type 0} (read_state : W → Result (Value × GameState) × W)
      (lookup_result : PlannedAction → Value → W → Result (Option CommandResult) × W) where
    unfoldable pub conclude :
        TurnPlan → ExecutionReport → PlannedAction → Recovered → W → Result ExecutionReport × W
    unfolding confirm_reading
    conclude plan previous a (settled r) w = (r, w)
    conclude plan previous a (succeeded recovered after) w =
        let (r, w') = read_state w in
        (confirm_reading plan previous a recovered after (r >>= validated_reading py), w')

    -- what the watcher's answer leads to
    unfoldable pub resolve :
        TurnPlan
        → ExecutionReport
        → PlannedAction
        → Result (Option CommandResult)
        → W
        → Result ExecutionReport × W
    unfolding unresolved conclude recover
    resolve plan previous a (err e) w =
        (caught e (unresolved plan previous "recovery_lookup_unavailable"), w)
    resolve plan previous a (ok none) w = (
      unresolved plan previous "command_result_unavailable"
          "watcher has no terminal result for the uncertain command",
      w,
    )
    resolve plan previous a (ok (some result)) w =
        conclude plan previous a (recover plan previous a result) w

    unfoldable pub look_up :
        TurnPlan → ExecutionReport → Result PlannedAction → W → Result ExecutionReport × W
    unfolding resolve
    look_up plan previous (err e) w = (err e, w)
    look_up plan previous (ok a) w =
        let (answer, w1) = lookup_result a plan.bridge_session_id w in
        resolve plan previous a answer w1

    unfoldable pub reconcile_turn_plan : TurnPlan → ExecutionReport → W → Result ExecutionReport × W
    unfolding look_up
    reconcile_turn_plan plan raw w =
        look_up plan raw (validate_execution_report raw plan >>= λ r. uncertain_action plan r) w
