-- ===== src/Executor/Outcomes.antt =====
-- What may become of a report whose last action has an unknown outcome.
use civ5_agent_macos.Base.{suc, ◌≡◌, Bool, true, false, ◌⊎◌, [], ◌∷◌, ◌++◌}
use civ5_agent_macos.Python.{ok, is_str}
use civ5_agent_macos.Plan.{PlannedAction, TurnPlan}
use civ5_agent_macos.Plan.Report.{
  ExecutionReport, ExecutionStepReport, Status, completed, paused, stale, failed, recovery_required,
  is_error, validate_execution_report,
}

-- the statuses of a report whose uncertain action turned out to have succeeded
abbrev pub is_resolved : PlannedAction → Status → Bool
is_resolved a completed = is_str "end_turn" a.action
is_resolved a paused = true
is_resolved a stale = true
is_resolved a _ = false

-- The outcome is still unknown, and the report is where it was; or the action is known to have
-- failed, by one more step that says so; or it is known to have succeeded, by one more step, and
-- only a final `end_turn` completes the plan.
abbrev pub Outcome : PlannedAction → ExecutionReport → ExecutionReport → Type 0
Outcome a r x =
    ((x.status ≡ recovery_required)
      × (x.next_action_index ≡ r.next_action_index)
      × (x.steps ≡ r.steps))
    ⊎ ((x.status ≡ failed)
        × (x.next_action_index ≡ r.next_action_index)
        × (s : ExecutionStepReport) × (is_error s ≡ true)
        × (x.steps ≡ r.steps ++ (s ∷ [])))
    ⊎ ((is_resolved a x.status ≡ true)
        × (x.next_action_index ≡ suc r.next_action_index)
        × (s : ExecutionStepReport) × (is_error s ≡ false)
        × (x.steps ≡ r.steps ++ (s ∷ [])))

-- A report that validates, keeps the errors of the sink, and is one of these outcomes.
abbrev pub Resumes : TurnPlan → PlannedAction → ExecutionReport → ExecutionReport → Type 0
Resumes plan a r x =
    (validate_execution_report x plan ≡ ok x)
    × (x.event_sink_errors ≡ r.event_sink_errors)
    × Outcome a r x
