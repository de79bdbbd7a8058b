-- ===== src/Executor/Resumes.antt =====
-- What a reconciliation may make of the report that it starts from.
use civ5_agent_macos.Base.{◌≡◌, refl, inl, inr, Option, some, arith, get_elem?}
use civ5_agent_macos.Python.{Value, Runtime, Result, ok, err, Result-cases, ◌>>=◌}
use civ5_agent_macos.State.{GameState}
use civ5_agent_macos.Plan.{PlannedAction, TurnPlan}
use civ5_agent_macos.Plan.Report.{ExecutionReport, recovery_required, validate_execution_report}
use civ5_agent_macos.Executor.Steps.{CommandResult}
use civ5_agent_macos.Executor.Reconcile.{look_up, reconcile_turn_plan, uncertain_action}
use civ5_agent_macos.Executor.Transparent.{validate_execution_report-eq}
use civ5_agent_macos.Executor.Sound.{resolve-Sound}
use civ5_agent_macos.Executor.Outcomes.{Resumes}

module _ (py : Runtime) {W : Type 0} (read_state : W → Result (Value × GameState) × W)
    (lookup_result : PlannedAction → Value → W → Result (Option CommandResult) × W)
    (plan : TurnPlan) (r : ExecutionReport) where
  look_up-Sound :
      (uncertain : Result PlannedAction) (w : W) (x : ExecutionReport)
      → (look_up py read_state lookup_result plan r uncertain w).0 ≡ ok x
      → (a : PlannedAction) × (uncertain ≡ ok a) × Resumes plan a r x
  unfolding look_up
  look_up-Sound (err e) w x h = cc
  look_up-Sound (ok a) w x h = (
    a,
    refl,
    resolve-Sound plan r a py read_state lookup_result (lookup_result a plan.bridge_session_id w).0
        (lookup_result a plan.bridge_session_id w).1 x h,
  )

  uncertain-cases :
      (a : PlannedAction)
      → (validate_execution_report r plan >>= λ s. uncertain_action plan s) ≡ ok a
      → (validate_execution_report r plan ≡ ok r)
        × (r.status ≡ recovery_required)
        × (get_elem? plan.actions r.next_action_index ≡ some a)
  unfolding uncertain_action
  uncertain-cases a h = elim (Result-cases (validate_execution_report r plan)) [
    | inr (e, p) ↦ ground arith
    | inl (y, p) ↦ ground (arith, validate_execution_report-eq r y plan p)
  ]

  -- A reconciliation that returns a report was given a valid report that awaits recovery, and looked
  -- at the planned action whose outcome is unknown. Its report validates against the plan, keeps the
  -- sink's errors, and either leaves the position unchanged, or adds the one failed step of that
  -- action, or adds its one successful step and moves on by one; it is completed only if that
  -- action is `end_turn`.
  pub reconcile_turn_plan-Resumes :
      (w : W) (x : ExecutionReport)
      → (reconcile_turn_plan py read_state lookup_result plan r w).0 ≡ ok x
      → (a : PlannedAction) × (validate_execution_report r plan ≡ ok r)
        × (r.status ≡ recovery_required)
        × (get_elem? plan.actions r.next_action_index ≡ some a)
        × Resumes plan a r x
  unfolding reconcile_turn_plan
  reconcile_turn_plan-Resumes w x h =
      let (a, e, sound) =
        look_up-Sound (validate_execution_report r plan >>= λ s. uncertain_action plan s) w x h in
      let (valid, awaits, at) = uncertain-cases a e in (a, valid, awaits, at, sound)
