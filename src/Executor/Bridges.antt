-- ===== src/Executor/Bridges.antt =====
-- turn_executor.py: the bridge, and the steps of the loop that need no checks of states.
use civ5_agent_macos.Base.{
  ℕ, Option, none, some, List, [], ◌∷◌, ◌++◌, String, length, if◌then◌else◌,
}
use civ5_agent_macos.Python.{
  Value, null, str, Error, stale_plan, invalid, type_error, unavailable, unexpected, message_of,
  Result, ok, err, is_str,
}
use civ5_agent_macos.State.{GameState}
use civ5_agent_macos.Plan.{PlannedAction, TurnPlan}
use civ5_agent_macos.Plan.Report.{
  ExecutionStepReport, ExecutionReport, paused, stale, failed, completed, is_error,
}
use civ5_agent_macos.Executor.Postconditions.{int_lt, turn_or_player_changed}
use civ5_agent_macos.Executor.Steps.{CommandResult, make_report, report, failed_step}

-- The callbacks `read_state` and `execute_action`, over a world that they may change.
pub record Bridge (W : Type 0) : Type 0 where
  pub read_state : W → Result (Value × GameState) × W
  pub execute_action : PlannedAction → Value → W → Result CommandResult × W

-- `except (OSError, TimeoutError, ConnectionError, TypeError, ValueError)`: the exception is
-- handled by `handler`, any other goes on.
abbrev pub caught {ℓ} : {A : Type ℓ} → Error → (String → Result A) → Result A
caught (unexpected m) handler = err (unexpected m)
caught (stale_plan m) handler = handler m
caught (invalid m) handler = handler m
caught (type_error m) handler = handler m
caught (unavailable m) handler = handler m

-- the verdict of the checks before an action is submitted: a report (or an uncaught exception) ends
-- the plan, or the action is submitted from a state of the given digest
pub data Preflight : Type 0 where
  halted : Result ExecutionReport → Preflight
  ready : String → Preflight

abbrev pub on_ok : {A : Type 0} → Result A → (A → Preflight) → Preflight
on_ok (ok a) f = f a
on_ok (err e) f = halted (err e)

abbrev pub digest_value : Option String → Value
digest_value none = null
digest_value (some d) = str d

-- what one round of the loop leads to: a report (or an uncaught exception), or the next round
pub data Progress : Type 0 where
  stop : Result ExecutionReport → Progress
  go : List ExecutionStepReport → Value → Progress

-- the checks behind a verified step: a failed one ends the plan, and so does a postcondition
unfoldable pub after_step :
    TurnPlan
    → ℕ
    → PlannedAction
    → List ExecutionStepReport
    → String
    → ExecutionStepReport
    → GameState
    → Progress
after_step plan index a steps before_digest step after =
    let refuse = λ (m : String). stop (
      report plan failed index
        (steps ++ (failed_step index a m before_digest step.after_state_digest ∷ []))
        "postcondition_failed" m) in
    let next = go (steps ++ (step ∷ [])) (digest_value step.after_state_digest) in
    if is_error step
    then stop (report plan failed index (steps ++ (step ∷ [])) "action_failed" step.message)
    else if is_str "end_turn" a.action
    then (if int_lt plan.turn after.turn
        then next
        else refuse "end_turn result did not advance the turn")
    else if turn_or_player_changed plan.turn plan.active_player after
    then refuse "non-final action changed turn or active player"
    else next

-- `except (TypeError, ValueError)` around the check of a result: the step's message is the whole
-- message of the exception
unfoldable pub invalid_result :
    TurnPlan
    → ℕ
    → PlannedAction
    → List ExecutionStepReport
    → String
    → Error
    → Result ExecutionReport
invalid_result plan index a steps before_digest (unavailable m) = err (unavailable m)
invalid_result plan index a steps before_digest (unexpected m) = err (unexpected m)
invalid_result plan index a steps before_digest e =
    report plan failed index (steps ++ (failed_step index a (message_of e) before_digest none ∷ []))
      "invalid_action_result" (message_of e)

-- the two ways out of the check of a result
unfoldable pub settle_checked :
    TurnPlan
    → ℕ
    → PlannedAction
    → List ExecutionStepReport
    → String
    → Result (ExecutionStepReport × GameState)
    → Progress
settle_checked plan index a steps before_digest (ok (step, after)) =
    after_step plan index a steps before_digest step after
settle_checked plan index a steps before_digest (err e) =
    stop (invalid_result plan index a steps before_digest e)

abbrev pub all_done : TurnPlan → List ExecutionStepReport → Result ExecutionReport
all_done plan steps =
    report plan completed (length plan.actions) steps "turn_ended"
      "every planned action and final end_turn were verified"

abbrev pub no_state : TurnPlan → ℕ → List ExecutionStepReport → Error → Result ExecutionReport
no_state plan index steps e = caught e (report plan paused index steps "state_unavailable")

-- the two `except` clauses behind `validate_turn_plan`
unfoldable pub refused_plan : TurnPlan → Error → Result ExecutionReport
refused_plan plan (stale_plan m) = report plan stale 0 [] "initial_state_stale" m
refused_plan plan (invalid m) = ok (make_report plan failed 0 [] "invalid_plan" m)
refused_plan plan (type_error m) = ok (make_report plan failed 0 [] "invalid_plan" m)
refused_plan plan e = err e

-- a round whose action has been answered: `next` is the rest of the loop
unfoldable pub continue :
    {W : Type 0}
    → (List ExecutionStepReport → Value → W → Result ExecutionReport × W)
    → Progress
    → W
    → Result ExecutionReport × W
continue next (stop r) w = (r, w)
continue next (go steps digest) w = next steps digest w
