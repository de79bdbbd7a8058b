-- ===== src/Executor.antt =====
-- turn_executor.py of civ5_agent: `_execute_turn_plan_core` and its loop. The bridge's callbacks are
-- functions on a world of any type; what they raise is a `Result`.
pub mod Bridges
pub mod Postconditions
pub mod Coverage
pub mod Steps
pub mod Events
pub mod Reconcile
pub mod Reports
pub mod Standing
pub mod Gate
pub mod Settled
pub mod Verified
pub mod Advances
pub mod Checked
pub mod Accounts
pub mod Loop
pub mod Rounds
pub mod Lockstep
pub mod Transparent
pub mod Resumes
pub mod Sound
pub mod Outcomes
pub mod Refusals
use civ5_agent_macos.Base.{
  ℕ, suc, ◌+◌, Bool, true, false, not, ◌&&◌, Option, none, some, List, [], ◌∷◌, ◌++◌, String,
  length, text_take, if◌then◌else◌, ◌⊎◌, inl, inr, is_empty,
}
use civ5_agent_macos.Python.{
  Value, null, str, Error, stale_plan, invalid, type_error, unavailable, unexpected, message_of,
  Runtime, Result, ok, err, is_str, truthy, value_eq, ◌>>=◌,
}
use civ5_agent_macos.State.{GameState}
use civ5_agent_macos.Plan.{PlannedAction, TurnPlan, live_state_digest, validate_turn_plan}
use civ5_agent_macos.Plan.Report.{
  ExecutionStepReport, ExecutionReport, Status, paused, stale, failed, recovery_required, completed,
  max_report_message_length, is_error,
}
use civ5_agent_macos.Requirements.{TurnRequirement, inspect_turn_requirements}
use Postconditions.{int_lt, turn_or_player_changed}
use Coverage.{uncovered_requirement, requirement_message}
use Steps.{CommandResult, make_report, report, failed_step, validated_reading, validated_step}
use civ5_agent_macos.Executor.Bridges.{
  Bridge, Preflight, halted, ready, on_ok, Progress, stop, settle_checked, all_done, no_state,
  refused_plan, continue,
}

module _ (py : Runtime) where
  -- `_state_mismatch`
  unfoldable pub state_mismatch : TurnPlan → Value → GameState → Value → Result (Option String)
  state_mismatch plan session state expected =
      if not (value_eq session plan.bridge_session_id)
      then ok (some "bridge session changed")
      else if not (value_eq state.turn plan.turn)
      then ok (some "turn changed before the planned final end_turn")
      else if not (value_eq state.active_player plan.active_player)
      then ok (some "active player changed")
      else if not (truthy state.turn_active)
      then ok (some "active player's turn is not active")
      else do
        digest ← live_state_digest py state
        ok (
            if is_str digest expected
            then none
            else some "live state differs from the last verified state basis")

  -- no requirement is uncovered: only `end_turn` also needs that none is left
  unfoldable pub ready_for :
      TurnPlan
      → ℕ
      → GameState
      → PlannedAction
      → List ExecutionStepReport
      → List TurnRequirement
      → Preflight
  ready_for plan index state a steps requirements =
      let submit = on_ok (live_state_digest py state) ready in
      elim requirements [
        | [] ↦ submit
        | q ∷ _ ↦
            if is_str "end_turn" a.action
            then halted (report plan paused index steps "turn_not_ready" (requirement_message py q))
            else submit
      ]

  -- the check that the remaining actions cover the requirements
  unfoldable pub check_requirements :
      TurnPlan
      → ℕ
      → GameState
      → PlannedAction
      → List PlannedAction
      → List ExecutionStepReport
      → List TurnRequirement
      → Preflight
  check_requirements plan index state a rest steps requirements =
      elim (uncovered_requirement requirements (a ∷ rest)) [
        | some q ↦
            halted
              (report plan paused index steps "unresolved_requirement" (requirement_message py q))
        | none ↦ ready_for plan index state a steps requirements
      ]

  -- the checks of a round on the state that it begins with
  unfoldable pub preflight :
      TurnPlan
      → ℕ
      → Value
      → GameState
      → Value
      → PlannedAction
      → List PlannedAction
      → List ExecutionStepReport
      → Preflight
  preflight plan index session state expected a rest steps =
      on_ok (state_mismatch plan session state expected) λ mismatch. elim mismatch [
        | some m ↦ halted (report plan stale index steps "state_drift" m)
        | none ↦
            on_ok (inspect_turn_requirements py state)
              (check_requirements plan index state a rest steps)
      ]

  -- what the executor does with the answer to a submitted action
  unfoldable pub settle :
      TurnPlan
      → ℕ
      → PlannedAction
      → List ExecutionStepReport
      → String
      → Result CommandResult
      → Progress
  settle plan index a steps before_digest (ok r) =
      settle_checked plan index a steps before_digest
        (validated_step py index a r (str before_digest))
  settle plan index a steps before_digest (err (unavailable m)) =
      stop (report plan recovery_required index steps "action_outcome_unknown" m)
  settle plan index a steps before_digest (err (unexpected m)) = stop (err (unexpected m))
  settle plan index a steps before_digest (err e) = stop (
      report plan failed index
        (steps
          ++ (failed_step index a (text_take max_report_message_length (message_of e)) before_digest
                none
              ∷ []))
        "action_rejected" (message_of e))

  module _ {W : Type 0} (bridge : Bridge W) where
    -- the state of a round: the first has been read, each later one is read now
    unfoldable pub observe : Option (Value × GameState) → W → Result (Value × GameState) × W
    observe (some reading) w = (ok reading, w)
    observe none w = let (r, w') = bridge.read_state w in (r >>= validated_reading py, w')

    -- a round behind its checks
    unfoldable pub submit :
        (List ExecutionStepReport → Value → W → Result ExecutionReport × W)
        → TurnPlan
        → ℕ
        → PlannedAction
        → List ExecutionStepReport
        → Value
        → Preflight
        → W
        → Result ExecutionReport × W
    unfolding continue
    submit next plan index a steps session (halted r) w = (r, w)
    submit next plan index a steps session (ready before_digest) w =
        let (answer, w') = bridge.execute_action a session w in
        continue next (settle plan index a steps before_digest answer) w'

    -- a round on the state that has been read for it
    unfoldable pub round :
        (List ExecutionStepReport → Value → W → Result ExecutionReport × W)
        → TurnPlan
        → ℕ
        → PlannedAction
        → List PlannedAction
        → List ExecutionStepReport
        → Value
        → Result (Value × GameState)
        → W
        → Result ExecutionReport × W
    unfolding submit
    round next plan index a rest steps expected (err e) w = (no_state plan index steps e, w)
    round next plan index a rest steps expected (ok (session, state)) w =
        submit next plan index a steps session
          (preflight plan index session state expected a rest steps) w

    -- the loop, on the actions from `index` on
    unfoldable pub run_actions :
        TurnPlan
        → ℕ
        → Option (Value × GameState)
        → List PlannedAction
        → List ExecutionStepReport
        → Value
        → W
        → Result ExecutionReport × W
    unfolding observe round
    run_actions plan index reading [] steps expected w = (all_done plan steps, w)
    run_actions plan index reading (a ∷ rest) steps expected w =
        let next = λ (ss : List ExecutionStepReport) (digest : Value) (w' : W).
          run_actions plan (suc index) none rest ss digest w' in
        let (r, w1) = observe reading w in round next plan index a rest steps expected r w1

    -- a validated plan is run, from the state that it was validated against
    unfoldable pub start :
        TurnPlan → Value × GameState → Result TurnPlan → W → Result ExecutionReport × W
    unfolding run_actions
    start plan reading (err e) w = (refused_plan plan e, w)
    start plan reading (ok p) w = run_actions p 0 (some reading) p.actions [] p.state_basis_digest w

    unfoldable pub begin : TurnPlan → Result (Value × GameState) → W → Result ExecutionReport × W
    unfolding start
    begin plan (err e) w = (no_state plan 0 [] e, w)
    begin plan (ok (session, state)) w =
        start plan (session, state) (validate_turn_plan py plan state session) w

    unfoldable pub execute_turn_plan_core : TurnPlan → W → Result ExecutionReport × W
    unfolding begin
    execute_turn_plan_core plan w =
        let (r, w1) = bridge.read_state w in begin plan (r >>= validated_reading py) w1
