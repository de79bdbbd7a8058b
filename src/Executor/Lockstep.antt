-- ===== src/Executor/Lockstep.antt =====
-- Two bridges that answer alike, and `_execute_turn_plan_core` on each.
use civ5_agent_macos.Base.{ℕ, suc, ◌≡◌, refl, Option, none, some, List, [], ◌∷◌, All}
use civ5_agent_macos.Python.{Value, Runtime, Result, ok, err, ◌>>=◌}
use civ5_agent_macos.State.{GameState}
use civ5_agent_macos.Plan.{PlannedAction, TurnPlan, validate_turn_plan}
use civ5_agent_macos.Plan.Report.{ExecutionReport, ExecutionStepReport}
use civ5_agent_macos.Executor.{
  settle, preflight, submit, round, observe, run_actions, start, begin, execute_turn_plan_core,
}
use civ5_agent_macos.Executor.Bridges.{
  Bridge, Progress, stop, go, Preflight, halted, ready, continue,
}
use civ5_agent_macos.Executor.Steps.{validated_reading}

-- the world of an outcome seen through a map
abbrev pub along : {A W V : Type 0} → (W → V) → A × W → A × V
along f (a, w) = (a, f w)

-- The bridge of `W` answers as that of `V`, on the actions that `P` allows, and does to the world
-- what that one does.
pub record Mirrors {W V : Type 0} (f : W → V) (b : Bridge W) (c : Bridge V)
    (P : PlannedAction → Type 0) : Type 0 where
  pub reads : (w : W) → c.read_state (f w) ≡ along f (b.read_state w)
  pub executes :
      (a : PlannedAction) (session : Value) (w : W)
      → P a
      → c.execute_action a session (f w) ≡ along f (b.execute_action a session w)

module _ (py : Runtime) {W V : Type 0} (f : W → V) (b : Bridge W) (c : Bridge V)
    (P : PlannedAction → Type 0) (m : Mirrors f b c P) where
  abbrev Loop : Type 0 → Type 0
  Loop X = List ExecutionStepReport → Value → X → Result ExecutionReport × X

  continue-along :
      (next : Loop W) (next' : Loop V)
      → ((ss : List ExecutionStepReport) (d : Value) (w : W)
          → next' ss d (f w) ≡ along f (next ss d w))
      → (p : Progress) (w : W) → continue next' p (f w) ≡ along f (continue next p w)
  unfolding continue
  continue-along next next' h (stop r) w = refl
  continue-along next next' h (go ss d) w = h ss d w

  submit-along :
      (next : Loop W) (next' : Loop V)
      → ((ss : List ExecutionStepReport) (d : Value) (w : W)
          → next' ss d (f w) ≡ along f (next ss d w))
      → (plan : TurnPlan) (index : ℕ) (a : PlannedAction) (steps : List ExecutionStepReport)
        (session : Value) (p : Preflight) (w : W)
      → P a
      → submit py c next' plan index a steps session p (f w)
        ≡ along f (submit py b next plan index a steps session p w)
  unfolding submit
  submit-along next next' h plan index a steps session (halted r) w k = refl
  submit-along next next' h plan index a steps session (ready d) w k =
      rw (m.executes a session w k) (
        continue-along next next' h
          (settle py plan index a steps d (b.execute_action a session w).0)
          (b.execute_action a session w).1)

  round-along :
      (next : Loop W) (next' : Loop V)
      → ((ss : List ExecutionStepReport) (d : Value) (w : W)
          → next' ss d (f w) ≡ along f (next ss d w))
      → (plan : TurnPlan) (index : ℕ) (a : PlannedAction) (rest : List PlannedAction)
        (steps : List ExecutionStepReport) (expected : Value) (r : Result (Value × GameState))
        (w : W)
      → P a
      → round py c next' plan index a rest steps expected r (f w)
        ≡ along f (round py b next plan index a rest steps expected r w)
  unfolding round
  round-along next next' h plan index a rest steps expected (err e) w k = refl
  round-along next next' h plan index a rest steps expected (ok (session, state)) w k =
      submit-along next next' h plan index a steps session
        (preflight py plan index session state expected a rest steps) w k

  observe-along :
      (reading : Option (Value × GameState)) (w : W)
      → observe py c reading (f w) ≡ along f (observe py b reading w)
  unfolding observe
  observe-along none w = rw (m.reads w) refl
  observe-along (some reading) w = refl

  -- the loop of the one is the loop of the other
  pub run_actions-along :
      (plan : TurnPlan) (rest : List PlannedAction) (index : ℕ)
      (reading : Option (Value × GameState)) (steps : List ExecutionStepReport) (expected : Value)
      (w : W)
      → All P rest
      → run_actions py c plan index reading rest steps expected (f w)
        ≡ along f (run_actions py b plan index reading rest steps expected w)
  unfolding run_actions
  run_actions-along plan [] index reading steps expected w k = refl
  run_actions-along plan (a ∷ rest) index reading steps expected w k =
      rw (observe-along reading w) (
        round-along (λ ss d w'. run_actions py b plan (suc index) none rest ss d w')
          (λ ss d w'. run_actions py c plan (suc index) none rest ss d w')
          (λ ss d w'. run_actions-along plan rest (suc index) none ss d w' k.1) plan index a rest
          steps expected (observe py b reading w).0 (observe py b reading w).1 k.0)

  start-along :
      (plan : TurnPlan) (reading : Value × GameState) (r : Result TurnPlan) (w : W)
      → ((p : TurnPlan) → r ≡ ok p → All P p.actions)
      → start py c plan reading r (f w) ≡ along f (start py b plan reading r w)
  unfolding start
  start-along plan reading (err e) w k = refl
  start-along plan reading (ok p) w k =
      run_actions-along p p.actions 0 (some reading) [] p.state_basis_digest w (k p refl)

  -- so is the whole execution, where every plan that the validation may return is allowed
  pub execute_turn_plan_core-along :
      (plan : TurnPlan) (w : W)
      → ((state : GameState) (session : Value) (p : TurnPlan)
          → validate_turn_plan py plan state session ≡ ok p
          → All P p.actions)
      → execute_turn_plan_core py c plan (f w) ≡ along f (execute_turn_plan_core py b plan w)
  unfolding execute_turn_plan_core begin
  execute_turn_plan_core-along plan w k =
      rw (m.reads w) (begin-along ((b.read_state w).0 >>= validated_reading py) (b.read_state w).1)
    where
      begin-along :
          (r : Result (Value × GameState)) (w : W)
          → begin py c plan r (f w) ≡ along f (begin py b plan r w)
      begin-along (err e) w = refl
      begin-along (ok (session, state)) w =
          start-along plan (session, state) (validate_turn_plan py plan state session) w
            (k state session)
