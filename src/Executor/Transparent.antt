-- ===== src/Executor/Transparent.antt =====
-- Event sinks around an execution, `execute_turn_plan` of turn_executor.py.
use civ5_agent_macos.Base.{
  ℕ, suc, ◌≡◌, refl, ap, Bool, true, false, ◌&&◌, inl, inr, Bool-cases, none, List, [], ◌∷◌, String,
  arith, All, ◌≤◌, length,
}
use civ5_agent_macos.Python.{
  Error, Value, null, Runtime, Result, ok, err, Result-cases, unexpected, stale_plan, invalid,
  type_error, unavailable, value_eq,
}
use civ5_agent_macos.State.{GameState}
use civ5_agent_macos.Identity.{validate_uuid4}
use civ5_agent_macos.Plan.{
  PlannedAction, TurnPlan, validate_turn_plan, validate_turn_plan_structure,
}
use civ5_agent_macos.Plan.Structure.{validate_turn_plan_structure-eq}
use civ5_agent_macos.Plan.Report.{
  ExecutionReport, ExecutionStepReport, plan_received, validate_execution_report, validate_step,
  validate_steps, validate_outcome,
}
use civ5_agent_macos.Executor.{execute_turn_plan_core}
use civ5_agent_macos.Executor.Bridges.{Bridge}
use civ5_agent_macos.Executor.Events.{
  Sink, Emitter, index_of, observed, submit_observed, close, returned, emit, with_sink_errors,
  execute_turn_plan,
}
use civ5_agent_macos.Executor.Lockstep.{Mirrors, execute_turn_plan_core-along}

module _ (py : Runtime) where
  validated_plan-eq :
      (plan : TurnPlan) (state : GameState) (session : Value) (p : TurnPlan)
      → validate_turn_plan py plan state session ≡ ok p
      → p ≡ plan
  unfolding validate_turn_plan
  validated_plan-eq plan state session p h =
      elim (Result-cases (validate_turn_plan_structure py plan)) [
        | inl (q, e) ↦ ground (arith, validate_turn_plan_structure-eq py plan q e)
        | inr (x, e) ↦ ground arith
      ]

-- `==` of the dataclass
abbrev pub same_action : PlannedAction → PlannedAction → Bool
same_action a b =
    value_eq b.command_id a.command_id
    && value_eq b.action a.action
    && value_eq b.arguments a.arguments

-- The action is equal to itself, as every value that JSON can express is.
abbrev pub IsSelfEqual : PlannedAction → Type 0
IsSelfEqual a = same_action a a ≡ true

abbrev Found : List PlannedAction → PlannedAction → Type 0
Found actions a = (i : ℕ) × (index_of a actions ≡ ok i)

module _ (x : PlannedAction) (xs : List PlannedAction) where
  Found-first : IsSelfEqual x → Found (x ∷ xs) x
  unfolding index_of
  Found-first e = (0, rw e refl)

  Found-later : (a : PlannedAction) → Found xs a → Found (x ∷ xs) a
  unfolding index_of
  Found-later a (i, e) = elim (Bool-cases (same_action a x)) [
    | inl t ↦ (0, rw t refl)
    | inr f ↦ (suc i, rw (f, e) refl)
  ]

  All-Found_later : (ys : List PlannedAction) → All (Found xs) ys → All (Found (x ∷ xs)) ys
  All-Found_later [] h = tt
  All-Found_later (y ∷ ys) h = (Found-later y h.0, All-Found_later ys h.1)

All-Found : (xs : List PlannedAction) → All IsSelfEqual xs → All (Found xs) xs
All-Found [] h = tt
All-Found (x ∷ xs) h = (Found-first x xs h.0, All-Found_later x xs xs (All-Found xs h.1))

pub validate_execution_report-eq :
    (r s : ExecutionReport) (plan : TurnPlan) → validate_execution_report r plan ≡ ok s → s ≡ r
unfolding validate_execution_report validate_uuid4
validate_execution_report-eq r s plan h = ground arith

-- The same exception, or the same report but for its `event_sink_errors`.
abbrev pub SameOutcome : Result ExecutionReport → Result ExecutionReport → Type 0
SameOutcome (ok x) r = (errors : List String) × (r ≡ ok (record x { event_sink_errors = errors }))
SameOutcome (err e) r = r ≡ err e

-- `TurnPlanError`, or its subclass
abbrev pub is_plan_error : Error → Bool
is_plan_error (stale_plan m) = true
is_plan_error (invalid m) = true
is_plan_error _ = false

validate_step_raises :
    (i : ℕ) (s : ExecutionStepReport) (a : PlannedAction) (e : Error)
    → validate_step i s a ≡ err e
    → is_plan_error e ≡ true
unfolding validate_step
validate_step_raises i s a e h = ground arith

validate_steps_raises :
    (i : ℕ) (ss : List ExecutionStepReport) (actions : List PlannedAction) (e : Error)
    → length ss ≤ length actions
    → validate_steps i ss actions ≡ err e
    → is_plan_error e ≡ true
unfolding validate_steps
validate_steps_raises i [] actions e l h = cc
validate_steps_raises i (s ∷ ss) [] e l h = absurd (omega (arith, l))
validate_steps_raises i (s ∷ ss) (a ∷ more) e l h = elim (Result-cases (validate_step i s a)) [
  | inl (u, q) ↦ validate_steps_raises (suc i) ss more e (omega (arith, l)) (ground arith)
  | inr (x, q) ↦ validate_step_raises i s a e (ground arith)
]

validate_outcome_raises :
    (r : ExecutionReport) (plan : TurnPlan) (e : Error)
    → validate_outcome r plan ≡ err e
    → is_plan_error e ≡ true
unfolding validate_outcome
validate_outcome_raises r plan e h = ground arith

validate_execution_report_raises :
    (r : ExecutionReport) (plan : TurnPlan) (e : Error)
    → validate_execution_report r plan ≡ err e
    → is_plan_error e ≡ true
unfolding validate_execution_report validate_uuid4
validate_execution_report_raises r plan e h =
    elim (Result-cases (validate_steps 0 r.steps plan.actions)) [
      | inr (x, q) ↦ ground (arith, validate_steps_raises 0 r.steps plan.actions x)
      | inl (u, q) ↦ elim (Result-cases (validate_outcome r plan)) [
        | inr (x, o) ↦ ground (arith, validate_outcome_raises r plan x)
        | inl (v, o) ↦ ground arith
      ]
    ]

returned-eq :
    (plan : TurnPlan) (final : ExecutionReport) (r : Result ExecutionReport)
    → validate_execution_report final plan ≡ r
    → returned final r ≡ ok final
unfolding returned
returned-eq plan final (ok y) e = ap ok (validate_execution_report-eq final y plan e)
returned-eq plan final (err (stale_plan m)) e = refl
returned-eq plan final (err (invalid m)) e = refl
returned-eq plan final (err (type_error m)) e =
    cc (validate_execution_report_raises final plan (type_error m) e)
returned-eq plan final (err (unavailable m)) e =
    cc (validate_execution_report_raises final plan (unavailable m) e)
returned-eq plan final (err (unexpected m)) e =
    cc (validate_execution_report_raises final plan (unexpected m) e)

with_sink_errors-eq :
    (plan : TurnPlan) (x : ExecutionReport) (errors : List String)
    → with_sink_errors plan x errors ≡ ok (record x { event_sink_errors = errors })
unfolding with_sink_errors
with_sink_errors-eq plan x errors =
    returned-eq plan _ (validate_execution_report (record x { event_sink_errors = errors }) plan)
      refl

module _ (py : Runtime) {W S : Type 0} (bridge : Bridge W) (sink : Sink S) (plan : TurnPlan)
    (self_equal : All IsSelfEqual plan.actions) where
  mirrored :
      Mirrors {W = W × Emitter S} {V = W}
        (λ v. v.0)
        (observed plan sink bridge)
        bridge
        (Found plan.actions)
  unfolding observed submit_observed
  mirrored = record { reads = λ v. refl; executes = λ a session v (i, e). rw e refl }

  close-alike :
      (c : Result ExecutionReport × (W × Emitter S))
      → SameOutcome c.0 (close py bridge sink plan c).0
        × ((close py bridge sink plan c).1.0 ≡ c.1.0)
  unfolding close
  close-alike (err e, world) = (refl, refl)
  close-alike (ok x, (w, em)) = ((_, with_sink_errors-eq plan x _), refl)

  -- Whatever the sink does, and if it raises, an observed execution gives the bridge the same
  -- commands: it leaves the world that the bare execution leaves, and ends with the same exception
  -- or with the same report but for `event_sink_errors`. The planned actions are equal to
  -- themselves.
  pub execute_turn_plan-transparent :
      (w : W) (s : S)
      → SameOutcome
          (execute_turn_plan_core py bridge plan w).0
          (execute_turn_plan py bridge sink plan w s).0
        × ((execute_turn_plan py bridge sink plan w s).1.0
            ≡ (execute_turn_plan_core py bridge plan w).1)
  unfolding execute_turn_plan
  execute_turn_plan-transparent w s =
      let received : Emitter S =
        emit plan sink plan_received "plan_received" "plan received" none null
          (record { errors = []; sink_state = s }) in
      rw
        (execute_turn_plan_core-along py (λ v. v.0) (observed plan sink bridge) bridge
          (Found plan.actions) mirrored plan (w, received)
          (λ state session p e.
            rw (validated_plan-eq py plan state session p e) (All-Found plan.actions self_equal)))
        (close-alike (execute_turn_plan_core py (observed plan sink bridge) plan (w, received)))
