-- ===== src/Executor/Advances.antt =====
-- What the loop of `_execute_turn_plan_core` goes on from: the checks behind a submitted action.
use civ5_agent_macos.Base.{
  ℕ, ◌≡◌, refl, ap, ◌∙◌, Bool, true, false, inl, inr, Bool-cases, List, [], ◌∷◌, ◌++◌, String,
  arith, if◌then◌else◌, not,
}
use civ5_agent_macos.Python.{
  Value, str, unavailable, unexpected, stale_plan, invalid, type_error, Runtime, Result, ok, err,
  is_str,
}
use civ5_agent_macos.State.{GameState}
use civ5_agent_macos.Plan.{PlannedAction, TurnPlan}
use civ5_agent_macos.Plan.Report.{ExecutionStepReport, is_error}
use civ5_agent_macos.Executor.{settle}
use civ5_agent_macos.Executor.Bridges.{go, after_step, settle_checked, digest_value}
use civ5_agent_macos.Executor.Postconditions.{int_lt, turn_or_player_changed}
use civ5_agent_macos.Executor.Steps.{CommandResult, validated_step}
use civ5_agent_macos.Executor.Gate.{digest_of}
use civ5_agent_macos.Executor.Verified.{Verified, validated_step-Verified}

-- `end_turn` must have moved the turn on, and any other action must have left turn and player alone.
abbrev pub is_as_planned : TurnPlan → PlannedAction → GameState → Bool
is_as_planned plan a after =
    if is_str "end_turn" a.action
    then int_lt plan.turn after.turn
    else not (turn_or_player_changed plan.turn plan.active_player after)

-- The answer is a result that was verified against the observed digest and reported as a successful
-- step, its state is as planned, and the loop goes on with that step and the digest of that state.
pub record Advances (py : Runtime) (plan : TurnPlan) (index : ℕ) (a : PlannedAction)
    (steps : List ExecutionStepReport) (d : String) (answer : Result CommandResult)
    (ss : List ExecutionStepReport) (digest : Value) : Type 0 where
  pub result : CommandResult
  pub step : ExecutionStepReport
  pub after : GameState
  pub answered : answer ≡ ok result
  pub verified : Verified py index a d result step after
  pub succeeded : is_error step ≡ false
  pub as_planned : is_as_planned plan a after ≡ true
  pub appended : ss ≡ steps ++ (step ∷ [])
  pub continued : digest ≡ str (digest_of py after)

module _ (py : Runtime) (plan : TurnPlan) (index : ℕ) (a : PlannedAction)
    (steps : List ExecutionStepReport) (d : String) (ss : List ExecutionStepReport)
    (digest : Value) where
  after_step-go :
      (step : ExecutionStepReport) (after : GameState)
      → after_step plan index a steps d step after ≡ go ss digest
      → (is_error step ≡ false)
        × (is_as_planned plan a after ≡ true)
        × (ss ≡ steps ++ (step ∷ []))
        × (digest ≡ digest_value step.after_state_digest)
  unfolding after_step
  after_step-go step after h = elim (Bool-cases (is_error step)) [
    | inl e ↦ absurd (ground arith)
    | inr e ↦ elim (Bool-cases (is_str "end_turn" a.action)) [
      | inl t ↦ (e, ground arith, ground arith, ground arith)
      | inr t ↦ (e, ground arith, ground arith, ground arith)
    ]
  ]

  checked-Advances :
      (r : CommandResult) (x : Result (ExecutionStepReport × GameState))
      → validated_step py index a r (str d) ≡ x
      → settle_checked plan index a steps d x ≡ go ss digest
      → Advances py plan index a steps d (ok r) ss digest
  unfolding settle_checked
  checked-Advances r (ok (step, after)) p h =
      let verified = validated_step-Verified py index a d r step after p in
      let (good, planned, appended, continued) = after_step-go step after h in
      record {
        result = r;
        step = step;
        after = after;
        answered = refl;
        verified = verified;
        succeeded = good;
        as_planned = planned;
        appended = appended;
        continued =
            continued
            ∙ ap (λ (s : ExecutionStepReport). digest_value s.after_state_digest) verified.reported;
      }
  checked-Advances r (err e) p h = cc

  -- If the loop goes on behind a submitted action, the bridge answered with a result of the action's
  -- command and with two validated states: the first has the digest that was observed before, the
  -- second has a later turn if the action is `end_turn`, and the plan's turn and player otherwise, and
  -- of a move or a build the postcondition holds between them where the result claims success. The
  -- loop goes on with one step more, which reports the action as a success with the digests of both
  -- states, and with the digest of the second.
  pub settle-Advances :
      (answer : Result CommandResult)
      → settle py plan index a steps d answer ≡ go ss digest
      → Advances py plan index a steps d answer ss digest
  unfolding settle
  settle-Advances (ok r) h = checked-Advances r (validated_step py index a r (str d)) refl h
  settle-Advances (err (unavailable m)) h = cc
  settle-Advances (err (unexpected m)) h = cc
  settle-Advances (err (stale_plan m)) h = cc
  settle-Advances (err (invalid m)) h = cc
  settle-Advances (err (type_error m)) h = cc
