-- ===== src/Executor/Checked.antt =====
-- `_validated_step` of turn_executor.py: the step of an accepted result.
use civ5_agent_macos.Base.{ℕ, ◌≡◌, true, inl, inr, some, String, arith, is_hex_text, eq_iff}
use civ5_agent_macos.Python.{str, Runtime, ok, Result-cases}
use civ5_agent_macos.State.{GameState, game_state_to_dict}
use civ5_agent_macos.Validation.{validate_live_state}
use civ5_agent_macos.Plan.{PlannedAction, live_state_digest}
use civ5_agent_macos.Plan.Report.{ExecutionStepReport, fits}
use civ5_agent_macos.Executor.Steps.{
  CommandResult, validated_step, check_result, result_states, step_between, text_of,
}
use civ5_agent_macos.Executor.Reports.{Reports}

module _ (py : Runtime) where
  pub live_state_digest-hex :
      (s : GameState) (d : String) → live_state_digest py s ≡ ok d → is_hex_text 64 d ≡ true
  unfolding live_state_digest
  live_state_digest-hex s d h = elim (Result-cases (validate_live_state py s)) [
    | inr (e, p) ↦ ground arith
    | inl (t, p) ↦ ground (arith, py.sha256_json_form (game_state_to_dict t))
  ]

  check_result-fits :
      (a : PlannedAction) (r : CommandResult)
      → check_result a r ≡ ok tt
      → fits (text_of r.message) ≡ true
  unfolding check_result
  check_result-fits a r h = ground arith

  module _ (index : ℕ) (a : PlannedAction) (r : CommandResult) (d : String)
      (step : ExecutionStepReport) (after : GameState) where
    step_between-Reports :
        (b c : GameState)
        → fits (text_of r.message) ≡ true
        → step_between py index a r (str d) (b, c) ≡ ok (step, after)
        → Reports index step a × (step.before_state_digest ≡ some d)
    unfolding step_between
    step_between-Reports b c fit h = elim (Result-cases (live_state_digest py b)) [
      | inr (e, p) ↦ ground arith
      | inl (x, p) ↦ elim (Result-cases (live_state_digest py c)) [
        | inr (e, q) ↦ ground arith
        | inl (y, q) ↦
            let hx = live_state_digest-hex b x p in
            let hy = live_state_digest-hex c y q in
            let xd = eq_iff d x in
            (
              record {
                at_index = ground arith;
                same_id = ground arith;
                same_action = ground arith;
                known = ground arith;
                fitting = ground arith;
                digests = ground arith;
              },
              ground arith,
            )
      ]
    ]

    -- An accepted result is a step that reports its action, from the state that was observed.
    pub validated_step-Reports :
        validated_step py index a r (str d) ≡ ok (step, after)
        → Reports index step a × (step.before_state_digest ≡ some d)
    unfolding validated_step
    validated_step-Reports h = elim (Result-cases (check_result a r)) [
      | inr (e, p) ↦ ground arith
      | inl (_, p) ↦ elim (Result-cases (result_states py r)) [
        | inr (e, q) ↦ ground arith
        | inl ((b, c), q) ↦ step_between-Reports b c (check_result-fits a r p) (
            let go : step_between py index a r (str d) (b, c) ≡ ok (step, after) = rw (p, q) at h in
            go)
      ]
    ]
