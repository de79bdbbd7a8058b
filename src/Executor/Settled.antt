-- ===== src/Executor/Settled.antt =====
-- What the executor makes of the answer to a submitted action.
use civ5_agent_macos.Base.{
  ℕ, ◌≡◌, refl, sym, subst, true, false, ◌⊎◌, inl, inr, Bool-cases, Option, none, some, List, [],
  ◌∷◌, ◌++◌, String, arith, is_hex_text, is_reason_code, and_halves, le→leb, text_take,
  text_length-text_take,
}
use civ5_agent_macos.Python.{
  Error, unavailable, unexpected, stale_plan, invalid, type_error, str, Runtime, Result, ok, err,
  message_of, is_str,
}
use civ5_agent_macos.State.{GameState}
use civ5_agent_macos.Plan.{PlannedAction, TurnPlan}
use civ5_agent_macos.Plan.Report.{
  ExecutionReport, ExecutionStepReport, failed, recovery_required, fits, is_error,
  is_optional_digest, max_report_message_length,
}
use civ5_agent_macos.Executor.{settle}
use civ5_agent_macos.Executor.Bridges.{
  Progress, stop, go, settle_checked, after_step, invalid_result, digest_value,
}
use civ5_agent_macos.Executor.Postconditions.{int_lt, turn_or_player_changed}
use civ5_agent_macos.Executor.Steps.{CommandResult, report, failed_step, validated_step}
use civ5_agent_macos.Executor.Reports.{Reports}
use civ5_agent_macos.Validation.Raises.{is_value_error}
use civ5_agent_macos.Executor.Gate.{is_handled}
use civ5_agent_macos.Executor.Checked.{validated_step-Reports}

module _ (py : Runtime) where
  -- The answer raises nothing that the executor leaves alone, and if its result is refused, the
  -- message of the refusal fits into a step.
  abbrev pub IsTame : ℕ → PlannedAction → String → Result CommandResult → Type 0
  IsTame index a d (ok r) =
      (e : Error)
      → validated_step py index a r (str d) ≡ err e
      → (is_value_error e ≡ true) × (fits (message_of e) ≡ true)
  IsTame index a d (err e) = is_handled e ≡ true

  module _ (plan : TurnPlan) (index : ℕ) (a : PlannedAction) (steps : List ExecutionStepReport)
      (d : String) where
    -- A failed step ends the plan.
    abbrev pub Fails : Result ExecutionReport → Type 0
    Fails r =
        (s : ExecutionStepReport) × (reason : String) × (m : String) × Reports index s a
        × (s.before_state_digest ≡ some d)
        × (is_error s ≡ true)
        × (is_reason_code reason ≡ true)
        × (r ≡ report plan failed index (steps ++ (s ∷ [])) reason m)

    -- Where a submitted action leads: on by one successful step, to a failed step, or to a report
    -- that its outcome is unknown.
    abbrev pub Settles : Progress → Type 0
    Settles (go ss digest) =
        (s : ExecutionStepReport) × Reports index s a
        × (s.before_state_digest ≡ some d)
        × (is_error s ≡ false)
        × (ss ≡ steps ++ (s ∷ []))
        × (digest ≡ digest_value s.after_state_digest)
    Settles (stop r) =
        Fails r
        ⊎ ((m : String) × (r
              ≡ report plan recovery_required index steps "action_outcome_unknown" m))

    failed_step-Reports :
        (m : String) (o : Option String)
        → is_hex_text 64 d ≡ true
        → fits m ≡ true
        → is_optional_digest o ≡ true
        → Reports index (failed_step index a m d o) a
    failed_step-Reports m o hd hm ho = record {
      at_index = refl;
      same_id = refl;
      same_action = refl;
      known = refl;
      fitting = hm;
      digests = ground arith;
    }

    refused :
        (step : ExecutionStepReport) (m : String)
        → is_hex_text 64 d ≡ true
        → fits m ≡ true
        → Reports index step a
        → Fails (
            report plan failed index
              (steps ++ (failed_step index a m d step.after_state_digest ∷ []))
              "postcondition_failed"
              m)
    unfolding is_reason_code
    refused step m hd hm r = (
      failed_step index a m d step.after_state_digest,
      "postcondition_failed",
      m,
      failed_step-Reports m step.after_state_digest hd hm (and_halves _ _ r.digests).1,
      refl,
      refl,
      refl,
      refl,
    )

    -- the four ends of `after_step`
    after_step_cases :
        (step : ExecutionStepReport) (after : GameState)
        → (after_step plan index a steps d step after
              ≡ stop (report plan failed index (steps ++ (step ∷ [])) "action_failed" step.message)
            × (is_error step ≡ true))
          ⊎ ((m : String) × (fits m ≡ true)
              × (after_step plan index a steps d step after
                  ≡ stop (
                      report plan failed index
                        (steps ++ (failed_step index a m d step.after_state_digest ∷ []))
                        "postcondition_failed"
                        m)))
          ⊎ ((after_step plan index a steps d step after
                ≡ go (steps ++ (step ∷ [])) (digest_value step.after_state_digest))
              × (is_error step ≡ false))
    unfolding after_step
    after_step_cases step after = elim (Bool-cases (is_error step)) [
      | inl e ↦ inl (ground arith, e)
      | inr e ↦ elim (Bool-cases (is_str "end_turn" a.action)) [
        | inl t ↦ elim (Bool-cases (int_lt plan.turn after.turn)) [
          | inl l ↦ inr (inr (ground arith, e))
          | inr l ↦ inr (inl ("end_turn result did not advance the turn", refl, ground arith))
        ]
        | inr t ↦ elim (Bool-cases (turn_or_player_changed plan.turn plan.active_player after)) [
          | inl c ↦ inr (inl ("non-final action changed turn or active player", refl, ground arith))
          | inr c ↦ inr (inr (ground arith, e))
        ]
      ]
    ]

    after_step-Settles :
        (step : ExecutionStepReport) (after : GameState)
        → is_hex_text 64 d ≡ true
        → Reports index step a
        → step.before_state_digest ≡ some d
        → Settles (after_step plan index a steps d step after)
    unfolding is_reason_code
    after_step-Settles step after hd r b = elim (after_step_cases step after) [
      | inl (q, e) ↦
          subst Settles (sym q) (inl (step, "action_failed", step.message, r, b, e, refl, refl))
      | inr rest ↦ elim rest [
        | inl (m, hm, q) ↦ subst Settles (sym q) (inl (refused step m hd hm r))
        | inr (q, e) ↦ subst Settles (sym q) (step, r, b, e, refl, refl)
      ]
    ]

    invalid_result-Fails :
        (e : Error)
        → is_hex_text 64 d ≡ true
        → is_value_error e ≡ true
        → fits (message_of e) ≡ true
        → Fails (invalid_result plan index a steps d e)
    unfolding invalid_result is_reason_code
    invalid_result-Fails (unavailable m) hd c f = cc
    invalid_result-Fails (unexpected m) hd c f = cc
    invalid_result-Fails e hd c f = (
      failed_step index a (message_of e) d none,
      "invalid_action_result",
      message_of e,
      failed_step-Reports (message_of e) none hd f refl,
      refl,
      refl,
      refl,
      refl,
    )

    rejected-Fails :
        (m : String)
        → is_hex_text 64 d ≡ true
        → Fails (
            report plan failed index
              (steps ++ (failed_step index a (text_take max_report_message_length m) d none ∷ []))
              "action_rejected"
              m)
    unfolding is_reason_code
    rejected-Fails m hd = (
      failed_step index a (text_take max_report_message_length m) d none,
      "action_rejected",
      m,
      failed_step-Reports _ none hd (le→leb _ _ (text_length-text_take max_report_message_length m))
          refl,
      refl,
      refl,
      refl,
      refl,
    )

    checked-Settles :
        (r : CommandResult)
        → is_hex_text 64 d ≡ true
        → IsTame index a d (ok r)
        → (x : Result (ExecutionStepReport × GameState)) → validated_step py index a r (str d) ≡ x
        → Settles (settle_checked plan index a steps d x)
    unfolding settle_checked
    checked-Settles r hd t (ok (step, after)) p =
        let (rep, b) = validated_step-Reports py index a r d step after p in
        after_step-Settles step after hd rep b
    checked-Settles r hd t (err e) p = inl (invalid_result-Fails e hd (t e p).0 (t e p).1)

    pub settle-Settles :
        (answer : Result CommandResult)
        → is_hex_text 64 d ≡ true
        → IsTame index a d answer
        → Settles (settle py plan index a steps d answer)
    unfolding settle
    settle-Settles (ok r) hd t = checked-Settles r hd t (validated_step py index a r (str d)) refl
    settle-Settles (err (unavailable m)) hd t = inr (m, refl)
    settle-Settles (err (unexpected m)) hd t = cc
    settle-Settles (err (stale_plan m)) hd t = inl (rejected-Fails m hd)
    settle-Settles (err (invalid m)) hd t = inl (rejected-Fails m hd)
    settle-Settles (err (type_error m)) hd t = inl (rejected-Fails m hd)
