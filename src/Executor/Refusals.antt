-- ===== src/Executor/Refusals.antt =====
-- A result that is refused with a message that no step can hold.
use civ5_agent_macos.Base.{
  ℕ, suc, ◌+◌, ◌≡◌, refl, ap, subst, false, none, List, [], ◌∷◌, ◌++◌, String, arith, eqb_refl,
  length, length-append, is_reason_code, text_length-text_take,
}
use civ5_agent_macos.Python.{Value, str, Error, invalid, type_error, Runtime, ok, err}
use civ5_agent_macos.Identity.{validate_uuid4}
use civ5_agent_macos.Plan.{PlannedAction, TurnPlan}
use civ5_agent_macos.Plan.Structure.{IsAcceptedAction, IsOrderly, IsExecutable}
use civ5_agent_macos.Plan.Report.{
  ExecutionStepReport, failed, fits, validate_step, validate_steps, validate_execution_report,
  max_report_message_length,
}
use civ5_agent_macos.Executor.{settle}
use civ5_agent_macos.Executor.Bridges.{stop, settle_checked, invalid_result}
use civ5_agent_macos.Executor.Steps.{CommandResult, report, failed_step, validated_step}
use civ5_agent_macos.Executor.Reports.{
  AllReport, validate_step-Reports, value_eq-uuid, value_eq-enabled,
}
use civ5_agent_macos.Executor.Standing.{Stands}

validate_steps-refused :
    (e : Error) (seen : List Value) (i : ℕ) (ss : List ExecutionStepReport)
    (s : ExecutionStepReport) (done rest : List PlannedAction) (a : PlannedAction)
    → IsOrderly seen (done ++ (a ∷ rest))
    → length ss ≡ length done
    → AllReport i ss done
    → (IsAcceptedAction a → validate_step (i + length done) s a ≡ err e)
    → validate_steps i (ss ++ (s ∷ [])) (done ++ (a ∷ rest)) ≡ err e
unfolding validate_steps
validate_steps-refused e seen i [] s [] rest a o l r h =
    let at : i + 0 ≡ i = omega arith in
    rw (subst (λ n. validate_step n s a ≡ err e) at (h o.0)) refl
validate_steps-refused e seen i [] s (d ∷ done) rest a o l r h = absurd (omega (arith, l))
validate_steps-refused e seen i (x ∷ ss) s [] rest a o l r h = absurd (omega (arith, l))
validate_steps-refused e seen i (x ∷ ss) s (d ∷ done) rest a o l r h =
    let at : i + suc (length done) ≡ suc i + length done = omega arith in
    rw (validate_step-Reports i x d o.0 r.0) (
      validate_steps-refused e (d.command_id ∷ seen) (suc i) ss s done rest a o.3 (omega (arith, l))
        r.1 (λ k. subst (λ n. validate_step n s a ≡ err e) at (h k)))

too_long : Error
too_long = invalid "execution step message is invalid or too long"

long_step-refused :
    (index : ℕ) (a : PlannedAction) (m d : String)
    → fits m ≡ false
    → IsAcceptedAction a
    → validate_step index (failed_step index a m d none) a ≡ err too_long
unfolding validate_step too_long
long_step-refused index a m d long k = ground (
  arith,
  eqb_refl index,
  value_eq-uuid a.command_id k.identified,
  value_eq-enabled a.action k.allowed,
  long,
)

module _ {plan : TurnPlan} (h : IsExecutable plan) {done rest : List PlannedAction} {index : ℕ}
    {steps : List ExecutionStepReport} {a : PlannedAction}
    (i : Stands plan done (a ∷ rest) index steps) where
  long_report-refused :
      (m d : String)
      → fits m ≡ false
      → report plan failed index
          (steps ++ (failed_step index a m d none ∷ []))
          "invalid_action_result"
          m
        ≡ err too_long
  unfolding report validate_execution_report validate_uuid4 is_reason_code
  long_report-refused m d long =
      let s : ExecutionStepReport = failed_step index a m d none in
      let room : length (steps ++ (s ∷ [])) ≡ suc index =
        rw (length-append steps (s ∷ [])) (omega (arith, i.as_many)) in
      let all : length plan.actions ≡ index + suc (length rest) =
        rw (i.split, length-append done (a ∷ rest)) (omega (arith, i.counted)) in
      let refused : validate_steps 0 (steps ++ (s ∷ [])) plan.actions ≡ err too_long = rw i.split (
        validate_steps-refused too_long [] 0 steps s done rest a
          (subst (IsOrderly []) i.split h.orderly) (omega (arith, i.as_many, i.counted)) i.reporting
          (λ k.
            subst (λ n. validate_step n s a ≡ err too_long) (omega (arith, i.counted))
              (long_step-refused index a m d long k))) in
      rw refused (
        ground (
          arith,
          h.identified,
          h.in_session,
          value_eq-uuid plan.plan_id h.identified,
          value_eq-uuid plan.bridge_session_id h.in_session,
          text_length-text_take max_report_message_length m,
          room,
          all,
        ))

  -- Where a result is refused by a `TypeError` whose message is longer than a step may hold, the
  -- executor makes no report of the submitted action: it raises the refusal of its own report.
  pub settle_raises :
      (py : Runtime) (r : CommandResult) (m d : String)
      → validated_step py index a r (str d) ≡ err (type_error m)
      → fits m ≡ false
      → settle py plan index a steps d (ok r)
        ≡ stop (err (invalid "execution step message is invalid or too long"))
  unfolding settle settle_checked invalid_result too_long
  settle_raises py r m d refused long = rw refused (ap stop (long_report-refused m d long))
