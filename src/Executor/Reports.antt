-- ===== src/Executor/Reports.antt =====
-- Steps that report planned actions, and `validate_execution_report` on them.
use civ5_agent_macos.Base.{
  ℕ, suc, ◌+◌, ◌≤◌, ◌≡◌, refl, subst, true, ◌&&◌, List, [], ◌∷◌, ◌++◌, String, arith, eqb_refl,
  length, text_length-text_take, is_reason_code, eq_refl,
}
use civ5_agent_macos.Python.{Value, null, bool, int, str, list, dict, ok, value_eq}
use civ5_agent_macos.Identity.{is_uuid_value, validate_uuid4}
use civ5_agent_macos.Command.{allowed_actions}
use civ5_agent_macos.Plan.{PlannedAction, TurnPlan}
use civ5_agent_macos.Plan.Structure.{IsAcceptedAction, IsOrderly, IsExecutable}
use civ5_agent_macos.Plan.Report.{
  ExecutionStepReport, Status, is_known_step, is_known_status, is_optional_digest, fits,
  validate_step, validate_steps, validate_outcome, validate_execution_report,
  max_report_message_length,
}
use civ5_agent_macos.Validation.{in_set}
use civ5_agent_macos.Executor.Steps.{make_report, report}

-- A UUID and an enabled action's name are texts, and equal to themselves.
pub value_eq-uuid : (v : Value) → is_uuid_value v ≡ true → value_eq v v ≡ true
unfolding value_eq
value_eq-uuid (str s) h = eq_refl s
value_eq-uuid null h = cc
value_eq-uuid (bool b) h = cc
value_eq-uuid (int z) h = cc
value_eq-uuid (list xs) h = cc
value_eq-uuid (dict d) h = cc

pub value_eq-enabled : (v : Value) → in_set v allowed_actions ≡ ok true → value_eq v v ≡ true
unfolding value_eq
value_eq-enabled (str s) h = eq_refl s
value_eq-enabled null h = cc
value_eq-enabled (bool b) h = cc
value_eq-enabled (int z) h = cc
value_eq-enabled (list xs) h = cc
value_eq-enabled (dict d) h = cc

-- A step that reports its action: the ids match, the message fits, the digests have their form.
pub record Reports (index : ℕ) (s : ExecutionStepReport) (a : PlannedAction) : Type 0 where
  pub at_index : s.index ≡ index
  pub same_id : s.command_id ≡ a.command_id
  pub same_action : s.action ≡ a.action
  pub known : is_known_step s.status ≡ true
  pub fitting : fits s.message ≡ true
  pub digests :
      (is_optional_digest s.before_state_digest && is_optional_digest s.after_state_digest) ≡ true

pub validate_step-Reports :
    (index : ℕ) (s : ExecutionStepReport) (a : PlannedAction)
    → IsAcceptedAction a
    → Reports index s a
    → validate_step index s a ≡ ok tt
unfolding validate_step
validate_step-Reports index s a h r = ground (
  arith,
  eqb_refl index,
  value_eq-uuid a.command_id h.identified,
  value_eq-enabled a.action h.allowed,
  r.at_index,
  r.same_id,
  r.same_action,
)

-- The steps that report the actions one by one, from an index on.
abbrev pub AllReport : ℕ → List ExecutionStepReport → List PlannedAction → Type 0
AllReport i [] actions = Unit
AllReport i (s ∷ ss) [] = ⊥
AllReport i (s ∷ ss) (a ∷ more) = Reports i s a × AllReport (suc i) ss more

pub AllReport-append :
    (i : ℕ) (ss : List ExecutionStepReport) (s : ExecutionStepReport)
    (done rest : List PlannedAction) (a : PlannedAction)
    → length ss ≡ length done
    → AllReport i ss done
    → Reports (i + length done) s a
    → AllReport i (ss ++ (s ∷ [])) (done ++ (a ∷ rest))
AllReport-append i [] s [] rest a e h r = (subst (λ n. Reports n s a) (omega arith) r, tt)
AllReport-append i [] s (d ∷ done) rest a e h r = absurd (omega arith)
AllReport-append i (x ∷ ss) s [] rest a e h r = absurd (omega arith)
AllReport-append i (x ∷ ss) s (d ∷ done) rest a e h r = (
  h.0,
  AllReport-append (suc i) ss s done rest a (omega arith) h.1
      (subst (λ n. Reports n s a) (omega arith) r),
)

pub AllReport-extend :
    (i : ℕ) (ss : List ExecutionStepReport) (done rest : List PlannedAction)
    → AllReport i ss done
    → AllReport i ss (done ++ rest)
AllReport-extend i [] done rest h = tt
AllReport-extend i (s ∷ ss) [] rest h = absurd h
AllReport-extend i (s ∷ ss) (d ∷ done) rest h = (h.0, AllReport-extend (suc i) ss done rest h.1)

pub validate_steps-AllReport :
    (seen : List Value) (i : ℕ) (ss : List ExecutionStepReport) (actions : List PlannedAction)
    → IsOrderly seen actions
    → AllReport i ss actions
    → validate_steps i ss actions ≡ ok tt
unfolding validate_steps
validate_steps-AllReport seen i [] actions o h = refl
validate_steps-AllReport seen i (s ∷ ss) [] o h = absurd h
validate_steps-AllReport seen i (s ∷ ss) (a ∷ more) o h =
    rw (validate_step-Reports i s a o.0 h.0)
      (validate_steps-AllReport (a.command_id ∷ seen) (suc i) ss more o.3 h.1)

module _ (plan : TurnPlan) (h : IsExecutable plan) where
  -- the part of the validation that does not depend on the outcome
  pub report-eq :
      (st : Status) (next : ℕ) (ss : List ExecutionStepReport) (reason m : String)
      → validate_outcome (make_report plan st next ss reason m) plan ≡ ok tt
      → AllReport 0 ss plan.actions
      → length ss ≤ length plan.actions
      → next ≤ length plan.actions
      → is_reason_code reason ≡ true
      → is_known_status st ≡ true
      → report plan st next ss reason m ≡ ok (make_report plan st next ss reason m)
  unfolding report validate_execution_report validate_uuid4
  report-eq st next ss reason m outcome steps few near named known =
      rw (validate_steps-AllReport [] 0 ss plan.actions h.orderly steps) (
        rw outcome (
          ground (
            arith,
            h.identified,
            h.in_session,
            value_eq-uuid plan.plan_id h.identified,
            value_eq-uuid plan.bridge_session_id h.in_session,
            text_length-text_take max_report_message_length m,
          )))
