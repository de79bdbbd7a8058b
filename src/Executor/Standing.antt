-- ===== src/Executor/Standing.antt =====
-- Where the loop stands between two actions, and the reports that it makes there.
use civ5_agent_macos.Base.{
  ℕ, suc, ◌≤◌, ◌≡◌, refl, ap, sym, subst, ◌∙◌, Bool, true, false, some, List, [], ◌∷◌, ◌++◌, String,
  arith, length, length-append, any, all, keep, last?, is_reason_code,
}
use mathlib.Core.List.{append_assoc, append-nil}
use civ5_agent_macos.Python.{ok}
use civ5_agent_macos.Plan.{PlannedAction, TurnPlan}
use civ5_agent_macos.Plan.Structure.{IsExecutable}
use civ5_agent_macos.Plan.Report.{
  ExecutionStepReport, Status, completed, paused, stale, failed, recovery_required, is_error,
  is_success, is_known_status, validate_outcome, all_but_last, is_action_failure,
}
use civ5_agent_macos.Executor.Steps.{make_report, report}
use civ5_agent_macos.Executor.Reports.{
  Reports, AllReport, AllReport-append, AllReport-extend, report-eq,
}

-- Where the loop stands: the steps report the actions done, one success each.
pub record Stands (plan : TurnPlan) (done rest : List PlannedAction) (index : ℕ)
    (steps : List ExecutionStepReport) : Type 0 where
  pub split : plan.actions ≡ done ++ rest
  pub counted : length done ≡ index
  pub as_many : length steps ≡ index
  pub reporting : AllReport 0 steps done
  pub clean : any is_error steps ≡ false

-- the statuses of a report that contains completed steps only
abbrev pub is_suspension : Status → Bool
is_suspension paused = true
is_suspension stale = true
is_suspension recovery_required = true
is_suspension _ = false

-- those among them under which every submitted action is a completed step
abbrev pub is_pause : Status → Bool
is_pause paused = true
is_pause stale = true
is_pause _ = false

pub is_pause-is_suspension : (st : Status) → is_pause st ≡ true → is_suspension st ≡ true
is_pause-is_suspension st h = ground arith

module _ {plan : TurnPlan} (h : IsExecutable plan) {done rest : List PlannedAction} {index : ℕ}
    {steps : List ExecutionStepReport} (i : Stands plan done rest index steps) where
  covered : AllReport 0 steps plan.actions
  covered = rw i.split (AllReport-extend 0 steps done rest i.reporting)

  near : index ≤ length plan.actions
  near = rw i.split (rw (length-append done rest) (omega (arith, i.counted)))

  pub suspended :
      (st : Status) (reason m : String)
      → is_suspension st ≡ true
      → is_reason_code reason ≡ true
      → report plan st index steps reason m ≡ ok (make_report plan st index steps reason m)
  unfolding validate_outcome
  suspended st reason m s named =
      report-eq plan h st index steps reason m (outcome st s) covered
        (omega (arith, near, i.as_many)) near named (known st s)
    where
      known : (st : Status) → is_suspension st ≡ true → is_known_status st ≡ true
      known st s = ground arith

      outcome :
          (st : Status)
          → is_suspension st ≡ true
          → validate_outcome (make_report plan st index steps reason m) plan ≡ ok tt
      outcome st s = ground (arith, i.clean, i.as_many)

last?-append {ℓ} : {A : Type ℓ} (xs : List A) (x : A) → last? (xs ++ (x ∷ [])) ≡ some x
last?-append [] x = refl
last?-append (y ∷ []) x = refl
last?-append (y ∷ z ∷ xs) x = last?-append (z ∷ xs) x

all_but_last-append {ℓ} : {A : Type ℓ} (xs : List A) (x : A) → all_but_last (xs ++ (x ∷ [])) ≡ xs
all_but_last-append [] x = refl
all_but_last-append (y ∷ []) x = refl
all_but_last-append (y ∷ z ∷ xs) x = ap (λ r. y ∷ r) (all_but_last-append (z ∷ xs) x)

keep_errors-append :
    (ss : List ExecutionStepReport) (s : ExecutionStepReport)
    → any is_error ss ≡ false
    → is_error s ≡ true
    → keep is_error (ss ++ (s ∷ [])) ≡ s ∷ []
keep_errors-append [] s h e = rw e
keep_errors-append (x ∷ ss) s h e = ground (arith, keep_errors-append ss s)

all_success :
    (i : ℕ) (ss : List ExecutionStepReport) (actions : List PlannedAction)
    → AllReport i ss actions
    → any is_error ss ≡ false
    → all is_success ss ≡ true
all_success i [] actions r h = refl
all_success i (s ∷ ss) [] r h = absurd r
all_success i (s ∷ ss) (a ∷ more) r h = ground (arith, r.0.known, all_success (suc i) ss more r.1)

module _ {plan : TurnPlan} (h : IsExecutable plan) {done rest : List PlannedAction} {index : ℕ}
    {steps : List ExecutionStepReport} {a : PlannedAction}
    (i : Stands plan done (a ∷ rest) index steps) (s : ExecutionStepReport)
    (r : Reports index s a) where
  with_step : AllReport 0 (steps ++ (s ∷ [])) plan.actions
  with_step = rw i.split (
      AllReport-append 0 steps s done rest a (omega (arith, i.as_many, i.counted)) i.reporting
        (subst (λ n. Reports n s a) (omega (arith, i.counted)) r))

  room : suc index ≤ length plan.actions
  room = rw i.split (rw (length-append done (a ∷ rest)) (omega (arith, i.counted)))

  pub failing :
      (reason m : String)
      → is_error s ≡ true
      → is_reason_code reason ≡ true
      → report plan failed index (steps ++ (s ∷ [])) reason m
        ≡ ok (make_report plan failed index (steps ++ (s ∷ [])) reason m)
  unfolding validate_outcome is_action_failure
  failing reason m e named =
      report-eq plan h failed index (steps ++ (s ∷ [])) reason m
        (ground (
          arith,
          last?-append steps s,
          keep_errors-append steps s i.clean e,
          all_but_last-append steps s,
          r.at_index,
          all_success 0 steps done i.reporting i.clean,
        ))
        with_step (rw (length-append steps (s ∷ [])) (omega (arith, room, i.as_many)))
        (omega (arith, room)) named refl

  -- a success moves the loop on by one action
  pub advanced :
      is_error s ≡ false → Stands plan (done ++ (a ∷ [])) rest (suc index) (steps ++ (s ∷ []))
  advanced e = record {
    split = i.split ∙ sym (append_assoc done (a ∷ []) rest);
    counted = rw (length-append done (a ∷ [])) (omega (arith, i.counted));
    as_many = rw (length-append steps (s ∷ [])) (omega (arith, i.as_many));
    reporting =
        AllReport-append 0 steps s done [] a (omega (arith, i.as_many, i.counted)) i.reporting
          (subst (λ n. Reports n s a) (omega (arith, i.counted)) r);
    clean = any_error-append steps s i.clean e;
  }
    where
      any_error-append :
          (ss : List ExecutionStepReport) (s : ExecutionStepReport)
          → any is_error ss ≡ false
          → is_error s ≡ false
          → any is_error (ss ++ (s ∷ [])) ≡ false
      any_error-append [] s h e = rw e
      any_error-append (x ∷ ss) s h e = ground (arith, any_error-append ss s)

  pub with_step_reporting : AllReport 0 (steps ++ (s ∷ [])) plan.actions
  with_step_reporting = with_step

module _ {plan : TurnPlan} (h : IsExecutable plan) where
  -- every action done: the plan is completed
  pub finished :
      {done : List PlannedAction} {index : ℕ} {steps : List ExecutionStepReport} (reason m : String)
      → Stands plan done [] index steps
      → is_reason_code reason ≡ true
      → report plan completed (length plan.actions) steps reason m
        ≡ ok (make_report plan completed (length plan.actions) steps reason m)
  unfolding validate_outcome
  finished {done} {index} {steps} reason m i named =
      let all : length plan.actions ≡ index = ap length (i.split ∙ append-nil done) ∙ i.counted in
      report-eq plan h completed (length plan.actions) steps reason m
        (ground (arith, i.clean, i.as_many)) (covered h i) (omega (arith, i.as_many)) (omega arith)
        named refl

  -- a plan that fails before its first action
  pub not_started :
      (reason m : String)
      → is_reason_code reason ≡ true
      → report plan failed 0 [] reason m ≡ ok (make_report plan failed 0 [] reason m)
  unfolding validate_outcome is_action_failure
  not_started reason m named =
      report-eq plan h failed 0 [] reason m (ground arith) tt (omega arith) (omega arith) named refl

  pub standing : Stands plan [] plan.actions 0 []
  standing = record { split = refl; counted = refl; as_many = refl; reporting = tt; clean = refl }
