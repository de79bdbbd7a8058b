-- ===== src/Executor/Accounts.antt =====
-- What a report says of the commands that the bridge was given.
use civ5_agent_macos.Base.{
  ℕ, suc, ◌≡◌, refl, ap, sym, ◌∙◌, true, List, [], ◌∷◌, ◌++◌, String, arith, length, length-append,
  take, is_reason_code,
}
use mathlib.Core.List.{append_assoc}
use civ5_agent_macos.Python.{Error, Value, Runtime, Result, ok, err}
use civ5_agent_macos.Plan.{PlannedAction, TurnPlan}
use civ5_agent_macos.Plan.Structure.{IsExecutable}
use civ5_agent_macos.Plan.Report.{
  ExecutionReport, ExecutionStepReport, Status, failed, recovery_required,
  validate_execution_report, is_error,
}
use civ5_agent_macos.Executor.Bridges.{Bridge, digest_value}
use civ5_agent_macos.Executor.Steps.{make_report, report}
use civ5_agent_macos.Executor.Reports.{Reports}
use civ5_agent_macos.Executor.Standing.{Stands, is_suspension, suspended, failing}
use civ5_agent_macos.Executor.Gate.{is_handled}
use civ5_agent_macos.Executor.Settled.{IsTame}

-- The same bridge, with a log of the actions that it is given, in order.
unfoldable pub traced : {W : Type 0} → Bridge W → Bridge (W × List PlannedAction)
traced bridge = record {
  read_state = λ (w, log). let (r, w') = bridge.read_state w in (r, (w', log));
  execute_action = λ a session (w, log).
      let (r, w') = bridge.execute_action a session w in (r, (w', log ++ (a ∷ [])));
}

-- How many actions a report says were submitted. An action of unknown outcome counts, and so does
-- one that failed.
abbrev pub submissions : ExecutionReport → ℕ
submissions r = elim r.status [
  | recovery_required ↦ suc r.next_action_index
  | failed ↦ length r.steps
  | _ ↦ r.next_action_index
]

-- Each step starts from the digest at which the one before ended, the first from the given one.
abbrev pub ChainTo : Value → List ExecutionStepReport → Value → Type 0
ChainTo d [] e = d ≡ e
ChainTo d (s ∷ ss) e =
    (digest_value s.before_state_digest ≡ d) × ChainTo (digest_value s.after_state_digest) ss e

-- A report that validates, names the submitted prefix of the plan, and whose steps form a chain
-- from the plan's state basis.
pub record Accounts (plan : TurnPlan) (log : List PlannedAction) (r : ExecutionReport)
    : Type 0 where
  pub valid : validate_execution_report r plan ≡ ok r
  pub submitted : log ≡ take (submissions r) plan.actions
  pub last_digest : Value
  pub chained : ChainTo plan.state_basis_digest r.steps last_digest

abbrev pub Accounted :
    {W : Type 0} → TurnPlan → Result ExecutionReport × (W × List PlannedAction) → Type 0
Accounted plan (r, (w, log)) = (x : ExecutionReport) × (r ≡ ok x) × Accounts plan log x

take-append {ℓ} : {A : Type ℓ} (xs ys : List A) → take (length xs) (xs ++ ys) ≡ xs
take-append [] ys = refl
take-append (x ∷ xs) ys = ap (λ r. x ∷ r) (take-append xs ys)

pub ChainTo-append :
    (d e : Value) (ss : List ExecutionStepReport) (s : ExecutionStepReport)
    → ChainTo d ss e
    → digest_value s.before_state_digest ≡ e
    → ChainTo d (ss ++ (s ∷ [])) (digest_value s.after_state_digest)
ChainTo-append d e [] s c b = (b ∙ sym c, refl)
ChainTo-append d e (x ∷ ss) s c b = (c.0, ChainTo-append _ e ss s c.1 b)

-- What is asked of a bridge: its readings and its executions raise only the exceptions that the
-- executor handles, and where a result is refused, the message of the refusal fits into a step.
pub record IsTameBridge (py : Runtime) {W : Type 0} (bridge : Bridge W) : Type 0 where
  pub reads : (w : W) (e : Error) → (bridge.read_state w).0 ≡ err e → is_handled e ≡ true
  pub answers :
      (w : W) (a : PlannedAction) (session : Value) (index : ℕ) (d : String)
      → IsTame py index a d (bridge.execute_action a session w).0

module _ {plan : TurnPlan} (h : IsExecutable plan) {done : List PlannedAction} {index : ℕ}
    {steps : List ExecutionStepReport} where
  pub suspended-Accounts :
      {rest : List PlannedAction} (expected : Value) (i : Stands plan done rest index steps)
      (st : Status) (reason m : String)
      → ChainTo plan.state_basis_digest steps expected
      → is_suspension st ≡ true
      → is_reason_code reason ≡ true
      → (log : List PlannedAction)
      → log ≡ take (submissions (make_report plan st index steps reason m)) plan.actions
      → (x : ExecutionReport) × (report plan st index steps reason m ≡ ok x) × Accounts plan log x
  unfolding report
  suspended-Accounts {rest} expected i st reason m c s named log e = (
    make_report plan st index steps reason m,
    suspended h i st reason m s named,
    record {
      valid = suspended h i st reason m s named;
      submitted = e;
      last_digest = expected;
      chained = c;
    },
  )

  -- the actions done, and those with the one that follows, are prefixes of the plan
  pub done-eq :
      {rest : List PlannedAction}
      → Stands plan done rest index steps
      → done ≡ take index plan.actions
  done-eq {rest} i = rw (i.split, ← i.counted) (sym (take-append done rest))

  pub next-eq :
      {rest : List PlannedAction} {a : PlannedAction}
      → Stands plan done (a ∷ rest) index steps
      → done ++ (a ∷ []) ≡ take (suc index) plan.actions
  next-eq {rest} {a} i =
      let longer : length (done ++ (a ∷ [])) ≡ suc index =
        rw (length-append done (a ∷ [])) (omega (arith, i.counted)) in
      rw (i.split, ← longer, ← append_assoc done (a ∷ []) rest)
        (sym (take-append (done ++ (a ∷ [])) rest))

  pub failing-Accounts :
      {rest : List PlannedAction} {a : PlannedAction} (expected : Value)
      (i : Stands plan done (a ∷ rest) index steps) (s : ExecutionStepReport) (reason m : String)
      → ChainTo plan.state_basis_digest steps expected
      → Reports index s a
      → digest_value s.before_state_digest ≡ expected
      → is_error s ≡ true
      → is_reason_code reason ≡ true
      → (x : ExecutionReport) × (report plan failed index (steps ++ (s ∷ [])) reason m ≡ ok x)
        × Accounts plan (done ++ (a ∷ [])) x
  unfolding report
  failing-Accounts {rest} {a} expected i s reason m c r b e named =
      let longer : length (steps ++ (s ∷ [])) ≡ suc index =
        rw (length-append steps (s ∷ [])) (omega (arith, i.as_many)) in
      (
        make_report plan failed index (steps ++ (s ∷ [])) reason m,
        failing h i s r reason m e named,
        record {
          valid = failing h i s r reason m e named;
          submitted = next-eq i ∙ ap (λ n. take n plan.actions) (sym longer);
          last_digest = digest_value s.after_state_digest;
          chained = ChainTo-append plan.state_basis_digest expected steps s c b;
        },
      )
