-- ===== src/Executor/Rounds.antt =====
-- One round of the loop of `_execute_turn_plan_core`, and the command that it submits.
use civ5_agent_macos.Base.{
  ℕ, suc, ◌≡◌, refl, ap, sym, ◌∙◌, true, inl, inr, List, [], ◌∷◌, ◌++◌, String, arith, take,
  is_reason_code,
}
use civ5_agent_macos.Python.{
  is_str-eq, Error, unavailable, unexpected, stale_plan, invalid, type_error, Value, str, Runtime,
  Result, ok, err,
}
use civ5_agent_macos.State.{GameState}
use civ5_agent_macos.Plan.{PlannedAction, TurnPlan}
use civ5_agent_macos.Plan.Structure.{IsExecutable}
use civ5_agent_macos.Plan.Report.{
  ExecutionReport, ExecutionStepReport, Status, paused, recovery_required,
}
use civ5_agent_macos.Executor.{settle, preflight, submit, round}
use civ5_agent_macos.Executor.Bridges.{
  Bridge, Progress, stop, go, Preflight, halted, ready, continue, no_state, digest_value,
}
use civ5_agent_macos.Executor.Steps.{make_report, report}
use civ5_agent_macos.Executor.Standing.{Stands, is_pause, is_pause-is_suspension, advanced}
use civ5_agent_macos.Executor.Gate.{is_handled, IsLive, Passes, preflight-Passes}
use civ5_agent_macos.Executor.Settled.{Settles, settle-Settles}
use civ5_agent_macos.Executor.Accounts.{
  traced, IsTameBridge, submissions, ChainTo, ChainTo-append, Accounted, suspended-Accounts,
  failing-Accounts, done-eq, next-eq,
}

module _ (py : Runtime) {W : Type 0} (bridge : Bridge W) (tame : IsTameBridge py bridge)
    {plan : TurnPlan} (h : IsExecutable plan) where
  abbrev Log : Type 0
  Log = W × List PlannedAction

  -- the rest of the loop accounts for what it submits, wherever it is entered
  abbrev Continues :
      (List ExecutionStepReport → Value → Log → Result ExecutionReport × Log)
      → ℕ
      → List PlannedAction
      → Type 0
  Continues next index rest =
      (done : List PlannedAction) (steps : List ExecutionStepReport) (expected : Value) (w : W)
      → Stands plan done rest index steps
      → ChainTo plan.state_basis_digest steps expected
      → Accounted plan (next steps expected (w, done))

  module _ {done rest : List PlannedAction} {index : ℕ} {steps : List ExecutionStepReport}
      {a : PlannedAction} (expected : Value) (i : Stands plan done (a ∷ rest) index steps)
      (c : ChainTo plan.state_basis_digest steps expected)
      (next : List ExecutionStepReport → Value → Log → Result ExecutionReport × Log)
      (later : Continues next (suc index) rest) where
    continue-Accounted :
        (d : String) (p : Progress) (w : W)
        → expected ≡ str d
        → Settles py plan index a steps d p
        → Accounted plan (continue next p (w, done ++ (a ∷ [])))
    unfolding continue is_reason_code
    continue-Accounted d (go ss digest) w e (s, r, b, clean, p, q) =
        rw (p, q)
          (later (done ++ (a ∷ [])) (steps ++ (s ∷ [])) (digest_value s.after_state_digest) w
            (advanced h i s r clean)
            (ChainTo-append plan.state_basis_digest expected steps s c (ap digest_value b ∙ sym e)))
    continue-Accounted d (stop x) w e (inl (s, reason, m, r, b, bad, named, p)) =
        rw p (failing-Accounts h expected i s reason m c r (ap digest_value b ∙ sym e) bad named)
    continue-Accounted d (stop x) w e (inr (m, p)) = rw p (
        suspended-Accounts h expected i recovery_required "action_outcome_unknown" m c refl refl
          (done ++ (a ∷ [])) (next-eq h i))

    submit-Accounted :
        (session : Value) (state : GameState) (p : Preflight) (w : W)
        → Passes py plan index session state expected a rest steps p
        → Accounted plan (submit py (traced bridge) next plan index a steps session p (w, done))
    unfolding submit traced
    submit-Accounted session state (halted x) w (st, reason, m, s, named, p) = rw p (
        suspended-Accounts h expected i st reason m c (is_pause-is_suspension st s) named done
          (paused_at st s))
      where
        paused_at :
            (st : Status)
            → is_pause st ≡ true
            → done ≡ take (submissions (make_report plan st index steps reason m)) plan.actions
        paused_at st s = ground (arith, done-eq h i)
    submit-Accounted session state (ready d) w (e, gate) =
        continue-Accounted d (settle py plan index a steps d (bridge.execute_action a session w).0)
          (bridge.execute_action a session w).1 (is_str-eq d expected (rw e gate.same_state))
          (settle-Settles py plan index a steps d (bridge.execute_action a session w).0
            (rw e (py.sha256_json_form _)) (tame.answers w a session index d))

    paused_with :
        (m : String) (w : W)
        → Accounted plan (report plan paused index steps "state_unavailable" m, (w, done))
    unfolding is_reason_code
    paused_with m w =
        suspended-Accounts h expected i paused "state_unavailable" m c refl refl done (done-eq h i)

    pub round-Accounted :
        (r : Result (Value × GameState)) (w : W)
        → ((session : Value) (state : GameState) → r ≡ ok (session, state) → IsLive py state)
        → ((e : Error) → r ≡ err e → is_handled e ≡ true)
        → Accounted plan
            (round py (traced bridge) next plan index a rest steps expected r (w, done))
    unfolding round is_reason_code
    round-Accounted (ok (session, state)) w live handled =
        submit-Accounted session state (preflight py plan index session state expected a rest steps)
          w
          (preflight-Passes py plan index session state expected a rest steps
            (live session state refl))
    round-Accounted (err e) w live handled = unread e (handled e refl)
      where
        unread :
            (e : Error)
            → is_handled e ≡ true
            → Accounted plan (no_state plan index steps e, (w, done))
        unread (unexpected m) k = cc
        unread (stale_plan m) k = paused_with m w
        unread (invalid m) k = paused_with m w
        unread (type_error m) k = paused_with m w
        unread (unavailable m) k = paused_with m w
