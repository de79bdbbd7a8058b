-- ===== src/Executor/Sound.antt =====
-- The reports that `reconcile_turn_plan` makes, one by one.
use civ5_agent_macos.Base.{
  ℕ, suc, ◌≡◌, refl, ap, ◌∙◌, true, false, inl, inr, Bool-cases, Option, none, some, List, [], ◌∷◌,
  ◌++◌, String, arith, if◌then◌else◌,
}
use civ5_agent_macos.Python.{
  Value, str, Error, unexpected, stale_plan, invalid, type_error, unavailable, Runtime, Result, ok,
  err, Result-cases, is_str, value_eq, ◌>>=◌,
}
use civ5_agent_macos.State.{GameState}
use civ5_agent_macos.Plan.{PlannedAction, TurnPlan, live_state_digest}
use civ5_agent_macos.Plan.Report.{
  ExecutionReport, ExecutionStepReport, Status, completed, paused, stale, failed, recovery_required,
  is_error, validate_execution_report,
}
use civ5_agent_macos.Executor.Bridges.{caught}
use civ5_agent_macos.Executor.Steps.{
  CommandResult, make_report, report, validated_reading, validated_step,
}
use civ5_agent_macos.Executor.Postconditions.{int_lt, action_postcondition_error}
use civ5_agent_macos.Executor.Reconcile.{
  report_again, Recovered, settled, succeeded, confirm, unresolved, recover_success, recover_step,
  recover, confirm_reading, conclude, resolve, expected_before,
}
use civ5_agent_macos.Executor.Transparent.{validate_execution_report-eq}
use civ5_agent_macos.Executor.Outcomes.{is_resolved, Resumes}

module _ (plan : TurnPlan) (r : ExecutionReport) where
  report_again-ok :
      (st : Status) (next : ℕ) (steps : List ExecutionStepReport) (reason m : String)
      (x : ExecutionReport)
      → report_again plan r st next steps reason m ≡ ok x
      → (validate_execution_report x plan ≡ ok x)
        × (x ≡ record (make_report plan st next steps reason m) {
          event_sink_errors = r.event_sink_errors;
        })
  unfolding report_again report
  report_again-ok st next steps reason m x h =
      elim (Result-cases
        (validate_execution_report (make_report plan st next steps reason m) plan)) [
          | inr (e, p) ↦ ground arith
          | inl (y, p) ↦
              let same =
                validate_execution_report-eq (make_report plan st next steps reason m) y plan p in
              let again : ExecutionReport = record (make_report plan st next steps reason m) {
                event_sink_errors = r.event_sink_errors;
              } in
              let go : validate_execution_report again plan ≡ ok x = rw (p, same) at h in
              let e = validate_execution_report-eq again x plan go in (rw e (go ∙ ap ok e), e)
        ]

  module _ (a : PlannedAction) where
    -- every report that this result may hold is one of the outcomes
    abbrev Sound : Result ExecutionReport → Type 0
    Sound res = (x : ExecutionReport) → res ≡ ok x → Resumes plan a r x

    unresolved-Sound :
        (reason m : String)
        → Sound (report_again plan r recovery_required r.next_action_index r.steps reason m)
    unresolved-Sound reason m x h =
        let (v, e) = report_again-ok recovery_required r.next_action_index r.steps reason m x h in
        (v, rw e refl, inl (rw e (refl, refl, refl)))

    failed-Sound :
        (s : ExecutionStepReport) (reason m : String)
        → is_error s ≡ true
        → Sound (report_again plan r failed r.next_action_index (r.steps ++ (s ∷ [])) reason m)
    failed-Sound s reason m bad x h =
        let (v, e) =
          report_again-ok failed r.next_action_index (r.steps ++ (s ∷ [])) reason m x h in
        (v, rw e refl, inr (inl (rw e (refl, refl, s, bad, refl))))

    resolved-Sound :
        (st : Status) (s : ExecutionStepReport) (reason m : String)
        → is_error s ≡ false
        → is_resolved a st ≡ true
        → Sound (report_again plan r st (suc r.next_action_index) (r.steps ++ (s ∷ [])) reason m)
    resolved-Sound st s reason m good k x h =
        let (v, e) =
          report_again-ok st (suc r.next_action_index) (r.steps ++ (s ∷ [])) reason m x h in
        (v, rw e refl, inr (inr (rw e (k, refl, s, good, refl))))

    caught-Sound :
        (e : Error) (f : String → Result ExecutionReport)
        → ((m : String) → Sound (f m))
        → Sound (caught e f)
    caught-Sound (unexpected m) f h x q = cc
    caught-Sound (stale_plan m) f h x q = h m x q
    caught-Sound (invalid m) f h x q = h m x q
    caught-Sound (type_error m) f h x q = h m x q
    caught-Sound (unavailable m) f h x q = h m x q

    module _ (py : Runtime) where
      drifted-Sound :
          (s : ExecutionStepReport) (current after : GameState)
          → is_error s ≡ false
          → (now then_ : Result String)
          → Sound (
              now >>= λ d. then_ >>= λ e.
              if is_str d (str e)
              then report_again plan r paused
                  (suc r.next_action_index)
                  (r.steps ++ (s ∷ []))
                  "action_reconciled"
                  "uncertain action succeeded and fresh state matches its result"
              else report_again plan r stale
                  (suc r.next_action_index)
                  (r.steps ++ (s ∷ []))
                  "state_drift"
                  "fresh state differs from the recovered action result")
      drifted-Sound s current after good (err e) then_ x h = cc
      drifted-Sound s current after good (ok d) (err e) x h = cc
      drifted-Sound s current after good (ok d) (ok e) x h = elim (Bool-cases (is_str d (str e))) [
        | inl t ↦ resolved-Sound paused s _ _ good refl x (rw t at h)
        | inr t ↦ resolved-Sound stale s _ _ good refl x (rw t at h)
      ]

      confirm-Sound :
          (s : ExecutionStepReport) (after : GameState) (session : Value) (current : GameState)
          → is_error s ≡ false
          → Sound (confirm py plan r a (r.steps ++ (s ∷ [])) after session current)
      unfolding confirm
      confirm-Sound s after session current good x h =
          elim (Bool-cases (value_eq session plan.bridge_session_id)) [
            | inr n ↦
                resolved-Sound stale s "bridge_session_changed"
                  "bridge session changed after cached result was recovered" good refl x (rw n at h)
            | inl same ↦ elim (Bool-cases (is_str "end_turn" a.action)) [
              | inr n ↦
                  drifted-Sound s current after good (live_state_digest py current)
                    (live_state_digest py after) x (rw (same, n) at h)
              | inl t ↦ elim (Bool-cases (int_lt plan.turn current.turn)) [
                | inl l ↦
                    resolved-Sound completed s "turn_ended"
                      "uncertain final end_turn was recovered and freshly confirmed" good t x
                      (rw (same, t, l) at h)
                | inr l ↦
                    resolved-Sound stale s "state_drift"
                      "fresh state does not confirm the recovered turn advance" good refl x
                      (rw (same, t, l) at h)
              ]
            ]
          ]

      confirm_reading-Sound :
          (s : ExecutionStepReport) (after : GameState) (reading : Result (Value × GameState))
          → is_error s ≡ false
          → Sound (confirm_reading py plan r a (r.steps ++ (s ∷ [])) after reading)
      unfolding confirm_reading
      confirm_reading-Sound s after (err e) good =
          caught-Sound e _ (λ m. resolved-Sound paused s "state_unavailable" m good refl)
      confirm_reading-Sound s after (ok (session, current)) good =
          confirm-Sound s after session current good

      -- what is recovered: a sound report, or one more successful step
      abbrev Recovers : Recovered → Type 0
      Recovers (settled res) = Sound res
      Recovers (succeeded steps after) =
          (s : ExecutionStepReport) × (is_error s ≡ false) × (steps ≡ r.steps ++ (s ∷ []))

      recover_success-Recovers :
          (step : ExecutionStepReport) (after : GameState) (fault : Option String)
          → is_error step ≡ false
          → Recovers (recover_success py plan r step after fault)
      unfolding recover_success unresolved
      recover_success-Recovers step after (some m) good =
          unresolved-Sound "invalid_recovery_evidence" m
      recover_success-Recovers step after none good = (step, good, refl)

      recover_step-Recovers :
          (res : Result (ExecutionStepReport × GameState)) → Recovers (recover_step py plan r a res)
      unfolding recover_step unresolved
      recover_step-Recovers (err e) =
          caught-Sound e _ (λ m. unresolved-Sound "invalid_recovery_evidence" m)
      recover_step-Recovers (ok (step, after)) = elim (Bool-cases (is_error step)) [
        | inl bad ↦ rw bad (failed-Sound step "action_failed" step.message bad)
        | inr good ↦
            rw good
              (recover_success-Recovers step after (action_postcondition_error plan a after) good)
      ]

      module _ {W : Type 0} (read_state : W → Result (Value × GameState) × W)
          (lookup_result : PlannedAction → Value → W → Result (Option CommandResult) × W) where
        conclude-Sound :
            (p : Recovered) (w : W)
            → Recovers p
            → Sound (conclude py read_state lookup_result plan r a p w).0
        unfolding conclude
        conclude-Sound (settled res) w k = k
        conclude-Sound (succeeded steps after) w (s, good, e) =
            rw e (confirm_reading-Sound s after ((read_state w).0 >>= validated_reading py) good)

        pub resolve-Sound :
            (answer : Result (Option CommandResult)) (w : W)
            → Sound (resolve py read_state lookup_result plan r a answer w).0
        unfolding resolve recover unresolved
        resolve-Sound (err e) w =
            caught-Sound e _ (λ m. unresolved-Sound "recovery_lookup_unavailable" m)
        resolve-Sound (ok none) w = unresolved-Sound _ _
        resolve-Sound (ok (some result)) w = conclude-Sound (recover py plan r a result) w (
            recover_step-Recovers
              (validated_step py r.next_action_index a result (expected_before plan r)))
