-- ===== src/Executor/Gate.antt =====
-- The checks that stand before the submission of an action.
use civ5_agent_macos.Base.{
  ℕ, ◌≡◌, refl, ap, subst, ◌∙◌, Bool, true, false, not, is_empty, ◌&&◌, inl, inr, Bool-cases, none,
  some, Option-cases, List, [], ◌∷◌, String, arith, is_reason_code,
}
use civ5_agent_macos.Python.{
  unexpected, Value, Error, Runtime, Result, ok, err, Result-cases, value_eq, is_str, truthy, ◌>>=◌,
}
use civ5_agent_macos.Identity.{validate_uuid4}
use civ5_agent_macos.State.{GameState, game_state_to_dict}
use civ5_agent_macos.Validation.{validate_live_state}
use civ5_agent_macos.Validation.Raises.{is_value_error, validate_live_state_raises}
use civ5_agent_macos.Validation.Unchanged.{validate_live_state-eq}
use civ5_agent_macos.Plan.{PlannedAction, TurnPlan, live_state_digest, validate_turn_plan}
use civ5_agent_macos.Plan.Structure.{IsExecutable, structure_complete}
use civ5_agent_macos.Plan.Report.{ExecutionStepReport, Status, paused, stale}
use civ5_agent_macos.Requirements.{TurnRequirement, requirements_of, inspect_turn_requirements}
use civ5_agent_macos.Executor.{state_mismatch, ready_for, check_requirements, preflight}
use civ5_agent_macos.Executor.Bridges.{Preflight, halted, ready}
use civ5_agent_macos.Executor.Coverage.{uncovered_requirement, requirement_message}
use civ5_agent_macos.Executor.Steps.{report, validated_reading}
use civ5_agent_macos.Executor.Standing.{is_pause}

-- the exceptions that the wider clauses, with `OSError`, handle
abbrev pub is_handled : Error → Bool
is_handled (unexpected m) = false
is_handled _ = true

module _ (py : Runtime) where
  -- the state has passed `validate_live_state`
  abbrev pub IsLive : GameState → Type 0
  IsLive s = validate_live_state py s ≡ ok s

  abbrev pub digest_of : GameState → String
  digest_of s = py.sha256_json (game_state_to_dict s)

  pub IsLive-validated : (s t : GameState) → validate_live_state py s ≡ ok t → IsLive t
  IsLive-validated s t h = let e : t ≡ s = validate_live_state-eq py s t h in rw e (cc (h, e))

  pub validated_reading-IsLive :
      (x : Value × GameState) (session : Value) (state : GameState)
      → validated_reading py x ≡ ok (session, state)
      → IsLive state
  unfolding validated_reading validate_uuid4
  validated_reading-IsLive (v, s) session state h = elim (Result-cases (validate_live_state py s)) [
    | inr (e, p) ↦ ground arith
    | inl (t, p) ↦ let q = IsLive-validated s t p in ground arith
  ]

  -- a reading that is validated raises what the executor handles, if the reader does
  pub read_raises :
      (r : Result (Value × GameState))
      → ((e : Error) → r ≡ err e → is_handled e ≡ true)
      → (e : Error) → (r >>= validated_reading py) ≡ err e
      → is_handled e ≡ true
  unfolding validated_reading validate_uuid4
  read_raises (err x) k e h = k e h
  read_raises (ok (v, s)) k e h = elim (Result-cases (validate_live_state py s)) [
    | inl (t, p) ↦ ground arith
    | inr (x, p) ↦ ground (arith, validate_live_state_raises py s x p)
  ]

  pub live_state_digest-IsLive :
      (s : GameState) → IsLive s → live_state_digest py s ≡ ok (digest_of s)
  unfolding live_state_digest
  live_state_digest-IsLive s h = rw h

  pub inspect-IsLive :
      (s : GameState) → IsLive s → inspect_turn_requirements py s ≡ ok (requirements_of s)
  unfolding inspect_turn_requirements
  inspect-IsLive s h = rw h

  -- What the state that a submission starts from must be.
  pub record Admits (plan : TurnPlan) (session : Value) (state : GameState) (expected : Value)
      (a : PlannedAction) (rest : List PlannedAction) : Type 0 where
    pub same_session : value_eq session plan.bridge_session_id ≡ true
    pub same_turn : value_eq state.turn plan.turn ≡ true
    pub same_player : value_eq state.active_player plan.active_player ≡ true
    pub active : truthy state.turn_active ≡ true
    pub same_state : is_str (digest_of state) expected ≡ true
    pub covered : uncovered_requirement (requirements_of state) (a ∷ rest) ≡ none
    pub nothing_left :
        (is_str "end_turn" a.action && not (is_empty (requirements_of state))) ≡ false

  module _ (plan : TurnPlan) (index : ℕ) (session : Value) (state : GameState) (expected : Value)
      (a : PlannedAction) (rest : List PlannedAction) (steps : List ExecutionStepReport) where
    -- The gate lets an action through exactly from a state that admits it, with the state's digest;
    -- otherwise it ends the plan with a paused or stale report of the steps so far.
    abbrev pub Passes : Preflight → Type 0
    Passes (ready d) = (d ≡ digest_of state) × Admits plan session state expected a rest
    Passes (halted r) =
        (st : Status) × (reason : String) × (m : String) × (is_pause st ≡ true)
        × (is_reason_code reason ≡ true)
        × (r ≡ report plan st index steps reason m)

    mismatch-none :
        IsLive state
        → state_mismatch py plan session state expected ≡ ok none
        → (value_eq session plan.bridge_session_id ≡ true)
          × (value_eq state.turn plan.turn ≡ true)
          × (value_eq state.active_player plan.active_player ≡ true)
          × (truthy state.turn_active ≡ true)
          × (is_str (digest_of state) expected ≡ true)
    unfolding state_mismatch
    mismatch-none v h = ground (arith, live_state_digest-IsLive state v)

    mismatch-ne-err :
        IsLive state → (e : Error) → state_mismatch py plan session state expected ≡ err e → ⊥
    unfolding state_mismatch
    mismatch-ne-err v e h = ground (arith, live_state_digest-IsLive state v)

    ready_for-Passes :
        IsLive state
        → state_mismatch py plan session state expected ≡ ok none
        → (rs : List TurnRequirement) → rs ≡ requirements_of state
        → uncovered_requirement rs (a ∷ rest) ≡ none
        → Passes (ready_for py plan index state a steps rs)
    unfolding ready_for is_reason_code
    ready_for-Passes v m [] e u =
        let (session_ok, turn_ok, player_ok, active_ok, state_ok) = mismatch-none v m in
        rw (live_state_digest-IsLive state v) (
          refl,
          record {
            same_session = session_ok;
            same_turn = turn_ok;
            same_player = player_ok;
            active = active_ok;
            same_state = state_ok;
            covered = rw (← e) u;
            nothing_left = rw (← e) (ground arith);
          },
        )
    ready_for-Passes v m (q ∷ qs) e u =
        let (session_ok, turn_ok, player_ok, active_ok, state_ok) = mismatch-none v m in
        elim (Bool-cases (is_str "end_turn" a.action)) [
          | inl t ↦ rw t (paused, "turn_not_ready", requirement_message py q, refl, refl, refl)
          | inr f ↦
              rw (f, live_state_digest-IsLive state v)
                (
                  refl,
                  record {
                    same_session = session_ok;
                    same_turn = turn_ok;
                    same_player = player_ok;
                    active = active_ok;
                    same_state = state_ok;
                    covered = rw (← e) u;
                    nothing_left = rw f refl;
                  },
                )
        ]

    check_requirements-Passes :
        IsLive state
        → state_mismatch py plan session state expected ≡ ok none
        → Passes (check_requirements py plan index state a rest steps (requirements_of state))
    unfolding check_requirements is_reason_code
    check_requirements-Passes v m =
        elim (Option-cases (uncovered_requirement (requirements_of state) (a ∷ rest))) [
          | inr (q, u) ↦
              subst Passes (uncovered q u)
                (paused, "unresolved_requirement", requirement_message py q, refl, refl, refl)
          | inl u ↦
              subst Passes (all_covered u) (ready_for-Passes v m (requirements_of state) refl u)
        ]
      where
        uncovered :
            (q : TurnRequirement)
            → uncovered_requirement (requirements_of state) (a ∷ rest) ≡ some q
            → halted
                (report plan paused index steps "unresolved_requirement" (requirement_message py q))
              ≡ check_requirements py plan index state a rest steps (requirements_of state)
        uncovered q u = ground arith

        all_covered :
            uncovered_requirement (requirements_of state) (a ∷ rest) ≡ none
            → ready_for py plan index state a steps (requirements_of state)
              ≡ check_requirements py plan index state a rest steps (requirements_of state)
        all_covered u = ground arith

    -- Against a state that passes the validation, the checks before a submission have two outcomes.
    -- The action is submitted, with the digest of the state: then the session, the turn, the player
    -- and the digest are the expected ones, the turn is active, no requirement is uncovered, and
    -- `end_turn` has none left. Or the plan ends with a paused or stale report of the steps so far.
    pub preflight-Passes :
        IsLive state → Passes (preflight py plan index session state expected a rest steps)
    unfolding preflight is_reason_code
    preflight-Passes v = elim (Result-cases (state_mismatch py plan session state expected)) [
      | inr (e, p) ↦ absurd (mismatch-ne-err v e p)
      | inl (o, p) ↦ elim (Option-cases o) [
        | inr (m, q) ↦ rw (p ∙ ap ok q) (stale, "state_drift", m, refl, refl, refl)
        | inl q ↦
            rw (p ∙ ap ok q)
              (rw (inspect-IsLive state v) (check_requirements-Passes v (p ∙ ap ok q)))
      ]
    ]

  module _ {plan : TurnPlan} (h : IsExecutable plan) {state : GameState} (v : IsLive state)
      (session : Value) where
    -- against a validated state an executable plan is accepted as it is, or refused as stale or
    -- invalid
    pub validate_turn_plan-eq :
        (p : TurnPlan) → validate_turn_plan py plan state session ≡ ok p → p ≡ plan
    unfolding validate_turn_plan validate_uuid4
    validate_turn_plan-eq p e =
        ground (arith, structure_complete py plan h, live_state_digest-IsLive state v)

    pub validate_turn_plan_raises :
        (e : Error) → validate_turn_plan py plan state session ≡ err e → is_value_error e ≡ true
    unfolding validate_turn_plan validate_uuid4
    validate_turn_plan_raises e q =
        ground (arith, structure_complete py plan h, live_state_digest-IsLive state v)
