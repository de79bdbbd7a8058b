-- ===== src/Plan/Fresh.antt =====
-- turn_plan.py: when a plan may start from a state, and the plans that `make_turn_plan` makes.
use civ5_agent_macos.Base.{
  ◌≡◌, ap, sym, ◌∙◌, Bool, true, false, not, ◌&&◌, ◌↔◌, inl, inr, Bool-cases, if◌then◌else◌, List,
  arith, any,
}
use civ5_agent_macos.Python.{Value, str, Runtime, ok, Result-cases, is_str, truthy, value_eq}
use civ5_agent_macos.Identity.{is_uuid_value, validate_uuid4}
use civ5_agent_macos.State.{GameState}
use civ5_agent_macos.Validation.{schema_from, validate_live_state}
use civ5_agent_macos.Validation.Unchanged.{validate_live_state-eq}
use civ5_agent_macos.Plan.{
  PlannedAction, TurnPlan, validate_turn_plan, validate_turn_plan_structure, make_turn_plan,
  turn_plan_schema_version,
}
use civ5_agent_macos.Plan.Structure.{
  IsExecutable, structure_complete, validate_turn_plan_structure-eq, structure-IsExecutable,
}
use civ5_agent_macos.Executor.Gate.{IsLive, digest_of, live_state_digest-IsLive}

abbrev pub builds_with_worker : TurnPlan → Bool
builds_with_worker plan = any (λ a. is_str "worker_build" a.action) plan.actions

-- The plan is for the state: its session, an active turn, its turn and player, and its digest; and a
-- worker's build has a state that shows worker facts.
pub record IsFresh (py : Runtime) (plan : TurnPlan) (state : GameState) (session : Value)
    : Type 0 where
  pub canonical : is_uuid_value session ≡ true
  pub same_session : value_eq plan.bridge_session_id session ≡ true
  pub with_worker_facts : (builds_with_worker plan && not (schema_from 7 state)) ≡ false
  pub active : truthy state.turn_active ≡ true
  pub same_turn : value_eq plan.turn state.turn ≡ true
  pub same_player : value_eq plan.active_player state.active_player ≡ true
  pub same_basis : is_str (digest_of py state) plan.state_basis_digest ≡ true

module _ (py : Runtime) where
  IsFresh-cases :
      (plan q : TurnPlan) (state : GameState) (session : Value)
      → IsLive py state
      → validate_turn_plan py plan state session ≡ ok q
      → (q ≡ plan) × IsExecutable plan × IsFresh py plan state session
  unfolding validate_turn_plan validate_uuid4
  IsFresh-cases plan q state session v h =
      elim (Result-cases (validate_turn_plan_structure py plan)) [
        | inr (e, p) ↦ ground arith
        | inl (n, p) ↦
            let same = validate_turn_plan_structure-eq py plan n p in
            let digest = live_state_digest-IsLive py state v in
            (
              ground (arith, same, digest),
              structure-IsExecutable py plan n p,
              record {
                canonical = ground (arith, same, digest);
                same_session = ground (arith, same, digest);
                with_worker_facts = ground (arith, same, digest);
                active = ground (arith, same, digest);
                same_turn = ground (arith, same, digest);
                same_player = ground (arith, same, digest);
                same_basis = ground (arith, same, digest);
              },
            )
      ]

  fresh_complete :
      (plan : TurnPlan) (state : GameState) (session : Value)
      → IsLive py state
      → IsExecutable plan
      → IsFresh py plan state session
      → validate_turn_plan py plan state session ≡ ok plan
  unfolding validate_turn_plan validate_uuid4
  fresh_complete plan state session v h f = ground (
    arith,
    structure_complete py plan h,
    live_state_digest-IsLive py state v,
    f.canonical,
    f.same_session,
    f.with_worker_facts,
    f.active,
    f.same_turn,
    f.same_player,
    f.same_basis,
  )

  -- Against a state that passes the validation, `validate_turn_plan` accepts exactly the executable
  -- plans that are fresh: for the same canonical session, turn and player, for an active turn and
  -- for a state basis that is the digest of the state. It returns the plan unchanged.
  pub validate_turn_plan_iff :
      (plan q : TurnPlan) (state : GameState) (session : Value)
      → IsLive py state
      → (validate_turn_plan py plan state session ≡ ok q)
        ↔ ((q ≡ plan) × IsExecutable plan × IsFresh py plan state session)
  validate_turn_plan_iff plan q state session v = (
    IsFresh-cases plan q state session v,
    λ (e, h, f). fresh_complete plan state session v h f ∙ ap ok (sym e),
  )

  -- the plan that `make_turn_plan` validates
  draft : GameState → Value → List PlannedAction → Value → Value → TurnPlan
  draft state session actions plan_id fresh = record {
    schema_version = turn_plan_schema_version;
    plan_id = if truthy plan_id then plan_id else fresh;
    bridge_session_id = session;
    turn = state.turn;
    active_player = state.active_player;
    state_basis_digest = str (digest_of py state);
    actions = actions;
  }

  make_turn_plan-draft :
      (state : GameState) (session : Value) (actions : List PlannedAction) (plan_id fresh : Value)
      (p : TurnPlan)
      → IsLive py state
      → make_turn_plan py state session actions plan_id fresh ≡ ok p
      → validate_turn_plan py (draft state session actions plan_id fresh) state session ≡ ok p
  unfolding make_turn_plan validate_uuid4 draft
  make_turn_plan-draft state session actions plan_id fresh p v h =
      elim (Bool-cases (is_uuid_value session)) [
        | inr n ↦ absurd (ground arith)
        | inl u ↦ rw (v, u, live_state_digest-IsLive py state v) at h
      ]

  -- A plan that `make_turn_plan` returns is accepted for the state and the session that it was made
  -- for, as long as they do not change.
  pub make_turn_plan-validates :
      (state : GameState) (session : Value) (actions : List PlannedAction) (plan_id fresh : Value)
      (p : TurnPlan)
      → make_turn_plan py state session actions plan_id fresh ≡ ok p
      → (p.actions ≡ actions) × (validate_turn_plan py p state session ≡ ok p)
  unfolding make_turn_plan draft
  make_turn_plan-validates state session actions plan_id fresh p h =
      elim (Result-cases (validate_live_state py state)) [
        | inr (e, q) ↦ ground arith
        | inl (t, q) ↦
            let v : IsLive py state = q ∙ ap ok (validate_live_state-eq py state t q) in
            let checked = make_turn_plan-draft state session actions plan_id fresh p v h in
            let same : p ≡ draft state session actions plan_id fresh =
              (IsFresh-cases _ p state session v checked).0 in
            (
              ap (λ x. x.actions) same,
              ap (λ x. validate_turn_plan py x state session) same ∙ checked,
            )
      ]
