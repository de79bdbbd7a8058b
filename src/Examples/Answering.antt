-- ===== src/Examples/Answering.antt =====
-- A bridge for the small game, which answers the choice of research with a result.
use civ5_agent_macos.Base.{
  ◌≡◌, refl, sym, subst, Bool, true, false, Bool-cases, inl, inr, ℕ, String, if◌then◌else◌,
}
use civ5_agent_macos.Python.{
  Value, Error, invalid, unavailable, str, Result, ok, err, is_str, is_str-eq, value_eq, message_of,
}
use civ5_agent_macos.State.{GameState, game_state_to_dict, game_state_from_fields}
use civ5_agent_macos.Validation.{validate_live_state}
use civ5_agent_macos.Validation.Scalars.{validate_scalars}
use civ5_agent_macos.Validation.Records.{
  validate_lists, validate_cities, validate_units, validate_diplomacy, validate_victory,
}
use civ5_agent_macos.Validation.Research.{validate_research}
use civ5_agent_macos.Validation.Raises.{is_value_error}
use civ5_agent_macos.Plan.{PlannedAction, live_state_digest}
use civ5_agent_macos.Plan.Report.{ExecutionStepReport, fits}
use civ5_agent_macos.Executor.Bridges.{Bridge}
use civ5_agent_macos.Executor.Settled.{IsTame}
use civ5_agent_macos.Executor.Accounts.{IsTameBridge}
use civ5_agent_macos.Executor.Steps.{
  CommandResult, validated_step, check_result, result_states, step_between, check_success,
}
use civ5_agent_macos.Examples.{runtime, undecided, decided, undecided_digest, session, chosen}

-- the result of the choice, and a lost answer to every other action
abbrev answer : Bool → Result CommandResult
answer true = ok chosen
answer false = err (unavailable "timed out")

-- The world is whether the research is chosen.
abbrev pub answering : Bridge Bool
answering = record {
  read_state = λ t. (ok (session, if t then decided else undecided), t);
  execute_action = λ a s t. (
    answer (is_str "choose_research" a.action),
    if is_str "choose_research" a.action then true else t,
  );
}

refusal-fits :
    (m : String) (e : Error)
    → ◌≡◌ {A = Result (ExecutionStepReport × GameState)} (err (invalid m)) (err e)
    → fits m ≡ true
    → (is_value_error e ≡ true) × (fits (message_of e) ≡ true)
refusal-fits m e h k =
    let same : invalid m ≡ e = cc in
    subst (λ f. (is_value_error f ≡ true) × (fits (message_of f) ≡ true)) same (refl, k)

choice-IsTame :
    (index : ℕ) (args id : Value) (d : String)
    → IsTame runtime index
        (record { action = str "choose_research"; arguments = args; command_id = id })
        d
        (ok chosen)
unfolding validated_step check_result result_states step_between check_success
    game_state_from_fields game_state_to_dict live_state_digest validate_live_state validate_scalars
    validate_lists validate_cities validate_units validate_diplomacy validate_victory
    validate_research value_eq
choice-IsTame index args id d e h = elim (Bool-cases (value_eq chosen.id id)) [
  | inr n ↦ refusal-fits "action result command id does not match TurnPlan" e (rw n at h) refl
  | inl m ↦ elim (Bool-cases (is_str undecided_digest (str d))) [
    | inr n ↦
        refusal-fits "action result before-state differs from executor observation" e
          (rw (m, n) at h) refl
    | inl n ↦ let bad = rw (m, n) at h in cc
  ]
]

answer-IsTame :
    (index : ℕ) (a : PlannedAction) (d : String) (t : Bool)
    → is_str "choose_research" a.action ≡ t
    → IsTame runtime index a d (answer t)
answer-IsTame index a d false h = refl
answer-IsTame index a d true h =
    subst
      (λ v.
        IsTame runtime index
          (record { action = v; arguments = a.arguments; command_id = a.command_id }) d (ok chosen))
      (sym (is_str-eq "choose_research" a.action h))
      (choice-IsTame index a.arguments a.command_id d)

pub answering-IsTame : IsTameBridge runtime answering
answering-IsTame = record {
  reads = λ w e h. cc;
  answers = λ w a s index d. answer-IsTame index a d (is_str "choose_research" a.action) refl;
}
