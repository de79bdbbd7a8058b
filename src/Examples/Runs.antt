-- ===== src/Examples/Runs.antt =====
-- The theorems at work on the small game.
use civ5_agent_macos.Base.{
  ℕ, ◌≡◌, refl, ◌↔◌, false, is_uuid4, is_hex_text, is_type_id, get_elem?, none, some, [], ◌∷◌,
}
use civ5_agent_macos.Python.{null, str, ok, value_eq}
use civ5_agent_macos.Identity.{validate_uuid4}
use civ5_agent_macos.State.{game_state_to_dict}
use civ5_agent_macos.Validation.{validate_live_state}
use civ5_agent_macos.Validation.Scalars.{validate_scalars}
use civ5_agent_macos.Validation.Records.{
  validate_lists, validate_cities, validate_units, validate_diplomacy, validate_victory,
}
use civ5_agent_macos.Validation.Research.{validate_research}
use civ5_agent_macos.Command.{validate_command, validate_arguments}
use civ5_agent_macos.Plan.{
  validate_turn_plan_structure, validate_actions, validate_planned_action, make_turn_plan,
  validate_turn_plan, turn_plan_from_dict, live_state_digest,
}
use civ5_agent_macos.Plan.Structure.{
  IsExecutable, structure-IsExecutable, validate_turn_plan_structure_iff,
}
use civ5_agent_macos.Plan.Fresh.{IsFresh, validate_turn_plan_iff, make_turn_plan-validates}
use civ5_agent_macos.Plan.Encoding.{turn_plan_to_dict, turn_plan_from_dict-to_dict}
use civ5_agent_macos.Requirements.{
  TurnRequirement, requirements_of, research_requirements, bare, research_choice,
}
use civ5_agent_macos.Requirements.Ready.{IsReady, requirements_of-none_iff}
use civ5_agent_macos.Controller.{Decision, decide, end_turn}
use civ5_agent_macos.Controller.Decides.{decide-ends_iff}
use civ5_agent_macos.Executor.{preflight}
use civ5_agent_macos.Executor.Gate.{IsLive, Passes, preflight-Passes}
use civ5_agent_macos.Executor.Coverage.{uncovered_requirement, action_covers}
use civ5_agent_macos.Executor.Coverage.Covers.{
  IsCovered, is_covered, uncovered_requirement-none_iff, uncovered_requirement-some,
}
use civ5_agent_macos.Validation.Ids.{IsIndexed, record_id, player_of, validate_live_state-IsIndexed}
use civ5_agent_macos.Validation.Records.{validate_records, validate_unit, validate_relations}
use civ5_agent_macos.Base.{All, false}
use civ5_agent_macos.Examples.{
  garrisoned, warrior, neighbour, runtime, undecided, decided, plan, choose, finish, session,
  undecided_digest,
}

undecided-IsLive : IsLive runtime undecided
unfolding validate_live_state validate_scalars validate_lists validate_cities validate_units
    validate_diplomacy validate_victory validate_research value_eq
undecided-IsLive = refl

decided-IsLive : IsLive runtime decided
unfolding validate_live_state validate_scalars validate_lists validate_cities validate_units
    validate_diplomacy validate_victory validate_research value_eq
decided-IsLive = refl

garrisoned-IsLive : IsLive runtime garrisoned
unfolding validate_live_state validate_scalars validate_lists validate_records validate_cities
    validate_units validate_unit validate_diplomacy validate_relations validate_victory
    validate_research value_eq
garrisoned-IsLive = refl

validate_live_state-IsIndexed_example :
    IsIndexed record_id []
    × IsIndexed record_id (warrior 7 ∷ warrior 8 ∷ [])
    × IsIndexed player_of (neighbour ∷ [])
    × All (λ r. value_eq (player_of r) garrisoned.active_player ≡ false) (neighbour ∷ [])
validate_live_state-IsIndexed_example =
    validate_live_state-IsIndexed runtime garrisoned garrisoned garrisoned-IsLive

plan-accepted : validate_turn_plan_structure runtime plan ≡ ok plan
unfolding validate_turn_plan_structure validate_actions validate_planned_action validate_command
    validate_uuid4 value_eq is_uuid4 is_hex_text validate_arguments is_type_id
plan-accepted = refl

pub plan-IsExecutable : IsExecutable plan
plan-IsExecutable = structure-IsExecutable runtime plan plan plan-accepted

validate_turn_plan_structure_iff_example :
    (validate_turn_plan_structure runtime plan ≡ ok plan) ↔ ((plan ≡ plan) × IsExecutable plan)
validate_turn_plan_structure_iff_example = validate_turn_plan_structure_iff runtime plan plan

preflight-Passes_example :
    Passes runtime plan 0 session undecided
      (str undecided_digest)
      choose
      (finish ∷ [])
      []
      (preflight runtime plan 0 session undecided (str undecided_digest) choose (finish ∷ []) [])
preflight-Passes_example =
    preflight-Passes runtime plan 0 session undecided (str undecided_digest) choose (finish ∷ []) []
      undecided-IsLive

requirements_of-none_iff_example : (requirements_of decided ≡ []) ↔ IsReady decided
requirements_of-none_iff_example = requirements_of-none_iff decided

decide-ends_iff_example :
    ((d : Decision) × (decide runtime decided ≡ ok d) × (d.action ≡ end_turn))
    ↔ (IsLive runtime decided × IsReady decided)
decide-ends_iff_example = decide-ends_iff runtime decided

validate_turn_plan_iff_example :
    (validate_turn_plan runtime plan undecided session ≡ ok plan)
    ↔ ((plan ≡ plan) × IsExecutable plan × IsFresh runtime plan undecided session)
validate_turn_plan_iff_example =
    validate_turn_plan_iff runtime plan plan undecided session undecided-IsLive

turn_plan_from_dict-to_dict_example : turn_plan_from_dict runtime (turn_plan_to_dict plan) ≡ ok plan
turn_plan_from_dict-to_dict_example = turn_plan_from_dict-to_dict runtime plan plan-IsExecutable

plan-made :
    make_turn_plan runtime undecided session (choose ∷ finish ∷ []) plan.plan_id null ≡ ok plan
unfolding make_turn_plan validate_turn_plan live_state_digest validate_turn_plan_structure
    validate_actions validate_planned_action validate_command validate_uuid4 is_uuid4 is_hex_text
    validate_arguments is_type_id game_state_to_dict validate_live_state validate_scalars
    validate_lists validate_cities validate_units validate_diplomacy validate_victory
    validate_research value_eq
plan-made = refl

make_turn_plan-validates_example :
    (plan.actions ≡ choose ∷ finish ∷ [])
    × (validate_turn_plan runtime plan undecided session ≡ ok plan)
make_turn_plan-validates_example =
    make_turn_plan-validates runtime undecided session (choose ∷ finish ∷ []) plan.plan_id null plan
      plan-made

uncovered_requirement-none_iff_example :
    (uncovered_requirement (requirements_of undecided) plan.actions ≡ none)
    ↔ IsCovered (requirements_of undecided) plan.actions
uncovered_requirement-none_iff_example =
    uncovered_requirement-none_iff (requirements_of undecided) plan.actions

research_to_choose : TurnRequirement
research_to_choose = record (bare research_choice) { mode = str "legacy_unknown" }

uncovered_requirement-some_example :
    ((i : ℕ) × (get_elem? (requirements_of undecided) i ≡ some research_to_choose))
    × (is_covered (finish ∷ []) research_to_choose ≡ false)
unfolding uncovered_requirement requirements_of action_covers research_to_choose
    research_requirements
uncovered_requirement-some_example =
    uncovered_requirement-some (requirements_of undecided) (finish ∷ []) research_to_choose refl
