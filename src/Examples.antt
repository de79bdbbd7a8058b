-- ===== src/Examples.antt =====
-- A small game, a plan for it and the programs around the executor, for the runs in `Examples/Runs`.
pub mod Answering
pub mod Runs
pub mod Executions
pub mod Journals
pub mod Watching
pub mod Polls
pub mod Builds
pub mod Cities
pub mod Answers
use Prim.Native.String.{◌++◌}
use civ5_agent_macos.Base.{
  ℕ, suc, ◌≡◌, refl, Bool, true, false, ◌⊎◌, inl, inr, Bool-cases, Option, none, some, List, [],
  ◌∷◌, String, is_hex_text, if◌then◌else◌,
}
use civ5_agent_macos.Base.Int.{pos, negsuc}
use civ5_agent_macos.Python.{
  Value, null, bool, int, str, list, dict, nil, to_fields, to_items, Fields, end, field, get,
  is_null, is_str, Error, invalid, unexpected, unavailable, Runtime, Result, ok, err,
}
use civ5_agent_macos.State.{GameState, game_state_to_dict}
use civ5_agent_macos.Validation.{fields_of}
use civ5_agent_macos.Plan.{PlannedAction, TurnPlan}
use civ5_agent_macos.Plan.Report.{ExecutionReport, ExecutionStepReport, success, recovery_required}
use civ5_agent_macos.Executor.Bridges.{Bridge}
use civ5_agent_macos.Executor.Events.{Sink}
use civ5_agent_macos.Executor.Steps.{CommandResult}

abbrev pub undecided_digest : String
undecided_digest = "aaaaaaaaaaaaaaaaaaaaaaaaaaaaaaaaaaaaaaaaaaaaaaaaaaaaaaaaaaaaaaaa"

abbrev pub decided_digest : String
decided_digest = "bbbbbbbbbbbbbbbbbbbbbbbbbbbbbbbbbbbbbbbbbbbbbbbbbbbbbbbbbbbbbbbb"

-- a digest that tells states apart by whether their research is chosen
abbrev pub digest_for : Bool → String
digest_for true = undecided_digest
digest_for false = decided_digest

pub digest_for_form : (b : Bool) → is_hex_text 64 (digest_for b) ≡ true
unfolding is_hex_text
digest_for_form true = refl
digest_for_form false = refl

abbrev pub runtime : Runtime
runtime = record {
  sha256_json = λ v. digest_for (is_null (get "research" (fields_of v)));
  sha256_json_form = λ v. digest_for_form (is_null (get "research" (fields_of v)));
  repr = λ v. "value";
}

abbrev pub session : Value
session = str "11111111-1111-4111-8111-111111111111"

abbrev pub game_with : Value → GameState
game_with research = record {
  schema_version = int (pos 2);
  turn = int (pos 5);
  active_player = int (pos 0);
  gold = int (pos 10);
  gold_per_turn = null;
  science_per_turn = null;
  happiness = null;
  culture = null;
  culture_per_turn = null;
  score = null;
  current_era = null;
  player_name = null;
  civilization = null;
  turn_active = bool true;
  can_end_turn = bool true;
  end_turn_blocking_type = int (negsuc 0);
  cities = list nil;
  units = list nil;
  diplomacy = list nil;
  victory = null;
  research = research;
  researched_technologies = list nil;
  researchable_technologies = list nil;
  research_choice = null;
  research_runtime_facts = null;
  runtime_context = null;
}

abbrev pub undecided : GameState
undecided = game_with null

abbrev pub decided : GameState
decided = game_with (
    dict (
      to_fields (
        ("id", int (pos 3))
        ∷ ("progress", int (pos 0))
        ∷ ("cost", int (pos 55))
        ∷ ("type", str "TECH_WRITING")
        ∷ [])))

-- a state with two units and a neighbour
abbrev pub warrior : ℕ → Value
warrior n = dict (
    to_fields (
      ("id", int (pos n))
      ∷ ("x", int (pos 4))
      ∷ ("y", int (pos n))
      ∷ ("moves", int (pos 0))
      ∷ ("name", str "Warrior")
      ∷ ("type", str "UNIT_WARRIOR")
      ∷ []))

abbrev pub neighbour : Value
neighbour = dict (
    to_fields (
      ("player_id", int (pos 1))
      ∷ ("team_id", int (pos 1))
      ∷ ("score", int (pos 30))
      ∷ ("approach", int (negsuc 0))
      ∷ ("at_war", bool false)
      ∷ ("name", str "Dido")
      ∷ ("civilization", str "CIVILIZATION_CARTHAGE")
      ∷ []))

abbrev pub garrisoned : GameState
garrisoned = record decided {
  units = list (to_items (warrior 7 ∷ warrior 8 ∷ []));
  diplomacy = list (to_items (neighbour ∷ []));
}

abbrev pub choose : PlannedAction
choose = record {
  command_id = str "22222222-2222-4222-8222-222222222222";
  action = str "choose_research";
  arguments = dict (to_fields (("tech_type", str "TECH_WRITING") ∷ []));
}

abbrev pub finish : PlannedAction
finish = record {
  command_id = str "33333333-3333-4333-8333-333333333333";
  action = str "end_turn";
  arguments = dict end;
}

abbrev pub plan : TurnPlan
plan = record {
  schema_version = int (pos 1);
  plan_id = str "44444444-4444-4444-8444-444444444444";
  bridge_session_id = session;
  turn = int (pos 5);
  active_player = int (pos 0);
  state_basis_digest = str undecided_digest;
  actions = choose ∷ finish ∷ [];
}

-- a bridge that counts its calls, refuses the choice of research, and loses every other answer
abbrev pub refusal : Bool → Result CommandResult
refusal true = err (invalid "technology is not researchable")
refusal false = err (unavailable "timed out")

abbrev pub bridge : Bridge ℕ
bridge = record {
  read_state = λ n. (ok (session, undecided), suc n);
  execute_action = λ a _ n. (refusal (is_str "choose_research" a.action), suc n);
}

-- the watcher's result of the choice, and a report that awaits it
abbrev pub chosen : CommandResult
chosen = record {
  id = choose.command_id;
  status = str "success";
  message = str "research chosen";
  before = game_state_to_dict undecided;
  after = game_state_to_dict decided;
}

abbrev pub awaiting : ExecutionReport
awaiting = record {
  schema_version = int (pos 1);
  plan_id = plan.plan_id;
  bridge_session_id = session;
  status = recovery_required;
  next_action_index = 0;
  steps = [];
  reason_code = "action_outcome_unknown";
  message = "timed out";
  event_sink_errors = [];
}

-- an event sink that always raises, and counts its calls
abbrev pub broken_sink : Sink ℕ
broken_sink = some (λ event n. (err (unexpected "disk full"), suc n))

-- a text of 1088 characters, and a result whose state has it as the name of a field
abbrev pub double : String → String
double s = s ++ s

abbrev pub long_name : String
long_name = "x" ++ double (double (double (double undecided_digest)))

abbrev pub garbled : CommandResult
garbled = record chosen { before = dict (field long_name null end) }

-- the step that reports it
abbrev pub chosen_step : ExecutionStepReport
chosen_step = record {
  index = 0;
  command_id = choose.command_id;
  action = choose.action;
  status = success;
  message = "research chosen";
  before_state_digest = some undecided_digest;
  after_state_digest = some decided_digest;
}
