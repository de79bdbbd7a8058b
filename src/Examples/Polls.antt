-- ===== src/Examples/Polls.antt =====
-- The theorems on the commands at work: a game whose turn advances at the second reading, of which the
-- first fails, and a game with one unit.
use civ5_agent_macos.Base.{
  ℕ, zero, suc, ◌+◌, ◌≡◌, refl, true, false, Bool, [], ◌∷◌, ltb, if◌then◌else◌, String, arith,
}
use civ5_agent_macos.Base.Int.{pos}
use civ5_agent_macos.Python.{
  Value, null, bool, to_fields, Fields, list, nil, cons, int, str, dict, field, end, Result, ok,
  err, invalid, value_eq,
}
use civ5_agent_macos.State.{GameState, game_state_to_dict}
use civ5_agent_macos.Command.{Command}
use civ5_agent_macos.Validation.{validate_live_state}
use civ5_agent_macos.Validation.Scalars.{validate_scalars}
use civ5_agent_macos.Validation.Records.{
  validate_lists, validate_cities, validate_units, validate_diplomacy, validate_victory,
}
use civ5_agent_macos.Validation.Units.{validate_ordinary_move_targets}
use civ5_agent_macos.Validation.{validate_technology_ids}
use civ5_agent_macos.Validation.Research.{
  validate_current_research, validate_research_choice, validate_research,
}
use civ5_agent_macos.Executor.Steps.{CommandResult}
use civ5_agent_macos.Commands.{Client, read_validated}
use civ5_agent_macos.Commands.Polling.{poll, verify, after_reading, after_check}
use civ5_agent_macos.Commands.Turns.{
  turn_advanced, check_turn, execute_end_turn, execute_choose_research,
}
use civ5_agent_macos.Commands.Units.{
  execute_skip_unit, skip_unit_of, skip_requested, execute_move_unit, move_from, move_unit_of,
  move_admitted, move_requested, moved_unit, moved, check_move,
}
use civ5_agent_macos.Commands.Terminates.{IsTicking, Settled, verify-Ends}
use civ5_agent_macos.Commands.Finds.{Appears, now, unreadable, verify-finds}
use civ5_agent_macos.Commands.Observed.{Returns, Shows}
use civ5_agent_macos.Commands.Observed.Turns.{
  chosen, execute_end_turn-Shows, execute_choose_research-Shows,
}
use civ5_agent_macos.Commands.Observed.Units.{skipped, execute_skip_unit-Shows}
use civ5_agent_macos.Commands.Observed.Moves.{reached, execute_move_unit-Shows}
use civ5_agent_macos.Examples.{runtime, undecided}

abbrev later_state : GameState
later_state = record undecided { turn = int (pos 6) }

-- The world counts the sleeps: the first reading behind a sleep fails, the next shows a later turn.
abbrev reading_at : ℕ → Result GameState
reading_at zero = ok undecided
reading_at (suc zero) = err (invalid "no active game")
reading_at (suc (suc n)) = ok later_state

abbrev pub client : Client ℕ
client = record {
  read_game_state = λ n. (n, reading_at n);
  request_end_turn = λ n. (n, ok (true, null));
  request_choose_research = λ tech n. (n, ok (str "accepted", null));
  request_city_production = λ city kind item n. (n, ok (str "accepted", null, null));
  request_skip_unit = λ unit n. (n, ok (str "accepted", unit));
  request_move_unit = λ unit x y u v n. (n, ok (str "accepted", unit, u, v));
  request_worker_build = λ unit x y build n. (n, ok (str "accepted", unit, build));
  monotonic = λ n. n;
  sleep = λ n. n + 1;
}

client-IsTicking : IsTicking client
client-IsTicking = record { sleep_ticks = λ w. omega arith; read_ticks = λ w. omega arith }

abbrev pub command : String → Value → Command
command action args = record {
  action = str action;
  args = args;
  id = str "22222222-2222-4222-8222-222222222222";
}

abbrev end_turn : Command
end_turn = command "end_turn" (dict end)

abbrev turn_result : CommandResult
turn_result = record {
  id = end_turn.id;
  status = str "success";
  message = str "verified turn value -> value";
  before = game_state_to_dict undecided;
  after = game_state_to_dict later_state;
}

-- the result of `end_turn` where the turn did not advance in time
abbrev late_turn : GameState → CommandResult
late_turn after = record turn_result {
  status = str "error";
  message = str "end_turn was accepted but turn did not advance within 30s";
  after = game_state_to_dict after;
}

verify-Ends_example :
    Settled runtime client
      (check_turn runtime client 30 "30" end_turn undecided)
      undecided
      30
      late_turn
      (verify runtime client 30
        (check_turn runtime client 30 "30" end_turn undecided)
        undecided
        late_turn
        0)
verify-Ends_example =
    verify-Ends runtime client client-IsTicking 30
      (check_turn runtime client 30 "30" end_turn undecided) undecided late_turn 0

advance-Appears :
    Appears runtime client (check_turn runtime client 30 "30" end_turn undecided) 30 turn_result 0
unfolding read_validated validate_live_state validate_scalars validate_lists validate_cities
    validate_units validate_diplomacy validate_victory validate_research value_eq
advance-Appears =
    unreadable (invalid "no active game") refl refl refl (now later_state refl refl refl)

verify-finds_example :
    (verify runtime client 30
      (check_turn runtime client 30 "30" end_turn undecided)
      undecided
      late_turn
      0).1
    ≡ ok turn_result
verify-finds_example =
    verify-finds runtime client (check_turn runtime client 30 "30" end_turn undecided)
      client-IsTicking 30 undecided late_turn turn_result 0 advance-Appears

execute_end_turn-Shows_example :
    Returns (Shows end_turn turn_advanced) (execute_end_turn runtime client 30 "30" end_turn 0)
execute_end_turn-Shows_example = execute_end_turn-Shows runtime client 30 "30" end_turn 0

-- a unit on a tile, with the movement that is left to it and whether it waits for orders
abbrev pub unit_at : ℕ → ℕ → ℕ → Bool → Fields
unit_at x y moves ready = to_fields (
    ("id", int (pos 1))
    ∷ ("name", str "Scout")
    ∷ ("type", str "UNIT_SCOUT")
    ∷ ("x", int (pos x))
    ∷ ("y", int (pos y))
    ∷ ("moves", int (pos moves))
    ∷ ("ready_to_move", bool ready)
    ∷ ("damage", int (pos 0))
    ∷ ("max_hit_points", int (pos 100))
    ∷ ("combat_strength", int (pos 4))
    ∷ ("ranged_strength", int (pos 0))
    ∷ ("range", int (pos 0))
    ∷ (
      "ordinary_move_targets",
      list (cons (dict (field "x" (int (pos 4)) (field "y" (int (pos 2)) end))) nil),
    )
    ∷ [])

abbrev pub with_unit : Fields → GameState
with_unit u = record undecided {
  schema_version = int (pos 6);
  units = list (cons (dict u) nil);
  score = int (pos 7);
  current_era = int (pos 0);
  research_choice = dict (field "required" (bool false) (field "mode" (str "normal") end));
  victory = dict (
      to_fields (
        ("science_enabled", bool true)
        ∷ ("apollo", int (pos 0))
        ∷ ("booster", int (pos 0))
        ∷ ("cockpit", int (pos 0))
        ∷ ("stasis_chamber", int (pos 0))
        ∷ ("engine", int (pos 0))
        ∷ []));
}

-- the client of a game whose unit is first at (3, 2) with 120 points of movement, and then as given
abbrev unit_client : Fields → Client ℕ
unit_client u = record client {
  read_game_state = λ n. (n, ok (with_unit (if ltb n 2 then unit_at 3 2 120 true else u)));
}

abbrev move : Command
move =
    command "move_unit"
      (dict (field "unit_id" (int (pos 1)) (field "x" (int (pos 4)) (field "y" (int (pos 2)) end))))

abbrev skipping : Client ℕ
skipping = unit_client (unit_at 3 2 120 false)

execute_skip_unit-Shows_example :
    Returns
      (Shows move (skipped runtime skipping 30 "30" move))
      (execute_skip_unit runtime skipping 30 "30" move 0)
execute_skip_unit-Shows_example = execute_skip_unit-Shows runtime skipping 30 "30" move 0

abbrev moving : Client ℕ
moving = unit_client (unit_at 4 2 60 true)

execute_move_unit-Shows_example :
    Returns
      (Shows move (reached runtime moving 30 "30" move))
      (execute_move_unit runtime moving 30 "30" move 0)
execute_move_unit-Shows_example = execute_move_unit-Shows runtime moving 30 "30" move 0

-- the status of a result
abbrev pub status_in : Result CommandResult → Value
status_in (ok r) = r.status
status_in (err (invalid m)) = str m
status_in (err e) = null

skip_succeeds : status_in (execute_skip_unit runtime skipping 30 "30" move 0).1 ≡ str "success"
unfolding read_validated validate_live_state validate_scalars validate_lists validate_cities
    validate_units validate_diplomacy validate_victory validate_research value_eq execute_skip_unit
    skip_unit_of skip_requested validate_technology_ids validate_current_research
    validate_research_choice validate_ordinary_move_targets verify poll after_reading after_check
skip_succeeds = refl

move_succeeds : status_in (execute_move_unit runtime moving 30 "30" move 0).1 ≡ str "success"
unfolding read_validated validate_live_state validate_scalars validate_lists validate_cities
    validate_units validate_diplomacy validate_victory validate_research value_eq execute_move_unit
    move_from move_unit_of move_admitted move_requested moved_unit moved check_move
    validate_technology_ids validate_current_research validate_research_choice
    validate_ordinary_move_targets verify poll after_reading after_check
move_succeeds = refl

abbrev research : Command
research = command "choose_research" (dict (field "tech_type" (str "TECH_WRITING") end))

execute_choose_research-Shows_example :
    Returns
      (Shows research (chosen runtime client 30 "30" research))
      (execute_choose_research runtime client 30 "30" research 0)
execute_choose_research-Shows_example =
    execute_choose_research-Shows runtime client 30 "30" research 0
