-- ===== src/Examples/Cities.antt =====
-- The theorem on `execute_city_production` at work: a city that comes to train a warrior.
use civ5_agent_macos.Base.{ℕ, ◌≡◌, refl, [], ◌∷◌, ltb, if◌then◌else◌}
use civ5_agent_macos.Base.Int.{pos}
use civ5_agent_macos.Python.{
  Value, int, str, dict, list, cons, nil, to_fields, field, end, ok, value_eq,
}
use civ5_agent_macos.State.{GameState}
use civ5_agent_macos.Command.{Command}
use civ5_agent_macos.Validation.{validate_live_state}
use civ5_agent_macos.Validation.Scalars.{validate_scalars}
use civ5_agent_macos.Validation.Records.{
  validate_lists, validate_cities, validate_units, validate_diplomacy, validate_victory,
}
use civ5_agent_macos.Validation.Research.{validate_research}
use civ5_agent_macos.Commands.{Client, read_validated}
use civ5_agent_macos.Commands.Polling.{poll, verify, after_reading, after_check}
use civ5_agent_macos.Commands.Cities.{
  production_requested, production_from, execute_city_production,
}
use civ5_agent_macos.Commands.Observed.{Returns}
use civ5_agent_macos.Commands.Observed.Cities.{ShowsProduction, execute_city_production-Shows}
use civ5_agent_macos.Examples.{runtime, undecided}
use civ5_agent_macos.Examples.Polls.{client, command, status_in}

-- a state with one city and what it produces
abbrev city_state : Value → GameState
city_state production = record undecided {
  cities = list (
      cons
        (dict (
          to_fields (
            ("id", int (pos 7))
            ∷ ("name", str "Kyoto")
            ∷ ("x", int (pos 1))
            ∷ ("y", int (pos 1))
            ∷ ("population", int (pos 3))
            ∷ ("production", production)
            ∷ [])))
        nil);
}

abbrev pub training : Client ℕ
training = record client {
  read_game_state = λ n. (n, ok (city_state (if ltb n 2 then str "Monument" else str "Warrior")));
  request_city_production =
      λ city kind item n. (n, ok (str "accepted", int (pos 9), str "Warrior"));
}

abbrev train : Command
train = command "set_city_production" (
    dict (
      field "city_id" (int (pos 7))
        (field "kind" (str "unit") (field "item_type" (str "UNIT_WARRIOR") end))))

execute_city_production-Shows_example :
    Returns
      (ShowsProduction runtime training 30 "30" train)
      (execute_city_production runtime training 30 "30" train 0)
execute_city_production-Shows_example =
    execute_city_production-Shows runtime training 30 "30" train 0

production_succeeds :
    status_in (execute_city_production runtime training 30 "30" train 0).1 ≡ str "success"
unfolding read_validated validate_live_state validate_scalars validate_lists validate_cities
    validate_units validate_diplomacy validate_victory validate_research value_eq verify poll
    after_reading after_check execute_city_production production_from production_requested
production_succeeds = refl
