-- ===== src/Examples/Builds.antt =====
-- The theorem on `execute_worker_build` at work: a worker begins a farm.
use civ5_agent_macos.Base.{
  ℕ, ◌≡◌, refl, true, false, [], ◌∷◌, ltb, if◌then◌else◌, is_uuid4, is_type_id,
}
use civ5_agent_macos.Base.Int.{pos}
use civ5_agent_macos.Python.{
  Value, null, bool, int, str, dict, list, cons, nil, to_fields, Fields, field, end, ok, value_eq,
  has_exactly,
}
use civ5_agent_macos.State.{GameState}
use civ5_agent_macos.Identity.{validate_uuid4}
use civ5_agent_macos.Command.{Command, validate_command, validate_arguments}
use civ5_agent_macos.Validation.{
  validate_live_state, validate_technology_ids, validate_worker_identifier,
}
use civ5_agent_macos.Validation.Scalars.{validate_scalars}
use civ5_agent_macos.Validation.Records.{
  validate_lists, validate_cities, validate_units, validate_diplomacy, validate_victory,
}
use civ5_agent_macos.Validation.Units.{
  validate_ordinary_move_targets, validate_plot, validate_build_actions, validate_worker_state,
}
use civ5_agent_macos.Validation.Research.{
  validate_current_research, validate_research_choice, validate_research,
}
use civ5_agent_macos.Commands.{Client, read_validated}
use civ5_agent_macos.Commands.Polling.{poll, verify, after_reading, after_check}
use civ5_agent_macos.Commands.Builds.{
  built, built_by, check_build, build_requested, build_candidate, build_by, build_from,
  build_validated, execute_worker_build,
}
use civ5_agent_macos.Commands.Observed.{Returns, Shows}
use civ5_agent_macos.Commands.Observed.Builds.{erected, execute_worker_build-Shows}
use civ5_agent_macos.Examples.{runtime}
use civ5_agent_macos.Examples.Polls.{client, unit_at, with_unit, command, status_in}

abbrev plot : Fields
plot = to_fields (
    ("terrain_type", str "TERRAIN_GRASS")
    ∷ ("feature_type", null)
    ∷ ("resource_type", null)
    ∷ ("improvement_type", null)
    ∷ ("route_type", null)
    ∷ ("owner_id", int (pos 0))
    ∷ ("is_hills", bool false)
    ∷ ("is_water", bool false)
    ∷ ("is_fresh_water", bool true)
    ∷ [])

abbrev farm_offer : Value
farm_offer =
    dict (
      field "build_type" (str "BUILD_FARM") (field "improvement_type" (str "IMPROVEMENT_FARM") end))

-- a worker with what it builds and its movement
abbrev worker : Value → ℕ → Fields
worker build moves = field "current_plot" (dict plot) (
    field "current_build_type" build
      (field "ordinary_build_actions" (list (cons farm_offer nil)) (unit_at 3 2 moves true)))

abbrev worker_state : Fields → GameState
worker_state u = record (with_unit u) { schema_version = int (pos 7) }

abbrev building : Client ℕ
building = record client {
  read_game_state = λ n.
      (n, ok (worker_state (if ltb n 2 then worker null 120 else worker (str "BUILD_FARM") 0)));
}

abbrev build_farm : Command
build_farm = command "worker_build" (
    dict (
      field "unit_id" (int (pos 1)) (
        field "x" (int (pos 3))
          (field "y" (int (pos 2)) (field "build_type" (str "BUILD_FARM") end)))))

execute_worker_build-Shows_example :
    Returns
      (Shows build_farm (erected runtime building 30 "30" build_farm))
      (execute_worker_build runtime building 30 "30" build_farm 0)
execute_worker_build-Shows_example =
    execute_worker_build-Shows runtime building 30 "30" build_farm 0

build_succeeds :
    status_in (execute_worker_build runtime building 30 "30" build_farm 0).1 ≡ str "success"
unfolding read_validated validate_live_state validate_scalars validate_lists validate_cities
    validate_units validate_diplomacy validate_victory validate_research value_eq
    validate_technology_ids validate_current_research validate_research_choice
    validate_ordinary_move_targets validate_worker_state validate_plot validate_build_actions verify
    poll after_reading after_check execute_worker_build build_validated build_from build_by
    build_candidate build_requested check_build built_by built validate_command validate_arguments
    validate_uuid4 is_uuid4 has_exactly is_type_id validate_worker_identifier
build_succeeds = refl
