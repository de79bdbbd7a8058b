-- ===== src/Executor/Postconditions.antt =====
-- The success postconditions of turn_executor.py: `move_unit`, `worker_build`, and the turn.
use civ5_agent_macos.Base.{
  Bool, true, false, not, ◌&&◌, ◌||◌, Option, none, some, List, [], ◌∷◌, String, first, keep,
  if◌then◌else◌, ◌==◌,
}
use civ5_agent_macos.Base.Int.{pos, leb_ℤ}
use civ5_agent_macos.Python.{
  Value, bool, dict, Fields, field, end, Result, ok, err, unexpected, type_error, find, get,
  is_null, is_str, truthy, value_eq, int_of, ◌>>=◌,
}
use civ5_agent_macos.State.{GameState}
use civ5_agent_macos.Plan.{PlannedAction, TurnPlan}
use civ5_agent_macos.Validation.{is_dict, fields_of, items_of, schema_from, member}

-- `action.arguments[name]`
unfoldable pub argument : PlannedAction → String → Result Value
argument a name = elim a.arguments [
  | dict d ↦ elim (find name d) [ none ↦ err (unexpected name) | some v ↦ ok v ]
  | _ ↦ err (type_error "arguments are not subscriptable")
]

-- The message of the first test that holds.
abbrev pub first_fault : List (Bool × String) → Option String
first_fault [] = none
first_fault ((true, m) ∷ r) = some m
first_fault ((false, m) ∷ r) = first_fault r

-- `a < b`, for values that have been checked to be integers
abbrev pub int_lt : Value → Value → Bool
int_lt a b = not (leb_ℤ (int_of b) (int_of a))

abbrev pub turn_or_player_changed : Value → Value → GameState → Bool
turn_or_player_changed turn player after =
    not (value_eq after.turn turn)
    || not (value_eq after.active_player player)
    || not (truthy after.turn_active)

unfoldable pub action_postcondition_error : TurnPlan → PlannedAction → GameState → Option String
action_postcondition_error plan a after =
    if is_str "end_turn" a.action
    then (if int_lt plan.turn after.turn
        then none
        else some "end_turn result did not advance the turn")
    else if turn_or_player_changed plan.turn plan.active_player after
    then some "non-final action changed turn or active player"
    else none

abbrev pub has_id : Value → Value → Bool
has_id unit_id unit = value_eq (get "id" (fields_of unit)) unit_id

abbrev stands_at : Fields → Value → Value → Bool
stands_at unit x y = value_eq (get "x" unit) x && value_eq (get "y" unit) y

module _ (a : PlannedAction) (before after : GameState) where
  -- the tests on the unit's two records
  move_unit_fault : Value → Value → Fields → Fields → Option String
  move_unit_fault x y before_unit after_unit = first_fault (
      (
        not (
            member (dict (field "x" x (field "y" y end)))
              (items_of (get "ordinary_move_targets" before_unit))),
        "move_unit result was not admitted by its before-state target set",
      )
      ∷ (stands_at before_unit x y, "move_unit result destination equals its before-state source")
      ∷ (
        not (value_eq (get "type" after_unit) (get "type" before_unit)),
        "move_unit result changed the unit type",
      )
      ∷ (not (stands_at after_unit x y), "move_unit result did not reach the exact destination")
      ∷ (
        not (int_lt (get "moves" after_unit) (get "moves" before_unit)),
        "move_unit result did not lower movement points",
      )
      ∷ (
        turn_or_player_changed before.turn before.active_player after,
        "move_unit result changed turn, active player, or active-turn state",
      )
      ∷ [])

  abbrev find_unit : Value → GameState → Option Value
  find_unit unit_id s = first (has_id unit_id) (items_of s.units)

  unfoldable pub move_unit_postcondition_error : Result (Option String)
  unfolding argument move_unit_fault
  move_unit_postcondition_error =
      if not (schema_from 6 before) || not (value_eq after.schema_version before.schema_version)
      then ok (some "move_unit result requires matching schema 6+ states")
      else do
        unit_id ← argument a "unit_id"
        x ← argument a "x"
        y ← argument a "y"
        ok (elim (find_unit unit_id before) [
          | none ↦ some "move_unit result does not preserve the exact unit identity"
          | some b ↦ elim (find_unit unit_id after) [
            | none ↦ some "move_unit result does not preserve the exact unit identity"
            | some c ↦ move_unit_fault x y (fields_of b) (fields_of c)
          ]
        ])

  -- `field != "improvement_type" and after_plot.get(field) != value`, for some entry
  plot_changed : Fields → Fields → Bool
  plot_changed end after_plot = false
  plot_changed (field k v rest) after_plot =
      not (k == "improvement_type") && not (value_eq (get k after_plot) v)
      || plot_changed rest after_plot

  abbrev builds : Value → Value → Bool
  builds build_type candidate = value_eq (get "build_type" (fields_of candidate)) build_type

  -- the tests behind the candidate's selection
  worker_build_result_fault : Value → Value → Value → Value → Fields → Fields → Option String
  unfolding plot_changed
  worker_build_result_fault x y build_type improvement before_unit after_unit =
      let before_plot = fields_of (get "current_plot" before_unit) in
      let after_plot = fields_of (get "current_plot" after_unit) in
      let active =
        value_eq (get "current_build_type" after_unit) build_type
        && is_null (get "improvement_type" after_plot) in
      let completed =
        is_null (get "current_build_type" after_unit)
        && value_eq (get "improvement_type" after_plot) improvement in
      first_fault (
        (
          not (value_eq (get "type" after_unit) (get "type" before_unit)),
          "worker_build result changed the unit type",
        )
        ∷ (not (stands_at after_unit x y), "worker_build result moved the unit")
        ∷ (
          not (int_lt (get "moves" after_unit) (get "moves" before_unit)),
          "worker_build result did not lower movement points",
        )
        ∷ (
          plot_changed before_plot after_plot,
          "worker_build result changed an unsupported plot fact",
        )
        ∷ (
          if active then completed else not completed,
          "worker_build result does not satisfy exactly one success branch",
        )
        ∷ (
          turn_or_player_changed before.turn before.active_player after,
          "worker_build result changed turn, active player, or active-turn state",
        )
        ∷ [])

  worker_build_fault : Value → Value → Value → Fields → Fields → Option String
  unfolding worker_build_result_fault
  worker_build_fault x y build_type before_unit after_unit =
      let before_plot = get "current_plot" before_unit in
      let plot = fields_of before_plot in
      let candidates =
        keep (builds build_type) (items_of (get "ordinary_build_actions" before_unit)) in
      let early = first_fault (
        (
          not (stands_at before_unit x y),
          "worker_build result source does not match caller coordinates",
        )
        ∷ (
          not (is_null (get "current_build_type" before_unit)),
          "worker_build result began from an existing build",
        )
        ∷ (
          not (is_dict before_plot && is_dict (get "current_plot" after_unit)),
          "worker_build result lacks current-plot facts",
        )
        ∷ (
          not (is_false (get "is_water" plot))
              || not (is_null (get "feature_type" plot))
              || not (is_null (get "improvement_type" plot))
              || not (is_true (get "ready_to_move" before_unit))
              || leb_ℤ (int_of (get "moves" before_unit)) (pos 0),
          "worker_build result began from an inadmissible unit or plot",
        )
        ∷ []) in
      elim early [
        | some m ↦ some m
        | none ↦ elim candidates [
          | [] ↦ some "worker_build result was not admitted by its before-state candidates"
          | c ∷ more ↦ elim more [
            | [] ↦
                worker_build_result_fault x y build_type (get "improvement_type" (fields_of c))
                  before_unit after_unit
            | _ ∷ _ ↦ some "worker_build result was not admitted by its before-state candidates"
          ]
        ]
      ]
    where
      is_true : Value → Bool
      is_true (bool b) = b
      is_true _ = false

      is_false : Value → Bool
      is_false (bool b) = not b
      is_false _ = false

  -- `[unit for unit in units if unit.get("id") == unit_id]`, where there is exactly one
  abbrev only_unit : Value → GameState → Option Value
  only_unit unit_id s = single (keep (has_id unit_id) (items_of s.units))
    where
      single : List Value → Option Value
      single (u ∷ []) = some u
      single _ = none

  unfoldable pub worker_build_postcondition_error : Result (Option String)
  unfolding argument worker_build_fault
  worker_build_postcondition_error =
      if not (schema_from 7 before) || not (value_eq after.schema_version before.schema_version)
      then ok (some "worker_build result requires matching schema 7+ states")
      else do
        unit_id ← argument a "unit_id"
        x ← argument a "x"
        y ← argument a "y"
        build_type ← argument a "build_type"
        ok (elim (only_unit unit_id before) [
          | none ↦ some "worker_build result does not preserve the exact unit identity"
          | some b ↦ elim (only_unit unit_id after) [
            | none ↦ some "worker_build result does not preserve the exact unit identity"
            | some c ↦ worker_build_fault x y build_type (fields_of b) (fields_of c)
          ]
        ])
