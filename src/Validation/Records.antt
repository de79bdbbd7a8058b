-- ===== src/Validation/Records.antt =====
-- The record checks of `validate_live_state`: cities, units, diplomacy and victory.
use Prim.Native.String.{◌++◌}
use civ5_agent_macos.Base.{not, ◌&&◌, ◌||◌, List, [], ◌∷◌, String, if◌then◌else◌}
use civ5_agent_macos.Base.Int.{pos, negsuc, leb_ℤ}
use civ5_agent_macos.Python.{
  Value, Fields, Runtime, Result, ok, get, require, for_each, is_bool, is_int, is_text, int_of,
  value_eq, ◌>>◌,
}
use civ5_agent_macos.State.{GameState}
use civ5_agent_macos.Validation.Checks.{
  is_list, is_dict, items_of, fields_of, is_int_from, member, invalid_field, schema_from,
}
use civ5_agent_macos.Validation.Units.{validate_ordinary_move_targets, validate_worker_state}

module _ (py : Runtime) where
  -- `_validate_records`, with the identifiers seen so far
  unfoldable pub validate_records : String → List Value → List Value → Result (Unit {0})
  validate_records kind seen [] = ok tt
  validate_records kind seen (r ∷ rs) =
      let identifier = get "id" (fields_of r) in
      (do
        require (is_dict r) (kind ++ " record must be an object")
        require (is_int_from (pos 0) identifier) (kind ++ " has invalid id")
        require (not (member identifier seen))
            ("duplicate " ++ kind ++ " id: " ++ py.repr identifier)
        require (is_int_from (pos 0) (get "x" (fields_of r))) (invalid_field py kind identifier "x")
        require (is_int_from (pos 0) (get "y" (fields_of r))) (invalid_field py kind identifier "y")
        validate_records kind (identifier ∷ seen) rs)

  unfoldable pub validate_lists : GameState → Result (Unit {0})
  unfolding validate_records
  validate_lists s = do
    require (is_list s.cities && is_list s.units && is_list s.diplomacy)
        "cities, units, and diplomacy must be lists"
    validate_records "city" [] (items_of s.cities)
    validate_records "unit" [] (items_of s.units)

  unfoldable pub validate_city : GameState → Fields → Result (Unit {0})
  validate_city s city = do
    let identifier = get "id" city
    require (is_int_from (pos 1) (get "population" city))
        (invalid_field py "city" identifier "population")
    for_each (λ f. require (is_text (get f city)) (invalid_field py "city" identifier f))
        ("name" ∷ "production" ∷ [])
    (if schema_from 3 s
        then (do
          for_each
              (λ f.
                require (is_int_from (pos 0) (get f city)) (invalid_field py "city" identifier f))
              ("food_times100" ∷ "growth_threshold" ∷ "production_times100" ∷ "production_needed"
                ∷ [])
          for_each (λ f. require (is_int (get f city)) (invalid_field py "city" identifier f))
              ("food_per_turn_times100" ∷ "production_per_turn_times100" ∷ []))
        else ok tt)

  unfoldable pub validate_cities : GameState → Result (Unit {0})
  unfolding validate_city
  validate_cities s = for_each (λ c. validate_city s (fields_of c)) (items_of s.cities)

  unfoldable pub validate_strength : GameState → Fields → Result (Unit {0})
  validate_strength s unit = do
    let identifier = get "id" unit
    for_each
        (λ f. require (is_int_from (pos 0) (get f unit)) (invalid_field py "unit" identifier f))
        ("damage" ∷ "combat_strength" ∷ "ranged_strength" ∷ "range" ∷ [])
    require (is_int_from (pos 1) (get "max_hit_points" unit))
        (invalid_field py "unit" identifier "max_hit_points")
    require (leb_ℤ (int_of (get "damage" unit)) (int_of (get "max_hit_points" unit)))
        ("unit " ++ py.repr identifier ++ " damage exceeds max_hit_points")
    require (not (schema_from 4 s) || is_bool (get "ready_to_move" unit))
        (invalid_field py "unit" identifier "ready_to_move")
    (if schema_from 6 s then validate_ordinary_move_targets py unit else ok tt)
    (if schema_from 7 s then validate_worker_state py unit else ok tt)

  unfoldable pub validate_unit : GameState → Fields → Result (Unit {0})
  unfolding validate_strength
  validate_unit s unit = do
    let identifier = get "id" unit
    require (is_int_from (pos 0) (get "moves" unit)) (invalid_field py "unit" identifier "moves")
    for_each (λ f. require (is_text (get f unit)) (invalid_field py "unit" identifier f))
        ("name" ∷ "type" ∷ [])
    (if schema_from 3 s then validate_strength s unit else ok tt)

  unfoldable pub validate_units : GameState → Result (Unit {0})
  unfolding validate_unit
  validate_units s = for_each (λ u. validate_unit s (fields_of u)) (items_of s.units)

  -- the loop over `state.diplomacy`, with the players seen so far
  unfoldable pub validate_relations : GameState → List Value → List Value → Result (Unit {0})
  validate_relations s seen [] = ok tt
  validate_relations s seen (r ∷ rs) =
      let relation = fields_of r in
      let player = get "player_id" relation in
      let name = "diplomacy player " ++ py.repr player in
      (do
        require (is_dict r) "diplomacy record must be an object"
        require (is_int_from (pos 0) player) "diplomacy record has invalid player_id"
        require (not (value_eq player s.active_player || member player seen))
            ("invalid diplomacy player id: " ++ py.repr player)
        for_each
            (λ f. require (is_int_from (pos 0) (get f relation)) (name ++ " has invalid " ++ f))
            ("team_id" ∷ "score" ∷ [])
        require (is_int_from (negsuc 0) (get "approach" relation)) (name ++ " has invalid approach")
        require (is_bool (get "at_war" relation)) (name ++ " has invalid at_war")
        for_each (λ f. require (is_text (get f relation)) (name ++ " has invalid " ++ f))
            ("name" ∷ "civilization" ∷ [])
        validate_relations s (player ∷ seen) rs)

  unfoldable pub validate_diplomacy : GameState → Result (Unit {0})
  unfolding validate_relations
  validate_diplomacy s = validate_relations s [] (items_of s.diplomacy)

unfoldable pub validate_victory : GameState → Result (Unit {0})
validate_victory s =
    if schema_from 3 s
    then (do
      let victory = fields_of s.victory
      require (is_dict s.victory) "schema 3+ requires a victory record"
      require (is_bool (get "science_enabled" victory)) "victory has invalid science_enabled"
      for_each (λ f. require (is_int_from (negsuc 0) (get f victory)) ("victory has invalid " ++ f))
          ("apollo" ∷ "booster" ∷ "cockpit" ∷ "stasis_chamber" ∷ "engine" ∷ []))
    else ok tt
