-- ===== src/State.antt =====
-- src/civ5_agent/models.py: the game state, and its dictionary form.
use Prim.Native.String.{◌++◌}
use civ5_agent_macos.Base.{
  not, ◌||◌, Option, none, some, List, [], ◌∷◌, String, first, if◌then◌else◌,
}
use civ5_agent_macos.Base.Int.{pos, leb_ℤ}
use civ5_agent_macos.Python.{
  Value, list, dict, nil, Fields, field, end, find, get, keys, one_of, is_null, int_of, Result, ok,
  err, type_error,
}

-- The fields hold whatever the JSON of the bridge held until `validate_live_state` has seen them.
pub record GameState : Type 0 where
  pub schema_version : Value
  pub turn : Value
  pub active_player : Value
  pub gold : Value
  pub gold_per_turn : Value
  pub science_per_turn : Value
  pub happiness : Value
  pub culture : Value
  pub culture_per_turn : Value
  pub score : Value
  pub current_era : Value
  pub player_name : Value
  pub civilization : Value
  pub turn_active : Value
  pub can_end_turn : Value
  pub end_turn_blocking_type : Value
  pub cities : Value
  pub units : Value
  pub diplomacy : Value
  pub victory : Value
  pub research : Value
  pub researched_technologies : Value
  pub researchable_technologies : Value
  pub research_choice : Value
  pub research_runtime_facts : Value
  pub runtime_context : Value

abbrev field_names : List String
field_names =
    "schema_version" ∷ "turn" ∷ "active_player" ∷ "gold" ∷ "gold_per_turn" ∷ "science_per_turn"
    ∷ "happiness" ∷ "culture" ∷ "culture_per_turn" ∷ "score" ∷ "current_era" ∷ "player_name"
    ∷ "civilization" ∷ "turn_active" ∷ "can_end_turn" ∷ "end_turn_blocking_type" ∷ "cities"
    ∷ "units" ∷ "diplomacy" ∷ "victory" ∷ "research" ∷ "researched_technologies"
    ∷ "researchable_technologies" ∷ "research_choice" ∷ "research_runtime_facts" ∷ "runtime_context"
    ∷ []

-- A keyword argument, or the default `[]` of a list field.
abbrev or_list : Option Value → Value
or_list none = list nil
or_list (some v) = v

-- `GameState(**values)`
unfoldable pub game_state_from_fields : Fields → Result GameState
game_state_from_fields d = elim (first (λ k. not (one_of k field_names)) (keys d)) [
  | some k ↦
      err (type_error ("GameState.__init__() got an unexpected keyword argument '" ++ k ++ "'"))
  | none ↦ ok (record {
    schema_version = get "schema_version" d;
    turn = get "turn" d;
    active_player = get "active_player" d;
    gold = get "gold" d;
    gold_per_turn = get "gold_per_turn" d;
    science_per_turn = get "science_per_turn" d;
    happiness = get "happiness" d;
    culture = get "culture" d;
    culture_per_turn = get "culture_per_turn" d;
    score = get "score" d;
    current_era = get "current_era" d;
    player_name = get "player_name" d;
    civilization = get "civilization" d;
    turn_active = get "turn_active" d;
    can_end_turn = get "can_end_turn" d;
    end_turn_blocking_type = get "end_turn_blocking_type" d;
    cities = or_list (find "cities" d);
    units = or_list (find "units" d);
    diplomacy = or_list (find "diplomacy" d);
    victory = get "victory" d;
    research = get "research" d;
    researched_technologies = or_list (find "researched_technologies" d);
    researchable_technologies = or_list (find "researchable_technologies" d);
    research_choice = get "research_choice" d;
    research_runtime_facts = get "research_runtime_facts" d;
    runtime_context = get "runtime_context" d;
  })
]

-- `game_state_to_dict`: a state below schema 8 has no schema 8 fields.
unfoldable pub game_state_to_dict : GameState → Value
game_state_to_dict s =
    let legacy = is_null s.schema_version || leb_ℤ (int_of s.schema_version) (pos 7) in
    let facts : Fields =
      if legacy
      then end
      else field "research_runtime_facts" s.research_runtime_facts
          (field "runtime_context" s.runtime_context end) in
    dict (
      field "schema_version" s.schema_version (
        field "turn" s.turn (
          field "active_player" s.active_player (
            field "gold" s.gold (
              field "gold_per_turn" s.gold_per_turn (
                field "science_per_turn" s.science_per_turn (
                  field "happiness" s.happiness (
                    field "culture" s.culture (
                      field "culture_per_turn" s.culture_per_turn (
                        field "score" s.score (
                          field "current_era" s.current_era (
                            field "player_name" s.player_name (
                              field "civilization" s.civilization (
                                field "turn_active" s.turn_active (
                                  field "can_end_turn" s.can_end_turn (
                                    field "end_turn_blocking_type" s.end_turn_blocking_type (
                                      field "cities" s.cities (
                                        field "units" s.units (
                                          field "diplomacy" s.diplomacy (
                                            field "victory" s.victory (
                                              field "research" s.research (
                                                field "researched_technologies"
                                                  s.researched_technologies
                                                  (field "researchable_technologies"
                                                    s.researchable_technologies
                                                    (field "research_choice" s.research_choice
                                                      (facts)))))))))))))))))))))))))
