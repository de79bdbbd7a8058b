-- ===== src/Requirements.antt =====
-- turn_requirements.py of civ5_agent.
pub mod Ready
use civ5_agent_macos.Base.{Bool, false, not, ◌||◌, List, [], ◌∷◌, ◌++◌, if◌then◌else◌}
use civ5_agent_macos.Base.Int.{ℤ, pos, negsuc, leb_ℤ}
use civ5_agent_macos.Python.{
  Value, null, bool, int, str, Runtime, Result, ok, get, is_null, is_str, truthy, value_eq, int_of,
  ◌>>=◌,
}
use civ5_agent_macos.State.{GameState}
use civ5_agent_macos.Validation.{fields_of, items_of, schema_from, validate_live_state}

pub data Kind : Type 0 where
  turn_inactive research_choice city_production unit_orders end_turn_blocked : Kind

pub record TurnRequirement : Type 0 where
  pub kind : Kind
  pub subject_id : Value
  pub mode : Value
  pub candidates : List Value
  pub blocking_type : Value

-- A requirement with the defaults of the dataclass.
abbrev pub bare : Kind → TurnRequirement
bare k = record { kind = k; subject_id = null; mode = null; candidates = []; blocking_type = null }

abbrev pub no_end_turn_blocking_type : Value
no_end_turn_blocking_type = int (negsuc 0)

abbrev pub id_of : Value → ℤ
id_of v = int_of (get "id" (fields_of v))

unfoldable pub insert_by_id : Value → List Value → List Value
insert_by_id v [] = v ∷ []
insert_by_id v (w ∷ ws) = if leb_ℤ (id_of v) (id_of w) then v ∷ w ∷ ws else w ∷ insert_by_id v ws

-- `sorted(records, key=lambda value: value["id"])`
unfoldable pub sort_by_id : List Value → List Value
unfolding insert_by_id
sort_by_id [] = []
sort_by_id (v ∷ vs) = insert_by_id v (sort_by_id vs)

unfoldable pub research_requirements : GameState → List TurnRequirement
research_requirements s =
    let choice = fields_of s.research_choice in
    let mode = get "mode" choice in
    if schema_from 5 s
    then (if truthy (get "required" choice)
        then record (bare research_choice) {
          mode = mode;
          candidates = if is_str "normal" mode then items_of s.researchable_technologies else [];
        }
          ∷ []
        else [])
    else if is_null s.research
    then record (bare research_choice) { mode = str "legacy_unknown" } ∷ []
    else []

abbrev pub needs_production : Value → Bool
needs_production city = not (truthy (get "production" (fields_of city)))

-- `unit["ready_to_move"] is True`, or before schema 4 `unit["moves"] > 0`
abbrev pub is_true : Value → Bool
is_true (bool b) = b
is_true _ = false

abbrev pub needs_orders : GameState → Value → Bool
needs_orders s unit =
    if schema_from 4 s
    then is_true (get "ready_to_move" (fields_of unit))
    else leb_ℤ (pos 1) (int_of (get "moves" (fields_of unit)))

unfoldable pub production_requirements : List Value → List TurnRequirement
production_requirements [] = []
production_requirements (c ∷ cs) =
    let rest = production_requirements cs in
    if needs_production c
    then record (bare city_production) { subject_id = get "id" (fields_of c) } ∷ rest
    else rest

unfoldable pub order_requirements : GameState → List Value → List TurnRequirement
order_requirements s [] = []
order_requirements s (u ∷ us) =
    let rest = order_requirements s us in
    if needs_orders s u
    then record (bare unit_orders) { subject_id = get "id" (fields_of u) } ∷ rest
    else rest

abbrev pub is_blocked : GameState → Bool
is_blocked s =
    not (truthy s.can_end_turn) || not (value_eq s.end_turn_blocking_type no_end_turn_blocking_type)

unfoldable pub blocking_requirements : GameState → List TurnRequirement
blocking_requirements s =
    if is_blocked s
    then record (bare end_turn_blocked) { blocking_type = s.end_turn_blocking_type } ∷ []
    else []

-- What `inspect_turn_requirements` returns of a validated state.
unfoldable pub requirements_of : GameState → List TurnRequirement
requirements_of s =
    if truthy s.turn_active
    then research_requirements s
      ++ (production_requirements (sort_by_id (items_of s.cities))
          ++ (order_requirements s (sort_by_id (items_of s.units)) ++ blocking_requirements s))
    else bare turn_inactive ∷ []

module _ (py : Runtime) where
  unfoldable pub inspect_turn_requirements : GameState → Result (List TurnRequirement)
  inspect_turn_requirements state = do
    validated ← validate_live_state py state
    ok (requirements_of validated)
