-- ===== src/Validation/Units.antt =====
-- The unit checks of validation.py: move targets and worker facts.
use Prim.Native.Nat.{Ordering}
use Prim.Native.String.{◌++◌, compare}
use civ5_agent_macos.Base.{
  ℕ, Bool, true, false, not, ◌&&◌, ◌||◌, List, [], ◌∷◌, String, leb, any, length, map,
  if◌then◌else◌, ◌==◌,
}
use civ5_agent_macos.Base.Int.{ℤ, pos, leb_ℤ, eq_ℤ}
use civ5_agent_macos.Python.{
  Value, Fields, Runtime, Result, ok, get, has_exactly, require, for_each, is_null, is_bool, int_of,
  ◌>>◌, str,
}
use civ5_agent_macos.Validation.Checks.{
  is_list, is_dict, items_of, fields_of, is_coordinate, is_int_from, is_sorted_by, invalid_field,
  validate_worker_identifier,
}

abbrev pub max_ordinary_worker_builds_per_unit : ℕ
max_ordinary_worker_builds_per_unit = 32

-- A checked target as the pair of its coordinates; pairs compare lexicographically.
abbrev point_of : Value → ℤ × ℤ
point_of v = (int_of (get "x" (fields_of v)), int_of (get "y" (fields_of v)))

abbrev point_le : ℤ × ℤ → ℤ × ℤ → Bool
point_le (x, y) (x', y') = if eq_ℤ x x' then leb_ℤ y y' else leb_ℤ x x'

abbrev point_eq : ℤ × ℤ → ℤ × ℤ → Bool
point_eq (x, y) (x', y') = eq_ℤ x x' && eq_ℤ y y'

-- no entry is repeated, by a test of equality
abbrev has_no_repeats {ℓ} : {A : Type ℓ} → (A → A → Bool) → List A → Bool
has_no_repeats eq [] = true
has_no_repeats eq (x ∷ xs) = not (any (eq x) xs) && has_no_repeats eq xs

-- the build and improvement names of a checked candidate
abbrev text_of : Value → String
text_of (str s) = s
text_of _ = ""

abbrev build_of : Value → String × String
build_of v =
    (text_of (get "build_type" (fields_of v)), text_of (get "improvement_type" (fields_of v)))

abbrev text_le : String → String → Bool
text_le s t = elim (compare s t) [ Ordering.gt ↦ false | _ ↦ true ]

abbrev build_le : String × String → String × String → Bool
build_le (b, i) (b', i') = if b == b' then text_le i i' else text_le b b'

module _ (py : Runtime) where
  unfoldable pub validate_ordinary_move_targets : Fields → Result (Unit {0})
  unfolding has_exactly
  validate_ordinary_move_targets unit = do
    let unit_id = get "id" unit
    let targets = get "ordinary_move_targets" unit
    let points = map point_of (items_of targets)
    let name = "unit " ++ py.repr unit_id
    require (is_list targets) (name ++ " has invalid ordinary_move_targets")
    require (leb (length (items_of targets)) 6) (name ++ " has too many ordinary_move_targets")
    for_each
        (λ target. do
          require (is_dict target && has_exactly ("x" ∷ "y" ∷ []) (fields_of target))
              (name ++ " has malformed ordinary move target")
          require (is_coordinate (get "x" (fields_of target)))
              (name ++ " has invalid move target x")
          require (is_coordinate (get "y" (fields_of target)))
              (name ++ " has invalid move target y"))
        (items_of targets)
    require (is_sorted_by point_le points) (name ++ " ordinary_move_targets are not sorted")
    require (has_no_repeats point_eq points) (name ++ " ordinary_move_targets contain duplicates")

  unfoldable pub validate_plot : Value → Fields → Result (Unit {0})
  validate_plot unit_id plot = do
    validate_worker_identifier py (get "terrain_type" plot) "TERRAIN_" "terrain_type" unit_id
    for_each
        (λ (e : String × String).
          if is_null (get e.0 plot)
          then ok tt
          else validate_worker_identifier py (get e.0 plot) e.1 e.0 unit_id)
        (("feature_type", "FEATURE_")
          ∷ ("resource_type", "RESOURCE_")
          ∷ ("improvement_type", "IMPROVEMENT_")
          ∷ ("route_type", "ROUTE_")
          ∷ [])
    require (is_null (get "owner_id" plot) || is_int_from (pos 0) (get "owner_id" plot))
        (invalid_field py "unit" unit_id "plot owner_id")
    for_each (λ f. require (is_bool (get f plot)) (invalid_field py "unit" unit_id ("plot " ++ f)))
        ("is_hills" ∷ "is_water" ∷ "is_fresh_water" ∷ [])

  unfoldable pub validate_build_actions : Value → Value → Result (Unit {0})
  validate_build_actions unit_id actions = do
    let builds = map build_of (items_of actions)
    let name = "unit " ++ py.repr unit_id
    require (is_list actions) (name ++ " has invalid ordinary_build_actions")
    require (leb (length (items_of actions)) max_ordinary_worker_builds_per_unit)
        (name ++ " has too many ordinary_build_actions")
    for_each
        (λ action. do
          require
              (is_dict action
                && has_exactly ("build_type" ∷ "improvement_type" ∷ []) (fields_of action))
              (name ++ " has malformed ordinary build action")
          validate_worker_identifier py (get "build_type" (fields_of action)) "BUILD_" "build_type"
              unit_id
          validate_worker_identifier py (get "improvement_type" (fields_of action)) "IMPROVEMENT_"
              "improvement_type" unit_id)
        (items_of actions)
    require (is_sorted_by build_le builds) (name ++ " ordinary_build_actions are not sorted")
    require (has_no_repeats ◌==◌ (map (λ b. b.0) builds))
        (name ++ " ordinary_build_actions contain duplicate builds")

  unfoldable pub validate_worker_state : Fields → Result (Unit {0})
  unfolding validate_plot validate_build_actions has_exactly
  validate_worker_state unit = do
    let unit_id = get "id" unit
    let plot = get "current_plot" unit
    require
        (is_dict plot
          && has_exactly
              ("terrain_type" ∷ "feature_type" ∷ "resource_type" ∷ "improvement_type" ∷ "route_type"
                ∷ "owner_id" ∷ "is_hills" ∷ "is_water" ∷ "is_fresh_water" ∷ [])
              (fields_of plot))
        ("unit " ++ py.repr unit_id ++ " has malformed current_plot")
    validate_plot unit_id (fields_of plot)
    (if is_null (get "current_build_type" unit)
        then ok tt
        else validate_worker_identifier py (get "current_build_type" unit) "BUILD_"
            "current_build_type" unit_id)
    validate_build_actions unit_id (get "ordinary_build_actions" unit)
