-- ===== src/Validation/Facts.antt =====
-- The schema 8 check of the research runtime facts, `_validate_research_runtime_facts`.
use Prim.Native.Nat.{Ordering}
use Prim.Native.String.{◌++◌, compare}
use civ5_agent_macos.Base.{
  Bool, true, false, not, ◌&&◌, ◌||◌, none, some, List, [], ◌∷◌, String, all, first, map,
  if◌then◌else◌,
}
use civ5_agent_macos.Base.Int.{pos}
use civ5_agent_macos.Python.{
  Value, int, str, dict, list, nil, to_items, to_fields, Fields, Result, err, invalid, get,
  has_exactly, require, for_each, is_null, is_str, truthy, value_eq, ◌>>=◌, ◌>>◌,
}
use civ5_agent_macos.State.{GameState}
use civ5_agent_macos.Validation.Checks.{
  is_list, is_dict, items_of, fields_of, is_int_from, is_id_text, is_stable_sorted, is_unique,
  in_set,
}

abbrev facts_fields : List String
facts_fields =
    "capability_version" ∷ "status" ∷ "reason" ∷ "phase" ∷ "science_per_turn_times100"
    ∷ "overflow_research" ∷ "current" ∷ "candidates" ∷ "field_provenance" ∷ []

abbrev expected_provenance : Value
expected_provenance = dict (
    to_fields (
      ("cost", str "CvPlayer.GetResearchCost")
      ∷ ("progress_times100", str "CvTeamTechs.GetResearchProgressTimes100")
      ∷ ("science_per_turn_times100", str "CvPlayer.GetScienceTimes100")
      ∷ ("overflow_research", str "CvPlayer.GetOverflowResearch")
      ∷ ("turns_left_with_overflow", str "CvPlayer.GetResearchTurnsLeft(include_overflow=true)")
      ∷ ("phase", str "CvPlayer.IsTurnActive+Game.IsProcessingMessages")
      ∷ []))

unfoldable pub validate_research_runtime_candidate : Value → Result (Unit {0})
unfolding has_exactly
validate_research_runtime_candidate v = do
  let candidate = fields_of v
  require
      (is_dict v
        && has_exactly ("type" ∷ "cost" ∷ "progress_times100" ∷ "turns_left_with_overflow" ∷ [])
            candidate)
      "research_runtime_facts has malformed candidate"
  require (is_id_text "TECH_" (get "type" candidate))
      "research_runtime_facts has invalid candidate type"
  for_each
      (λ f.
        require (is_int_from (pos 0) (get f candidate))
          ("research_runtime_facts candidate has invalid " ++ f))
      ("cost" ∷ "progress_times100" ∷ "turns_left_with_overflow" ∷ [])

abbrev text_before : Value → Value → Bool
text_before (str s) (str t) = elim (compare s t) [ Ordering.lt ↦ true | _ ↦ false ]
text_before _ _ = false

-- `sorted(set(ts) | {t})` for a sorted list of distinct texts
abbrev insert_sorted : Value → List Value → List Value
insert_sorted t [] = t ∷ []
insert_sorted t (u ∷ us) =
    if value_eq t u then u ∷ us else if text_before t u then t ∷ u ∷ us else u ∷ insert_sorted t us

expected_types : GameState → List Value
unfolding value_eq
expected_types s =
    if is_null s.research
    then items_of s.researchable_technologies
    else insert_sorted (get "type" (fields_of s.research)) (items_of s.researchable_technologies)

type_of : Value → Value
type_of v = get "type" (fields_of v)

unfoldable pub validate_supported_facts : GameState → Fields → Result (Unit {0})
unfolding validate_research_runtime_candidate expected_types type_of is_stable_sorted is_unique
validate_supported_facts s facts = do
  let candidates = items_of (get "candidates" facts)
  let types = map type_of candidates
  let current = get "current" facts
  let matching = first (λ c. value_eq (type_of c) (type_of s.research)) candidates
  require (is_null (get "reason" facts)) "supported research_runtime_facts cannot have reason"
  require (is_str "action_window_after_interturn_research_resolution" (get "phase" facts))
      "supported research_runtime_facts has invalid phase"
  require (is_str "normal" (get "mode" (fields_of s.research_choice)) && truthy s.turn_active)
      "supported research_runtime_facts is outside ordinary active mode"
  for_each
      (λ f.
        require (is_int_from (pos 0) (get f facts)) ("research_runtime_facts has invalid " ++ f))
      ("science_per_turn_times100" ∷ "overflow_research" ∷ [])
  require (is_list (get "candidates" facts)) "research_runtime_facts candidates must be a list"
  for_each validate_research_runtime_candidate candidates
  in_order ← is_stable_sorted types
  unique ← is_unique types
  require (in_order && unique) "research_runtime_facts candidates must be sorted and unique"
  require (value_eq (list (to_items types)) (list (to_items (expected_types s))))
      "research_runtime_facts candidates disagree with researchable technologies"
  (if is_null s.research
      then require (is_null current) "research_runtime_facts current must be null"
      else (do
        require (is_dict current) "research_runtime_facts current is missing"
        require (elim matching [ none ↦ false | some c ↦ value_eq current c ])
            "research_runtime_facts current must match its candidate"
        require (value_eq (get "cost" (fields_of current)) (get "cost" (fields_of s.research)))
            "research_runtime_facts current cost disagrees with research"))

unfoldable pub validate_unsupported_facts : GameState → Fields → Result (Unit {0})
validate_unsupported_facts s facts = do
  let reason = get "reason" facts
  let mode = get "mode" (fields_of s.research_choice)
  known ← in_set reason (
      "free_technology_mode" ∷ "technology_steal_mode" ∷ "outside_action_window"
      ∷ "runtime_api_binding_unavailable" ∷ [])
  require known "research_runtime_facts has invalid unsupported reason"
  require (is_str "outside_action_window" (get "phase" facts))
      "unsupported research_runtime_facts has invalid phase"
  require
      (all (λ f. is_null (get f facts))
          ("science_per_turn_times100" ∷ "overflow_research" ∷ "current" ∷ [])
        && value_eq (get "candidates" facts) (list nil))
      "unsupported research_runtime_facts contains partial facts"
  require
      (is_str
        (if is_str "runtime_api_binding_unavailable" reason then "unavailable" else "unsupported")
        (get "status" facts))
      "research_runtime_facts status disagrees with reason"
  require (not (is_str "free_technology_mode" reason) || is_str "free_technology" mode)
      "research_runtime_facts free mode disagrees with research_choice"
  require (not (is_str "technology_steal_mode" reason) || is_str "unsupported" mode)
      "research_runtime_facts steal mode disagrees with research_choice"

unfoldable pub validate_research_runtime_facts : GameState → Result (Unit {0})
unfolding validate_supported_facts validate_unsupported_facts has_exactly value_eq
validate_research_runtime_facts s = do
  let facts = fields_of s.research_runtime_facts
  let status = get "status" facts
  require (is_dict s.research_runtime_facts && has_exactly facts_fields facts)
      "schema 8 requires exact research_runtime_facts"
  require (value_eq (get "capability_version" facts) (int (pos 1)))
      "research_runtime_facts has invalid capability_version"
  require (value_eq (get "field_provenance" facts) expected_provenance)
      "research_runtime_facts has invalid field_provenance"
  (if is_str "supported" status then validate_supported_facts s facts else (do
    known ← in_set status ("unsupported" ∷ "unavailable" ∷ [])
    if known
        then validate_unsupported_facts s facts
        else err (invalid "research_runtime_facts has invalid status")))

-- The names of the set `dimensions`, whose order Python does not fix: it only decides which of
-- several refusals is reported.
