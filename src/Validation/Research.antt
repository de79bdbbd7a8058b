-- ===== src/Validation/Research.antt =====
-- The research checks of `validate_live_state`.
use Prim.Native.String.{◌++◌}
use civ5_agent_macos.Base.{
  Bool, not, ◌&&◌, ◌||◌, List, [], ◌∷◌, String, if◌then◌else◌, keep, is_empty, map,
}
use civ5_agent_macos.Base.Int.{pos}
use civ5_agent_macos.Python.{
  Value, str, Result, ok, get, require, for_each, is_bool, is_text, is_null, is_str, truthy, ◌>>=◌,
  ◌>>◌,
}
use civ5_agent_macos.State.{GameState}
use civ5_agent_macos.Validation.Checks.{
  is_dict, items_of, fields_of, is_int_from, member, schema_from, in_set, is_id_text,
  validate_technology_ids,
}

abbrev name_of : Value → String
name_of (str s) = s
name_of _ = ""

abbrev join : List String → String
join [] = ""
join (n ∷ []) = n
join (n ∷ m ∷ r) = n ++ ", " ++ join (m ∷ r)

unfoldable pub validate_current_research : GameState → Result (Unit {0})
validate_current_research s =
    let research = fields_of s.research in
    if is_null s.research then ok tt else (do
      require (is_dict s.research) "research must be an object when present"
      for_each (λ f. require (is_int_from (pos 0) (get f research)) ("research has invalid " ++ f))
          ("id" ∷ "progress" ∷ "cost" ∷ [])
      require (is_text (get "type" research) && truthy (get "type" research))
          "research has invalid type"
      require (not (schema_from 5 s) || is_id_text "TECH_" (get "type" research))
          "research has invalid technology identifier")

-- the technologies that stand in both lists; both are sorted, so this is their sorted order
overlap : GameState → List Value
overlap s =
    keep (λ t. member t (items_of s.researchable_technologies)) (items_of s.researched_technologies)

-- `research is None and bool(researchable_technologies)`
abbrev pub ordinary_required : GameState → Bool
ordinary_required s = is_null s.research && not (is_empty (items_of s.researchable_technologies))

unfoldable pub validate_research_choice : GameState → Result (Unit {0})
validate_research_choice s = do
  let choice = fields_of s.research_choice
  let mode = get "mode" choice
  let needed = get "required" choice
  require (is_dict s.research_choice) "schema 5 requires research_choice"
  require (is_bool needed) "research_choice has invalid required"
  known ← in_set mode ("normal" ∷ "free_technology" ∷ "unsupported" ∷ [])
  require known "research_choice has invalid mode"
  require (truthy needed || is_str "normal" mode)
      "non-required research_choice must use normal mode"
  require
      (not (is_str "normal" mode)
        || (if ordinary_required s then truthy needed else not (truthy needed)))
      "normal research_choice must match ordinary research availability"

unfoldable pub validate_research : GameState → Result (Unit {0})
unfolding validate_current_research overlap validate_research_choice
validate_research s = do
  validate_current_research s
  (if schema_from 5 s
      then (do
        validate_technology_ids s.researched_technologies "researched_technologies"
        validate_technology_ids s.researchable_technologies "researchable_technologies"
        require (is_empty (overlap s)) (
            "technology cannot be both researched and researchable: "
            ++ join (map name_of (overlap s)))
        require
            (not (
              truthy s.research
              && member (get "type" (fields_of s.research)) (items_of s.researched_technologies)))
            "current research is already researched"
        validate_research_choice s)
      else ok tt)
