-- ===== src/Validation/Context.antt =====
-- The schema 8 checks of `validate_live_state`: research runtime facts and the runtime context.
use Prim.Native.String.{◌++◌}
use civ5_agent_macos.Base.{
  ℕ, Bool, false, not, ◌&&◌, ◌||◌, List, [], ◌∷◌, String, any, ltb, eqb, codes, is_lower, is_upper,
  text_length, if◌then◌else◌,
}
use civ5_agent_macos.Base.Int.{pos}
use civ5_agent_macos.Python.{
  Value, int, str, Fields, Result, get, has_exactly, require, for_each, is_null, is_text, is_str,
  truthy, value_eq, ◌>>=◌, ◌>>◌,
}
use civ5_agent_macos.Validation.Checks.{is_dict, fields_of, is_id_text, in_set}

abbrev dimensions : List String
dimensions =
    "game_speed" ∷ "difficulty" ∷ "world_size" ∷ "map_script" ∷ "civilization" ∷ "game_family"
    ∷ "game_build" ∷ "active_content" ∷ "ruleset_fingerprint" ∷ []

abbrev status_of : Fields → String → Value
status_of context name = get "status" (fields_of (get name context))

unfoldable pub validate_dimension : Fields → String → Result (Unit {0})
unfolding has_exactly
validate_dimension context name = do
  let item = fields_of (get name context)
  let status = get "status" item
  require (is_dict (get name context) && has_exactly ("status" ∷ "value" ∷ "source" ∷ []) item)
      ("runtime_context has malformed " ++ name)
  (if is_str "available" status
      then (do
        require (is_text (get "value" item) && truthy (get "value" item))
            ("runtime_context has invalid " ++ name ++ " value")
        require (is_text (get "source" item) && truthy (get "source" item))
            ("runtime_context has invalid " ++ name ++ " source"))
      else (do
        known ← in_set status ("unavailable" ∷ "unsupported" ∷ [])
        require known ("runtime_context has invalid " ++ name ++ " status")
        require (is_null (get "value" item) && is_null (get "source" item))
            ("runtime_context " ++ name ++ " must be null")))

-- `value.replace("\\", "/").split("/")`, with the segment read so far, in reverse
segments : List ℕ → List ℕ → List (List ℕ)
segments seen [] = seen ∷ []
segments seen (c ∷ cs) =
    let cut = seen ∷ segments [] cs in
    let on = segments (c ∷ seen) cs in if eqb c b'/' || eqb c 92 then cut else on

-- the segment `..`
is_parent : List ℕ → Bool
is_parent (a ∷ b ∷ []) = eqb a b'.' && eqb b b'.'
is_parent _ = false

-- the reasons for which a map script path is refused
unfoldable pub is_unsafe_map_script : String → Bool
unfolding segments is_parent
is_unsafe_map_script s =
    ltb 512 (text_length s)
    || starts (codes s)
    || drive (codes s)
    || any is_parent (segments [] (codes s))
    || any (λ c. eqb c 0) (codes s)
  where
    starts : List ℕ → Bool
    starts [] = false
    starts (c ∷ cs) = eqb c b'/' || eqb c 92

    drive : List ℕ → Bool
    drive (c ∷ d ∷ cs) = (is_lower c || is_upper c) && eqb d b':'
    drive _ = false

abbrev unsafe_value : Value → Bool
unsafe_value (str s) = is_unsafe_map_script s
unsafe_value _ = false

unfoldable pub validate_runtime_context : Value → Result (Unit {0})
unfolding validate_dimension has_exactly value_eq is_unsafe_map_script
validate_runtime_context v = do
  let context = fields_of v
  let is_status = λ (name : String). λ (status : String). is_str status (status_of context name)
  require (is_dict v && has_exactly ("context_version" ∷ dimensions) context)
      "schema 8 requires exact runtime_context"
  require (value_eq (get "context_version" context) (int (pos 1)))
      "runtime_context has invalid context_version"
  for_each (validate_dimension context) dimensions
  require (is_status "ruleset_fingerprint" "unsupported")
      "runtime_context cannot claim a ruleset fingerprint"
  require (is_status "game_family" "unavailable" && is_status "game_build" "unavailable")
      "runtime_context cannot invent game family or build"
  require (is_status "active_content" "unsupported") "runtime_context cannot claim active content"
  for_each
      (λ (e : String × String).
        require
          (not (is_status e.0 "available")
            || is_id_text e.1 (get "value" (fields_of (get e.0 context))))
          ("runtime_context has invalid " ++ e.0 ++ " identifier"))
      (("game_speed", "GAMESPEED_")
        ∷ ("difficulty", "HANDICAP_")
        ∷ ("world_size", "WORLDSIZE_")
        ∷ ("civilization", "CIVILIZATION_")
        ∷ [])
  require
      (not (
        is_status "map_script" "available"
        && unsafe_value (get "value" (fields_of (get "map_script" context)))))
      "runtime_context has unsafe map_script"
