-- ===== src/Executor/Coverage.antt =====
-- Which turn requirements the remaining actions of a plan cover, in turn_executor.py.
pub mod Covers
use Prim.Native.String.{◌++◌}
use mathlib.Core.List
use civ5_agent_macos.Base.{
  Bool, true, false, not, ◌&&◌, ◌||◌, Option, none, some, List, [], ◌∷◌, String, any, first, keep,
  is_empty, map, if◌then◌else◌,
}
use civ5_agent_macos.Python.{Value, Runtime, get, is_null, is_str, value_eq}
use civ5_agent_macos.Plan.{PlannedAction}
use civ5_agent_macos.Requirements.{
  TurnRequirement, Kind, turn_inactive, research_choice, city_production, unit_orders,
  end_turn_blocked,
}
use civ5_agent_macos.Validation.{fields_of, member}

-- An argument of a validated action.
abbrev argument_of : PlannedAction → String → Value
argument_of a name = get name (fields_of a.arguments)

unfoldable pub action_covers : PlannedAction → TurnRequirement → Bool
unfolding value_eq
action_covers a r = elim r.kind [
  | research_choice ↦
      (is_str "normal" r.mode || is_str "legacy_unknown" r.mode)
      && is_str "choose_research" a.action
      && (is_empty r.candidates || member (argument_of a "tech_type") r.candidates)
  | city_production ↦
      is_str "set_city_production" a.action && value_eq (argument_of a "city_id") r.subject_id
  | unit_orders ↦
      (is_str "skip_unit" a.action || is_str "move_unit" a.action || is_str "worker_build" a.action)
      && value_eq (argument_of a "unit_id") r.subject_id
  | _ ↦ false
]

abbrev pub is_blocker : TurnRequirement → Bool
is_blocker r = elim r.kind [ end_turn_blocked ↦ true | _ ↦ false ]

abbrev pub structured : List TurnRequirement → List TurnRequirement
structured rs = keep (λ r. not (is_blocker r)) rs

abbrev pub is_uncovered : List PlannedAction → TurnRequirement → Bool
is_uncovered remaining r = not (any (λ a. action_covers a r) remaining)

unfoldable pub uncovered_requirement :
    List TurnRequirement → List PlannedAction → Option TurnRequirement
unfolding action_covers
uncovered_requirement rs remaining = elim (first (is_uncovered remaining) (structured rs)) [
  | some r ↦ some r
  | none ↦ if is_empty (structured rs) then first is_blocker rs else none
]

abbrev kind_name : Kind → String
kind_name turn_inactive = "turn_inactive"
kind_name research_choice = "research_choice"
kind_name city_production = "city_production"
kind_name unit_orders = "unit_orders"
kind_name end_turn_blocked = "end_turn_blocked"

abbrev join : List String → String
join [] = ""
join (n ∷ []) = n
join (n ∷ m ∷ r) = n ++ ", " ++ join (m ∷ r)

module _ (py : Runtime) where
  -- `repr` of a tuple
  abbrev repr_tuple : List Value → String
  repr_tuple [] = "()"
  repr_tuple (v ∷ []) = "(" ++ py.repr v ++ ",)"
  repr_tuple (v ∷ w ∷ r) = "(" ++ join (map py.repr (v ∷ w ∷ r)) ++ ")"

  abbrev detail : String → Value → List String
  detail name v = if is_null v then [] else (name ++ "=" ++ py.repr v) ∷ []

  abbrev candidate_detail : List Value → List String
  candidate_detail [] = []
  candidate_detail (v ∷ r) = ("candidates=" ++ repr_tuple (v ∷ r)) ∷ []

  unfoldable pub requirement_message : TurnRequirement → String
  requirement_message r =
      let details = List.◌++◌ (detail "subject_id" r.subject_id) (
        List.◌++◌ (detail "mode" r.mode)
          (List.◌++◌ (candidate_detail r.candidates) (detail "blocking_type" r.blocking_type))) in
      if is_empty details then kind_name r.kind else kind_name r.kind ++ ": " ++ join details
