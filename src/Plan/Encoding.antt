-- ===== src/Plan/Encoding.antt =====
-- models.py: `model_to_dict` of a plan, as JSON holds it, beside `turn_plan_from_dict`.
use civ5_agent_macos.Base.{
  suc, ◌≡◌, refl, ap, true, false, List, [], ◌∷◌, length, is_empty, leb, le→leb, map,
}
use civ5_agent_macos.Python.{
  Value, list, dict, end, field, items, to_items, Runtime, ok, has_exactly,
}
use civ5_agent_macos.Plan.{
  PlannedAction, TurnPlan, ends_turn, planned_actions_from, turn_plan_from_dict,
}
use civ5_agent_macos.Plan.Structure.{IsExecutable, structure_complete}

abbrev pub action_to_dict : PlannedAction → Value
action_to_dict a =
    dict (
      field "command_id" a.command_id (field "action" a.action (field "arguments" a.arguments end)))

abbrev pub turn_plan_to_dict : TurnPlan → Value
turn_plan_to_dict p = dict (
    field "schema_version" p.schema_version (
      field "plan_id" p.plan_id (
        field "bridge_session_id" p.bridge_session_id (
          field "turn" p.turn (
            field "active_player" p.active_player (
              field "state_basis_digest" p.state_basis_digest
                (field "actions" (list (to_items (map action_to_dict p.actions))) end)))))))

items-to_items : (vs : List Value) → items (to_items vs) ≡ vs
items-to_items [] = refl
items-to_items (v ∷ vs) = ap (λ r. v ∷ r) (items-to_items vs)

length-map : (xs : List PlannedAction) → length (map action_to_dict xs) ≡ length xs
length-map [] = refl
length-map (x ∷ xs) = ap suc (length-map xs)

nonempty :
    (xs : List PlannedAction) → ends_turn xs ≡ true → is_empty (map action_to_dict xs) ≡ false
nonempty [] h = cc
nonempty (x ∷ xs) h = refl

module _ (py : Runtime) where
  planned_actions_from-map :
      (xs : List PlannedAction) → planned_actions_from py (map action_to_dict xs) ≡ ok xs
  unfolding planned_actions_from has_exactly
  planned_actions_from-map [] = refl
  planned_actions_from-map (x ∷ xs) = rw (planned_actions_from-map xs) refl

  -- An executable plan that is written as JSON is read back as it was.
  pub turn_plan_from_dict-to_dict :
      (p : TurnPlan) → IsExecutable p → turn_plan_from_dict py (turn_plan_to_dict p) ≡ ok p
  unfolding turn_plan_from_dict has_exactly
  turn_plan_from_dict-to_dict p h =
      let few : leb (length (map action_to_dict p.actions)) 64 ≡ true =
        le→leb _ _ (rw (length-map p.actions) h.bounded) in
      rw (items-to_items (map action_to_dict p.actions)) (
        rw (nonempty p.actions h.ending, few, planned_actions_from-map p.actions)
          (structure_complete py p h))
