-- ===== src/Plan/Structure.antt =====
-- What an accepted plan is: validation changes nothing, and the plan can be executed as it stands.
use civ5_agent_macos.Base.{
  ◌↔◌, ◌≤◌, ◌≡◌, refl, ap, ◌∙◌, sym, true, false, not, ◌&&◌, List, [], ◌∷◌, arith, length, is_empty,
  inl, inr,
}
use civ5_agent_macos.Python.{Value, Runtime, ok, is_str, is_nat, Result-cases}
use civ5_agent_macos.Identity.{is_uuid_value, validate_uuid4}
use civ5_agent_macos.Command.{validate_command, validate_arguments, allowed_actions}
use civ5_agent_macos.Plan.{
  PlannedAction, TurnPlan, is_digest, is_version_one, validate_planned_action, validate_actions,
  validate_turn_plan_structure, ends_turn,
}
use civ5_agent_macos.Validation.{member, in_set, is_dict, fields_of}

-- What holds of an action that has been accepted.
pub record IsAcceptedAction (a : PlannedAction) : Type 0 where
  pub identified : is_uuid_value a.command_id ≡ true
  pub allowed : in_set a.action allowed_actions ≡ ok true
  pub with_object : is_dict a.arguments ≡ true
  pub with_arguments : validate_arguments a.action (fields_of a.arguments) ≡ ok tt

module _ (py : Runtime) where
  pub validate_planned_action-eq :
      (a b : PlannedAction) → validate_planned_action py a ≡ ok b → b ≡ a
  unfolding validate_planned_action validate_command validate_uuid4
  validate_planned_action-eq a b h = ground arith

  pub validate_planned_action-accepts :
      (a b : PlannedAction) → validate_planned_action py a ≡ ok b → IsAcceptedAction a
  unfolding validate_planned_action validate_command validate_uuid4
  validate_planned_action-accepts a b h = ground arith

  pub validate_actions-eq :
      (seen : List Value) (xs ys : List PlannedAction)
      → validate_actions py seen xs ≡ ok ys
      → ys ≡ xs
  unfolding validate_actions
  validate_actions-eq seen [] ys h = cc
  validate_actions-eq seen (x ∷ xs) ys h = elim (Result-cases (validate_planned_action py x)) [
    | inr (e, p) ↦ ground arith
    | inl (x', p) ↦ elim (Result-cases (validate_actions py (x'.command_id ∷ seen) xs)) [
      | inr (e, q) ↦ ground arith
      | inl (zs, q) ↦ ground (
        arith,
        validate_planned_action-eq x x' p,
        validate_actions-eq (x'.command_id ∷ seen) xs zs q,
      )
    ]
  ]

-- The command ids of the actions are new, one after the other, and only the last action ends the
-- turn.
abbrev pub IsOrderly : List Value → List PlannedAction → Type 0
IsOrderly seen [] = Unit
IsOrderly seen (a ∷ rest) =
    IsAcceptedAction a
    × (member a.command_id seen ≡ false)
    × ((is_str "end_turn" a.action && not (is_empty rest)) ≡ false)
    × IsOrderly (a.command_id ∷ seen) rest

module _ (py : Runtime) where
  pub validate_actions-IsOrderly :
      (seen : List Value) (xs ys : List PlannedAction)
      → validate_actions py seen xs ≡ ok ys
      → IsOrderly seen xs
  unfolding validate_actions
  validate_actions-IsOrderly seen [] ys h = tt
  validate_actions-IsOrderly seen (x ∷ xs) ys h =
      elim (Result-cases (validate_planned_action py x)) [
        | inr (e, p) ↦ ground arith
        | inl (x', p) ↦ elim (Result-cases (validate_actions py (x'.command_id ∷ seen) xs)) [
          | inr (e, q) ↦ ground arith
          | inl (zs, q) ↦
              let same : x' ≡ x = validate_planned_action-eq py x x' p in
              (
                validate_planned_action-accepts py x x' p,
                ground arith,
                ground arith,
                rw (← same) (validate_actions-IsOrderly (x'.command_id ∷ seen) xs zs q),
              )
        ]
      ]

-- A plan that can be executed: bounded, bound to its ids and basis, its actions accepted and
-- orderly, and `end_turn` the last of them.
pub record IsExecutable (p : TurnPlan) : Type 0 where
  pub version : is_version_one p.schema_version ≡ true
  pub identified : is_uuid_value p.plan_id ≡ true
  pub in_session : is_uuid_value p.bridge_session_id ≡ true
  pub at_turn : is_nat p.turn ≡ true
  pub by_player : is_nat p.active_player ≡ true
  pub based : is_digest p.state_basis_digest ≡ true
  pub bounded : length p.actions ≤ 64
  pub orderly : IsOrderly [] p.actions
  pub ending : ends_turn p.actions ≡ true

module _ (py : Runtime) where
  structure_cases :
      (p q : TurnPlan) → validate_turn_plan_structure py p ≡ ok q → (q ≡ p) × IsExecutable p
  unfolding validate_turn_plan_structure validate_uuid4
  structure_cases p q h = elim (Result-cases (validate_actions py [] p.actions)) [
    | inr (e, g) ↦ ground arith
    | inl (ys, g) ↦
        let same : ys ≡ p.actions = validate_actions-eq py [] p.actions ys g in
        (
          ground arith,
          record {
            version = ground arith;
            identified = ground arith;
            in_session = ground arith;
            at_turn = ground arith;
            by_player = ground arith;
            based = ground arith;
            bounded = ground arith;
            orderly = validate_actions-IsOrderly py [] p.actions ys g;
            ending = ground arith;
          },
        )
  ]

  validate_planned_action_complete :
      (a : PlannedAction) → IsAcceptedAction a → validate_planned_action py a ≡ ok a
  unfolding validate_planned_action validate_command validate_uuid4
  validate_planned_action_complete a h = ground arith

  validate_actions_complete :
      (seen : List Value) (xs : List PlannedAction)
      → IsOrderly seen xs
      → validate_actions py seen xs ≡ ok xs
  unfolding validate_actions
  validate_actions_complete seen [] h = refl
  validate_actions_complete seen (x ∷ xs) (accepted, new, last, rest) =
      rw (validate_planned_action_complete x accepted)
        (ground (arith, validate_actions_complete (x.command_id ∷ seen) xs rest))

  pub structure_complete :
      (p : TurnPlan) → IsExecutable p → validate_turn_plan_structure py p ≡ ok p
  unfolding validate_turn_plan_structure validate_uuid4
  structure_complete p h =
      rw (validate_actions_complete [] p.actions h.orderly)
        (ground (arith, h.version, h.identified, h.in_session, h.at_turn, h.by_player, h.based))

  -- Validation returns the plan that it was given.
  pub validate_turn_plan_structure-eq :
      (p q : TurnPlan) → validate_turn_plan_structure py p ≡ ok q → q ≡ p
  validate_turn_plan_structure-eq p q h = (structure_cases p q h).0

  pub structure-IsExecutable :
      (p q : TurnPlan) → validate_turn_plan_structure py p ≡ ok q → IsExecutable p
  structure-IsExecutable p q h = (structure_cases p q h).1

  -- `validate_turn_plan_structure` accepts exactly the executable plans, and returns them unchanged:
  -- version 1, canonical UUIDv4 ids, a natural turn and player, a SHA-256 basis, 1 to 64 actions,
  -- each an enabled action with valid arguments and a command id that no earlier one has, and
  -- `end_turn` as the last action and no other.
  pub validate_turn_plan_structure_iff :
      (p q : TurnPlan) → (validate_turn_plan_structure py p ≡ ok q) ↔ ((q ≡ p) × IsExecutable p)
  validate_turn_plan_structure_iff p q =
      (structure_cases p q, λ h. structure_complete p h.1 ∙ ap ok (sym h.0))
