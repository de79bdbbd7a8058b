-- ===== src/Plan.antt =====
-- turn_plan.py of civ5_agent: plans, and the checks that a plan passes before it is executed. The
-- reports of an execution are in `Plan/Report`.

pub mod Report
pub mod Structure
pub mod Fresh
pub mod Encoding
use Prim.Native.String.{◌++◌}
use civ5_agent_macos.Base.{
  ℕ, Bool, true, false, not, ◌&&◌, none, some, List, [], ◌∷◌, String, leb, any, length, is_empty,
  last?, is_hex_text, if◌then◌else◌,
}
use civ5_agent_macos.Base.Int.{pos, eq_ℤ}
use civ5_agent_macos.Python.{
  Value, int, str, Runtime, Result, ok, err, stale_plan, get, has_exactly, repr_names, require,
  is_str, is_nat, truthy, value_eq, ◌>>=◌, ◌>>◌,
}
use civ5_agent_macos.Identity.{validate_plan_id, validate_bridge_session_id}
use civ5_agent_macos.Command.{allowed_actions, validate_command}
use civ5_agent_macos.State.{GameState, game_state_to_dict}
use civ5_agent_macos.Validation.{
  is_dict, is_list, fields_of, items_of, in_set, member, schema_from, validate_live_state,
}

pub record PlannedAction : Type 0 where
  pub command_id : Value
  pub action : Value
  pub arguments : Value

pub record TurnPlan : Type 0 where
  pub schema_version : Value
  pub plan_id : Value
  pub bridge_session_id : Value
  pub turn : Value
  pub active_player : Value
  pub state_basis_digest : Value
  pub actions : List PlannedAction

abbrev pub turn_plan_schema_version : Value
turn_plan_schema_version = int (pos 1)

abbrev pub max_plan_actions : ℕ
max_plan_actions = 64

abbrev pub is_digest : Value → Bool
is_digest (str s) = is_hex_text 64 s
is_digest _ = false

-- `if c: raise StaleTurnPlanError(m)`, for the negation of c
abbrev pub require_fresh : Bool → String → Result (Unit {0})
require_fresh true m = ok tt
require_fresh false m = err (stale_plan m)

-- `isinstance(v, int)` and not a boolean, and equal to the supported version
abbrev pub is_version_one : Value → Bool
is_version_one (int z) = eq_ℤ z (pos 1)
is_version_one _ = false

-- `normalized_actions[-1].action == "end_turn"`
abbrev pub ends_turn : List PlannedAction → Bool
ends_turn actions = elim (last? actions) [ none ↦ false | some a ↦ is_str "end_turn" a.action ]

module _ (py : Runtime) where
  unfoldable pub live_state_digest : GameState → Result String
  live_state_digest s = do
    validated ← validate_live_state py s
    ok (py.sha256_json (game_state_to_dict validated))

  unfoldable pub validate_planned_action : PlannedAction → Result PlannedAction
  validate_planned_action a = do
    enabled ← in_set a.action allowed_actions
    require enabled ("action is not enabled for TurnPlan execution: " ++ py.repr a.action)
    command ←
        validate_command py (record { action = a.action; args = a.arguments; id = a.command_id })
    ok (record { command_id = command.id; action = command.action; arguments = command.args })

  -- the loop over `plan.actions`, with the command ids seen so far
  unfoldable pub validate_actions : List Value → List PlannedAction → Result (List PlannedAction)
  validate_actions seen [] = ok []
  validate_actions seen (a ∷ rest) = do
    normalized ← validate_planned_action a
    require (not (member normalized.command_id seen))
        "command_id values must be unique within a plan"
    require (not (is_str "end_turn" normalized.action && not (is_empty rest)))
        "end_turn must be the final action"
    others ← validate_actions (normalized.command_id ∷ seen) rest
    ok (normalized ∷ others)

  unfoldable pub validate_turn_plan_structure : TurnPlan → Result TurnPlan
  validate_turn_plan_structure plan = do
    require (is_version_one plan.schema_version) "unsupported TurnPlan schema_version"
    _ ← validate_plan_id plan.plan_id
    _ ← validate_bridge_session_id plan.bridge_session_id
    require (is_nat plan.turn) "turn must be a non-negative integer"
    require (is_nat plan.active_player) "active_player must be a non-negative integer"
    require (is_digest plan.state_basis_digest) "state_basis_digest must be lowercase SHA-256"
    require (not (is_empty plan.actions) && leb (length plan.actions) max_plan_actions)
        "actions must contain 1 to 64 items"
    normalized ← validate_actions [] plan.actions
    require (ends_turn normalized) "complete-turn plan must end with end_turn"
    ok (record plan { actions = normalized })

  unfoldable pub validate_turn_plan : TurnPlan → GameState → Value → Result TurnPlan
  validate_turn_plan plan state session = do
    normalized ← validate_turn_plan_structure plan
    current_session ← validate_bridge_session_id session
    require_fresh (value_eq normalized.bridge_session_id current_session)
        "TurnPlan targets a different bridge session"
    validated ← validate_live_state py state
    require
        (not (
          any (λ a. is_str "worker_build" a.action) normalized.actions
          && not (schema_from 7 validated)))
        "worker_build requires a schema 7+ state basis"
    require_fresh (truthy validated.turn_active) "active player's turn is not active"
    require_fresh (value_eq normalized.turn validated.turn) "TurnPlan targets a different turn"
    require_fresh (value_eq normalized.active_player validated.active_player)
        "TurnPlan targets a different active player"
    digest ← live_state_digest validated
    require_fresh (is_str digest normalized.state_basis_digest)
        "TurnPlan state basis does not match live state"
    ok normalized

  -- `plan_id or new_plan_id()`: `fresh` is the identifier that the call would make.
  unfoldable pub make_turn_plan :
      GameState → Value → List PlannedAction → Value → Value → Result TurnPlan
  make_turn_plan state session actions plan_id fresh = do
    validated ← validate_live_state py state
    session_id ← validate_bridge_session_id session
    digest ← live_state_digest validated
    validate_turn_plan
        (record {
          schema_version = turn_plan_schema_version;
          plan_id = if truthy plan_id then plan_id else fresh;
          bridge_session_id = session_id;
          turn = validated.turn;
          active_player = validated.active_player;
          state_basis_digest = str digest;
          actions = actions;
        })
        validated session

  unfoldable pub planned_actions_from : List Value → Result (List PlannedAction)
  unfolding has_exactly
  planned_actions_from [] = ok []
  planned_actions_from (v ∷ vs) =
      let d = fields_of v in
      (do
        require (is_dict v && has_exactly ("command_id" ∷ "action" ∷ "arguments" ∷ []) d) (
            "PlannedAction fields must be exactly "
            ++ repr_names ("action" ∷ "arguments" ∷ "command_id" ∷ []))
        rest ← planned_actions_from vs
        ok (
            record {
              command_id = get "command_id" d;
              action = get "action" d;
              arguments = get "arguments" d;
            }
            ∷ rest))

  unfoldable pub turn_plan_from_dict : Value → Result TurnPlan
  unfolding planned_actions_from has_exactly
  turn_plan_from_dict v = do
    let d = fields_of v
    let raw = get "actions" d
    require (is_dict v) "TurnPlan JSON root must be an object"
    require
        (has_exactly
          ("schema_version" ∷ "plan_id" ∷ "bridge_session_id" ∷ "turn" ∷ "active_player"
            ∷ "state_basis_digest" ∷ "actions" ∷ [])
          d)
        ("TurnPlan fields must be exactly "
          ++ repr_names (
              "actions" ∷ "active_player" ∷ "bridge_session_id" ∷ "plan_id" ∷ "schema_version"
              ∷ "state_basis_digest" ∷ "turn" ∷ []))
    require (is_list raw) "TurnPlan actions must be a JSON array"
    require (not (is_empty (items_of raw)) && leb (length (items_of raw)) max_plan_actions)
        "actions must contain 1 to 64 items"
    actions ← planned_actions_from (items_of raw)
    validate_turn_plan_structure (record {
      schema_version = get "schema_version" d;
      plan_id = get "plan_id" d;
      bridge_session_id = get "bridge_session_id" d;
      turn = get "turn" d;
      active_player = get "active_player" d;
      state_basis_digest = get "state_basis_digest" d;
      actions = actions;
    })
