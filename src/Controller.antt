-- ===== src/Controller.antt =====
-- controller.py of civ5_agent: `decide`. The command line around it is not modelled.
pub mod Decides
use Prim.Native.String.{◌++◌}
use civ5_agent_macos.Base.{List, [], ◌∷◌, String, if◌then◌else◌}
use civ5_agent_macos.Python.{Value, Runtime, Result, ok, is_str, ◌>>=◌}
use civ5_agent_macos.State.{GameState}
use civ5_agent_macos.Validation.{validate_live_state}
use civ5_agent_macos.Requirements.{
  TurnRequirement, turn_inactive, research_choice, city_production, unit_orders, end_turn_blocked,
  inspect_turn_requirements,
}

pub data DecidedAction : Type 0 where
  wait manual_required end_turn : DecidedAction

pub record Decision : Type 0 where
  pub action : DecidedAction
  pub reason : String

abbrev pub decision : DecidedAction → String → Decision
decision action reason = record { action = action; reason = reason }

module _ (py : Runtime) where
  -- the decision that the first requirement leads to
  unfoldable pub decide_requirement : TurnRequirement → Decision
  decide_requirement r = elim r.kind [
    | turn_inactive ↦ decision wait "active player's turn is not active"
    | research_choice ↦
        if is_str "free_technology" r.mode
        then decision manual_required "choose free technology"
        else if is_str "unsupported" r.mode
        then decision manual_required "unsupported research choice"
        else decision manual_required "choose research"
    | city_production ↦ decision manual_required "choose city production"
    | unit_orders ↦ decision manual_required "issue unit orders"
    | end_turn_blocked ↦
        decision manual_required ("Civ V end-turn blocker " ++ py.repr r.blocking_type)
  ]

  unfoldable pub decide_requirements : List TurnRequirement → Decision
  decide_requirements [] = decision end_turn "all observed mandatory choices are complete"
  decide_requirements (r ∷ _) = decide_requirement r

  unfoldable pub decide : GameState → Result Decision
  decide state = do
    checked ← validate_live_state py state
    requirements ← inspect_turn_requirements py state
    ok (decide_requirements requirements)
