-- ===== src/Controller/Decides.antt =====
-- When the controller decides to end the turn, and when to wait.
use civ5_agent_macos.Base.{◌≡◌, refl, ap, ◌∙◌, inl, inr, ◌↔◌, List, [], ◌∷◌, arith}
use civ5_agent_macos.Python.{Runtime, ok, Result-cases}
use civ5_agent_macos.State.{GameState}
use civ5_agent_macos.Validation.{validate_live_state}
use civ5_agent_macos.Requirements.{TurnRequirement, requirements_of, inspect_turn_requirements}
use civ5_agent_macos.Requirements.Ready.{IsReady, requirements_of-none_iff}
use civ5_agent_macos.Controller.{
  Decision, end_turn, decide, decide_requirement, decide_requirements,
}
use civ5_agent_macos.Validation.Unchanged.{validate_live_state-eq}
use civ5_agent_macos.Executor.Gate.{IsLive}

module _ (py : Runtime) where
  decide_requirement-ne-end :
      (r : TurnRequirement) → (decide_requirement py r).action ≡ end_turn → ⊥
  unfolding decide_requirement
  decide_requirement-ne-end r h = ground arith

  decides_end :
      (rs : List TurnRequirement) → ((decide_requirements py rs).action ≡ end_turn) ↔ (rs ≡ [])
  unfolding decide_requirements
  decides_end [] = (λ _. refl, λ _. refl)
  decides_end (r ∷ rs) = (λ h. absurd (decide_requirement-ne-end r h), λ h. cc)

  decide-IsLive :
      (s : GameState) → IsLive py s → decide py s ≡ ok (decide_requirements py (requirements_of s))
  unfolding decide inspect_turn_requirements
  decide-IsLive s v = rw v refl

  IsLive-decide : (s : GameState) (d : Decision) → decide py s ≡ ok d → IsLive py s
  unfolding decide
  IsLive-decide s d h = elim (Result-cases (validate_live_state py s)) [
    | inl (t, p) ↦ p ∙ ap ok (validate_live_state-eq py s t p)
    | inr (e, p) ↦ ground arith
  ]

  -- The controller decides to end the turn exactly in a state that passes the validation and is
  -- ready: the turn is the player's and not blocked, no technology is to be chosen, every city has
  -- a production and no unit waits for orders.
  pub decide-ends_iff :
      (s : GameState)
      → ((d : Decision) × (decide py s ≡ ok d) × (d.action ≡ end_turn)) ↔ (IsLive py s × IsReady s)
  decide-ends_iff s = (to, from)
    where
      to : (d : Decision) × (decide py s ≡ ok d) × (d.action ≡ end_turn) → IsLive py s × IsReady s
      to (d, h, e) =
          let v = IsLive-decide s d h in
          let same : decide_requirements py (requirements_of s) ≡ d =
            ground (arith, decide-IsLive s v) in
          (v, (requirements_of-none_iff s).0 ((decides_end (requirements_of s)).0 (rw same e)))

      from : IsLive py s × IsReady s → (d : Decision) × (decide py s ≡ ok d) × (d.action ≡ end_turn)
      from (v, r) = (
        decide_requirements py (requirements_of s),
        decide-IsLive s v,
        (decides_end (requirements_of s)).1 ((requirements_of-none_iff s).1 r),
      )
