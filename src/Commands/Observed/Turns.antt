-- ===== src/Commands/Observed/Turns.antt =====
-- command.py: the results of `execute_end_turn` and `execute_choose_research`.
use civ5_agent_macos.Base.{ℕ, ◌≡◌, refl, true, false, Bool, some, String, Bool-cases, inl, inr}
use civ5_agent_macos.Python.{Value, Runtime, ok, is_text}
use civ5_agent_macos.State.{GameState}
use civ5_agent_macos.Command.{Command}
use civ5_agent_macos.Executor.Steps.{CommandResult}
use civ5_agent_macos.Commands.{Client, arg, read_validated, is_taken}
use civ5_agent_macos.Commands.Turns.{
  turn_advanced, researches, check_turn, end_turn_requested, execute_end_turn, check_research,
  research_requested, research_from, execute_choose_research,
}
use civ5_agent_macos.Commands.Observed.{
  Returns, Shows, success-Shows, nothing-Shows, then_act-Returns, verify-Returns,
}

module _ {World : Type 0} (py : Runtime) (client : Client World) (verify_timeout : ℕ)
    (limit : String) (c : Command) where
  check_turn-Shows :
      (before s : GameState) (r : CommandResult)
      → check_turn py client verify_timeout limit c before s ≡ ok (some r)
      → Shows c turn_advanced r
  check_turn-Shows before s r h = elim (Bool-cases (turn_advanced before s)) [
    | inr n ↦ nothing-Shows c turn_advanced r (rw n at h)
    | inl k ↦ success-Shows c turn_advanced _ before s r (rw k at h) k
  ]

  end_turn_requested-Returns :
      (before : GameState) (answer : Bool × Value) (w : World)
      → Returns
          (Shows c turn_advanced)
          (end_turn_requested py client verify_timeout limit c before answer w)
  unfolding end_turn_requested
  end_turn_requested-Returns before (false, blocking_type) w = (refl, λ h. cc)
  end_turn_requested-Returns before (true, blocking_type) w =
      verify-Returns py client (check_turn py client verify_timeout limit c before)
        (Shows c turn_advanced) (check_turn-Shows before) verify_timeout before _ w
        (λ s. (refl, λ h. cc))

  -- Whatever `execute_end_turn` returns is the result of its command, and it reports success only
  -- where the turn of the state after it is later than that of the state before it.
  pub execute_end_turn-Shows :
      (w : World)
      → Returns (Shows c turn_advanced) (execute_end_turn py client verify_timeout limit c w)
  unfolding execute_end_turn
  execute_end_turn-Shows w =
      then_act-Returns (Shows c turn_advanced) (read_validated py client w) _ (λ before v.
        then_act-Returns (Shows c turn_advanced) (client.request_end_turn v) _
          (λ answer u. end_turn_requested-Returns before answer u))

  -- the research of the state after is the one that the command names
  abbrev pub chosen : GameState → GameState → Bool
  chosen before after = researches (arg c "tech_type") after

  check_research-Shows :
      (before s : GameState) (r : CommandResult)
      → check_research py client verify_timeout limit c (arg c "tech_type") before s ≡ ok (some r)
      → Shows c chosen r
  check_research-Shows before s r h = elim (Bool-cases (researches (arg c "tech_type") s)) [
    | inr n ↦ nothing-Shows c chosen r (rw n at h)
    | inl k ↦ success-Shows c chosen _ before s r (rw k at h) k
  ]

  research_requested-Returns :
      (before : GameState) (answer : Value × Value) (w : World)
      → Returns
          (Shows c chosen)
          (research_requested py client verify_timeout limit c (arg c "tech_type") before answer w)
  unfolding research_requested
  research_requested-Returns before (status, tech_id) w = elim (Bool-cases (is_taken status)) [
    | inr n ↦ rw (n, research_requested) (refl, λ h. cc)
    | inl k ↦
        rw (k, research_requested)
          (verify-Returns py client
            (check_research py client verify_timeout limit c (arg c "tech_type") before)
            (Shows c chosen) (check_research-Shows before) verify_timeout before _ w
            (λ s. (refl, λ h. cc)))
  ]

  research_from-Returns :
      (before : GameState) (w : World)
      → Returns
          (Shows c chosen)
          (research_from py client verify_timeout limit c (arg c "tech_type") before w)
  unfolding research_from
  research_from-Returns before w = elim (Bool-cases (researches (arg c "tech_type") before)) [
    | inl k ↦ rw (k, research_from) (refl, λ t. (before, before, refl, refl, k))
    | inr n ↦
        rw (n, research_from)
          (then_act-Returns (Shows c chosen) (client.request_choose_research (arg c "tech_type") w)
            _ (research_requested-Returns before))
  ]

  -- Whatever `execute_choose_research` returns is the result of its command, and it reports success
  -- only where the state after it has the research that the command names.
  pub execute_choose_research-Shows :
      (w : World)
      → Returns (Shows c chosen) (execute_choose_research py client verify_timeout limit c w)
  unfolding execute_choose_research
  execute_choose_research-Shows w = elim (Bool-cases (is_text (arg c "tech_type"))) [
    | inr n ↦ rw (n, execute_choose_research) (refl, λ h. cc)
    | inl k ↦
        rw (k, execute_choose_research)
          (then_act-Returns (Shows c chosen) (read_validated py client w) _ research_from-Returns)
  ]
