-- ===== src/Commands/Observed/Cities.antt =====
-- command.py: the results of `execute_city_production`.
use civ5_agent_macos.Base.{ℕ, ◌≡◌, refl, true, some, String, subst, Bool-cases, inl, inr, any, ◌&&◌}
use civ5_agent_macos.Python.{Value, Runtime, Result, ok, err, is_nat, is_text, is_str}
use civ5_agent_macos.State.{GameState, game_state_to_dict}
use civ5_agent_macos.Validation.{items_of}
use civ5_agent_macos.Command.{Command}
use civ5_agent_macos.Executor.Postconditions.{has_id}
use civ5_agent_macos.Executor.Steps.{CommandResult}
use civ5_agent_macos.Commands.{Client, then_act, arg, is_taken, read_validated}
use civ5_agent_macos.Commands.Cities.{
  produces, check_production, production_requested, production_from, execute_city_production,
}
use civ5_agent_macos.Commands.Observed.{Returns, then_act-Returns, if-Meets, Meets, verify-Returns}

module _ {World : Type 0} (py : Runtime) (client : Client World) (verify_timeout : ℕ)
    (limit : String) (c : Command) where
  -- The game took the request, and answered what the city would produce then.
  abbrev pub Answers : Value → Type 0
  Answers expected =
      (w : World) × (w' : World) × (status : Value) × (item_id : Value)
      × (client.request_city_production (arg c "city_id") (arg c "kind") (arg c "item_type") w
          ≡ (w', ok (status, item_id, expected)))
      × (is_taken status ≡ true)

  -- A result is that of the command; at a success the city was there before, and produces behind it
  -- what the game answered.
  abbrev pub ShowsProduction : CommandResult → Type 0
  ShowsProduction r =
      (r.id ≡ c.id)
      × (is_str "success" r.status ≡ true
          → (before : GameState) × (after : GameState) × (expected : Value) × (r.before
              ≡ game_state_to_dict before)
            × (r.after ≡ game_state_to_dict after)
            × Answers expected
            × (any (has_id (arg c "city_id")) (items_of before.cities) ≡ true)
            × (produces (arg c "city_id") expected after ≡ true))

  check_production-Shows :
      (before : GameState) (expected : Value)
      → any (has_id (arg c "city_id")) (items_of before.cities) ≡ true
      → Answers expected
      → (s : GameState) (r : CommandResult)
      → check_production py client verify_timeout limit c expected before s ≡ ok (some r)
      → ShowsProduction r
  check_production-Shows before expected there answer s r h = subst (Meets ShowsProduction) h (
      if-Meets ShowsProduction (produces (arg c "city_id") expected s) _ _
        (λ made. (refl, λ t. (before, s, expected, refl, refl, answer, there, made))) (λ n. tt))

  production_requested-Returns :
      (before : GameState)
      → any (has_id (arg c "city_id")) (items_of before.cities) ≡ true
      → (w : World) (x : World × Result (Value × Value × Value))
      → client.request_city_production (arg c "city_id") (arg c "kind") (arg c "item_type") w ≡ x
      → Returns ShowsProduction
          (then_act x (production_requested py client verify_timeout limit c before))
  unfolding production_requested
  production_requested-Returns before there w (w', err e) h = tt
  production_requested-Returns before there w (w', ok (status, item_id, expected)) h =
      elim (Bool-cases (is_taken status)) [
        | inr n ↦ rw (n, production_requested) (refl, λ t. cc)
        | inl taken ↦
            rw (taken, production_requested)
              (verify-Returns py client
                (check_production py client verify_timeout limit c expected before) ShowsProduction
                (check_production-Shows before expected there (w, w', status, item_id, h, taken))
                verify_timeout before _ w' (λ s. (refl, λ t. cc)))
      ]

  production_from-Returns :
      (before : GameState) (w : World)
      → Returns ShowsProduction (production_from py client verify_timeout limit c before w)
  unfolding production_from
  production_from-Returns before w =
      elim (Bool-cases (any (has_id (arg c "city_id")) (items_of before.cities))) [
        | inr n ↦ rw (n, production_from) (refl, λ t. cc)
        | inl there ↦
            rw (there, production_from) (production_requested-Returns before there w _ refl)
      ]

  -- Whatever `execute_city_production` returns is the result of its command, and it reports success
  -- only where the city was there before, the game took the request, and the city produces behind it
  -- what the game answered to that request.
  pub execute_city_production-Shows :
      (w : World)
      → Returns ShowsProduction (execute_city_production py client verify_timeout limit c w)
  unfolding execute_city_production
  execute_city_production-Shows w = elim (Bool-cases (is_nat (arg c "city_id"))) [
    | inr n ↦ rw (n, execute_city_production) (refl, λ t. cc)
    | inl k ↦ elim (Bool-cases (is_text (arg c "kind") && is_text (arg c "item_type"))) [
      | inr n ↦ rw (k, n, execute_city_production) (refl, λ t. cc)
      | inl m ↦
          rw (k, m, execute_city_production)
            (then_act-Returns ShowsProduction (read_validated py client w) _
              production_from-Returns)
    ]
  ]
