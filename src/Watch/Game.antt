-- ===== src/Watch/Game.antt =====
-- watch.py: the execution of a command by the functions of command.py, and what a status request is
-- answered then.
use civ5_agent_macos.Base.{
  ℕ, ◌*◌, ◌≡◌, true, Bool, Bool-cases, inl, inr, Option, [], subst, List, String, if◌then◌else◌,
}
use civ5_agent_macos.Base.Int.{ℤ, pos, negsuc}
use civ5_agent_macos.State.{GameState}
use civ5_agent_macos.Executor.Steps.{CommandResult}
use civ5_agent_macos.Python.{
  Value, str, Fields, message_of, Runtime, Result, ok, err, is_str, is_str-eq, get,
}
use civ5_agent_macos.Command.{Command}
use civ5_agent_macos.Requirements.{is_true}
use civ5_agent_macos.Commands.{Client, is_value_error, read_validated}
use civ5_agent_macos.Commands.Turns.{turn_advanced, execute_end_turn, execute_choose_research}
use civ5_agent_macos.Commands.Cities.{execute_city_production}
use civ5_agent_macos.Commands.Units.{execute_skip_unit, execute_move_unit}
use civ5_agent_macos.Commands.Builds.{execute_worker_build}
use civ5_agent_macos.Commands.Observed.{Returns, Shows}
use civ5_agent_macos.Commands.Observed.Turns.{
  chosen, execute_end_turn-Shows, execute_choose_research-Shows,
}
use civ5_agent_macos.Commands.Observed.Cities.{ShowsProduction, execute_city_production-Shows}
use civ5_agent_macos.Commands.Observed.Units.{skipped, execute_skip_unit-Shows}
use civ5_agent_macos.Commands.Observed.Moves.{reached, execute_move_unit-Shows}
use civ5_agent_macos.Commands.Observed.Builds.{erected, execute_worker_build-Shows}
use civ5_agent_macos.Watch.{Backend, Capture, Execution, finished, refused, raised, Safety}
use civ5_agent_macos.Watch.Requests.{command_status}
use civ5_agent_macos.Watch.Traces.{handle_all}
use civ5_agent_macos.Watch.Honest.{Answers, command_status-Answers}

abbrev pub outcome : {World : Type 0} → World × Result CommandResult → World × Execution
outcome (w, ok r) = (w, finished r)
outcome (w, err e) = (w, raised e)

-- `execute_worker_build` raises `CommandValidationError` where its first reading fails by a
-- `ValueError`, and only there.
abbrev pub worker_outcome :
    {World : Type 0} → Result GameState → World × Result CommandResult → World × Execution
worker_outcome first (w, ok r) = (w, finished r)
worker_outcome (ok s) (w, err e) = (w, raised e)
worker_outcome (err f) (w, err e) =
    if is_value_error f then (w, refused (message_of e)) else (w, raised e)

-- a time limit in units of the clock
abbrev pub ticks : ℕ → ℤ → ℕ
ticks per_second (pos n) = n * per_second
ticks per_second (negsuc n) = 0

-- A second has `per_second` units of the clock; `shown` is the text of a time limit.
module _ {World : Type 0} (py : Runtime) (client : Client World) (per_second : ℕ)
    (shown : ℤ → String) where
  unfoldable pub execute_operation : Value → Command → ℤ → World → World × Execution
  execute_operation operation c limit w =
      let timeout = ticks per_second limit in
      if is_str "end_turn" operation
      then outcome (execute_end_turn py client timeout (shown limit) c w)
      else if is_str "choose_research" operation
      then outcome (execute_choose_research py client timeout (shown limit) c w)
      else if is_str "set_city_production" operation
      then outcome (execute_city_production py client timeout (shown limit) c w)
      else if is_str "skip_unit" operation
      then outcome (execute_skip_unit py client timeout (shown limit) c w)
      else if is_str "move_unit" operation
      then outcome (execute_move_unit py client timeout (shown limit) c w)
      else worker_outcome (read_validated py client w).1
          (execute_worker_build py client timeout (shown limit) c w)

  abbrev pub execute_command : Command → ℤ → World → World × Execution
  execute_command c limit w = execute_operation c.action c limit w

  -- what a result of a command means, by its action
  abbrev pub Achieves : Command → CommandResult → Type 0
  Achieves c r =
      (is_str "end_turn" c.action ≡ true → Shows c turn_advanced r)
      × (is_str "choose_research" c.action ≡ true → Shows c (chosen py client 0 "" c) r)
      × (is_str "set_city_production" c.action ≡ true → ShowsProduction py client 0 "" c r)
      × (is_str "skip_unit" c.action ≡ true → Shows c (skipped py client 0 "" c) r)
      × (is_str "move_unit" c.action ≡ true → Shows c (reached py client 0 "" c) r)
      × (is_str "worker_build" c.action ≡ true → Shows c (erected py client 0 "" c) r)

  outcome-Returns :
      (Q : CommandResult → Type 0) (x : World × Result CommandResult) (r : CommandResult)
      → Returns Q x
      → (outcome x).1 ≡ finished r
      → Q r
  outcome-Returns Q (w, ok q) r h k = subst Q (let same : q ≡ r = cc in same) h
  outcome-Returns Q (w, err e) r h k = cc

  worker_outcome-Returns :
      (Q : CommandResult → Type 0) (first : Result GameState) (x : World × Result CommandResult)
      (r : CommandResult)
      → Returns Q x
      → (worker_outcome first x).1 ≡ finished r
      → Q r
  worker_outcome-Returns Q first (w, ok q) r h k = subst Q (let same : q ≡ r = cc in same) h
  worker_outcome-Returns Q (ok s) (w, err e) r h k = cc
  worker_outcome-Returns Q (err f) (w, err e) r h k = elim (Bool-cases (is_value_error f)) [
    | inl m ↦ absurd (let bad : refused (message_of e) ≡ finished r = rw m at k in cc)
    | inr m ↦ absurd (let bad : raised e ≡ finished r = rw m at k in cc)
  ]

  execute_command-Achieves :
      (c : Command) (limit : ℤ) (w : World) (r : CommandResult)
      → (execute_command c limit w).1 ≡ finished r
      → Achieves c r
  unfolding execute_operation
  execute_command-Achieves c limit w r h =
      let timeout = ticks per_second limit in
      let text = shown limit in
      let run : (o : Value) → c.action ≡ o → (execute_operation o c limit w).1 ≡ finished r =
        λ o e. subst (λ v. (execute_operation v c limit w).1 ≡ finished r) e h in
      (
        (λ k.
            outcome-Returns (Shows c turn_advanced) (execute_end_turn py client timeout text c w) r
              (execute_end_turn-Shows py client timeout text c w)
              (run (str "end_turn") (is_str-eq "end_turn" c.action k))),
        (λ k.
            outcome-Returns (Shows c (chosen py client 0 "" c))
              (execute_choose_research py client timeout text c w) r
              (execute_choose_research-Shows py client timeout text c w)
              (run (str "choose_research") (is_str-eq "choose_research" c.action k))),
        (λ k.
            outcome-Returns (ShowsProduction py client 0 "" c)
              (execute_city_production py client timeout text c w) r
              (execute_city_production-Shows py client timeout text c w)
              (run (str "set_city_production") (is_str-eq "set_city_production" c.action k))),
        (λ k.
            outcome-Returns (Shows c (skipped py client 0 "" c))
              (execute_skip_unit py client timeout text c w) r
              (execute_skip_unit-Shows py client timeout text c w)
              (run (str "skip_unit") (is_str-eq "skip_unit" c.action k))),
        (λ k.
            outcome-Returns (Shows c (reached py client 0 "" c))
              (execute_move_unit py client timeout text c w) r
              (execute_move_unit-Shows py client timeout text c w)
              (run (str "move_unit") (is_str-eq "move_unit" c.action k))),
        (λ k.
            worker_outcome-Returns (Shows c (erected py client 0 "" c))
              (read_validated py client w).1 (execute_worker_build py client timeout text c w) r
              (execute_worker_build-Shows py client timeout text c w)
              (run (str "worker_build") (is_str-eq "worker_build" c.action k))),
      )

  -- the backend of a watcher whose client is this one
  abbrev pub game_backend :
      String
      → Bool
      → (World → World × Safety)
      → (Command → Value → World → World × Result (Unit {0}))
      → Option (Capture World)
      → Backend World
  game_backend session_id read_only safety_check audit journal = record {
    session_id = session_id;
    read_only = read_only;
    read_game_state = client.read_game_state;
    safety_check = safety_check;
    execute = execute_command;
    audit = audit;
    journal = journal;
  }

  module _ (session_id : String) (read_only : Bool) (safety_check : World → World × Safety)
      (audit : Command → Value → World → World × Result (Unit {0}))
      (journal : Option (Capture World)) where
    -- However the requests before went, a status request that finds a command is answered the action
    -- and the arguments of a command with that id which one of those requests asked for, by its
    -- operation and its own fields, and a result of that command; and a success among the results was
    -- observed: of each action, the states before and after show what it is to achieve with these
    -- arguments. The client, the safety check, the audit log and the journal may answer and raise
    -- anything.
    pub command_status-Achieves :
        (qs : List (String × Fields)) (w : World) (q a : Fields)
        → command_status py
            (game_backend session_id read_only safety_check audit journal)
            (handle_all py
              (game_backend session_id read_only safety_check audit journal)
              qs
              (record { completed_commands = []; uncertain_commands = [] })
              w).0
            q
          ≡ a
        → is_true (get "found" a) ≡ true
        → Answers Achieves qs q a
    command_status-Achieves =
        command_status-Answers py (game_backend session_id read_only safety_check audit journal)
          Achieves execute_command-Achieves
