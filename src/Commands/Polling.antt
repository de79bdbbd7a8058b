-- ===== src/Commands/Polling.antt =====
-- command.py of civ5_agent: the loop that reads the state until a deadline. It takes fuel, one for
-- each reading.
use civ5_agent_macos.Base.{ℕ, zero, suc, ◌+◌, Option, none, some, ltb, if◌then◌else◌}
use civ5_agent_macos.Python.{Error, unexpected, Runtime, Result, ok, err}
use civ5_agent_macos.State.{GameState}
use civ5_agent_macos.Executor.Steps.{CommandResult}
use civ5_agent_macos.Commands.{Act, Client, is_value_error, read_validated}

-- how the loop ended: a result, an exception, or the last validated state at the deadline
pub data Polled : Type 0 where
  observed : CommandResult → Polled
  broken : Error → Polled
  timed_out : GameState → Polled
  out_of_fuel : Polled

-- what the body of the loop makes of a state: a result, or nothing yet
abbrev pub Check : Type 0
Check = GameState → Result (Option CommandResult)

module _ {World : Type 0} (py : Runtime) (client : Client World) (check : Check) where
  -- behind a reading: the loop goes on from the state that is the last one then
  unfoldable pub after_check :
      GameState
      → Result (Option CommandResult)
      → World
      → (GameState → World × Polled)
      → World × Polled
  after_check s (err e) w next = (w, broken e)
  after_check s (ok (some r)) w next = (w, observed r)
  after_check s (ok none) w next = next s

  unfoldable pub after_reading :
      GameState → World × Result GameState → (GameState → World → World × Polled) → World × Polled
  unfolding after_check
  after_reading last (w, ok s) next = after_check s (check s) w (λ t. next t w)
  after_reading last (w, err e) next = if is_value_error e then next last w else (w, broken e)

  unfoldable pub poll : ℕ → ℕ → GameState → World → World × Polled
  unfolding after_reading
  poll zero deadline last w = (w, out_of_fuel)
  poll (suc fuel) deadline last w =
      let round =
        after_reading last (read_validated py client (client.sleep w)) (poll fuel deadline) in
      if ltb (client.monotonic w) deadline then round else (w, timed_out last)

-- the result of a command behind its loop
abbrev pub polled_result :
    {World : Type 0} → (GameState → CommandResult) → World × Polled → World × Result CommandResult
polled_result late (w, observed r) = (w, ok r)
polled_result late (w, broken e) = (w, err e)
polled_result late (w, timed_out s) = (w, ok (late s))
polled_result late (w, out_of_fuel) = (w, err (unexpected "out of fuel"))

-- `deadline = time.monotonic() + verify_timeout`, and the loop: of the units until the deadline each
-- round takes one at least, so the fuel is one more
unfoldable pub verify :
    {World : Type 0}
    → Runtime
    → Client World
    → ℕ
    → Check
    → GameState
    → (GameState → CommandResult)
    → Act World CommandResult
verify py client verify_timeout check before late w =
    polled_result late
      (poll py client check (suc verify_timeout) (client.monotonic w + verify_timeout) before w)
