-- ===== src/Commands/Finds.antt =====
-- command.py: the loop that waits for a result returns one that shows before the deadline.
use civ5_agent_macos.Base.{
  ℕ, zero, suc, ◌+◌, ◌-◌, ◌<◌, ◌≡◌, refl, ap, ◌∙◌, true, none, some, arith, ltb, ltb→lt,
}
use civ5_agent_macos.Python.{Error, Runtime, Result, ok, err}
use civ5_agent_macos.State.{GameState}
use civ5_agent_macos.Executor.Steps.{CommandResult}
use civ5_agent_macos.Commands.{Client, is_value_error, read_validated}
use civ5_agent_macos.Commands.Polling.{
  Polled, Check, observed, broken, timed_out, out_of_fuel, after_check, after_reading, poll,
  polled_result, verify,
}
use civ5_agent_macos.Commands.Terminates.{IsTicking, read_validated-monotonic}

module _ {World : Type 0} (py : Runtime) (client : Client World) (check : Check) (deadline : ℕ)
    (r : CommandResult) where
  -- From a world the game comes to show a result: in the next reading, or behind one that shows
  -- nothing yet or cannot be read. Every reading is begun before the deadline.
  pub data Appears : World → Type 0 where
    now :
        {w : World} (s : GameState)
        → ltb (client.monotonic w) deadline ≡ true
        → (read_validated py client (client.sleep w)).1 ≡ ok s
        → check s ≡ ok (some r)
        → Appears w
    later :
        {w : World} (s : GameState)
        → ltb (client.monotonic w) deadline ≡ true
        → (read_validated py client (client.sleep w)).1 ≡ ok s
        → check s ≡ ok none
        → Appears (read_validated py client (client.sleep w)).0
        → Appears w
    unreadable :
        {w : World} (e : Error)
        → ltb (client.monotonic w) deadline ≡ true
        → (read_validated py client (client.sleep w)).1 ≡ err e
        → is_value_error e ≡ true
        → Appears (read_validated py client (client.sleep w)).0
        → Appears w

  -- what one reading makes of the loop
  reading_result :
      (last s : GameState) (x : World × Result GameState)
      (next : GameState → World → World × Polled)
      → x.1 ≡ ok s
      → check s ≡ ok (some r)
      → (after_reading py client check last x next).1 ≡ observed r
  unfolding after_reading after_check
  reading_result last s (w, ok t) next h k = let same : t ≡ s = cc in rw (same, k) refl
  reading_result last s (w, err e) next h k = cc

  reading_none :
      (last s : GameState) (x : World × Result GameState)
      (next : GameState → World → World × Polled)
      → x.1 ≡ ok s
      → check s ≡ ok none
      → after_reading py client check last x next ≡ next s x.0
  unfolding after_reading after_check
  reading_none last s (w, ok t) next h k = let same : t ≡ s = cc in rw (same, k) refl
  reading_none last s (w, err e) next h k = cc

  reading_error :
      (last : GameState) (e : Error) (x : World × Result GameState)
      (next : GameState → World → World × Polled)
      → x.1 ≡ err e
      → is_value_error e ≡ true
      → after_reading py client check last x next ≡ next last x.0
  unfolding after_reading
  reading_error last e (w, err f) next h k = let same : f ≡ e = cc in rw (same, k) refl
  reading_error last e (w, ok t) next h k = cc

  -- a round brings the deadline nearer by the fuel that it takes
  sooner :
      IsTicking client
      → (w : World) → ltb (client.monotonic w) deadline ≡ true
      → (fuel : ℕ) → deadline - client.monotonic w < suc fuel
      → deadline - client.monotonic (read_validated py client (client.sleep w)).0 < fuel
  sooner ticks w early fuel h =
      let ticked = ticks.sleep_ticks w in
      let kept = read_validated-monotonic py client ticks (client.sleep w) in
      let before = ltb→lt (client.monotonic w) deadline early in omega arith

  -- the loop observes a result that appears
  pub poll-finds :
      IsTicking client
      → (fuel : ℕ) (last : GameState) (w : World) → deadline - client.monotonic w < fuel
      → Appears w
      → (poll py client check fuel deadline last w).1 ≡ observed r
  unfolding poll
  poll-finds ticks zero last w h shows = absurd (omega arith)
  poll-finds ticks (suc fuel) last w h (now s early e k) =
      rw (early, poll)
        (reading_result last s (read_validated py client (client.sleep w))
          (poll py client check fuel deadline) e k)
  poll-finds ticks (suc fuel) last w h (later s early e k shows) =
      let x = read_validated py client (client.sleep w) in
      let step = reading_none last s x (poll py client check fuel deadline) e k in
      rw (early, poll)
        (ap (λ (y : World × Polled). y.1) step
          ∙ poll-finds ticks fuel s x.0 (sooner ticks w early fuel h) shows)
  poll-finds ticks (suc fuel) last w h (unreadable f early e k shows) =
      let x = read_validated py client (client.sleep w) in
      let step = reading_error last f x (poll py client check fuel deadline) e k in
      rw (early, poll)
        (ap (λ (y : World × Polled). y.1) step
          ∙ poll-finds ticks fuel last x.0 (sooner ticks w early fuel h) shows)

-- the result behind a loop that observed one
result_of :
    {World : Type 0} (late : GameState → CommandResult) (x : World × Polled) (r : CommandResult)
    → x.1 ≡ observed r
    → (polled_result late x).1 ≡ ok r
result_of late (w, observed q) r h = let same : q ≡ r = cc in rw same refl
result_of late (w, broken e) r h = cc
result_of late (w, timed_out s) r h = cc
result_of late (w, out_of_fuel) r h = cc

-- If the game comes to show a result before the deadline, `verify` returns it, however many readings
-- show nothing yet or fail before, where a sleep takes a unit of time at least and no reading sets the
-- clock back.
pub verify-finds :
    {World : Type 0} (py : Runtime) (client : Client World) (check : Check)
    → IsTicking client
    → (verify_timeout : ℕ) (before : GameState) (late : GameState → CommandResult)
      (r : CommandResult) (w : World)
    → Appears py client check (client.monotonic w + verify_timeout) r w
    → (verify py client verify_timeout check before late w).1 ≡ ok r
unfolding verify
verify-finds py client check ticks verify_timeout before late r w shows =
    let deadline = client.monotonic w + verify_timeout in
    result_of late (poll py client check (suc verify_timeout) deadline before w) r (
      poll-finds py client check deadline r ticks (suc verify_timeout) before w (omega arith) shows)
