-- ===== src/Commands/Terminates.antt =====
-- command.py: the loop that waits for a result ends, by its deadline at the latest.
use civ5_agent_macos.Base.{
  ℕ, zero, suc, ◌+◌, ◌-◌, ◌≡◌, refl, ◌≤◌, ◌<◌, Option, none, some, arith, ltb, ltb→lt, Bool-cases,
  inl, inr, ◌⊎◌, false,
}
use civ5_agent_macos.Python.{Error, Runtime, Result, ok, err}
use civ5_agent_macos.State.{GameState}
use civ5_agent_macos.Validation.{validate_live_state}
use civ5_agent_macos.Executor.Steps.{CommandResult}
use civ5_agent_macos.Commands.{Client, is_value_error, then_act, lift, read_validated}
use civ5_agent_macos.Commands.Polling.{
  Polled, Check, observed, broken, timed_out, out_of_fuel, after_check, after_reading, poll,
  polled_result, verify,
}

-- A sleep takes one unit of time at least, and a reading does not turn the clock back.
pub record IsTicking {World : Type 0} (client : Client World) : Type 0 where
  pub sleep_ticks : (w : World) → client.monotonic w < client.monotonic (client.sleep w)
  pub read_ticks : (w : World) → client.monotonic w ≤ client.monotonic (client.read_game_state w).0

module _ {World : Type 0} (py : Runtime) (client : Client World) where
  pub read_validated-monotonic :
      IsTicking client
      → (w : World) → client.monotonic w ≤ client.monotonic (read_validated py client w).0
  unfolding read_validated
  read_validated-monotonic ticks w = go (client.read_game_state w) (ticks.read_ticks w)
    where
      go :
          (x : World × Result GameState)
          → client.monotonic w ≤ client.monotonic x.0
          → client.monotonic w
            ≤ client.monotonic (then_act x (λ s. lift (validate_live_state py s))).0
      go (v, ok s) h = h
      go (v, err e) h = h

  -- a validated state that was read
  abbrev pub IsRead : GameState → Type 0
  IsRead s = (u : World) × ((read_validated py client u).1 ≡ ok s)

  module _ (check : Check) (before : GameState) (deadline : ℕ) where
    -- A result was seen in a state that was read, or the deadline has passed and the last state is
    -- that before or one that was read. An exception is that of the check of such a state, or that of
    -- a reading, and then no `ValueError`.
    abbrev pub Seen : CommandResult → Type 0
    Seen r = (s : GameState) × IsRead s × (check s ≡ ok (some r))

    abbrev pub IsLast : GameState → World → Type 0
    IsLast s v = ((s ≡ before) ⊎ IsRead s) × (deadline ≤ client.monotonic v)

    abbrev pub Breaks : Error → Type 0
    Breaks e =
        ((s : GameState) × IsRead s × (check s ≡ err e))
        ⊎ ((u : World) × ((read_validated py client u).1 ≡ err e) × (is_value_error e ≡ false))

    abbrev Ends : World × Polled → Type 0
    Ends (v, observed r) = Seen r
    Ends (v, broken e) = Breaks e
    Ends (v, timed_out s) = IsLast s v
    Ends (v, out_of_fuel) = ⊥

    -- the same of what a command comes to behind its loop
    abbrev pub Settled : (GameState → CommandResult) → World × Result CommandResult → Type 0
    Settled late (v, ok r) = Seen r ⊎ ((s : GameState) × IsLast s v × (r ≡ late s))
    Settled late (v, err e) = Breaks e

    after_check-Ends :
        (s : GameState) (r : Result (Option CommandResult)) (w : World)
        (next : GameState → World × Polled)
        → IsRead s
        → check s ≡ r
        → ((t : GameState) → IsRead t → Ends (next t))
        → Ends (after_check py client check s r w next)
    unfolding after_check
    after_check-Ends s (err e) w next read k h = inl (s, read, k)
    after_check-Ends s (ok (some r)) w next read k h = (s, read, k)
    after_check-Ends s (ok none) w next read k h = h s read

    after_reading-Ends :
        (u : World) (last : GameState) (x : World × Result GameState)
        (next : GameState → World → World × Polled)
        → (read_validated py client u).1 ≡ x.1
        → (last ≡ before) ⊎ IsRead last
        → ((t : GameState) → (t ≡ before) ⊎ IsRead t → Ends (next t x.0))
        → Ends (after_reading py client check last x next)
    unfolding after_reading
    after_reading-Ends u last (w, ok s) next k l h =
        after_check-Ends s (check s) w (λ t. next t w) (u, k) refl (λ t r. h t (inr r))
    after_reading-Ends u last (w, err e) next k l h = elim (Bool-cases (is_value_error e)) [
      | inl m ↦ rw (m, after_reading) (h last l)
      | inr m ↦ rw (m, after_reading) (inr (u, k, m))
    ]

    -- a loop with one round more than units of time are left until its deadline ends
    poll-Ends :
        IsTicking client
        → (fuel : ℕ) (last : GameState) (w : World) → deadline - client.monotonic w < fuel
        → (last ≡ before) ⊎ IsRead last
        → Ends (poll py client check fuel deadline last w)
    unfolding poll
    poll-Ends ticks zero last w h l = absurd (omega arith)
    poll-Ends ticks (suc fuel) last w h l = elim (Bool-cases (ltb (client.monotonic w) deadline)) [
      | inr late ↦ rw (late, poll) (l, ground arith)
      | inl early ↦
          let x = read_validated py client (client.sleep w) in
          let ticked = ticks.sleep_ticks w in
          let kept = read_validated-monotonic ticks (client.sleep w) in
          let sooner = ltb→lt (client.monotonic w) deadline early in
          rw (early, poll)
            (after_reading-Ends (client.sleep w) last x (poll py client check fuel deadline) refl l
              (λ t r. poll-Ends ticks fuel t x.0 (omega arith) r))
    ]

    polled_result-Settled :
        (late : GameState → CommandResult) (x : World × Polled)
        → Ends x
        → Settled late (polled_result late x)
    polled_result-Settled late (v, observed r) h = inl h
    polled_result-Settled late (v, broken e) h = h
    polled_result-Settled late (v, timed_out s) h = inr (s, h, refl)
    polled_result-Settled late (v, out_of_fuel) h = absurd h

  -- Where a sleep takes a unit of time at least and no reading sets the clock back, the loop behind a
  -- request ends. What it returns is a result that its check found in a validated state which was
  -- read, or, at the deadline and not before, the result for the last state: that before the request
  -- or one which was read. What it raises is the exception of the check of a state which was read, or
  -- of a reading, and the latter is no `ValueError`.
  pub verify-Ends :
      IsTicking client
      → (verify_timeout : ℕ) (check : Check) (before : GameState) (late : GameState → CommandResult)
        (w : World)
      → Settled check before
          (client.monotonic w + verify_timeout)
          late
          (verify py client verify_timeout check before late w)
  unfolding verify
  verify-Ends ticks verify_timeout check before late w =
      let deadline = client.monotonic w + verify_timeout in
      polled_result-Settled check before deadline late
        (poll py client check (suc verify_timeout) deadline before w)
        (poll-Ends check before deadline ticks (suc verify_timeout) before w (omega arith)
          (inl refl))
