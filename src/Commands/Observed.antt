-- ===== src/Commands/Observed.antt =====
-- command.py: what a command reports as its success was observed.
pub mod Builds
pub mod Cities
pub mod Turns
pub mod Units
pub mod Moves
use civ5_agent_macos.Base.{
  ℕ, zero, suc, ◌+◌, ◌≡◌, refl, true, false, Bool, Option, none, some, ltb, Bool-cases, String,
  subst, inl, inr, if◌then◌else◌,
}
use civ5_agent_macos.Python.{Value, Error, Runtime, Result, ok, err, is_str, ◌>>=◌}
use civ5_agent_macos.State.{GameState, game_state_to_dict}
use civ5_agent_macos.Command.{Command}
use civ5_agent_macos.Executor.Steps.{CommandResult}
use civ5_agent_macos.Commands.{
  Act, Client, is_value_error, then_act, read_validated, make_result, failed_result,
}
use civ5_agent_macos.Commands.Polling.{
  Polled, Check, observed, broken, timed_out, out_of_fuel, after_check, after_reading, poll,
  polled_result, verify,
}

-- a postcondition of what a command returns, where it returns
abbrev pub Returns : {World A : Type 0} → (A → Type 0) → World × Result A → Type 0
Returns Q (w, ok a) = Q a
Returns Q (w, err e) = Unit {0}

-- A result is that of its command; a success comes with the states before and after, as they were
-- validated, between which the command was achieved.
abbrev pub Shows : Command → (GameState → GameState → Bool) → CommandResult → Type 0
Shows c achieved r =
    (r.id ≡ c.id)
    × (is_str "success" r.status ≡ true
        → (before : GameState) × (after : GameState) × (r.before ≡ game_state_to_dict before)
          × (r.after ≡ game_state_to_dict after)
          × (achieved before after ≡ true))

module _ (c : Command) (achieved : GameState → GameState → Bool) where
  pub success-Shows :
      (m : String) (before after : GameState) (r : CommandResult)
      → ◌≡◌ {A = Result (Option CommandResult)}
          (ok (
            some
              (make_result c "success" m (game_state_to_dict before) (game_state_to_dict after))))
          (ok (some r))
      → achieved before after ≡ true
      → Shows c achieved r
  success-Shows m before after r h k =
      let same : make_result c "success" m (game_state_to_dict before) (game_state_to_dict after)
          ≡ r =
        cc in
      subst (Shows c achieved) same (refl, λ t. (before, after, refl, refl, k))

  pub failed-Shows : (m : String) (x y : Value) → Shows c achieved (failed_result c m x y)
  failed-Shows m x y = (refl, λ h. cc)

  pub failure-Shows :
      (m : String) (x y : Value) (r : CommandResult)
      → ◌≡◌ {A = Result (Option CommandResult)} (ok (some (failed_result c m x y))) (ok (some r))
      → Shows c achieved r
  failure-Shows m x y r h =
      let same : failed_result c m x y ≡ r = cc in
      subst (Shows c achieved) same (failed-Shows m x y)

  pub nothing-Shows :
      (r : CommandResult)
      → ◌≡◌ {A = Result (Option CommandResult)} (ok none) (ok (some r))
      → Shows c achieved r
  nothing-Shows r h = cc

pub then_act-Returns :
    {World A B : Type 0} (Q : B → Type 0) (x : World × Result A) (next : A → Act World B)
    → ((a : A) (w : World) → Returns Q (next a w))
    → Returns Q (then_act x next)
then_act-Returns Q (w, ok a) next h = h a w
then_act-Returns Q (w, err e) next h = tt

pub if-Returns :
    {World A : Type 0} (Q : A → Type 0) (t : Bool) (x y : World × Result A)
    → (t ≡ true → Returns Q x)
    → (t ≡ false → Returns Q y)
    → Returns Q (if t then x else y)
if-Returns Q true x y h k = h refl
if-Returns Q false x y h k = k refl

-- a postcondition of what a check makes of a state, where it makes a result
abbrev pub Meets : (CommandResult → Type 0) → Result (Option CommandResult) → Type 0
Meets Q (ok (some r)) = Q r
Meets Q (ok none) = Unit {0}
Meets Q (err e) = Unit {0}

pub if-Meets :
    (Q : CommandResult → Type 0) (t : Bool) (x y : Result (Option CommandResult))
    → (t ≡ true → Meets Q x)
    → (t ≡ false → Meets Q y)
    → Meets Q (if t then x else y)
if-Meets Q true x y h k = h refl
if-Meets Q false x y h k = k refl

pub bind-Meets :
    (Q : CommandResult → Type 0) (r : Result Bool) (next : Bool → Result (Option CommandResult))
    → ((t : Bool) → r ≡ ok t → Meets Q (next t))
    → Meets Q (r >>= next)
bind-Meets Q (ok t) next h = h t refl
bind-Meets Q (err e) next h = tt

module _ {World : Type 0} (py : Runtime) (client : Client World) (check : Check)
    (Q : CommandResult → Type 0)
    (sound : (s : GameState) (r : CommandResult) → check s ≡ ok (some r) → Q r) where
  abbrev Sound : World × Polled → Type 0
  Sound (w, observed r) = Q r
  Sound _ = Unit {0}

  after_check-Sound :
      (s : GameState) (answer : Result (Option CommandResult)) (w : World)
      (next : GameState → World × Polled)
      → check s ≡ answer
      → ((t : GameState) → Sound (next t))
      → Sound (after_check py client check s answer w next)
  unfolding after_check
  after_check-Sound s (err e) w next k h = tt
  after_check-Sound s (ok (some r)) w next k h = sound s r k
  after_check-Sound s (ok none) w next k h = h s

  after_reading-Sound :
      (last : GameState) (x : World × Result GameState) (next : GameState → World → World × Polled)
      → ((t : GameState) → Sound (next t x.0))
      → Sound (after_reading py client check last x next)
  unfolding after_reading
  after_reading-Sound last (w, ok s) next h = after_check-Sound s (check s) w (λ t. next t w) refl h
  after_reading-Sound last (w, err e) next h = elim (Bool-cases (is_value_error e)) [
    | inl k ↦ rw (k, after_reading) (h last)
    | inr k ↦ rw (k, after_reading) tt
  ]

  poll-Sound :
      (fuel deadline : ℕ) (last : GameState) (w : World)
      → Sound (poll py client check fuel deadline last w)
  unfolding poll
  poll-Sound zero deadline last w = tt
  poll-Sound (suc fuel) deadline last w = elim (Bool-cases (ltb (client.monotonic w) deadline)) [
    | inr late ↦ rw (late, poll) tt
    | inl early ↦
        let x = read_validated py client (client.sleep w) in
        rw (early, poll)
          (after_reading-Sound last x (poll py client check fuel deadline)
            (λ t. poll-Sound fuel deadline t x.0))
  ]

  polled_result-Returns :
      (late : GameState → CommandResult) (x : World × Polled)
      → ((s : GameState) → Q (late s))
      → Sound x
      → Returns Q (polled_result late x)
  polled_result-Returns late (w, observed r) h k = k
  polled_result-Returns late (w, broken e) h k = tt
  polled_result-Returns late (w, timed_out s) h k = h s
  polled_result-Returns late (w, out_of_fuel) h k = tt

  -- the wait for a result returns one that the check made of a state, or that of the deadline
  pub verify-Returns :
      (verify_timeout : ℕ) (before : GameState) (late : GameState → CommandResult) (w : World)
      → ((s : GameState) → Q (late s))
      → Returns Q (verify py client verify_timeout check before late w)
  unfolding verify
  verify-Returns verify_timeout before late w h =
      polled_result-Returns late
        (poll py client check (suc verify_timeout) (client.monotonic w + verify_timeout) before w) h
        (poll-Sound (suc verify_timeout) (client.monotonic w + verify_timeout) before w)
