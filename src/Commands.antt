-- ===== src/Commands.antt =====
-- command.py of civ5_agent: what its `execute_...` functions share. The game is a client, whose
-- methods are functions on a world of any type; so is the clock, in units of which at least one
-- passes in `time.sleep(poll_interval)`.
pub mod Polling
pub mod Turns
pub mod Cities
pub mod Units
pub mod Builds
pub mod Terminates
pub mod Finds
pub mod Observed
use Prim.Native.String.{◌++◌}
use civ5_agent_macos.Base.{
  ℕ, Bool, true, false, Option, none, some, List, [], ◌∷◌, String, if◌then◌else◌, first, any, not,
  ◌&&◌, ◌||◌,
}
use civ5_agent_macos.Python.{
  Value, null, str, bool, Fields, Error, stale_plan, invalid, type_error, unavailable, unexpected,
  Runtime, Result, ok, err, find, get, is_int, is_nat, value_eq, is_str,
}
use civ5_agent_macos.State.{GameState, game_state_to_dict}
use civ5_agent_macos.Command.{Command}
use civ5_agent_macos.Validation.{validate_live_state, fields_of, items_of}
use mathlib.Core.Option
use civ5_agent_macos.Requirements.{is_true}
use civ5_agent_macos.Executor.Postconditions.{has_id}
use civ5_agent_macos.Executor.Steps.{CommandResult}

-- a step on the world that may raise
abbrev pub Act : Type 0 → Type 0 → Type 0
Act World A = World → World × Result A

-- the methods of the client for one state id, with the answers that they return; `monotonic` and
-- `sleep` are `time.monotonic()` and `time.sleep(poll_interval)`
pub record Client (World : Type 0) : Type 0 where
  pub read_game_state : Act World GameState
  pub request_end_turn : Act World (Bool × Value)
  pub request_choose_research : Value → Act World (Value × Value)
  pub request_city_production : Value → Value → Value → Act World (Value × Value × Value)
  pub request_skip_unit : Value → Act World (Value × Value)
  pub request_move_unit :
      Value → Value → Value → Value → Value → Act World (Value × Value × Value × Value)
  pub request_worker_build : Value → Value → Value → Value → Act World (Value × Value × Value)
  pub monotonic : World → ℕ
  pub sleep : World → World

-- the statements behind an act
abbrev pub then_act : {World A B : Type 0} → World × Result A → (A → Act World B) → World × Result B
then_act (w, err e) act = (w, err e)
then_act (w, ok a) act = act a w

infixl 5 ◌>>=◌
abbrev pub ◌>>=◌ : {World A B : Type 0} → Act World A → (A → Act World B) → Act World B
(act >>= next) w = then_act (act w) next

abbrev pub pure : {World A : Type 0} → A → Act World A
pure a w = (w, ok a)

-- a computation that does not touch the world
abbrev pub lift : {World A : Type 0} → Result A → Act World A
lift r w = (w, r)

-- `f"{v}"`
abbrev pub shown : Runtime → Value → String
shown py (str s) = s
shown py v = py.repr v

-- `d[name]`
abbrev pub item : String → Fields → Result Value
item name d = elim (find name d) [ none ↦ err (unexpected name) | some v ↦ ok v ]

-- `CommandResult(command.id, status, message, before, after)`
abbrev pub make_result : Command → String → String → Value → Value → CommandResult
make_result c status m before after = record {
  id = c.id;
  status = str status;
  message = str m;
  before = before;
  after = after;
}

abbrev pub failed_result : Command → String → Value → Value → CommandResult
failed_result c m before after = make_result c "error" m before after

-- `command.args.get(name)`
abbrev pub arg : Command → String → Value
arg c name = get name (fields_of c.args)

-- `status in {"accepted", "already"}`, for a text
abbrev pub is_taken : Value → Bool
is_taken status = is_str "accepted" status || is_str "already" status

-- the first unit with an id
abbrev pub find_unit : Value → GameState → Option Fields
find_unit unit_id s = Option.map fields_of (first (has_id unit_id) (items_of s.units))

-- `state.turn_active is not True`, or the turn or the player is another one
abbrev pub turn_changed : GameState → GameState → Bool
turn_changed before after =
    not (value_eq after.turn before.turn)
    || not (value_eq after.active_player before.active_player)
    || not (is_true after.turn_active)

-- `except ValueError`
abbrev pub is_value_error : Error → Bool
is_value_error (stale_plan m) = true
is_value_error (invalid m) = true
is_value_error _ = false

unfoldable pub read_validated : {World : Type 0} → Runtime → Client World → Act World GameState
read_validated py client w =
    then_act (client.read_game_state w) (λ s. lift (validate_live_state py s))
