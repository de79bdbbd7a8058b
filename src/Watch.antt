-- ===== src/Watch.antt =====
-- watch.py of civ5_agent: `make_control_handler`. A request is one step on the two caches and a world
-- of any type, on which the game, the safety check, the audit log and the journal are functions.
pub mod Locked
pub mod Requests
pub mod Traces
pub mod Once
pub mod AtMostOnce
pub mod ReadOnly
pub mod Honest
pub mod Game
use Prim.Native.String.{◌++◌ as concat}
use civ5_agent_macos.Base.{
  ◌++◌, Bool, true, false, not, ◌&&◌, ◌||◌, Option, none, some, List, [], ◌∷◌, String,
  if◌then◌else◌, is_empty, leb, suc, ◌-◌, ◌==◌,
}
use Prim.Native.Nat.{◌^◌}
use civ5_agent_macos.Base.Int.{ℤ, pos, negsuc, leb_ℤ}
use civ5_agent_macos.Python.{
  Value, null, bool, int, str, dict, Fields, end, field, Error, stale_plan, invalid, type_error,
  unavailable, unexpected, message_of, Runtime, Result, ok, err, find, get, is_null, is_str, is_int,
  int_of, value_eq, ◌>>=◌, ◌>>◌, one_of, require,
}
use civ5_agent_macos.State.{GameState, game_state_to_dict}
use civ5_agent_macos.Command.{Command, allowed_actions}
use civ5_agent_macos.Identity.{validate_bridge_session_id, validate_command_id, is_uuid_value}
use civ5_agent_macos.Validation.{validate_live_state, in_set}
use civ5_agent_macos.Executor.Steps.{CommandResult}

-- what one of the `execute_...` functions does: it returns, refuses by `CommandValidationError`, or
-- raises another exception
pub data Execution : Type 0 where
  finished : CommandResult → Execution
  refused : String → Execution
  raised : Error → Execution

-- `safety_check`: passed, `UnsafeSessionError`, or another exception
pub data Safety : Type 0 where
  safe : Safety
  unsafe : String → Safety
  broken : Error → Safety

-- the methods of `JournalCapture`
pub record Capture (World : Type 0) : Type 0 where
  pub submitted : Command → Value → World → World × Result (Unit {0})
  pub outcome_unknown : Command → Value → String → World → World × Result (Unit {0})
  pub result : Command → Value → World → World × Result (Unit {0})

-- what the handler is made of; the time limit of an execution is a number of seconds
pub record Backend (World : Type 0) : Type 0 where
  pub session_id : String
  pub read_only : Bool
  pub read_game_state : World → World × Result GameState
  pub safety_check : World → World × Safety
  pub execute : Command → ℤ → World → World × Execution
  pub audit : Command → Value → World → World × Result (Unit {0})
  pub journal : Option (Capture World)

-- `(operation, arguments, response)` of a command
pub record Entry : Type 0 where
  pub action : Value
  pub args : Value
  pub response : Fields

abbrev pub Cache : Type 0
Cache = List (Value × Entry)

pub record Caches : Type 0 where
  pub completed_commands : Cache
  pub uncertain_commands : Cache

abbrev pub lookup : Value → Cache → Option Entry
lookup id [] = none
lookup id ((k, e) ∷ cache) = if value_eq k id then some e else lookup id cache

-- `d[name] = v`
abbrev pub set_field : String → Value → Fields → Fields
set_field k v end = field k v end
set_field k v (field j w d) = if j == k then field k v d else field j w (set_field k v d)

abbrev pub failure : String → Fields
failure m = field "ok" (bool false) (field "error" (str m) end)

-- `asdict(result)`
abbrev pub result_to_dict : CommandResult → Value
result_to_dict r = dict (
    field "id" r.id (
      field "status" r.status
        (field "message" r.message (field "before" r.before (field "after" r.after end)))))

-- `except (ConnectionError, OSError, TimeoutError, ValueError)`, and also `except (JournalError,
-- OSError, ValueError)`: the message if the exception is one of these
abbrev pub handled : Error → Option String
handled (stale_plan m) = some m
handled (invalid m) = some m
handled (unavailable m) = some m
handled (type_error m) = none
handled (unexpected m) = none

-- `except OSError`
abbrev pub os_error : Error → Option String
os_error (unavailable m) = some m
os_error _ = none

-- `"; ".join(errors)`, where there are any
abbrev join_errors : List String → String
join_errors [] = ""
join_errors (e ∷ []) = e
join_errors (e ∷ f ∷ r) = concat e (concat "; " (join_errors (f ∷ r)))

abbrev pub with_journal_errors : List String → Fields → Fields
with_journal_errors [] response = response
with_journal_errors (e ∷ r) response =
    set_field "journal_error" (str (join_errors (e ∷ r))) response

abbrev pub arguments_of : Value → Fields → Fields
arguments_of operation q =
    if is_str "choose_research" operation
    then field "tech_type" (get "tech_type" q) end
    else if is_str "skip_unit" operation
    then field "unit_id" (get "unit_id" q) end
    else if is_str "move_unit" operation
    then field "unit_id" (get "unit_id" q) (field "x" (get "x" q) (field "y" (get "y" q) end))
    else if is_str "worker_build" operation
    then field "unit_id" (get "unit_id" q) (
        field "x" (get "x" q) (field "y" (get "y" q) (field "build_type" (get "build_type" q) end)))
    else if is_str "set_city_production" operation
    then field "city_id" (get "city_id" q)
        (field "kind" (get "kind" q) (field "item_type" (get "item_type" q) end))
    else end

-- the id of the command: the given one, or a new one
abbrev pub command_id_of : String → Fields → Result Value
command_id_of fresh q =
    let given = get "id" q in
    if is_null given
    then ok (str fresh)
    else if is_uuid_value given
    then ok given
    else err (invalid "command id must be a UUIDv4")

abbrev pub time_limit : Fields → Value
time_limit q = elim (find "verify_timeout" q) [ none ↦ int (pos 30) | some v ↦ v ]

-- `float(n)` raises `OverflowError` from halfway between the largest float and the next power of two
abbrev pub is_float_sized : ℤ → Bool
is_float_sized (pos n) = not (leb (2 ^ 1024 - 2 ^ 970) n)
is_float_sized (negsuc n) = not (leb (2 ^ 1024 - 2 ^ 970) (suc n))

-- The checks of `verify_timeout`, where it is a Value, hence no float; an integer that passes them is the
-- float that it converts to.
unfoldable pub verify_timeout_of : Fields → Result ℤ
verify_timeout_of q = do
  require (is_int (time_limit q)) "verify_timeout must be numeric"
  (if is_float_sized (int_of (time_limit q))
      then ok tt
      else err (unexpected "int too large to convert to float"))
  require (not (leb_ℤ (int_of (time_limit q)) (pos 0)) && leb_ℤ (int_of (time_limit q)) (pos 120))
      "verify_timeout must be greater than 0 and at most 120"
  ok (int_of (time_limit q))

-- the checks between the safety check and the lock
unfoldable pub parse_command : String → Value → Fields → Result (Command × ℤ)
unfolding verify_timeout_of
parse_command fresh operation q = do
  id ← command_id_of fresh q
  limit ← verify_timeout_of q
  ok (record { action = operation; args = dict (arguments_of operation q); id = id }, limit)

-- the answer to a command whose id is in a cache
unfoldable pub replay : Entry → Command → Fields
replay e c =
    if not (value_eq e.action c.action) || not (value_eq e.args c.args)
    then failure "command id was already used with different arguments"
    else set_field "replayed" (bool true) e.response

abbrev pub entry : Command → Fields → Entry
entry c response = record { action = c.action; args = c.args; response = response }
