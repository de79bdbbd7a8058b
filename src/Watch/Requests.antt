-- ===== src/Watch/Requests.antt =====
-- watch.py of civ5_agent: `handle_request`, the dispatch of a request. A new command id is an
-- argument.
use Prim.Native.String.{◌++◌}
use civ5_agent_macos.Base.{Bool, true, false, none, some, String, if◌then◌else◌}
use civ5_agent_macos.Base.Int.{ℤ}
use civ5_agent_macos.Python.{
  Value, bool, str, Fields, end, field, unexpected, Runtime, Result, ok, err, get, is_str,
  message_of, ◌>>=◌, value_eq,
}
use civ5_agent_macos.State.{GameState, game_state_to_dict}
use civ5_agent_macos.Command.{Command, allowed_actions}
use civ5_agent_macos.Identity.{validate_bridge_session_id, validate_command_id}
use civ5_agent_macos.Validation.{in_set}
use civ5_agent_macos.Watch.{
  Backend, Caches, Safety, safe, unsafe, broken, Entry, lookup, failure, parse_command,
}
use civ5_agent_macos.Watch.Locked.{Outcome, read_validated, locked}

module _ {World : Type 0} (py : Runtime) (b : Backend World) where
  ping : Fields
  ping =
      field "ok" (bool true)
        (field "bridge_session_id" (str b.session_id) (field "read_only" (bool b.read_only) end))

  unfoldable pub state_response : Caches → World × Result GameState → Outcome py b
  state_response s (w, err e) = (s, w, err e)
  state_response s (w, ok state) = (
    s,
    w,
    ok (
        field "ok" (bool true) (
          field "bridge_session_id" (str b.session_id)
            (field "state" (game_state_to_dict state) end))),
  )

  unfoldable pub found : Entry → Fields
  found e = field "ok" (bool true) (
      field "bridge_session_id" (str b.session_id) (
        field "found" (bool true) (
          field "action" e.action
            (field "arguments" e.args (field "result" (get "result" e.response) end)))))

  unfoldable pub not_found : Fields
  not_found =
      field "ok" (bool true)
        (field "bridge_session_id" (str b.session_id) (field "found" (bool false) end))

  -- the session and the command that a status request names
  unfoldable pub named_command : Fields → Result (Value × Value)
  named_command q = do
    session ← validate_bridge_session_id (get "bridge_session_id" q)
    id ← validate_command_id (get "command_id" q)
    ok (session, id)

  unfoldable pub status_of : Caches → Result (Value × Value) → Fields
  status_of s (err e) = failure (message_of e)
  status_of s (ok (session, id)) =
      if value_eq session (str b.session_id)
      then elim (lookup id s.completed_commands) [ some e ↦ found e | none ↦ not_found ]
      else failure "bridge session changed; command outcome is unavailable"

  unfoldable pub command_status : Caches → Fields → Fields
  unfolding found not_found named_command status_of
  command_status s q = status_of s (named_command q)

  -- A refused request is answered; an `OverflowError` is not handled.
  unfoldable pub after_parse : Caches → World → Result (Command × ℤ) → Outcome py b
  after_parse s w (err (unexpected m)) = (s, w, err (unexpected m))
  after_parse s w (err e) = (s, w, ok (failure (message_of e)))
  after_parse s w (ok (c, limit)) = locked py b s c limit w

  unfoldable pub after_safety : String → Value → Fields → Caches → World × Safety → Outcome py b
  after_safety fresh operation q s (w, unsafe m) =
      (s, w, ok (failure ("unsafe FireTuner session: " ++ m)))
  after_safety fresh operation q s (w, broken e) = (s, w, err e)
  after_safety fresh operation q s (w, safe) = after_parse s w (parse_command fresh operation q)

  unfoldable pub after_session :
      String → Value → Fields → Caches → World → Result Value → Outcome py b
  after_session fresh operation q s w (err e) = (s, w, ok (failure (message_of e)))
  after_session fresh operation q s w (ok session) =
      if value_eq session (str b.session_id)
      then after_safety fresh operation q s (b.safety_check w)
      else (s, w, ok (failure "bridge session changed; read fresh state before writing"))

  -- a request for one of the six commands
  unfoldable pub command_request : String → Value → Fields → Caches → World → Outcome py b
  unfolding after_parse after_safety after_session
  command_request fresh operation q s w =
      after_session fresh operation q s w (validate_bridge_session_id (get "bridge_session_id" q))

  unfoldable pub dispatch : String → Value → Fields → Caches → World → Result Bool → Outcome py b
  dispatch fresh operation q s w (err e) = (s, w, err e)
  dispatch fresh operation q s w (ok true) = command_request fresh operation q s w
  dispatch fresh operation q s w (ok false) =
      (s, w, ok (failure ("unsupported operation: " ++ py.repr operation)))

  unfoldable pub handle_request : String → Fields → Caches → World → Outcome py b
  unfolding ping state_response dispatch
  handle_request fresh q s w =
      let operation = get "op" q in
      if is_str "ping" operation
      then (s, w, ok ping)
      else if is_str "read_state" operation
      then state_response s (read_validated py b w)
      else if b.read_only
      then (s, w, ok (failure "watcher is read-only; operation is not permitted"))
      else if is_str "command_status" operation
      then (s, w, ok (command_status s q))
      else dispatch fresh operation q s w (in_set operation allowed_actions)
