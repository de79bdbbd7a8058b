-- ===== src/Watch/ReadOnly.antt =====
-- watch.py: a watcher that is read-only runs no command.
use civ5_agent_macos.Base.{◌≡◌, refl, ◌∙◌, true, false, Bool, List, [], ◌∷◌, String, if◌then◌else◌}
use civ5_agent_macos.State.{GameState}
use civ5_agent_macos.Python.{Value, Fields, Runtime, Result, ok, err, get, is_str}
use civ5_agent_macos.Watch.{Backend, Caches}
use civ5_agent_macos.Watch.Locked.{Outcome, read_validated}
use civ5_agent_macos.Watch.Requests.{handle_request, state_response}
use civ5_agent_macos.Watch.Traces.{Logged, traced, handle_all}

module _ {World : Type 0} (py : Runtime) (b : Backend World)
    (locked_down : b.read_only ≡ true) where
  abbrev Idle : Caches → List Value → Outcome py (traced b) → Type 0
  Idle s log o = (o.0 ≡ s) × (o.1.1 ≡ log)

  if-Idle :
      (s : Caches) (log : List Value) (t : Bool) (o p : Outcome py (traced b))
      → Idle s log o
      → Idle s log p
      → Idle s log (if t then o else p)
  if-Idle s log true o p h k = h
  if-Idle s log false o p h k = k

  state-Idle :
      (s : Caches) (log : List Value) (x : Logged World × Result GameState)
      → x.0.1 ≡ log
      → Idle s log (state_response py (traced b) s x)
  unfolding state_response
  state-Idle s log (x, ok state) e = (refl, e)
  state-Idle s log (x, err m) e = (refl, e)

  handle_request-Idle :
      (fresh : String) (q : Fields) (s : Caches) (x : Logged World)
      → Idle s x.1 (handle_request py (traced b) fresh q s x)
  unfolding handle_request traced
  handle_request-Idle fresh q s x =
      if-Idle s x.1 (is_str "ping" (get "op" q)) _ _ (refl, refl)
        (if-Idle s x.1 (is_str "read_state" (get "op" q)) _ _
          (state-Idle s x.1 (read_validated py (traced b) x) (unfold read_validated in refl))
          (rw locked_down (refl, refl)))

  -- Whatever requests a read-only watcher answers, its caches stay as they were and no command
  -- reaches the game.
  pub handle_all-read_only :
      (qs : List (String × Fields)) (s : Caches) (x : Logged World)
      → ((handle_all py (traced b) qs s x).0 ≡ s) × ((handle_all py (traced b) qs s x).1.1 ≡ x.1)
  unfolding handle_all
  handle_all-read_only [] s x = (refl, refl)
  handle_all-read_only ((fresh, q) ∷ qs) s x =
      let (same, log) = handle_request-Idle fresh q s x in
      let o = handle_request py (traced b) fresh q s x in
      let (caches, game) = handle_all-read_only qs o.0 o.1 in (caches ∙ same, game ∙ log)
