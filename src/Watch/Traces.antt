-- ===== src/Watch/Traces.antt =====
-- The watcher with a log of the commands that reached the game, and what its caches know.
use civ5_agent_macos.Base.{
  ℕ, suc, ◌≡◌, Bool, true, false, Option, none, some, List, [], ◌∷◌, String, if◌then◌else◌,
}
use civ5_agent_macos.Base.Int.{ℤ}
use civ5_agent_macos.Python.{Value, Fields, Error, Runtime, err, value_eq}
use civ5_agent_macos.Command.{Command}
use civ5_agent_macos.Watch.{
  Backend, Caches, Capture, Execution, finished, refused, raised, lookup, handled, os_error,
}
use civ5_agent_macos.Watch.Requests.{handle_request}

-- A world with the ids of the commands that were executed, the latest first.
abbrev pub Logged : Type 0 → Type 0
Logged World = World × List Value

unfoldable pub logged_execution :
    {World : Type 0} → Value → List Value → World × Execution → Logged World × Execution
logged_execution id log (w, finished r) = ((w, id ∷ log), finished r)
logged_execution id log (w, refused m) = ((w, log), refused m)
logged_execution id log (w, raised e) = ((w, id ∷ log), raised e)

-- a function on the world that leaves the log
abbrev pub keep_log : {World A : Type 0} → (World → World × A) → Logged World → Logged World × A
keep_log f x = (((f x.0).0, x.1), (f x.0).1)

abbrev pub traced_capture : {World : Type 0} → Capture World → Capture (Logged World)
traced_capture j = record {
  submitted = λ c turn. keep_log (j.submitted c turn);
  outcome_unknown = λ c turn m. keep_log (j.outcome_unknown c turn m);
  result = λ c r. keep_log (j.result c r);
}

abbrev pub traced_journal :
    {World : Type 0} → Option (Capture World) → Option (Capture (Logged World))
traced_journal none = none
traced_journal (some j) = some (traced_capture j)

-- The same backend, which logs a command unless it was refused by `CommandValidationError`.
unfoldable pub traced : {World : Type 0} → Backend World → Backend (Logged World)
unfolding logged_execution
traced b = record {
  session_id = b.session_id;
  read_only = b.read_only;
  read_game_state = keep_log b.read_game_state;
  safety_check = keep_log b.safety_check;
  execute = λ c limit x. logged_execution c.id x.1 (b.execute c limit x.0);
  audit = λ c r. keep_log (b.audit c r);
  journal = traced_journal b.journal;
}

-- Behind an execution, nothing raises what `handle_request` does not catch.
pub record IsTame {World : Type 0} (b : Backend World) : Type 0 where
  pub execute_tame :
      (c : Command) (limit : ℤ) (w : World) (e : Error)
      → (b.execute c limit w).1 ≡ raised e
      → (m : String) × (handled e ≡ some m)
  pub audit_tame :
      (c : Command) (r : Value) (w : World) (e : Error)
      → (b.audit c r w).1 ≡ err e
      → (m : String) × (os_error e ≡ some m)
  pub unknown_tame :
      (j : Capture World)
      → b.journal ≡ some j
      → (c : Command) (turn : Value) (m : String) (w : World) (e : Error)
      → (j.outcome_unknown c turn m w).1 ≡ err e
      → (n : String) × (handled e ≡ some n)
  pub result_tame :
      (j : Capture World)
      → b.journal ≡ some j
      → (c : Command) (r : Value) (w : World) (e : Error) → (j.result c r w).1 ≡ err e
      → (n : String) × (handled e ≡ some n)

-- a command's id is in one of the caches
abbrev pub is_known : Value → Caches → Bool
is_known id s = elim (lookup id s.completed_commands) [
  | some e ↦ true
  | none ↦ elim (lookup id s.uncertain_commands) [ some e ↦ true | none ↦ false ]
]

abbrev pub count : Value → List Value → ℕ
count id [] = 0
count id (k ∷ log) = if value_eq k id then suc (count id log) else count id log

-- Requests one after the other; a request that raised is answered by the server, which goes on. Each
-- comes with the id that a command without one is given.
unfoldable pub handle_all :
    {World : Type 0}
    → Runtime
    → Backend World
    → List (String × Fields)
    → Caches
    → World
    → Caches × World
handle_all py b [] s w = (s, w)
handle_all py b ((fresh, q) ∷ qs) s w =
    let next = handle_request py b fresh q s w in handle_all py b qs next.0 next.1
