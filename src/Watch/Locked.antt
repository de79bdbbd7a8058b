-- ===== src/Watch/Locked.antt =====
-- watch.py: the execution of a command under the lock, with its journal, its audit log and the caches.
use civ5_agent_macos.Base.{◌++◌, true, false, none, some, List, [], ◌∷◌, String, if◌then◌else◌}
use civ5_agent_macos.Base.Int.{ℤ}
use civ5_agent_macos.Python.{
  Value, null, bool, str, Fields, end, field, Error, Runtime, Result, ok, err, is_null, ◌>>=◌,
}
use civ5_agent_macos.State.{GameState}
use civ5_agent_macos.Command.{Command}
use civ5_agent_macos.Validation.{validate_live_state}
use civ5_agent_macos.Watch.{
  Backend, Caches, Capture, Execution, entry, finished, handled, lookup, os_error, raised, refused,
  replay, result_to_dict, set_field, with_journal_errors,
}

module _ {World : Type 0} (py : Runtime) (b : Backend World) where
  -- what a handler may return or raise, with the caches and the world behind it
  abbrev pub Outcome : Type 0
  Outcome = Caches × World × Result Fields

  abbrev pub session_failure : String → Fields
  session_failure m =
      field "ok" (bool false)
        (field "bridge_session_id" (str b.session_id) (field "error" (str m) end))

  abbrev pub unknown_response : String → Fields
  unknown_response m = field "ok" (bool false) (
      field "bridge_session_id" (str b.session_id)
        (field "outcome_unknown" (bool true) (field "error" (str m) end)))

  abbrev pub success_response : Value → Fields
  success_response result =
      field "ok" (bool true)
        (field "bridge_session_id" (str b.session_id) (field "result" result end))

  unfoldable pub read_validated : World → World × Result GameState
  read_validated w =
      let (w', reading) = b.read_game_state w in (w', reading >>= validate_live_state py)

  -- the errors of the journal, and the turn in which the command was submitted or `None`
  abbrev pub Submission : Type 0
  Submission = World × Result (List String × Value)

  unfoldable pub submitted_error : Value → World → Error → Submission
  submitted_error turn w e = elim (handled e) [
    | some m ↦ (w, ok (m ∷ [], turn))
    | none ↦ (w, err e)
  ]

  unfoldable pub submitted_answer : Value → World × Result (Unit {0}) → Submission
  submitted_answer turn (w, ok u) = (w, ok ([], turn))
  submitted_answer turn (w, err e) = submitted_error turn w e

  unfoldable pub submitted_in : Capture World → Command → World × Result GameState → Submission
  submitted_in j c (w, err e) = submitted_error null w e
  submitted_in j c (w, ok state) = submitted_answer state.turn (j.submitted c state.turn w)

  unfoldable pub journal_submission : Command → World → Submission
  unfolding submitted_error submitted_answer submitted_in read_validated
  journal_submission c w = elim b.journal [
    | none ↦ (w, ok ([], null))
    | some j ↦ submitted_in j c (read_validated w)
  ]

  -- the errors of the journal, one more if it raised one that is handled
  abbrev pub Noted : Type 0
  Noted = World × Result (List String)

  unfoldable pub noted : List String → World × Result (Unit {0}) → Noted
  noted errors (w, ok u) = (w, ok errors)
  noted errors (w, err e) = elim (handled e) [
    | some m ↦ (w, ok (errors ++ (m ∷ [])))
    | none ↦ (w, err e)
  ]

  unfoldable pub journal_unknown : Command → Value → List String → String → World → Noted
  unfolding noted
  journal_unknown c turn errors m w = elim b.journal [
    | none ↦ (w, ok errors)
    | some j ↦ if is_null turn then (w, ok errors) else noted errors (j.outcome_unknown c turn m w)
  ]

  unfoldable pub journal_result : Command → Value → List String → World → Noted
  unfolding noted
  journal_result c result errors w = elim b.journal [
    | none ↦ (w, ok errors)
    | some j ↦ noted errors (j.result c result w)
  ]

  -- the response behind the audit log
  unfoldable pub audited : Fields → World × Result (Unit {0}) → World × Result Fields
  audited response (w, ok u) = (w, ok response)
  audited response (w, err e) = elim (os_error e) [
    | some m ↦ (w, ok (set_field "audit_error" (str m) response))
    | none ↦ (w, err e)
  ]

  -- the entry of a command whose outcome is known, or unknown
  unfoldable pub complete : Caches → Command → Fields → Noted → Outcome
  complete s c response (w, err e) = (s, w, err e)
  complete s c response (w, ok errors) =
      let full = with_journal_errors errors response in
      (record s { completed_commands = (c.id, entry c full) ∷ s.completed_commands }, w, ok full)

  unfoldable pub leave_uncertain : Caches → Command → Fields → Noted → Outcome
  leave_uncertain s c response (w, err e) = (s, w, err e)
  leave_uncertain s c response (w, ok errors) =
      let full = with_journal_errors errors response in
      (record s { uncertain_commands = (c.id, entry c full) ∷ s.uncertain_commands }, w, ok full)

  unfoldable pub complete_audited :
      Caches → Command → Value → List String → World × Result Fields → Outcome
  complete_audited s c result errors (w, err e) = (s, w, err e)
  complete_audited s c result errors (w, ok response) =
      complete s c response (journal_result c result errors w)

  -- behind the execution
  unfoldable pub after_execution :
      Caches → Command → List String → Value → World × Execution → Outcome
  after_execution s c errors turn (w, refused m) = (s, w, ok (session_failure m))
  after_execution s c errors turn (w, raised e) = elim (handled e) [
    | none ↦ (s, w, err e)
    | some m ↦ leave_uncertain s c (unknown_response m) (journal_unknown c turn errors m w)
  ]
  after_execution s c errors turn (w, finished r) =
      complete_audited s c (result_to_dict r) errors
        (audited (success_response (result_to_dict r)) (b.audit c (result_to_dict r) w))

  unfoldable pub execute_submitted : Caches → Command → ℤ → Submission → Outcome
  execute_submitted s c limit (w, err e) = (s, w, err e)
  execute_submitted s c limit (w, ok (errors, turn)) =
      after_execution s c errors turn (b.execute c limit w)

  -- a command whose id is new, under the lock
  unfoldable pub run_command : Caches → Command → ℤ → World → Outcome
  unfolding audited complete leave_uncertain complete_audited after_execution execute_submitted
  run_command s c limit w = execute_submitted s c limit (journal_submission c w)

  -- the locked part of a command's request
  unfoldable pub locked : Caches → Command → ℤ → World → Outcome
  locked s c limit w = elim (lookup c.id s.completed_commands) [
    | some e ↦ (s, w, ok (replay e c))
    | none ↦ elim (lookup c.id s.uncertain_commands) [
      | some e ↦ (s, w, ok (replay e c))
      | none ↦ run_command s c limit w
    ]
  ]
