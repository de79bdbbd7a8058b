-- ===== src/Executor/Verified.antt =====
-- turn_executor.py: what `_validated_step` has checked of a result where it returns a step.
use civ5_agent_macos.Base.{
  ℕ, ◌≡◌, refl, sym, ◌∙◌, subst, Bool, true, false, Option, none, some, String, eq_iff,
  if◌then◌else◌,
}
use civ5_agent_macos.Python.{
  str, Runtime, Result, ok, err, is_str, value_eq, >>=-ok, ◌>>=◌, require,
}
use civ5_agent_macos.State.{GameState, game_state_from_fields}
use civ5_agent_macos.Validation.{fields_of, validate_live_state}
use civ5_agent_macos.Plan.{PlannedAction, live_state_digest}
use civ5_agent_macos.Plan.Report.{ExecutionStepReport}
use civ5_agent_macos.Validation.Unchanged.{validate_live_state-eq}
use civ5_agent_macos.Executor.Gate.{IsLive, IsLive-validated, digest_of}
use civ5_agent_macos.Executor.Postconditions.{
  move_unit_postcondition_error, worker_build_postcondition_error,
}
use civ5_agent_macos.Executor.Steps.{
  CommandResult, check_result, result_states, check_success, step_between, validated_step,
  step_status, text_of, raise_fault, succeeded,
}

-- The step that a result is reported as, from a state of one digest to one of another.
abbrev pub reported_step : ℕ → PlannedAction → CommandResult → String → String → ExecutionStepReport
reported_step index a r before after = record {
  index = index;
  command_id = a.command_id;
  action = a.action;
  status = step_status r.status;
  message = text_of r.message;
  before_state_digest = some before;
  after_state_digest = some after;
}

-- The result is that of the action's command, its two states are validated, the first has the digest
-- that was observed, a success of a move or a build shows in them, and the step reports it with the
-- digests of both.
pub record Verified (py : Runtime) (index : ℕ) (a : PlannedAction) (d : String) (r : CommandResult)
    (step : ExecutionStepReport) (after : GameState) : Type 0 where
  pub before : GameState
  pub same_command : value_eq r.id a.command_id ≡ true
  pub reads_before : game_state_from_fields (fields_of r.before) ≡ ok before
  pub reads_after : game_state_from_fields (fields_of r.after) ≡ ok after
  pub live_before : IsLive py before
  pub live_after : IsLive py after
  pub same_digest : digest_of py before ≡ d
  pub move_shows :
      succeeded "move_unit" a r ≡ true → move_unit_postcondition_error a before after ≡ ok none
  pub build_shows :
      succeeded "worker_build" a r ≡ true
      → worker_build_postcondition_error a before after ≡ ok none
  pub reported : step ≡ reported_step index a r d (digest_of py after)

require-ok : (t : Bool) (m : String) {u : Unit {0}} → require t m ≡ ok u → t ≡ true
require-ok true m h = refl
require-ok false m h = cc

raise_fault-ok :
    (t : Bool) (x : Result (Option String)) {u : Unit {0}}
    → (if t then x >>= raise_fault else ok tt) ≡ ok u
    → t ≡ true
    → x ≡ ok none
raise_fault-ok true (ok none) h k = refl
raise_fault-ok true (ok (some m)) h k = cc
raise_fault-ok true (err e) h k = cc
raise_fault-ok false x h k = cc

check_result-id :
    (a : PlannedAction) (r : CommandResult) {u : Unit {0}}
    → check_result a r ≡ ok u
    → value_eq r.id a.command_id ≡ true
unfolding check_result
check_result-id a r h =
    let (u, same, rest) = >>=-ok (require (value_eq r.id a.command_id) _) _ h in
    require-ok (value_eq r.id a.command_id) _ same

module _ (py : Runtime) where
  live_state_digest-eq :
      (s : GameState) (d : String)
      → IsLive py s
      → live_state_digest py s ≡ ok d
      → digest_of py s ≡ d
  unfolding live_state_digest
  live_state_digest-eq s d l h =
      let q : ◌≡◌ {A = Result String} (ok (digest_of py s)) (ok d) = rw l at h in cc

  read-IsLive :
      (x : Result GameState) (t v s : GameState)
      → x ≡ ok t
      → validate_live_state py t ≡ ok v
      → v ≡ s
      → (x ≡ ok s) × IsLive py s
  read-IsLive x t v s read valid e =
      let same : t ≡ s = sym (validate_live_state-eq py t v valid) ∙ e in
      (subst (λ w. x ≡ ok w) same read, subst (IsLive py) e (IsLive-validated py t v valid))

  module _ (index : ℕ) (a : PlannedAction) (d : String) (r : CommandResult)
      (step : ExecutionStepReport) (after : GameState) where
    result_states-IsLive :
        (b c : GameState)
        → result_states py r ≡ ok (b, c)
        → (game_state_from_fields (fields_of r.before) ≡ ok b)
          × (game_state_from_fields (fields_of r.after) ≡ ok c)
          × IsLive py b
          × IsLive py c
    unfolding result_states
    result_states-IsLive b c h =
        let (rb, q1, h1) = >>=-ok (game_state_from_fields (fields_of r.before)) _ h in
        let (vb, q2, h2) = >>=-ok (validate_live_state py rb) _ h1 in
        let (rc, q3, h3) = >>=-ok (game_state_from_fields (fields_of r.after)) _ h2 in
        let (vc, q4, h4) = >>=-ok (validate_live_state py rc) _ h3 in
        let both : ◌≡◌ {A = Result (GameState × GameState)} (ok (vb, vc)) (ok (b, c)) = h4 in
        let before : vb ≡ b = cc in
        let behind : vc ≡ c = cc in
        let (read_b, live_b) =
          read-IsLive (game_state_from_fields (fields_of r.before)) rb vb b q1 q2 before in
        let (read_c, live_c) =
          read-IsLive (game_state_from_fields (fields_of r.after)) rc vc c q3 q4 behind in
        (read_b, read_c, live_b, live_c)

    check_success-ok :
        (b c : GameState) {u : Unit {0}}
        → check_success py a r b c ≡ ok u
        → (succeeded "move_unit" a r ≡ true → move_unit_postcondition_error a b c ≡ ok none)
          × (succeeded "worker_build" a r ≡ true → worker_build_postcondition_error a b c ≡ ok none)
    unfolding check_success
    check_success-ok b c h =
        let (v, move, build) =
          >>=-ok
            (if succeeded "move_unit" a r
              then move_unit_postcondition_error a b c >>= raise_fault
              else ok tt)
            _ h in
        (
          raise_fault-ok (succeeded "move_unit" a r) (move_unit_postcondition_error a b c) move,
          raise_fault-ok (succeeded "worker_build" a r) (worker_build_postcondition_error a b c)
              build,
        )

    reported-Verified :
        (b c : GameState) (e f : String) {u : Unit {0}}
        → result_states py r ≡ ok (b, c)
        → value_eq r.id a.command_id ≡ true
        → digest_of py b ≡ e
        → digest_of py c ≡ f
        → e ≡ d
        → check_success py a r b c ≡ ok u
        → ◌≡◌ {A = Result (ExecutionStepReport × GameState)}
            (ok (reported_step index a r e f, c))
            (ok (step, after))
        → Verified py index a d r step after
    reported-Verified b c e f found same before behind observed shown h =
        let (read_b, read_c, live_b, live_c) = result_states-IsLive b c found in
        let (moved, built) = check_success-ok b c shown in
        let made : reported_step index a r e f ≡ step = cc in
        let left : c ≡ after = cc in
        let digests : reported_step index a r e f ≡ reported_step index a r d (digest_of py c) =
          rw (observed, behind) refl in
        subst (Verified py index a d r step) left (record {
          before = b;
          same_command = same;
          reads_before = read_b;
          reads_after = read_c;
          live_before = live_b;
          live_after = live_c;
          same_digest = before ∙ observed;
          move_shows = moved;
          build_shows = built;
          reported = sym made ∙ digests;
        })

    observed-digest : (e : String) → is_str e (str d) ≡ true → e ≡ d
    observed-digest e h = sym ((eq_iff d e).0 h)

    step_between-Verified :
        (b c : GameState)
        → result_states py r ≡ ok (b, c)
        → value_eq r.id a.command_id ≡ true
        → step_between py index a r (str d) (b, c) ≡ ok (step, after)
        → Verified py index a d r step after
    unfolding step_between
    step_between-Verified b c found same h =
        let (rb, rc, lb, lc) = result_states-IsLive b c found in
        let (e, q1, h1) = >>=-ok (live_state_digest py b) _ h in
        let (u, q2, h2) = >>=-ok (require (is_str e (str d)) _) _ h1 in
        let (v, q3, h3) = >>=-ok (check_success py a r b c) _ h2 in
        let (f, q4, h4) = >>=-ok (live_state_digest py c) _ h3 in
        reported-Verified b c e f found same (live_state_digest-eq b e lb q1)
          (live_state_digest-eq c f lc q4) (observed-digest e (require-ok (is_str e (str d)) _ q2))
          q3 h4

    -- An accepted result has been verified.
    pub validated_step-Verified :
        validated_step py index a r (str d) ≡ ok (step, after) → Verified py index a d r step after
    unfolding validated_step
    validated_step-Verified h =
        let (u, checked, h1) = >>=-ok (check_result a r) _ h in
        let (states, found, h2) = >>=-ok (result_states py r) _ h1 in
        step_between-Verified states.0 states.1 found (check_result-id a r checked) h2
