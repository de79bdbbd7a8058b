-- ===== src/Watch/Once.antt =====
-- watch.py: under the lock, a command that reaches the game is recorded in one of the caches.
use civ5_agent_macos.Base.{
  true, false, ap, subst, sym, ◌∙◌, ◌≡◌, refl, some, List, [], ◌∷◌, ◌++◌, String, ◌⊎◌, inl, inr,
  Option-cases, Bool-cases,
}
use civ5_agent_macos.Python.{Value, null, str, Fields, Error, Runtime, Result, ok, err, is_null}
use civ5_agent_macos.Command.{Command}
use civ5_agent_macos.Executor.Steps.{CommandResult}
use civ5_agent_macos.State.{GameState}
use civ5_agent_macos.Base.Int.{ℤ}
use civ5_agent_macos.Watch.{
  Execution, Capture, lookup, refused, Backend, Caches, finished, raised, Entry, handled, os_error,
  result_to_dict, set_field,
}
use civ5_agent_macos.Watch.Locked.{
  Submission, execute_submitted, run_command, locked, journal_submission, submitted_in,
  submitted_error, submitted_answer, read_validated, Outcome, noted, journal_unknown,
  journal_result, audited, complete, leave_uncertain, complete_audited, after_execution,
  success_response,
}
use civ5_agent_macos.Watch.Traces.{
  Logged, is_known, traced_capture, logged_execution, traced, keep_log, IsTame,
}

-- the caches with one entry more, of this command
abbrev pub Learns : Caches → Command → Caches → Type 0
Learns s c s' =
    (e : Entry) × ((s' ≡ record s { completed_commands = (c.id, e) ∷ s.completed_commands })
      ⊎ (s' ≡ record s { uncertain_commands = (c.id, e) ∷ s.uncertain_commands }))

module _ {World : Type 0} (py : Runtime) (b : Backend World) (tame : IsTame b) where
  -- what the journal answers is handled, and leaves the log
  noted_on :
      (errors : List String) (x : Logged World × Result (Unit {0}))
      → ((e : Error) → x.1 ≡ err e → (m : String) × (handled e ≡ some m))
      → (all : List String) × (noted py (traced b) errors x ≡ (x.0, ok all))
  unfolding noted
  noted_on errors (w, ok u) h = (errors, refl)
  noted_on errors (w, err e) h = let (m, k) = h e refl in (errors ++ (m ∷ []), rw (k, noted) refl)

  journal_result_on :
      (c : Command) (r : Value) (errors : List String) (x : Logged World)
      → (all : List String) × (w : World) × (journal_result py (traced b) c r errors x
          ≡ ((w, x.1), ok all))
  unfolding journal_result traced
  journal_result_on c r errors (w, log) = elim (Option-cases b.journal) [
    | inl n ↦ (errors, w, rw (n, journal_result) refl)
    | inr (j, k) ↦
        let (all, n) =
          noted_on errors (keep_log (j.result c r) (w, log))
            (λ e h. tame.result_tame j k c r w e h) in
        (all, (j.result c r w).0, rw (k, journal_result) n)
  ]

  journal_unknown_on :
      (c : Command) (turn : Value) (errors : List String) (m : String) (x : Logged World)
      → (all : List String) × (w : World) × (journal_unknown py (traced b) c turn errors m x
          ≡ ((w, x.1), ok all))
  unfolding journal_unknown traced
  journal_unknown_on c turn errors m (w, log) = elim (Option-cases b.journal) [
    | inl n ↦ (errors, w, rw (n, journal_unknown) refl)
    | inr (j, k) ↦ elim (Bool-cases (is_null turn)) [
      | inl z ↦ (errors, w, rw (k, z, journal_unknown) refl)
      | inr z ↦
          let (all, n) =
            noted_on errors (keep_log (j.outcome_unknown c turn m) (w, log))
              (λ e h. tame.unknown_tame j k c turn m w e h) in
          (all, (j.outcome_unknown c turn m w).0, rw (k, z, journal_unknown) n)
    ]
  ]

  audited_on :
      (response : Fields) (x : Logged World × Result (Unit {0}))
      → ((e : Error) → x.1 ≡ err e → (m : String) × (os_error e ≡ some m))
      → (full : Fields) × (audited py (traced b) response x ≡ (x.0, ok full))
  unfolding audited
  audited_on response (w, ok u) h = (response, refl)
  audited_on response (w, err e) h =
      let (m, k) = h e refl in (set_field "audit_error" (str m) response, rw (k, audited) refl)

  submitted_error_log :
      (turn : Value) (x : Logged World) (e : Error) → (submitted_error py (traced b) turn x e).0 ≡ x
  unfolding submitted_error
  submitted_error_log turn x e = elim (Option-cases (handled e)) [
    | inl n ↦ rw (n, submitted_error) refl
    | inr (m, k) ↦ rw (k, submitted_error) refl
  ]

  submitted_answer_log :
      (turn : Value) (x : Logged World × Result (Unit {0}))
      → (submitted_answer py (traced b) turn x).0 ≡ x.0
  unfolding submitted_answer
  submitted_answer_log turn (w, ok u) = refl
  submitted_answer_log turn (w, err e) = submitted_error_log turn w e

  submitted_in_log :
      (j : Capture World) (c : Command) (x : Logged World × Result GameState)
      → (submitted_in py (traced b) (traced_capture j) c x).0.1 ≡ x.0.1
  unfolding submitted_in
  submitted_in_log j c (x, err e) = ap (λ y. y.1) (submitted_error_log null x e)
  submitted_in_log j c (x, ok state) =
      ap (λ y. y.1) (submitted_answer_log state.turn (keep_log (j.submitted c state.turn) x))

  journal_submission_log :
      (c : Command) (x : Logged World) → (journal_submission py (traced b) c x).0.1 ≡ x.1
  unfolding journal_submission traced read_validated
  journal_submission_log c x = elim (Option-cases b.journal) [
    | inl n ↦ rw (n, journal_submission) refl
    | inr (j, k) ↦
        rw (k, journal_submission) (submitted_in_log j c (read_validated py (traced b) x))
  ]

  module _ (s : Caches) (c : Command) (log : List Value) where
    -- nothing reached the game and the caches are as before, or both know the command
    abbrev pub Settled : Outcome py (traced b) → Type 0
    Settled o = ((o.0 ≡ s) × (o.1.1 ≡ log)) ⊎ (Learns s c o.0 × (o.1.1 ≡ c.id ∷ log))

    finished-Settled :
        (errors : List String) (turn : Value) (r : CommandResult) (w : World)
        → Settled (after_execution py (traced b) s c errors turn ((w, c.id ∷ log), finished r))
    unfolding after_execution complete_audited complete traced
    finished-Settled errors turn r w =
        let (full, a) =
          audited_on (success_response py b (result_to_dict r))
            (keep_log (b.audit c (result_to_dict r)) (w, c.id ∷ log))
            (λ e h. tame.audit_tame c (result_to_dict r) w e h) in
        let (all, w', n) =
          journal_result_on c (result_to_dict r) errors
            ((b.audit c (result_to_dict r) w).0, c.id ∷ log) in
        inr (rw (a, n) ((_, inl refl), refl))

    raised-Settled :
        (errors : List String) (turn : Value) (e : Error) (m : String) (w : World)
        → handled e ≡ some m
        → Settled (after_execution py (traced b) s c errors turn ((w, c.id ∷ log), raised e))
    unfolding after_execution leave_uncertain traced
    raised-Settled errors turn e m w h =
        let (all, w', n) = journal_unknown_on c turn errors m (w, c.id ∷ log) in
        inr (rw (h, after_execution) (rw n ((_, inr refl), refl)))

    execution_Settled :
        (errors : List String) (turn : Value) (x : World × Execution)
        → ((e : Error) → x.1 ≡ raised e → (m : String) × (handled e ≡ some m))
        → Settled (after_execution py (traced b) s c errors turn (logged_execution c.id log x))
    unfolding logged_execution
    execution_Settled errors turn (w, finished r) h = finished-Settled errors turn r w
    execution_Settled errors turn (w, refused m) h = inl (unfold after_execution in (refl, refl))
    execution_Settled errors turn (w, raised e) h =
        let (m, k) = h e refl in raised-Settled errors turn e m w k

    submitted_Settled :
        (limit : ℤ) (w : World) (r : Result (List String × Value))
        → Settled (execute_submitted py (traced b) s c limit ((w, log), r))
    unfolding execute_submitted traced
    submitted_Settled limit w (err e) = inl (refl, refl)
    submitted_Settled limit w (ok (errors, turn)) =
        execution_Settled errors turn (b.execute c limit w) (tame.execute_tame c limit w)

    -- A command that was run settles: it reached the game and is recorded, or neither.
    run_command-Settled :
        (limit : ℤ) (x : Logged World) → x.1 ≡ log → Settled (run_command py (traced b) s c limit x)
    unfolding run_command
    run_command-Settled limit x h =
        go (journal_submission py (traced b) c x) (journal_submission_log c x ∙ h)
      where
        go :
            (n : Submission py (traced b))
            → n.0.1 ≡ log
            → Settled (execute_submitted py (traced b) s c limit n)
        go ((w, l), r) e =
            subst (λ k. Settled (execute_submitted py (traced b) s c limit ((w, k), r))) (sym e)
              (submitted_Settled limit w r)

    pub locked-known :
        (limit : ℤ) (x : Logged World)
        → is_known c.id s ≡ true
        → ((locked py (traced b) s c limit x).0 ≡ s) × ((locked py (traced b) s c limit x).1 ≡ x)
    unfolding locked
    locked-known limit x h = elim (Option-cases (lookup c.id s.completed_commands)) [
      | inr (e, k) ↦ rw (k, locked) (refl, refl)
      | inl n ↦ elim (Option-cases (lookup c.id s.uncertain_commands)) [
        | inr (e, k) ↦ rw (n, k, locked) (refl, refl)
        | inl m ↦ absurd (let bad : false ≡ true = rw (n, m, is_known) at h in cc)
      ]
    ]

    pub locked-new :
        (limit : ℤ) (x : Logged World)
        → x.1 ≡ log
        → is_known c.id s ≡ false
        → Settled (locked py (traced b) s c limit x)
    unfolding locked
    locked-new limit x e h = elim (Option-cases (lookup c.id s.completed_commands)) [
      | inr (e, k) ↦ absurd (let bad : true ≡ false = rw (k, is_known) at h in cc)
      | inl n ↦ elim (Option-cases (lookup c.id s.uncertain_commands)) [
        | inr (e, k) ↦ absurd (let bad : true ≡ false = rw (n, k, is_known) at h in cc)
        | inl m ↦ rw (n, m, locked) (run_command-Settled limit x e)
      ]
    ]
