-- ===== src/Watch/AtMostOnce.antt =====
-- watch.py: however often a command is sent to the watcher, it reaches the game at most once.
use civ5_agent_macos.Base.{
  suc, ◌≤◌, ◌≡◌, refl, ap, subst, ◌∙◌, true, false, Bool, List, [], ◌∷◌, String, arith, ◌⊎◌, inl,
  inr, Bool-cases, eq_iff, if◌then◌else◌, ◌==◌,
}
use civ5_agent_macos.Base.Int.{ℤ}
use civ5_agent_macos.State.{GameState}
use civ5_agent_macos.Python.{
  Value, null, bool, int, str, list, dict, Fields, Runtime, Result, ok, err, is_null, get, is_str,
  value_eq, unexpected, stale_plan, invalid, type_error, unavailable,
}
use civ5_agent_macos.Identity.{is_uuid_value, validate_bridge_session_id}
use civ5_agent_macos.Validation.{in_set}
use civ5_agent_macos.Command.{Command, allowed_actions}
use civ5_agent_macos.Watch.{Backend, Caches, Safety, safe, unsafe, broken, parse_command}
use civ5_agent_macos.Watch.Locked.{Outcome, locked, read_validated}
use civ5_agent_macos.Watch.Requests.{
  handle_request, after_parse, after_safety, after_session, command_request, dispatch,
  state_response,
}
use civ5_agent_macos.Watch.Traces.{Logged, traced, IsTame, is_known, count, handle_all}
use civ5_agent_macos.Watch.Once.{Learns, locked-known, locked-new}

-- the id of a command is a text
is_uuid_text : (v : Value) → is_uuid_value v ≡ true → (u : String) × (v ≡ str u)
is_uuid_text (str s) h = (s, refl)
is_uuid_text null h = cc
is_uuid_text (bool b) h = cc
is_uuid_text (int z) h = cc
is_uuid_text (list xs) h = cc
is_uuid_text (dict d) h = cc

parse_command-id :
    (fresh : String) (operation : Value) (q : Fields) (c : Command) (limit : ℤ)
    → parse_command fresh operation q ≡ ok (c, limit)
    → (u : String) × (c.id ≡ str u)
unfolding parse_command
parse_command-id fresh operation q c limit h = elim (Bool-cases (is_null (get "id" q))) [
  | inl n ↦ (fresh, ground (arith, n, h))
  | inr n ↦ elim (Bool-cases (is_uuid_value (get "id" q))) [
    | inr m ↦ absurd (ground (arith, n, m, h))
    | inl m ↦ let (u, e) = is_uuid_text (get "id" q) m in (u, ground (arith, n, m, e, h))
  ]
]

module _ {World : Type 0} (py : Runtime) (b : Backend World) (tame : IsTame b) where
  -- a request left the caches and the game alone, or ran one command that the caches did not know
  -- and now do
  abbrev Advances : Caches → List Value → Outcome py (traced b) → Type 0
  Advances s log o =
      ((o.0 ≡ s) × (o.1.1 ≡ log))
      ⊎ ((c : Command) × (u : String) × (c.id ≡ str u)
          × (is_known c.id s ≡ false)
          × Learns s c o.0
          × (o.1.1 ≡ c.id ∷ log))

  module _ (s : Caches) (log : List Value) where
    locked-Advances :
        (c : Command) (limit : ℤ) (x : Logged World) (u : String)
        → c.id ≡ str u
        → x.1 ≡ log
        → Advances s log (locked py (traced b) s c limit x)
    locked-Advances c limit x u id e = elim (Bool-cases (is_known c.id s)) [
      | inl k ↦
          let (same, world) = locked-known py b tame s c log limit x k in
          inl (same, ap (λ (y : Logged World). y.1) world ∙ e)
      | inr n ↦ elim (locked-new py b tame s c log limit x e n) [
        | inl same ↦ inl same
        | inr (learns, ran) ↦ inr (c, u, id, n, learns, ran)
      ]
    ]

    parse-Advances :
        (x : Logged World) (r : Result (Command × ℤ))
        → x.1 ≡ log
        → ((c : Command) (limit : ℤ) → r ≡ ok (c, limit) → (u : String) × (c.id ≡ str u))
        → Advances s log (after_parse py (traced b) s x r)
    unfolding after_parse
    parse-Advances x (err (unexpected m)) e h = inl (refl, e)
    parse-Advances x (err (stale_plan m)) e h = inl (refl, e)
    parse-Advances x (err (invalid m)) e h = inl (refl, e)
    parse-Advances x (err (type_error m)) e h = inl (refl, e)
    parse-Advances x (err (unavailable m)) e h = inl (refl, e)
    parse-Advances x (ok (c, limit)) e h =
        let (u, id) = h c limit refl in locked-Advances c limit x u id e

    safety-Advances :
        (fresh : String) (operation : Value) (q : Fields) (x : Logged World × Safety)
        → x.0.1 ≡ log
        → Advances s log (after_safety py (traced b) fresh operation q s x)
    unfolding after_safety
    safety-Advances fresh operation q (x, unsafe m) e = inl (refl, e)
    safety-Advances fresh operation q (x, broken m) e = inl (refl, e)
    safety-Advances fresh operation q (x, safe) e =
        parse-Advances x (parse_command fresh operation q) e (parse_command-id fresh operation q)

    if-Advances :
        (t : Bool) (o p : Outcome py (traced b))
        → Advances s log o
        → Advances s log p
        → Advances s log (if t then o else p)
    if-Advances true o p h k = h
    if-Advances false o p h k = k

    session-Advances :
        (fresh : String) (operation : Value) (q : Fields) (x : Logged World) (r : Result Value)
        → x.1 ≡ log
        → Advances s log (after_session py (traced b) fresh operation q s x r)
    unfolding after_session
    session-Advances fresh operation q x (err m) e = inl (refl, e)
    session-Advances fresh operation q x (ok v) e =
        if-Advances (value_eq v (str (traced b).session_id)) _ _
          (safety-Advances fresh operation q ((traced b).safety_check x) (unfold traced in e))
          (inl (refl, e))

    dispatch-Advances :
        (fresh : String) (operation : Value) (q : Fields) (x : Logged World) (r : Result Bool)
        → x.1 ≡ log
        → Advances s log (dispatch py (traced b) fresh operation q s x r)
    unfolding dispatch command_request
    dispatch-Advances fresh operation q x (err m) e = inl (refl, e)
    dispatch-Advances fresh operation q x (ok false) e = inl (refl, e)
    dispatch-Advances fresh operation q x (ok true) e =
        session-Advances fresh operation q x
          (validate_bridge_session_id (get "bridge_session_id" q)) e

    state-Advances :
        (x : Logged World × Result GameState)
        → x.0.1 ≡ log
        → Advances s log (state_response py (traced b) s x)
    unfolding state_response
    state-Advances (x, ok state) e = inl (refl, e)
    state-Advances (x, err m) e = inl (refl, e)

    handle_request-Advances :
        (fresh : String) (q : Fields) (x : Logged World)
        → x.1 ≡ log
        → Advances s log (handle_request py (traced b) fresh q s x)
    unfolding handle_request
    handle_request-Advances fresh q x e =
        if-Advances (is_str "ping" (get "op" q)) _ _ (inl (refl, e)) (
          if-Advances (is_str "read_state" (get "op" q)) _ _
            (state-Advances (read_validated py (traced b) x)
              (unfold read_validated in unfold traced in e))
            (if-Advances (traced b).read_only _ _ (inl (refl, e)) (
              if-Advances (is_str "command_status" (get "op" q)) _ _ (inl (refl, e)) (
                dispatch-Advances fresh (get "op" q) q x (in_set (get "op" q) allowed_actions) e))))

  -- the invariant of a command: it reached the game at most once, and only if it is known
  abbrev Once : String → Caches → List Value → Type 0
  Once t s log = (is_known (str t) s ≡ false → count (str t) log ≡ 0) × (count (str t) log ≤ 1)

  Learns-is_known :
      (s s' : Caches) (c : Command) (u t : String)
      → c.id ≡ str u
      → Learns s c s'
      → is_known (str t) s' ≡ (if u == t then true else is_known (str t) s)
  unfolding value_eq
  Learns-is_known s s' c u t id (e, inl k) = rw (k, id) (ground arith)
  Learns-is_known s s' c u t id (e, inr k) = rw (k, id) (ground arith)

  Advances-Once :
      (t : String) (s : Caches) (log : List Value) (o : Outcome py (traced b))
      → Advances s log o
      → Once t s log
      → Once t o.0 o.1.1
  unfolding value_eq
  Advances-Once t s log o (inl (same, e)) h = rw (same, e) h
  Advances-Once t s log o (inr (c, u, id, n, learns, ran)) h =
      let known = Learns-is_known s o.0 c u t id learns in
      elim (Bool-cases (u == t)) [
        | inl k ↦
            let e : u ≡ t = (eq_iff u t).0 k in
            let none_before = h.0 (subst (λ v. is_known v s ≡ false) (id ∙ ap str e) n) in
            let once : count (str t) o.1.1 ≡ suc (count (str t) log) = rw (ran, id) (rw k refl) in
            ((λ m. absurd (let bad : true ≡ false = rw (known, k) at m in cc)), omega arith)
        | inr k ↦
            let same : count (str t) o.1.1 ≡ count (str t) log = rw (ran, id) (rw k refl) in
            ((λ m. same ∙ h.0 (rw (known, k) at m)), omega arith)
      ]

  handle_all-Once :
      (t : String) (qs : List (String × Fields)) (s : Caches) (x : Logged World)
      → Once t s x.1
      → Once t (handle_all py (traced b) qs s x).0 (handle_all py (traced b) qs s x).1.1
  unfolding handle_all
  handle_all-Once t [] s x h = h
  handle_all-Once t ((fresh, q) ∷ qs) s x h =
      let o = handle_request py (traced b) fresh q s x in
      handle_all-Once t qs o.0 o.1
        (Advances-Once t s x.1 o (handle_request-Advances s x.1 fresh q x refl) h)

  -- Whatever requests a watcher answers from its start, no command reaches the game more than once:
  -- neither a retry nor another request with the same id executes it again. The executions, the
  -- audit log and the journal raise only what the watcher catches.
  pub handle_all-at_most_once :
      (qs : List (String × Fields)) (w : World) (t : String)
      → count
          (str t)
          (handle_all py
            (traced b)
            qs
            (record { completed_commands = []; uncertain_commands = [] })
            (w, [])).1.1
        ≤ 1
  handle_all-at_most_once qs w t =
      (handle_all-Once t qs (record { completed_commands = []; uncertain_commands = [] }) (w, [])
        ((λ h. refl), omega arith)).1
