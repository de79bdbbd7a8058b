-- ===== src/Watch/Honest.antt =====
-- watch.py: what the watcher answers of a completed command is what its execution returned.
use civ5_agent_macos.Base.{
  ◌≡◌, refl, ap, ◌∙◌, sym, subst, true, false, Bool, some, List, [], ◌∷◌, All, String, inl, inr,
  Option-cases, Bool-cases, if◌then◌else◌, arith, ◌==◌, eq_iff, ◌⊎◌,
}
use civ5_agent_macos.Base.Int.{ℤ}
use civ5_agent_macos.State.{GameState}
use civ5_agent_macos.Executor.Steps.{CommandResult}
use civ5_agent_macos.Python.{
  Value, str, dict, is_null, find, Fields, end, field, Runtime, Result, ok, err, get, is_str,
  value_eq, ◌>>=◌, stale_plan, invalid, type_error, unavailable, unexpected,
}
use civ5_agent_macos.Identity.{validate_uuid4, validate_bridge_session_id}
use civ5_agent_macos.Validation.{in_set}
use civ5_agent_macos.Command.{Command, allowed_actions}
use civ5_agent_macos.Requirements.{is_true}
use civ5_agent_macos.Watch.{
  Backend, Execution, finished, refused, raised, Caches, Cache, Entry, Safety, safe, unsafe, broken,
  lookup, set_field, result_to_dict, handled, os_error, with_journal_errors, parse_command,
  arguments_of, command_id_of, verify_timeout_of,
}
use civ5_agent_macos.Watch.Locked.{
  Outcome, Submission, Noted, read_validated, journal_submission, audited, complete,
  leave_uncertain, complete_audited, after_execution, execute_submitted, run_command, locked,
}
use civ5_agent_macos.Watch.Requests.{
  handle_request, after_parse, after_safety, after_session, command_request, dispatch,
  state_response, command_status, status_of, named_command, found, not_found,
}
use civ5_agent_macos.Watch.Traces.{handle_all}

-- another field of an answer leaves its result
get-set_field :
    (k : String) (v : Value) (d : Fields)
    → (k == "result") ≡ false
    → get "result" (set_field k v d) ≡ get "result" d
get-set_field k v end h = rw (h, get, find, set_field) refl
get-set_field k v (field j w d) h = elim (Bool-cases (j == k)) [
  | inl e ↦
      let same : j ≡ k = (eq_iff j k).0 e in
      let other : (j == "result") ≡ false = rw same h in rw (e, h, other, get, find, set_field) refl
  | inr n ↦ elim (Bool-cases (j == "result")) [
    | inl m ↦ rw (n, m, get, find, set_field) refl
    | inr m ↦ rw (n, m, get, find, set_field) (get-set_field k v d h)
  ]
]

with_journal_errors-result :
    (errors : List String) (d : Fields)
    → get "result" (with_journal_errors errors d) ≡ get "result" d
with_journal_errors-result [] d = refl
with_journal_errors-result (e ∷ r) d = get-set_field "journal_error" _ d refl

-- the fields of a request that are the arguments of an operation
abbrev pub argument_names : Value → List String
argument_names operation =
    if is_str "choose_research" operation
    then "tech_type" ∷ []
    else if is_str "skip_unit" operation
    then "unit_id" ∷ []
    else if is_str "move_unit" operation
    then "unit_id" ∷ "x" ∷ "y" ∷ []
    else if is_str "worker_build" operation
    then "unit_id" ∷ "x" ∷ "y" ∷ "build_type" ∷ []
    else if is_str "set_city_production" operation
    then "city_id" ∷ "kind" ∷ "item_type" ∷ []
    else []

-- those fields of a request that have the given names, each under its name
abbrev pub pick : List String → Fields → Fields
pick [] q = end
pick (k ∷ ks) q = field k (get k q) (pick ks q)

-- A request asks for a command: its operation, its own arguments, and its id or a new one.
abbrev pub Asks : String × Fields → Command → Type 0
Asks (fresh, q) c =
    (c.action ≡ get "op" q)
    × (c.args ≡ dict (pick (argument_names (get "op" q)) q))
    × (c.id ≡ (if is_null (get "id" q) then str fresh else get "id" q))

-- one of the requests asks for the command
abbrev pub AskedIn : List (String × Fields) → Command → Type 0
AskedIn [] c = ⊥
AskedIn (p ∷ qs) c = Asks p c ⊎ AskedIn qs c

-- An answer has the action and the arguments of a command with the id that was asked for, which one
-- of the requests had asked for, and a result that the command achieved.
abbrev pub Answers :
    (Command → CommandResult → Type 0) → List (String × Fields) → Fields → Fields → Type 0
Answers Achieved qs q a =
    (c : Command) × (r : CommandResult) × (value_eq c.id (get "command_id" q) ≡ true)
    × AskedIn qs c
    × (get "action" a ≡ c.action)
    × (get "arguments" a ≡ c.args)
    × (get "result" a ≡ result_to_dict r)
    × Achieved c r

-- what the watcher takes as the arguments of an operation
arguments_of-pick :
    (operation : Value) (q : Fields) → arguments_of operation q ≡ pick (argument_names operation) q
arguments_of-pick operation q = elim (Bool-cases (is_str "choose_research" operation)) [
  | inl n ↦ rw (n, arguments_of, argument_names) refl
  | inr n ↦ elim (Bool-cases (is_str "skip_unit" operation)) [
    | inl m ↦ rw (n, m, arguments_of, argument_names) refl
    | inr m ↦ elim (Bool-cases (is_str "move_unit" operation)) [
      | inl k ↦ rw (n, m, k, arguments_of, argument_names) refl
      | inr k ↦ elim (Bool-cases (is_str "worker_build" operation)) [
        | inl j ↦ rw (n, m, k, j, arguments_of, argument_names) refl
        | inr j ↦ elim (Bool-cases (is_str "set_city_production" operation)) [
          | inl i ↦ rw (n, m, k, j, i, arguments_of, argument_names) refl
          | inr i ↦ rw (n, m, k, j, i, arguments_of, argument_names) refl
        ]
      ]
    ]
  ]
]

-- the last steps of `parse_command`
abbrev parsed_command : Value → Value → Result Value → Result ℤ → Result (Command × ℤ)
parsed_command action args x y = do
  id ← x
  limit ← y
  ok (record { action = action; args = args; id = id }, limit)

parsed :
    (action args : Value) (x : Result Value) (y : Result ℤ) (c : Command) (limit : ℤ)
    → parsed_command action args x y ≡ ok (c, limit)
    → (c.action ≡ action) × (c.args ≡ args) × (x ≡ ok c.id)
parsed action args (ok id) (ok l) c limit h =
    let same : ◌≡◌ {A = Result (Command × ℤ)}
        (ok (record { action = action; args = args; id = id }, l)) (ok (c, limit)) =
      h in
    let made : ◌≡◌ {A = Command} (record { action = action; args = args; id = id }) c = cc in
    (
      sym (ap (λ (k : Command). k.action) made),
      sym (ap (λ (k : Command). k.args) made),
      ap (λ (k : Command). ok k.id) made,
    )
parsed action args (ok id) (err e) c limit h = cc
parsed action args (err e) y c limit h = cc

given_id :
    (fresh : String) (q : Fields) (id : Value)
    → command_id_of fresh q ≡ ok id
    → id ≡ (if is_null (get "id" q) then str fresh else get "id" q)
given_id fresh q id h = ground arith

parse_command-Asks :
    (fresh : String) (q : Fields) (c : Command) (limit : ℤ)
    → parse_command fresh (get "op" q) q ≡ ok (c, limit)
    → Asks (fresh, q) c
unfolding parse_command
parse_command-Asks fresh q c limit h =
    let (action, args, id) =
      parsed (get "op" q) (dict (arguments_of (get "op" q) q)) (command_id_of fresh q)
        (verify_timeout_of q) c limit h in
    (action, args ∙ ap dict (arguments_of-pick (get "op" q) q), given_id fresh q c.id id)

-- what a request parses to was asked for
abbrev Parses : (Command → Type 0) → String → Value → Fields → Type 0
Parses Asked fresh operation q =
    (c : Command) (limit : ℤ) → parse_command fresh operation q ≡ ok (c, limit) → Asked c

module _ {World : Type 0} (py : Runtime) (b : Backend World)
    (Achieved : Command → CommandResult → Type 0) (Asked : Command → Type 0)
    (shows : (c : Command) (limit : ℤ) (w : World) (r : CommandResult)
      → (b.execute c limit w).1 ≡ finished r
      → Achieved c r) where
  -- an entry of the cache is about a command with its key as its id, and holds what it achieved
  abbrev pub Reports : Value × Entry → Type 0
  Reports (id, e) =
      (c : Command) × (r : CommandResult) × (c.id ≡ id)
      × (e.action ≡ c.action)
      × (e.args ≡ c.args)
      × (get "result" e.response ≡ result_to_dict r)
      × Asked c
      × Achieved c r

  abbrev pub Honest : Caches → Type 0
  Honest s = All Reports s.completed_commands

  module _ (s : Caches) (honest : Honest s) where
    complete-Honest :
        (c : Command) (r : CommandResult) (response : Fields) (n : Noted py b)
        → get "result" response ≡ result_to_dict r
        → Asked c × Achieved c r
        → Honest (complete py b s c response n).0
    unfolding complete
    complete-Honest c r response (w, err e) h k = honest
    complete-Honest c r response (w, ok errors) h k =
        ((c, r, refl, refl, refl, with_journal_errors-result errors response ∙ h, k.0, k.1), honest)

    leave_uncertain-Honest :
        (c : Command) (response : Fields) (n : Noted py b)
        → Honest (leave_uncertain py b s c response n).0
    unfolding leave_uncertain
    leave_uncertain-Honest c response (w, err e) = honest
    leave_uncertain-Honest c response (w, ok errors) = honest

    audited-Honest :
        (c : Command) (r : CommandResult) (errors : List String) (response : Fields)
        (x : World × Result (Unit {0}))
        → get "result" response ≡ result_to_dict r
        → Asked c × Achieved c r
        → Honest (complete_audited py b s c (result_to_dict r) errors (audited py b response x)).0
    unfolding audited complete_audited
    audited-Honest c r errors response (w, ok u) h k = complete-Honest c r response _ h k
    audited-Honest c r errors response (w, err e) h k = elim (Option-cases (os_error e)) [
      | inl n ↦ rw (n, audited, complete_audited) honest
      | inr (m, n) ↦
          rw (n, audited, complete_audited)
            (complete-Honest c r _ _ (get-set_field "audit_error" _ response refl ∙ h) k)
    ]

    execution-Honest :
        (c : Command) (errors : List String) (turn : Value) (x : World × Execution)
        → ((r : CommandResult) → x.1 ≡ finished r → Asked c × Achieved c r)
        → Honest (after_execution py b s c errors turn x).0
    unfolding after_execution
    execution-Honest c errors turn (w, refused m) h = honest
    execution-Honest c errors turn (w, raised e) h = elim (Option-cases (handled e)) [
      | inl n ↦ rw (n, after_execution) honest
      | inr (m, n) ↦ rw (n, after_execution) (leave_uncertain-Honest c _ _)
    ]
    execution-Honest c errors turn (w, finished r) h = audited-Honest c r errors _ _ refl (h r refl)

    submitted-Honest :
        (c : Command) (limit : ℤ) (n : Submission py b)
        → Asked c
        → Honest (execute_submitted py b s c limit n).0
    unfolding execute_submitted
    submitted-Honest c limit (w, err e) asked = honest
    submitted-Honest c limit (w, ok (errors, turn)) asked =
        execution-Honest c errors turn (b.execute c limit w) (λ r h. (asked, shows c limit w r h))

    locked-Honest :
        (c : Command) (limit : ℤ) (w : World) → Asked c → Honest (locked py b s c limit w).0
    unfolding locked run_command
    locked-Honest c limit w asked = elim (Option-cases (lookup c.id s.completed_commands)) [
      | inr (e, k) ↦ rw (k, locked) honest
      | inl n ↦ elim (Option-cases (lookup c.id s.uncertain_commands)) [
        | inr (e, k) ↦ rw (n, k, locked) honest
        | inl m ↦ rw (n, m, locked) (submitted-Honest c limit (journal_submission py b c w) asked)
      ]
    ]

    if-Honest :
        (t : Bool) (o p : Outcome py b) → Honest o.0 → Honest p.0 → Honest (if t then o else p).0
    if-Honest true o p h k = h
    if-Honest false o p h k = k

    parse-Honest :
        (w : World) (r : Result (Command × ℤ))
        → ((c : Command) (limit : ℤ) → r ≡ ok (c, limit) → Asked c)
        → Honest (after_parse py b s w r).0
    unfolding after_parse
    parse-Honest w (err (unexpected m)) asked = honest
    parse-Honest w (err (stale_plan m)) asked = honest
    parse-Honest w (err (invalid m)) asked = honest
    parse-Honest w (err (type_error m)) asked = honest
    parse-Honest w (err (unavailable m)) asked = honest
    parse-Honest w (ok (c, limit)) asked = locked-Honest c limit w (asked c limit refl)

    safety-Honest :
        (fresh : String) (operation : Value) (q : Fields) (x : World × Safety)
        → Parses Asked fresh operation q
        → Honest (after_safety py b fresh operation q s x).0
    unfolding after_safety
    safety-Honest fresh operation q (w, unsafe m) asked = honest
    safety-Honest fresh operation q (w, broken e) asked = honest
    safety-Honest fresh operation q (w, safe) asked =
        parse-Honest w (parse_command fresh operation q) asked

    session-Honest :
        (fresh : String) (operation : Value) (q : Fields) (w : World) (r : Result Value)
        → Parses Asked fresh operation q
        → Honest (after_session py b fresh operation q s w r).0
    unfolding after_session
    session-Honest fresh operation q w (err e) asked = honest
    session-Honest fresh operation q w (ok v) asked =
        if-Honest (value_eq v (str b.session_id)) _ _
          (safety-Honest fresh operation q (b.safety_check w) asked) honest

    dispatch-Honest :
        (fresh : String) (operation : Value) (q : Fields) (w : World) (r : Result Bool)
        → Parses Asked fresh operation q
        → Honest (dispatch py b fresh operation q s w r).0
    unfolding dispatch command_request
    dispatch-Honest fresh operation q w (err e) asked = honest
    dispatch-Honest fresh operation q w (ok false) asked = honest
    dispatch-Honest fresh operation q w (ok true) asked =
        session-Honest fresh operation q w (validate_bridge_session_id (get "bridge_session_id" q))
          asked

    state-Honest : (x : World × Result GameState) → Honest (state_response py b s x).0
    unfolding state_response
    state-Honest (w, ok state) = honest
    state-Honest (w, err e) = honest

    handle_request-Honest :
        (fresh : String) (q : Fields) (w : World)
        → Parses Asked fresh (get "op" q) q
        → Honest (handle_request py b fresh q s w).0
    unfolding handle_request
    handle_request-Honest fresh q w asked = if-Honest (is_str "ping" (get "op" q)) _ _ honest (
        if-Honest (is_str "read_state" (get "op" q)) _ _ (state-Honest (read_validated py b w)) (
          if-Honest b.read_only _ _ honest (
            if-Honest (is_str "command_status" (get "op" q)) _ _ honest (
              dispatch-Honest fresh (get "op" q) q w (in_set (get "op" q) allowed_actions) asked))))

  handle_all-Honest :
      (qs : List (String × Fields)) (s : Caches) (w : World)
      → All (λ p. Parses Asked p.0 (get "op" p.1) p.1) qs
      → Honest s
      → Honest (handle_all py b qs s w).0
  unfolding handle_all
  handle_all-Honest [] s w asked h = h
  handle_all-Honest ((fresh, q) ∷ qs) s w (first, asked) h =
      let o = handle_request py b fresh q s w in
      handle_all-Honest qs o.0 o.1 asked (handle_request-Honest s h fresh q w first)

  lookup-Reports :
      (id : Value) (cache : Cache) (e : Entry)
      → All Reports cache
      → lookup id cache ≡ some e
      → (k : Value) × (value_eq k id ≡ true) × Reports (k, e)
  lookup-Reports id [] e h k = cc
  lookup-Reports id ((j, f) ∷ cache) e h k = elim (Bool-cases (value_eq j id)) [
    | inl m ↦
        let same : f ≡ e = let x : some f ≡ some e = rw m at k in cc in
        (j, m, subst (λ g. Reports (j, g)) same h.0)
    | inr m ↦ lookup-Reports id cache e h.1 (rw m at k)
  ]

  -- what an answer to a status request shows, if it is about a command
  abbrev Shown : Fields → Fields → Type 0
  Shown q a =
      (c : Command) × (r : CommandResult) × (value_eq c.id (get "command_id" q) ≡ true)
      × Asked c
      × (get "action" a ≡ c.action)
      × (get "arguments" a ≡ c.args)
      × (get "result" a ≡ result_to_dict r)
      × Achieved c r

  status_of-Shown :
      (s : Caches) (q : Fields) (r : Result (Value × Value))
      → Honest s
      → ((v : Value) (id : Value) → r ≡ ok (v, id) → id ≡ get "command_id" q)
      → is_true (get "found" (status_of py b s r)) ≡ true
      → Shown q (status_of py b s r)
  unfolding status_of found not_found
  status_of-Shown s q (err e) honest named h = cc
  status_of-Shown s q (ok (v, id)) honest named h =
      elim (Bool-cases (value_eq v (str b.session_id))) [
        | inr n ↦ absurd (let bad : false ≡ true = rw (n, status_of) at h in cc)
        | inl n ↦ elim (Option-cases (lookup id s.completed_commands)) [
          | inl m ↦ absurd (let bad : false ≡ true = rw (n, m, status_of) at h in cc)
          | inr (e, m) ↦
              let (k, same, report) = lookup-Reports id s.completed_commands e honest m in
              let (c, r, key, action, args, result, asked, done) = report in
              (
                c,
                r,
                rw key (subst (λ i. value_eq k i ≡ true) (named v id refl) same),
                asked,
                rw (n, m, status_of) action,
                rw (n, m, status_of) args,
                rw (n, m, status_of) result,
                done,
              )
        ]
      ]

  named_command-id :
      (q : Fields) (v id : Value) → named_command py b q ≡ ok (v, id) → id ≡ get "command_id" q
  unfolding named_command validate_uuid4
  named_command-id q v id h = ground arith

  command_status-Shown :
      (s : Caches) (q : Fields)
      → Honest s
      → is_true (get "found" (command_status py b s q)) ≡ true
      → Shown q (command_status py b s q)
  unfolding command_status
  command_status-Shown s q honest h =
      status_of-Shown s q (named_command py b q) honest (named_command-id q) h

-- what the requests parse to, one of them asks for
Parses-AskedIn :
    (qs : List (String × Fields)) (Asked : Command → Type 0)
    → ((c : Command) → AskedIn qs c → Asked c)
    → All (λ p. Parses Asked p.0 (get "op" p.1) p.1) qs
Parses-AskedIn [] Asked h = tt
Parses-AskedIn ((fresh, q) ∷ qs) Asked h = (
  (λ c limit p. h c (inl (parse_command-Asks fresh q c limit p))),
  Parses-AskedIn qs Asked (λ c k. h c (inr k)),
)

module _ {World : Type 0} (py : Runtime) (b : Backend World)
    (Achieved : Command → CommandResult → Type 0)
    (shows : (c : Command) (limit : ℤ) (w : World) (r : CommandResult)
      → (b.execute c limit w).1 ≡ finished r
      → Achieved c r) where
  -- However the requests before went, a status request that finds a command is answered the result
  -- that its execution returned.
  pub command_status-Answers :
      (qs : List (String × Fields)) (w : World) (q a : Fields)
      → command_status py b
          (handle_all py b qs (record { completed_commands = []; uncertain_commands = [] }) w).0
          q
        ≡ a
      → is_true (get "found" a) ≡ true
      → Answers Achieved qs q a
  command_status-Answers qs w q a h found =
      let s =
        (handle_all py b qs (record { completed_commands = []; uncertain_commands = [] }) w).0 in
      subst (Answers Achieved qs q) h (
        command_status-Shown py b Achieved (AskedIn qs) shows s q
          (handle_all-Honest py b Achieved (AskedIn qs) shows qs
            (record { completed_commands = []; uncertain_commands = [] }) w
            (Parses-AskedIn qs (AskedIn qs) (λ c h. h)) tt)
          (subst (λ (d : Fields). is_true (get "found" d) ≡ true) (sym h) found))
