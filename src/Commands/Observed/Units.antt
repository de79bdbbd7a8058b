-- ===== src/Commands/Observed/Units.antt =====
-- command.py: the results of `execute_skip_unit`.
use civ5_agent_macos.Base.{
  ℕ, ◌≡◌, refl, true, false, Bool, Option, none, some, String, Bool-cases, Option-cases, inl, inr,
  not, ◌&&◌, ◌||◌, arith, and_halves,
}
use civ5_agent_macos.Python.{
  Value, null, bool, int, str, list, dict, Fields, Runtime, ok, get, is_nat, is_bool, is_str,
  value_eq,
}
use civ5_agent_macos.State.{GameState}
use civ5_agent_macos.Command.{Command}
use civ5_agent_macos.Requirements.{is_true}
use civ5_agent_macos.Executor.Steps.{CommandResult}
use civ5_agent_macos.Commands.{Client, arg, read_validated, find_unit}
use civ5_agent_macos.Commands.Units.{
  is_skipped, check_skip, skip_requested, skip_unit_of, execute_skip_unit,
}
use civ5_agent_macos.Commands.Observed.{
  Returns, Shows, success-Shows, nothing-Shows, then_act-Returns, verify-Returns,
}

module _ {World : Type 0} (py : Runtime) (client : Client World) (verify_timeout : ℕ)
    (limit : String) (c : Command) where
  -- behind the command, it is known that the unit needs no orders
  abbrev pub is_idle : Fields → Bool
  is_idle unit = is_bool (get "ready_to_move" unit) && not (is_true (get "ready_to_move" unit))

  -- The unit that the command names is in both states, and behind the command it needs no orders; nor
  -- did it before, or it stands where it stood with the movement that it had.
  abbrev pub skipped : GameState → GameState → Bool
  skipped before after = elim (find_unit (arg c "unit_id") before) [
    | none ↦ false
    | some b ↦ elim (find_unit (arg c "unit_id") after) [
      | none ↦ false
      | some a ↦ is_idle a && (is_idle b || is_skipped b a)
    ]
  ]

  false-idle :
      (v : Value)
      → value_eq v (bool false) ≡ true
      → is_bool v ≡ true
      → (is_bool v && not (is_true v)) ≡ true
  unfolding value_eq
  false-idle (bool true) h k = cc
  false-idle (bool false) h k = refl
  false-idle null h k = cc
  false-idle (int z) h k = cc
  false-idle (str s) h k = cc
  false-idle (list xs) h k = cc
  false-idle (dict d) h k = cc

  is_skipped-idle : (b a : Fields) → is_skipped b a ≡ true → is_idle a ≡ true
  is_skipped-idle b a h =
      let (in_place, moves) = and_halves _ _ h in
      let (at_x, y) = and_halves _ _ in_place in
      let (still, x) = and_halves _ _ at_x in
      let (known, boolean) = and_halves _ _ still in
      false-idle (get "ready_to_move" a) known boolean

  check_skip-Shows :
      (before : GameState) (b : Fields) (s : GameState) (r : CommandResult)
      → find_unit (arg c "unit_id") before ≡ some b
      → check_skip py client verify_timeout limit c before b s ≡ ok (some r)
      → Shows c skipped r
  check_skip-Shows before b s r found h = elim (Option-cases (find_unit (arg c "unit_id") s)) [
    | inl n ↦ nothing-Shows c skipped r (rw n at h)
    | inr (a, k) ↦ elim (Bool-cases (is_skipped b a)) [
      | inr n ↦ nothing-Shows c skipped r (rw (k, n) at h)
      | inl m ↦
          success-Shows c skipped _ before s r (rw (k, m) at h)
            (rw (found, k, m, is_skipped-idle b a m, skipped) (ground arith))
    ]
  ]

  skip_requested-Returns :
      (before : GameState) (b : Fields)
      → find_unit (arg c "unit_id") before ≡ some b
      → (answer : Value × Value) (w : World)
      → Returns
          (Shows c skipped)
          (skip_requested py client verify_timeout limit c before b answer w)
  unfolding skip_requested
  skip_requested-Returns before b found (status, returned) w =
      elim (Bool-cases (is_str "accepted" status && value_eq returned (arg c "unit_id"))) [
        | inr n ↦ rw (n, skip_requested) (refl, λ h. cc)
        | inl k ↦
            rw (k, skip_requested)
              (verify-Returns py client (check_skip py client verify_timeout limit c before b)
                (Shows c skipped) (λ s r. check_skip-Shows before b s r found) verify_timeout before
                _ w (λ s. (refl, λ h. cc)))
      ]

  idle-skipped :
      (b : Fields) → is_idle b ≡ true → (is_idle b && (is_idle b || is_skipped b b)) ≡ true
  idle-skipped b h = rw h refl

  unready :
      (before : GameState) (b : Fields)
      → find_unit (arg c "unit_id") before ≡ some b
      → is_bool (get "ready_to_move" b) ≡ true
      → is_true (get "ready_to_move" b) ≡ false
      → skipped before before ≡ true
  unready before b found k n = rw (found, found, skipped) (idle-skipped b (rw (k, n, is_idle) refl))

  skip_unit_of-Returns :
      (before : GameState) (o : Option Fields)
      → find_unit (arg c "unit_id") before ≡ o
      → (w : World)
      → Returns (Shows c skipped) (skip_unit_of py client verify_timeout limit c before o w)
  unfolding skip_unit_of
  skip_unit_of-Returns before none found w = (refl, λ h. cc)
  skip_unit_of-Returns before (some b) found w =
      elim (Bool-cases (is_bool (get "ready_to_move" b))) [
        | inr n ↦ rw (n, skip_unit_of) (refl, λ h. cc)
        | inl k ↦ elim (Bool-cases (is_true (get "ready_to_move" b))) [
          | inr n ↦
              rw (k, n, skip_unit_of)
                (refl, λ t. (before, before, refl, refl, unready before b found k n))
          | inl m ↦
              rw (k, m, skip_unit_of)
                (then_act-Returns (Shows c skipped) (client.request_skip_unit (arg c "unit_id") w) _
                  (skip_requested-Returns before b found))
        ]
      ]

  -- Whatever `execute_skip_unit` returns is the result of its command, and it reports success only
  -- where the unit is in both states and behind the command needs no orders; and then it needed none
  -- before either, or it stands where it stood with the movement that it had.
  pub execute_skip_unit-Shows :
      (w : World) → Returns (Shows c skipped) (execute_skip_unit py client verify_timeout limit c w)
  unfolding execute_skip_unit
  execute_skip_unit-Shows w = elim (Bool-cases (is_nat (arg c "unit_id"))) [
    | inr n ↦ rw (n, execute_skip_unit) (refl, λ h. cc)
    | inl k ↦
        rw (k, execute_skip_unit)
          (then_act-Returns (Shows c skipped) (read_validated py client w) _
            (λ before v. skip_unit_of-Returns before (find_unit (arg c "unit_id") before) refl v))
  ]
