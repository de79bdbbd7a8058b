-- ===== src/Commands/Observed/Moves.antt =====
-- command.py: the results of `execute_move_unit`.
use civ5_agent_macos.Base.{
  ℕ, ◌≡◌, refl, true, false, Bool, Option, none, some, String, subst, Bool-cases, inl, inr, not,
  ◌&&◌, ◌||◌, arith,
}
use civ5_agent_macos.Base.Int.{leb_ℤ}
use civ5_agent_macos.Python.{
  Value, dict, field, end, Fields, Runtime, ok, get, is_nat, is_bool, is_int, is_str, value_eq,
  less_than, int_of,
}
use civ5_agent_macos.State.{GameState}
use civ5_agent_macos.Validation.{items_of, schema_from, is_coordinate, member}
use civ5_agent_macos.Command.{Command}
use civ5_agent_macos.Executor.Steps.{CommandResult}
use civ5_agent_macos.Commands.{Client, arg, item, read_validated, find_unit, turn_changed}
use civ5_agent_macos.Commands.Units.{
  stands, moved, moved_unit, check_move, move_requested, move_admitted, move_unit_of, move_from,
  execute_move_unit,
}
use civ5_agent_macos.Commands.Observed.{
  Returns, Shows, then_act-Returns, if-Meets, bind-Meets, Meets, verify-Returns,
}

module _ {World : Type 0} (py : Runtime) (client : Client World) (verify_timeout : ℕ)
    (limit : String) (c : Command) where
  -- the unit that the command names reached the tile that it names, with less movement
  abbrev pub reached : GameState → GameState → Bool
  reached before after = elim (find_unit (arg c "unit_id") before) [
    | none ↦ false
    | some b ↦ elim (find_unit (arg c "unit_id") after) [
      | none ↦ false
      | some a ↦
          value_eq after.schema_version before.schema_version
          && not (turn_changed before after)
          && value_eq (get "type" a) (get "type" b)
          && value_eq (get "x" a) (arg c "x")
          && value_eq (get "y" a) (arg c "y")
          && not (leb_ℤ (int_of (get "moves" b)) (int_of (get "moves" a)))
    ]
  ]

  moved-Meets :
      (before : GameState) (b : Fields) (s : GameState) (a : Fields)
      → (not (leb_ℤ (int_of (get "moves" b)) (int_of (get "moves" a))) ≡ true
          → stands py client verify_timeout limit c a (arg c "x") (arg c "y") ≡ true
          → reached before s ≡ true)
      → Meets (Shows c reached) (moved py client verify_timeout limit c before b s a)
  unfolding moved
  moved-Meets before b s a arrived =
      let Q = Shows c reached in
      if-Meets Q (stands py client verify_timeout limit c a (arg c "x") (arg c "y")) _ _
        (λ there.
          if-Meets Q (is_int (get "moves" a) || is_bool (get "moves" a)) _ _
            (λ number. bind-Meets Q (less_than (get "moves" a) (get "moves" b)) _ (λ t e.
              if-Meets Q t _ _
                (λ lower.
                  (refl, λ h. (before, s, refl, refl, arrived (ground (arith, e, lower)) there)))
                (λ same. (refl, λ h. cc))))
            (λ other. (refl, λ h. cc)))
        (λ elsewhere.
          if-Meets Q
            (not (stands py client verify_timeout limit c a (get "x" b) (get "y" b))
              || not (value_eq (get "moves" a) (get "moves" b)))
            _ _ (λ strange. (refl, λ h. cc)) (λ waiting. tt))

  moved_unit-Meets :
      (before : GameState) (b : Fields) (s : GameState) (o : Option Fields)
      → find_unit (arg c "unit_id") before ≡ some b
      → find_unit (arg c "unit_id") s ≡ o
      → value_eq s.schema_version before.schema_version ≡ true
      → turn_changed before s ≡ false
      → Meets (Shows c reached) (moved_unit py client verify_timeout limit c before b s o)
  unfolding moved_unit
  moved_unit-Meets before b s none found again schema turn = (refl, λ h. cc)
  moved_unit-Meets before b s (some a) found again schema turn =
      if-Meets (Shows c reached) (value_eq (get "type" a) (get "type" b)) _ _
        (λ same. moved-Meets before b s a (λ lower there.
          rw (found, again, reached) (ground (arith, schema, turn, same, lower, there))))
        (λ other. (refl, λ h. cc))

  check_move-Shows :
      (before : GameState) (b : Fields) (s : GameState) (r : CommandResult)
      → find_unit (arg c "unit_id") before ≡ some b
      → check_move py client verify_timeout limit c before b s ≡ ok (some r)
      → Shows c reached r
  unfolding check_move
  check_move-Shows before b s r found h = subst (Meets (Shows c reached)) h (
      if-Meets (Shows c reached) (not (value_eq s.schema_version before.schema_version)) _ _
        (λ n. (refl, λ h. cc))
        (λ n.
          if-Meets (Shows c reached) (turn_changed before s) _ _ (λ m. (refl, λ h. cc))
            (λ m.
              moved_unit-Meets before b s (find_unit (arg c "unit_id") s) found refl
                (ground (arith, n)) m)))

  move_requested-Returns :
      (before : GameState) (b : Fields)
      → find_unit (arg c "unit_id") before ≡ some b
      → (answer : Value × Value × Value × Value) (w : World)
      → Returns
          (Shows c reached)
          (move_requested py client verify_timeout limit c before b answer w)
  unfolding move_requested
  move_requested-Returns before b found (status, returned, x, y) w =
      elim (Bool-cases (
        is_str "accepted" status
        && value_eq returned (arg c "unit_id")
        && value_eq x (arg c "x")
        && value_eq y (arg c "y"))) [
          | inr n ↦ rw (n, move_requested) (refl, λ h. cc)
          | inl k ↦
              rw (k, move_requested)
                (verify-Returns py client (check_move py client verify_timeout limit c before b)
                  (Shows c reached) (λ s r. check_move-Shows before b s r found) verify_timeout
                  before _ w (λ s. (refl, λ h. cc)))
        ]

  move_admitted-Returns :
      (before : GameState) (b : Fields)
      → find_unit (arg c "unit_id") before ≡ some b
      → (w : World)
      → Returns (Shows c reached) (move_admitted py client verify_timeout limit c before b w)
  unfolding move_admitted
  move_admitted-Returns before b found w =
      let Q = Shows c reached in
      then_act-Returns Q (w, item "x" b) _
        (λ x w1.
          then_act-Returns Q (w1, item "y" b) _
            (λ y w2.
              then_act-Returns Q (w2, item "moves" b) _
                (λ moves w3.
                  then_act-Returns Q (w3, item "type" b) _
                    (λ type w4.
                      then_act-Returns Q
                        (client.request_move_unit (arg c "unit_id") x y (arg c "x") (arg c "y") w4)
                        _ (move_requested-Returns before b found)))))

  move_unit_of-Returns :
      (before : GameState) (o : Option Fields)
      → find_unit (arg c "unit_id") before ≡ o
      → (w : World)
      → Returns (Shows c reached) (move_unit_of py client verify_timeout limit c before o w)
  unfolding move_unit_of
  move_unit_of-Returns before none found w = (refl, λ h. cc)
  move_unit_of-Returns before (some b) found w =
      then_act-Returns (Shows c reached) (w, item "ordinary_move_targets" b) _
        (λ targets v.
          elim (Bool-cases (
            member (dict (field "x" (arg c "x") (field "y" (arg c "y") end))) (items_of targets))) [
              | inl k ↦ rw k (move_admitted-Returns before b found v)
              | inr n ↦ rw n (refl, λ h. cc)
            ])

  move_from-Returns :
      (before : GameState) (w : World)
      → Returns (Shows c reached) (move_from py client verify_timeout limit c before w)
  unfolding move_from
  move_from-Returns before w = elim (Bool-cases (schema_from 6 before)) [
    | inl k ↦
        rw (k, move_from) (move_unit_of-Returns before (find_unit (arg c "unit_id") before) refl w)
    | inr n ↦ rw (n, move_from) (refl, λ h. cc)
  ]

  -- Whatever `execute_move_unit` returns is the result of its command, and it reports success only
  -- where the unit stands behind it on the tile that the command names, of the same type, with less
  -- movement, and schema, turn and player are as before and the turn is active.
  pub execute_move_unit-Shows :
      (w : World) → Returns (Shows c reached) (execute_move_unit py client verify_timeout limit c w)
  unfolding execute_move_unit
  execute_move_unit-Shows w = elim (Bool-cases (is_nat (arg c "unit_id"))) [
    | inr n ↦ rw (n, execute_move_unit) (refl, λ h. cc)
    | inl k ↦ elim (Bool-cases (is_coordinate (arg c "x"))) [
      | inr n ↦ rw (k, n, execute_move_unit) (refl, λ h. cc)
      | inl x ↦ elim (Bool-cases (is_coordinate (arg c "y"))) [
        | inr n ↦ rw (k, x, n, execute_move_unit) (refl, λ h. cc)
        | inl y ↦
            rw (k, x, y, execute_move_unit)
              (then_act-Returns (Shows c reached) (read_validated py client w) _ move_from-Returns)
      ]
    ]
  ]
