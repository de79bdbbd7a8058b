-- ===== src/Commands/Observed/Builds.antt =====
-- command.py: the results of `execute_worker_build`.
use civ5_agent_macos.Base.{
  ℕ, ◌≡◌, refl, true, false, Bool, some, List, [], ◌∷◌, String, subst, Bool-cases, inl, inr, not,
  any, keep, ◌&&◌, ◌||◌, arith, if◌then◌else◌,
}
use civ5_agent_macos.Base.Int.{leb_ℤ}
use civ5_agent_macos.Python.{
  Value, Fields, Runtime, Result, ok, err, get, is_str, is_null, value_eq, less_than, int_of,
}
use civ5_agent_macos.State.{GameState}
use civ5_agent_macos.Validation.{items_of, fields_of, schema_from}
use civ5_agent_macos.Command.{Command, validate_command}
use civ5_agent_macos.Executor.Steps.{CommandResult}
use civ5_agent_macos.Commands.{Act, Client, arg, read_validated, is_value_error, turn_changed}
use civ5_agent_macos.Commands.Builds.{
  differ, is_barred, units_with, offers, is_active, is_completed, plot_differs, built, built_by,
  check_build, build_requested, build_candidate, build_by, build_from, build_validated,
  execute_worker_build,
}
use civ5_agent_macos.Commands.Observed.{
  Returns, Shows, then_act-Returns, if-Meets, bind-Meets, Meets, verify-Returns,
}

one_of_two : (x y : Bool) → differ x y ≡ true → x || (y || false) ≡ true
one_of_two true y h = refl
one_of_two false true h = refl
one_of_two false false h = h

-- a conditional act, where each branch returns what it should
if_act-Returns :
    {World A : Type 0} (Q : A → Type 0) (t : Bool) (f g : Act World A) (w : World)
    → Returns Q (f w)
    → Returns Q (g w)
    → Returns Q ((if t then f else g) w)
if_act-Returns Q true f g w h k = h
if_act-Returns Q false f g w h k = k

module _ {World : Type 0} (py : Runtime) (client : Client World) (verify_timeout : ℕ)
    (limit : String) (c : Command) where
  -- of the builds that the unit was offered, the one that the command names, under way or done
  abbrev pub is_built : Fields → Fields → Bool
  is_built b a =
      is_active (arg c "build_type") a
      || any (λ offer. is_completed (get "improvement_type" (fields_of offer)) a)
          (keep (offers (arg c "build_type")) (items_of (get "ordinary_build_actions" b)))

  -- the unit that the command names, once in both states, with its build and less movement, on the
  -- tile that the command names, of which nothing else changed
  abbrev pub erected_by : List Fields → List Fields → Bool
  erected_by (b ∷ []) (a ∷ []) =
      value_eq (get "type" a) (get "type" b)
      && value_eq (get "x" a) (arg c "x")
      && value_eq (get "y" a) (arg c "y")
      && not (plot_differs (fields_of (get "current_plot" b)) (fields_of (get "current_plot" a)))
      && not (leb_ℤ (int_of (get "moves" b)) (int_of (get "moves" a)))
      && is_built b a
  erected_by _ _ = false

  abbrev pub erected : GameState → GameState → Bool
  erected before after =
      value_eq after.schema_version before.schema_version
      && not (turn_changed before after)
      && erected_by (units_with (arg c "unit_id") before) (units_with (arg c "unit_id") after)

  module _ (before : GameState) (b : Fields) (offer : Value)
      (found : units_with (arg c "unit_id") before ≡ b ∷ [])
      (offered : keep (offers (arg c "build_type")) (items_of (get "ordinary_build_actions" b))
        ≡ offer ∷ []) where
    abbrev expected : Value
    expected = get "improvement_type" (fields_of offer)

    -- one of the two branches of success
    is_built-one :
        (a : Fields)
        → differ (is_active (arg c "build_type") a) (is_completed expected a) ≡ true
        → is_built b a ≡ true
    is_built-one a h =
        rw (offered, is_built)
          (one_of_two (is_active (arg c "build_type") a) (is_completed expected a) h)

    built-Meets :
        (s : GameState) (a : Fields)
        → (not (leb_ℤ (int_of (get "moves" b)) (int_of (get "moves" a))) ≡ true
            → is_built b a ≡ true
            → erected before s ≡ true)
        → Meets (Shows c erected) (built py client verify_timeout limit c before b expected s a)
    unfolding built
    built-Meets s a shown =
        let Q = Shows c erected in
        bind-Meets Q (less_than (get "moves" a) (get "moves" b)) _ (λ lower l.
          bind-Meets Q (less_than (get "moves" b) (get "moves" a)) _ (λ higher h.
            if-Meets Q
              (lower && differ (is_active (arg c "build_type") a) (is_completed expected a)) _ _
              (λ done. (
                refl,
                λ t. (
                  before,
                  s,
                  refl,
                  refl,
                  shown (ground (arith, l, done)) (is_built-one a (ground (arith, done))),
                ),
              ))
              (λ n.
                if-Meets Q
                  (higher
                    || lower && not (is_active (arg c "build_type") a || is_completed expected a))
                  _ _ (λ m. (refl, λ t. cc)) (λ m. tt))))

    built_by-Meets :
        (s : GameState) (units : List Fields)
        → units_with (arg c "unit_id") s ≡ units
        → value_eq s.schema_version before.schema_version ≡ true
        → turn_changed before s ≡ false
        → Meets
            (Shows c erected)
            (built_by py client verify_timeout limit c before b expected s units)
    unfolding built_by
    built_by-Meets s [] again schema turn = (refl, λ h. cc)
    built_by-Meets s (a ∷ a' ∷ units) again schema turn = (refl, λ h. cc)
    built_by-Meets s (a ∷ []) again schema turn =
        let Q = Shows c erected in
        if-Meets Q (not (value_eq (get "type" a) (get "type" b))) _ _ (λ n. (refl, λ h. cc))
          (λ same.
            if-Meets Q (not (value_eq (get "x" a) (arg c "x") && value_eq (get "y" a) (arg c "y")))
              _ _ (λ n. (refl, λ h. cc))
              (λ there.
                if-Meets Q
                  (plot_differs (fields_of (get "current_plot" b))
                    (fields_of (get "current_plot" a)))
                  _ _ (λ n. (refl, λ h. cc))
                  (λ plot. built-Meets s a (λ lower done.
                    rw (found, again, erected)
                      (ground (arith, schema, turn, same, there, plot, lower, done))))))

    check_build-Shows :
        (s : GameState) (r : CommandResult)
        → check_build py client verify_timeout limit c before b expected s ≡ ok (some r)
        → Shows c erected r
    unfolding check_build
    check_build-Shows s r h = subst (Meets (Shows c erected)) h (
        if-Meets (Shows c erected)
          (not (value_eq s.schema_version before.schema_version) || turn_changed before s) _ _
          (λ n. (refl, λ h. cc))
          (λ n.
            built_by-Meets s (units_with (arg c "unit_id") s) refl (ground (arith, n))
              (ground (arith, n))))

    build_requested-Returns :
        (answer : Value × Value × Value) (w : World)
        → Returns
            (Shows c erected)
            (build_requested py client verify_timeout limit c before b expected answer w)
    unfolding build_requested
    build_requested-Returns (status, returned, type) w =
        elim (Bool-cases (
          is_str "accepted" status
          && value_eq returned (arg c "unit_id")
          && value_eq type (arg c "build_type"))) [
            | inr n ↦ rw (n, build_requested) (refl, λ h. cc)
            | inl k ↦
                rw (k, build_requested)
                  (verify-Returns py client
                    (check_build py client verify_timeout limit c before b expected)
                    (Shows c erected) check_build-Shows verify_timeout before _ w
                    (λ s. (refl, λ h. cc)))
          ]

  build_candidate-Returns :
      (before : GameState) (b : Fields) (offers_made : List Value)
      → units_with (arg c "unit_id") before ≡ b ∷ []
      → keep (offers (arg c "build_type")) (items_of (get "ordinary_build_actions" b)) ≡ offers_made
      → (w : World)
      → Returns
          (Shows c erected)
          (build_candidate py client verify_timeout limit c before b offers_made w)
  unfolding build_candidate
  build_candidate-Returns before b [] found offered w = (refl, λ h. cc)
  build_candidate-Returns before b (o ∷ o' ∷ os) found offered w = (refl, λ h. cc)
  build_candidate-Returns before b (o ∷ []) found offered w =
      then_act-Returns (Shows c erected)
        (client.request_worker_build (arg c "unit_id") (arg c "x") (arg c "y") (arg c "build_type")
          w)
        _ (build_requested-Returns before b o found offered)

  build_by-Returns :
      (before : GameState) (units : List Fields)
      → units_with (arg c "unit_id") before ≡ units
      → (w : World)
      → Returns (Shows c erected) (build_by py client verify_timeout limit c before units w)
  unfolding build_by
  build_by-Returns before [] found w = (refl, λ h. cc)
  build_by-Returns before (b ∷ b' ∷ units) found w = (refl, λ h. cc)
  build_by-Returns before (b ∷ []) found w =
      let Q = Shows c erected in
      if_act-Returns Q (not (value_eq (get "x" b) (arg c "x") && value_eq (get "y" b) (arg c "y")))
        _ _ w (refl, λ h. cc)
        (if_act-Returns Q (not (is_null (get "current_build_type" b))) _ _ w (refl, λ h. cc)
          (if_act-Returns Q (is_barred py client verify_timeout limit c b) _ _ w (refl, λ h. cc)
            (build_candidate-Returns before b
              (keep (offers (arg c "build_type")) (items_of (get "ordinary_build_actions" b))) found
              refl w)))

  build_from-Returns :
      (x : World × Result GameState)
      → Returns (Shows c erected) (build_from py client verify_timeout limit c x)
  unfolding build_from
  build_from-Returns (w, err e) = elim (Bool-cases (is_value_error e)) [
    | inl k ↦ rw (k, build_from) tt
    | inr k ↦ rw (k, build_from) tt
  ]
  build_from-Returns (w, ok before) = elim (Bool-cases (schema_from 7 before)) [
    | inl k ↦
        rw (k, build_from) (build_by-Returns before (units_with (arg c "unit_id") before) refl w)
    | inr k ↦ rw (k, build_from) (refl, λ h. cc)
  ]

  build_validated-Returns :
      (r : Result Command) (w : World)
      → Returns (Shows c erected) (build_validated py client verify_timeout limit c r w)
  unfolding build_validated
  build_validated-Returns (err e) w = elim (Bool-cases (is_value_error e)) [
    | inl k ↦ rw (k, build_validated) (refl, λ h. cc)
    | inr k ↦ rw (k, build_validated) tt
  ]
  build_validated-Returns (ok n) w = elim (Bool-cases (is_str "worker_build" n.action)) [
    | inl k ↦ rw (k, build_validated) (build_from-Returns (read_validated py client w))
    | inr k ↦ rw (k, build_validated) (refl, λ h. cc)
  ]

  -- Whatever `execute_worker_build` returns is the result of its command, and it reports success only
  -- where the unit is once in both states, of the same type, stands behind it on the tile that the
  -- command names with less movement, has the build under way or done with the improvement that it was
  -- offered, no other fact of its tile differs, and schema, turn and player are as before and the turn
  -- is active.
  pub execute_worker_build-Shows :
      (w : World)
      → Returns (Shows c erected) (execute_worker_build py client verify_timeout limit c w)
  unfolding execute_worker_build
  execute_worker_build-Shows w = build_validated-Returns (validate_command py c) w
