-- ===== src/Validation/Raises.antt =====
-- The exceptions of `validate_live_state` of validation.py, check by check.
use civ5_agent_macos.Base.{◌≡◌, Bool, true, false, arith, List, [], ◌∷◌, String, if◌then◌else◌}
use civ5_agent_macos.Python.{
  Value, int, bool, str, list, Items, nil, cons, value_eq, Fields, Error, unavailable, unexpected,
  invalid, type_error, Runtime, Result, ok, err, require, for_each, ◌>>=◌,
}
use civ5_agent_macos.State.{GameState}
use civ5_agent_macos.Validation.{validate_live_state}
use civ5_agent_macos.Validation.Checks.{
  items_of, in_set, is_unique, value_lt, items_lt, is_ascending, is_stable_sorted,
  validate_worker_identifier, validate_technology_ids,
}
use civ5_agent_macos.Validation.Scalars.{validate_scalars}
use civ5_agent_macos.Validation.Records.{
  validate_city, validate_strength, validate_unit, validate_relations, validate_records,
  validate_victory, validate_lists, validate_cities, validate_units, validate_diplomacy,
}
use civ5_agent_macos.Validation.Units.{
  validate_plot, validate_build_actions, validate_ordinary_move_targets, validate_worker_state,
}
use civ5_agent_macos.Validation.Research.{
  validate_research, validate_research_choice, validate_current_research,
}
use civ5_agent_macos.Validation.Facts.{
  validate_research_runtime_candidate, validate_supported_facts, validate_unsupported_facts,
  validate_research_runtime_facts,
}
use civ5_agent_macos.Validation.Context.{validate_dimension, validate_runtime_context}

-- the exceptions that `except (TypeError, ValueError)` handles
abbrev pub is_value_error : Error → Bool
is_value_error (unavailable m) = false
is_value_error (unexpected m) = false
is_value_error _ = true

-- If the computation raises, then one of those.
pub record IsTidy {ℓ} {A : Type ℓ} (r : Result A) : Type ℓ where
  pub only : (e : Error) → r ≡ err e → is_value_error e ≡ true

IsTidy-ok {ℓ} : {A : Type ℓ} (a : A) → IsTidy (ok a)
IsTidy-ok a = record { only = λ e h. cc }

IsTidy-bind {ℓ κ} :
    {A : Type ℓ} {B : Type κ} (m : Result A) (f : A → Result B)
    → IsTidy m
    → ((a : A) → IsTidy (f a))
    → IsTidy (m >>= f)
IsTidy-bind (ok a) f h k = record { only = (k a).only }
IsTidy-bind (err e) f h k = record { only = λ x q. h.only x (cc q) }

IsTidy-require : (c : Bool) (m : String) → IsTidy (require c m)
IsTidy-require true m = record { only = λ e h. cc }
IsTidy-require false m = record { only = λ e h. ground arith }

IsTidy-if {ℓ} :
    {A : Type ℓ} (c : Bool) (x y : Result A) → IsTidy x → IsTidy y → IsTidy (if c then x else y)
IsTidy-if true x y h k = h
IsTidy-if false x y h k = k

IsTidy-for_each {ℓ} :
    {A : Type ℓ} (f : A → Result (Unit {0})) (xs : List A)
    → ((x : A) → IsTidy (f x))
    → IsTidy (for_each f xs)
IsTidy-for_each f [] h = IsTidy-ok tt
IsTidy-for_each f (x ∷ xs) h =
    IsTidy-bind (f x) (λ _. for_each f xs) (h x) (λ _. IsTidy-for_each f xs h)

IsTidy-type_error {ℓ} : {A : Type ℓ} (m : String) → IsTidy {A = A} (err (type_error m))
IsTidy-type_error m = record { only = λ e h. ground arith }

IsTidy-invalid {ℓ} : {A : Type ℓ} (m : String) → IsTidy {A = A} (err (invalid m))
IsTidy-invalid m = record { only = λ e h. ground arith }

IsTidy-in_set : (v : Value) (names : List String) → IsTidy (in_set v names)
IsTidy-in_set v names = search (IsTidy-if, IsTidy-ok, IsTidy-type_error)

IsTidy-is_unique : (vs : List Value) → IsTidy (is_unique vs)
unfolding is_unique
IsTidy-is_unique vs = search (IsTidy-if, IsTidy-ok, IsTidy-type_error)

mutual
  unfolding value_lt items_lt

  IsTidy-value_lt : (v w : Value) → IsTidy (value_lt v w)
  IsTidy-value_lt (str s) (str t) = IsTidy-ok _
  IsTidy-value_lt (int y) w = search (IsTidy-if, IsTidy-ok, IsTidy-type_error)
  IsTidy-value_lt (bool b) w = search (IsTidy-if, IsTidy-ok, IsTidy-type_error)
  IsTidy-value_lt (list xs) (list ys) = IsTidy-items_lt xs ys
  IsTidy-value_lt v w = IsTidy-type_error _

  IsTidy-items_lt : (xs ys : Items) → IsTidy (items_lt xs ys)
  IsTidy-items_lt nil nil = IsTidy-ok false
  IsTidy-items_lt nil (cons w ys) = IsTidy-ok true
  IsTidy-items_lt (cons v xs) nil = IsTidy-ok false
  IsTidy-items_lt (cons v xs) (cons w ys) =
      IsTidy-if (value_eq v w) _ _ (IsTidy-items_lt xs ys) (IsTidy-value_lt v w)

IsTidy-is_ascending : (vs : List Value) → IsTidy (is_ascending vs)
unfolding is_ascending
IsTidy-is_ascending [] = IsTidy-ok true
IsTidy-is_ascending (v ∷ []) = IsTidy-ok true
IsTidy-is_ascending (v ∷ w ∷ vs) =
    IsTidy-bind (value_lt w v) _ (IsTidy-value_lt w v)
      (λ less. IsTidy-if less _ _ (IsTidy-ok false) (IsTidy-is_ascending (w ∷ vs)))

IsTidy-is_stable_sorted : (vs : List Value) → IsTidy (is_stable_sorted vs)
unfolding is_stable_sorted
IsTidy-is_stable_sorted vs = search (IsTidy-if, IsTidy-ok, IsTidy-type_error, IsTidy-is_ascending)

ruleset tidy = (
  IsTidy-bind, IsTidy-require, IsTidy-if, IsTidy-for_each, IsTidy-in_set, IsTidy-is_unique,
  IsTidy-is_stable_sorted, IsTidy-ok, IsTidy-invalid,
)

module _ (py : Runtime) where
  victory : (s : GameState) → IsTidy (validate_victory s)
  unfolding validate_victory
  victory s = search tidy depth 14

  identifier :
      (v : Value) (p n : String) (u : Value) → IsTidy (validate_worker_identifier py v p n u)
  unfolding validate_worker_identifier
  identifier v p n u = search tidy

  technologies : (v : Value) (n : String) → IsTidy (validate_technology_ids v n)
  unfolding validate_technology_ids
  technologies v n = search tidy depth 14

  targets : (u : Fields) → IsTidy (validate_ordinary_move_targets py u)
  unfolding validate_ordinary_move_targets
  targets u = search tidy depth 14

  plot : (u : Value) (f : Fields) → IsTidy (validate_plot py u f)
  unfolding validate_plot
  plot u f = search (tidy, identifier) depth 14

  builds : (u a : Value) → IsTidy (validate_build_actions py u a)
  unfolding validate_build_actions
  builds u a = search (tidy, identifier) depth 14

  worker : (u : Fields) → IsTidy (validate_worker_state py u)
  unfolding validate_worker_state
  worker u = search (tidy, identifier, plot, builds) depth 14

  city : (s : GameState) (c : Fields) → IsTidy (validate_city py s c)
  unfolding validate_city
  city s c = search tidy depth 14

  cities : (s : GameState) → IsTidy (validate_cities py s)
  unfolding validate_cities
  cities s = search (tidy, city)

  strength : (s : GameState) (u : Fields) → IsTidy (validate_strength py s u)
  unfolding validate_strength
  strength s u = search (tidy, targets, worker) depth 14

  unit : (s : GameState) (u : Fields) → IsTidy (validate_unit py s u)
  unfolding validate_unit
  unit s u = search (tidy, strength) depth 14

  units : (s : GameState) → IsTidy (validate_units py s)
  unfolding validate_units
  units s = search (tidy, unit)

  relations : (s : GameState) (seen rs : List Value) → IsTidy (validate_relations py s seen rs)
  unfolding validate_relations
  relations s seen [] = IsTidy-ok tt
  relations s seen (r ∷ rs) = search (tidy, λ (p : Value). relations s (p ∷ seen) rs) depth 14

  diplomacy : (s : GameState) → IsTidy (validate_diplomacy py s)
  unfolding validate_diplomacy
  diplomacy s = relations s [] (items_of s.diplomacy)

  records : (kind : String) (seen rs : List Value) → IsTidy (validate_records py kind seen rs)
  unfolding validate_records
  records kind seen [] = IsTidy-ok tt
  records kind seen (r ∷ rs) = search (tidy, λ (p : Value). records kind (p ∷ seen) rs) depth 14

  lists : (s : GameState) → IsTidy (validate_lists py s)
  unfolding validate_lists
  lists s = search (tidy, records) depth 14

  choice : (s : GameState) → IsTidy (validate_research_choice s)
  unfolding validate_research_choice
  choice s = search tidy depth 14

  current : (s : GameState) → IsTidy (validate_current_research s)
  unfolding validate_current_research
  current s = search tidy depth 14

  research : (s : GameState) → IsTidy (validate_research s)
  unfolding validate_research
  research s = search (tidy, technologies, choice, current) depth 14

  scalars : (s : GameState) → IsTidy (validate_scalars py s)
  unfolding validate_scalars
  scalars s = search tidy depth 24

  candidate : (v : Value) → IsTidy (validate_research_runtime_candidate v)
  unfolding validate_research_runtime_candidate
  candidate v = search tidy depth 14

  supported : (s : GameState) (f : Fields) → IsTidy (validate_supported_facts s f)
  unfolding validate_supported_facts
  supported s f = search (tidy, candidate) depth 30

  unsupported : (s : GameState) (f : Fields) → IsTidy (validate_unsupported_facts s f)
  unfolding validate_unsupported_facts
  unsupported s f = search tidy depth 20

  facts : (s : GameState) → IsTidy (validate_research_runtime_facts s)
  unfolding validate_research_runtime_facts
  facts s = search (tidy, supported, unsupported) depth 20

  dimension : (c : Fields) (n : String) → IsTidy (validate_dimension c n)
  unfolding validate_dimension
  dimension c n = search tidy depth 20

  context : (v : Value) → IsTidy (validate_runtime_context v)
  unfolding validate_runtime_context
  context v = search (tidy, dimension) depth 24

  live : (s : GameState) → IsTidy (validate_live_state py s)
  unfolding validate_live_state
  live s =
      search (tidy, scalars, lists, cities, units, diplomacy, victory, research, facts, context)
        depth 30

  -- What `validate_live_state` raises is a `ValueError` or a `TypeError`.
  pub validate_live_state_raises :
      (s : GameState) (e : Error) → validate_live_state py s ≡ err e → is_value_error e ≡ true
  validate_live_state_raises s e h = (live s).only e h
