-- ===== src/Validation/Checks.antt =====
-- The constants of validation.py, and the tests that its checks share.
use Prim.Native.Nat.{Ordering}
use Prim.Native.String.{◌++◌, compare}
use civ5_agent_macos.Base.{
  ℕ, Bool, true, false, not, ◌&&◌, ◌||◌, List, [], ◌∷◌, String, leb, all, any, length, text_length,
  is_type_id, if◌then◌else◌,
}
use civ5_agent_macos.Base.Int.{ℤ, pos, leb_ℤ}
use civ5_agent_macos.Python.{
  Value, bool, int, str, list, dict, Fields, end, Items, nil, cons, items, Runtime, Result, ok, err,
  type_error, value_eq, is_text, int_of, require, is_str, ◌>>=◌, ◌>>◌,
}
use civ5_agent_macos.State.{GameState}

abbrev pub max_map_coordinate : ℕ
max_map_coordinate = 65535

abbrev pub max_build_identifier_length : ℕ
max_build_identifier_length = 64

-- `state.schema_version >= n`, where the version is a checked integer
abbrev pub schema_from : ℕ → GameState → Bool
schema_from n s = leb_ℤ (pos n) (int_of s.schema_version)

-- The entries of a value that a check has found to be a list or an object.
abbrev pub items_of : Value → List Value
items_of (list xs) = items xs
items_of _ = []

abbrev pub fields_of : Value → Fields
fields_of (dict d) = d
fields_of _ = end

abbrev pub is_list : Value → Bool
is_list (list xs) = true
is_list _ = false

abbrev pub is_dict : Value → Bool
is_dict (dict d) = true
is_dict _ = false

-- an integer, not a boolean, that is at least `bound`
abbrev pub is_int_from : ℤ → Value → Bool
is_int_from bound (int z) = leb_ℤ bound z
is_int_from bound _ = false

-- `not isinstance(v, int) or isinstance(v, bool) or not 0 <= v <= MAX_MAP_COORDINATE`, negated
abbrev pub is_coordinate : Value → Bool
is_coordinate (int (pos n)) = leb n max_map_coordinate
is_coordinate _ = false

-- a text that a pattern `PREFIX[A-Z0-9_]+\Z` matches in full
abbrev pub is_id_text : String → Value → Bool
is_id_text prefix (str s) = is_type_id prefix s
is_id_text prefix _ = false

-- `v in values`
abbrev pub member : Value → List Value → Bool
member v vs = any (value_eq v) vs

abbrev text_le : String → String → Bool
text_le s t = elim (compare s t) [ Ordering.gt ↦ false | _ ↦ true ]

abbrev value_le : Value → Value → Bool
value_le (str s) (str t) = text_le s t
value_le v w = leb_ℤ (int_of v) (int_of w)

-- each entry is at most the next
abbrev pub is_sorted_by {ℓ} : {A : Type ℓ} → (A → A → Bool) → List A → Bool
is_sorted_by le [] = true
is_sorted_by le (x ∷ []) = true
is_sorted_by le (x ∷ y ∷ r) = le x y && is_sorted_by le (y ∷ r)

abbrev is_number : Value → Bool
is_number (int z) = true
is_number (bool b) = true
is_number _ = false

abbrev number_lt : Value → Value → Result Bool
number_lt v w =
    if is_number w
    then ok (not (leb_ℤ (int_of w) (int_of v)))
    else err (type_error "'<' not supported between instances")

-- `v < w`: texts compare, and numbers; lists by their first entries that are not equal
unfoldable mutual
  pub value_lt : Value → Value → Result Bool
  value_lt (str s) (str t) = ok (not (text_le t s))
  value_lt (int y) w = number_lt (int y) w
  value_lt (bool b) w = number_lt (bool b) w
  value_lt (list xs) (list ys) = items_lt xs ys
  value_lt v w = err (type_error "'<' not supported between instances")

  pub items_lt : Items → Items → Result Bool
  items_lt nil nil = ok false
  items_lt nil (cons w ys) = ok true
  items_lt (cons v xs) nil = ok false
  items_lt (cons v xs) (cons w ys) =
      let rest = items_lt xs ys in let here = value_lt v w in if value_eq v w then rest else here

-- no entry is less than the one before; the first pair that is out of order, or does not compare, decides
unfoldable pub is_ascending : List Value → Result Bool
is_ascending [] = ok true
is_ascending (v ∷ []) = ok true
is_ascending (v ∷ w ∷ vs) =
    let rest = is_ascending (w ∷ vs) in value_lt w v >>= λ less. if less then ok false else rest

-- `values == sorted(values)`: texts and numbers do not compare, nor do two values that are neither nor
-- lists
unfoldable pub is_stable_sorted : List Value → Result Bool
unfolding is_ascending
is_stable_sorted vs =
    if all is_text vs || all is_number vs || leb (length vs) 1
    then ok (is_sorted_by value_le vs)
    else if all is_list vs
    then is_ascending vs
    else err (type_error "'<' not supported between instances")

abbrev is_hashable : Value → Bool
is_hashable (list xs) = false
is_hashable (dict d) = false
is_hashable _ = true

-- `v in {names}`
abbrev pub in_set : Value → List String → Result Bool
in_set v names =
    if is_hashable v then ok (any (λ n. is_str n v) names) else err (type_error "unhashable type")

abbrev pub distinct : List Value → Bool
distinct [] = true
distinct (v ∷ vs) = not (member v vs) && distinct vs

-- `len(set(values)) == len(values)`
unfoldable pub is_unique : List Value → Result Bool
is_unique vs = if all is_hashable vs then ok (distinct vs) else err (type_error "unhashable type")

module _ (py : Runtime) where
  -- `f"{kind} {id} has invalid {field}"`
  abbrev pub invalid_field : String → Value → String → String
  invalid_field kind id field_name = kind ++ " " ++ py.repr id ++ " has invalid " ++ field_name

  unfoldable pub validate_worker_identifier : Value → String → String → Value → Result (Unit {0})
  validate_worker_identifier v prefix field_name unit_id =
      require (is_id_text prefix v && is_short v) (invalid_field "unit" unit_id field_name)
    where
      is_short : Value → Bool
      is_short (str s) = leb (text_length s) max_build_identifier_length
      is_short _ = false

unfoldable pub validate_technology_ids : Value → String → Result (Unit {0})
unfolding is_stable_sorted is_unique
validate_technology_ids v name = do
  require (is_list v) (name ++ " must be a list")
  in_order ← is_stable_sorted (items_of v)
  require in_order (name ++ " must use stable sorted order")
  unique ← is_unique (items_of v)
  require unique (name ++ " contains duplicates")
  require (all (is_id_text "TECH_") (items_of v))
      (name ++ " contains an invalid technology identifier")
