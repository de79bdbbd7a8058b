-- ===== src/Journal/Json.antt =====
-- `sort_keys=True` of `json.dumps`: the fields of every dictionary in the order of their names,
-- code point by code point. What `json.loads` reads back has them in that order.
use civ5_agent_macos.Base.{
  ℕ, Bool, true, false, List, [], ◌∷◌, String, if◌then◌else◌, ltb, eqb, codes,
}
use civ5_agent_macos.Python.{
  Value, null, bool, int, str, list, dict, Items, nil, cons, Fields, end, field,
}

abbrev pub codes_le : List ℕ → List ℕ → Bool
codes_le [] ds = true
codes_le (c ∷ cs) [] = false
codes_le (c ∷ cs) (d ∷ ds) = if ltb c d then true else if eqb c d then codes_le cs ds else false

abbrev pub name_le : String → String → Bool
name_le s t = codes_le (codes s) (codes t)

abbrev pub insert_field : String → Value → Fields → Fields
insert_field k v end = field k v end
insert_field k v (field j w r) =
    if name_le k j then field k v (field j w r) else field j w (insert_field k v r)

abbrev mutual
  pub sorted : Value → Value
  sorted null = null
  sorted (bool b) = bool b
  sorted (int z) = int z
  sorted (str s) = str s
  sorted (list xs) = list (sorted_items xs)
  sorted (dict d) = dict (sorted_fields d)

  pub sorted_items : Items → Items
  sorted_items nil = nil
  sorted_items (cons v xs) = cons (sorted v) (sorted_items xs)

  pub sorted_fields : Fields → Fields
  sorted_fields end = end
  sorted_fields (field k v r) = insert_field k (sorted v) (sorted_fields r)
