-- ===== src/Python.antt =====
-- What the source uses of Python: the JSON-like values that its dictionaries hold, `==` on them,
-- and exceptions as results. Floats, tuples and other objects are not values of the model.
use Prim.Native.String.{◌++◌}
use civ5_agent_macos.Base.{
  ℕ, suc, ◌≡◌, Bool, true, false, not, ◌&&◌, ◌||◌, Option, none, some, List, [], ◌∷◌, String, ◌==◌,
  eqb, if◌then◌else◌, is_empty, is_hex_text, refl, ap, eq_iff, ◌⊎◌, inl, inr,
}
use civ5_agent_macos.Base.Int.{ℤ, pos, eq_ℤ, leb_ℤ}

mutual
  pub data Value : Type 0 where
    null : Value
    bool : Bool → Value
    int : ℤ → Value
    str : String → Value
    list : Items → Value
    dict : Fields → Value

  pub data Items : Type 0 where
    nil : Items
    cons : Value → Items → Items

  pub data Fields : Type 0 where
    end : Fields
    field : String → Value → Fields → Fields

abbrev pub items : Items → List Value
items nil = []
items (cons v xs) = v ∷ items xs

-- The dictionary `{k: v, ...}` and the list `[v, ...]` of given entries.
abbrev pub to_items : List Value → Items
to_items [] = nil
to_items (v ∷ vs) = cons v (to_items vs)

abbrev pub to_fields : List (String × Value) → Fields
to_fields [] = end
to_fields ((k, v) ∷ r) = field k v (to_fields r)

abbrev pub size : Fields → ℕ
size end = 0
size (field k v r) = suc (size r)

-- `d.get(k)` where absence is told apart, `k in d`, and `d.get(k)` with its default `None`
abbrev pub find : String → Fields → Option Value
find k end = none
find k (field j v r) = if j == k then some v else find k r

abbrev pub has : String → Fields → Bool
has k d = elim (find k d) [ none ↦ false | some _ ↦ true ]

abbrev pub get : String → Fields → Value
get k d = elim (find k d) [ none ↦ null | some v ↦ v ]

abbrev pub keys : Fields → List String
keys end = []
keys (field k v r) = k ∷ keys r

-- `s in names`
abbrev pub one_of : String → List String → Bool
one_of s [] = false
one_of s (n ∷ ns) = if n == s then true else one_of s ns

-- `set(d) == {names}`: the names are distinct, and so are the keys of a dictionary.
abbrev all_in : List String → List String → Bool
all_in [] names = true
all_in (k ∷ ks) names = one_of k names && all_in ks names

unfoldable pub has_exactly : List String → Fields → Bool
has_exactly names d = all_in (keys d) names && all_in names (keys d)

-- `repr` of a list of plain names, as messages show a sorted set of fields
abbrev quoted : List String → String
quoted [] = ""
quoted (n ∷ []) = "'" ++ n ++ "'"
quoted (n ∷ m ∷ r) = "'" ++ n ++ "', " ++ quoted (m ∷ r)

abbrev pub repr_names : List String → String
repr_names names = "[" ++ quoted names ++ "]"

abbrev bool_int : Bool → ℤ
bool_int true = pos 1
bool_int false = pos 0

-- `a == b`: a boolean is the integer 0 or 1, and dictionaries are compared in any order.
unfoldable mutual
  pub value_eq : Value → Value → Bool
  value_eq null null = true
  value_eq (bool a) (bool b) = eq_ℤ (bool_int a) (bool_int b)
  value_eq (bool a) (int z) = eq_ℤ (bool_int a) z
  value_eq (int z) (bool b) = eq_ℤ z (bool_int b)
  value_eq (int y) (int z) = eq_ℤ y z
  value_eq (str s) (str t) = s == t
  value_eq (list xs) (list ys) = items_eq xs ys
  value_eq (dict d) (dict e) = eqb (size d) (size e) && fields_in d e
  value_eq _ _ = false

  pub items_eq : Items → Items → Bool
  items_eq nil nil = true
  items_eq (cons v xs) (cons w ys) = value_eq v w && items_eq xs ys
  items_eq _ _ = false

  -- every entry of the first is in the second
  pub fields_in : Fields → Fields → Bool
  fields_in end e = true
  fields_in (field k v r) e =
      elim (find k e) [ none ↦ false | some w ↦ value_eq v w ] && fields_in r e

-- `v == "text"`
abbrev pub is_str : String → Value → Bool
is_str t (str s) = s == t
is_str t _ = false

pub is_str-eq : (t : String) (v : Value) → is_str t v ≡ true → v ≡ str t
is_str-eq t (str s) h = ap str ((eq_iff s t).0 h)
is_str-eq t null h = cc
is_str-eq t (bool b) h = cc
is_str-eq t (int z) h = cc
is_str-eq t (list xs) h = cc
is_str-eq t (dict d) h = cc

abbrev pub is_null : Value → Bool
is_null null = true
is_null _ = false

-- `isinstance(v, int) and not isinstance(v, bool)`, and the bounds that go with it
abbrev pub is_int : Value → Bool
is_int (int z) = true
is_int _ = false

abbrev pub is_nat : Value → Bool
is_nat (int (pos n)) = true
is_nat _ = false

abbrev pub is_bool : Value → Bool
is_bool (bool b) = true
is_bool _ = false

abbrev pub is_text : Value → Bool
is_text (str s) = true
is_text _ = false

-- `bool(v)`
abbrev pub truthy : Value → Bool
truthy null = false
truthy (bool b) = b
truthy (int z) = not (eq_ℤ z (pos 0))
truthy (str s) = not (s == "")
truthy (list xs) = not (is_empty (items xs))
truthy (dict d) = not (eqb (size d) 0)

-- The number of a value that has been checked to be an integer.
abbrev pub int_of : Value → ℤ
int_of (int z) = z
int_of (bool b) = bool_int b
int_of _ = pos 0

-- The exceptions that the source tells apart, with their messages: `StaleTurnPlanError`; any other
-- `ValueError`; `TypeError`; `OSError`, which `TimeoutError` and `ConnectionError` are; the rest.
pub data Error : Type 0 where
  stale_plan : String → Error
  invalid : String → Error
  type_error : String → Error
  unavailable : String → Error
  unexpected : String → Error

-- `str(error)`
abbrev pub message_of : Error → String
message_of (stale_plan m) = m
message_of (invalid m) = m
message_of (type_error m) = m
message_of (unavailable m) = m
message_of (unexpected m) = m

pub data Result {ℓ} (A : Type ℓ) : Type ℓ where
  ok : A → Result A
  err : Error → Result A

-- the statements behind one that may raise, with its value or without it
infixl 5 ◌>>=◌ ◌>>◌
abbrev pub ◌>>=◌ {ℓ κ} :
    {Before : Type ℓ} {After : Type κ} → Result Before → (Before → Result After) → Result After
err raised >>= _ = err raised
ok value >>= statements = statements value

abbrev pub ◌>>◌ {κ} : {After : Type κ} → Result (Unit {0}) → Result After → Result After
statement >> statements = statement >>= λ _. statements

-- `a < b` on integers and booleans
abbrev is_number : Value → Bool
is_number v = is_int v || is_bool v

abbrev pub less_than : Value → Value → Result Bool
less_than a b =
    if is_number a && is_number b
    then ok (not (leb_ℤ (int_of b) (int_of a)))
    else err (type_error "'<' not supported")

-- `if not c: raise ValueError(m)`
abbrev pub require : Bool → String → Result (Unit {0})
require true m = ok tt
require false m = err (invalid m)

-- `for x in xs: f(x)`
abbrev pub for_each {ℓ} : {A : Type ℓ} → (A → Result (Unit {0})) → List A → Result (Unit {0})
for_each f [] = ok tt
for_each f (x ∷ xs) = f x >>= λ _. for_each f xs

pub Result-cases {ℓ} :
    {A : Type ℓ} (r : Result A) → ((a : A) × (r ≡ ok a)) ⊎ ((e : Error) × (r ≡ err e))
Result-cases (ok a) = inl (a, refl)
Result-cases (err e) = inr (e, refl)

-- Where statements behind one that may raise returned, both returned.
pub >>=-ok {ℓ κ} :
    {Before : Type ℓ} {After : Type κ} (x : Result Before) (next : Before → Result After)
    {r : After}
    → (x >>= next) ≡ ok r
    → (v : Before) × (x ≡ ok v) × (next v ≡ ok r)
>>=-ok (err e) next h = cc
>>=-ok (ok v) next h = (v, refl, h)

-- What the model takes from the standard library as it stands: the SHA-256 of the canonical JSON
-- of a value, which is 64 lowercase hexadecimal digits, and `repr`.
pub record Runtime : Type 0 where
  pub sha256_json : Value → String
  pub sha256_json_form : (v : Value) → is_hex_text 64 (sha256_json v) ≡ true
  pub repr : Value → String
