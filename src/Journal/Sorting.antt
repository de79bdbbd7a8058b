-- ===== src/Journal/Sorting.antt =====
-- What sorting the fields of dictionaries leaves as it was.
use civ5_agent_macos.Base.{
  ℕ, ◌≡◌, refl, ap, true, false, ◌||◌, none, some, List, [], ◌∷◌, String, if◌then◌else◌, ◌==◌,
  eq_iff, eq_refl, arith, codes, Bool-cases, inl, inr,
}
use civ5_agent_macos.Python.{
  Value, null, bool, int, str, list, dict, Fields, end, field, find, get, is_nat, is_null, int_of,
  value_eq,
}
use civ5_agent_macos.Identity.{is_uuid_value}
use civ5_agent_macos.Journal.Json.{codes_le, name_le, insert_field, sorted, sorted_fields}
use civ5_agent_macos.Journal.Codec.{is_hash}
use civ5_agent_macos.Journal.Reader.{supersedes_one_of}

codes_le_refl : (cs : List ℕ) → codes_le cs cs ≡ true
codes_le_refl [] = refl
codes_le_refl (c ∷ cs) = ground (arith, codes_le_refl cs)

-- a name that is put behind another differs from it
before_ne : (j i : String) → name_le j i ≡ false → (i == j) ≡ false
before_ne j i h = elim (Bool-cases (i == j)) [
  | inr n ↦ n
  | inl e ↦
      let same : i ≡ j = (eq_iff i j).0 e in
      let yes_le : name_le j i ≡ true = rw same (codes_le_refl (codes j)) in absurd (cc)
]

find-insert_field :
    (k j : String) (v : Value) (d : Fields)
    → find k (insert_field j v d) ≡ (if j == k then some v else find k d)
find-insert_field k j v end = refl
find-insert_field k j v (field i w r) = elim (Bool-cases (name_le j i)) [
  | inl t ↦ rw t refl
  | inr n ↦
      ground
        (arith, n, before_ne j i n, eq_iff i k, eq_iff j k, eq_iff i j, find-insert_field k j v r)
]

-- every entry is found as it was, with its own dictionaries sorted
pub find-sorted_fields :
    (k : String) (d : Fields)
    → find k (sorted_fields d) ≡ elim (find k d) [ none ↦ none | some v ↦ some (sorted v) ]
find-sorted_fields k end = refl
find-sorted_fields k (field j v r) = elim (Bool-cases (j == k)) [
  | inl e ↦ rw (find-insert_field k j (sorted v) (sorted_fields r), e) refl
  | inr n ↦ rw (find-insert_field k j (sorted v) (sorted_fields r), n) (find-sorted_fields k r)
]

numbers_kept : (v : Value) → (is_nat (sorted v) ≡ is_nat v) × (int_of (sorted v) ≡ int_of v)
numbers_kept null = (refl, refl)
numbers_kept (bool b) = (refl, refl)
numbers_kept (int z) = (refl, refl)
numbers_kept (str s) = (refl, refl)
numbers_kept (list xs) = (refl, refl)
numbers_kept (dict d) = (refl, refl)

get-sorted_fields : (k : String) (d : Fields) → get k (sorted_fields d) ≡ sorted (get k d)
get-sorted_fields k d = ground (arith, find-sorted_fields k d)

pub supersedes_one_of-sorted_fields :
    (n : Value) (d : Fields) → supersedes_one_of n (sorted_fields d) ≡ supersedes_one_of n d
supersedes_one_of-sorted_fields n d =
    let (nat, number) = numbers_kept (get "supersedes_sequence" d) in
    rw (get-sorted_fields "supersedes_sequence" d) (rw (nat, number) refl)

-- Texts, integers and `None` are no dictionaries.
pub sorted-uuid : (v : Value) → is_uuid_value v ≡ true → sorted v ≡ v
sorted-uuid (str s) h = refl
sorted-uuid null h = refl
sorted-uuid (bool b) h = refl
sorted-uuid (int z) h = refl
sorted-uuid (list xs) h = cc
sorted-uuid (dict d) h = cc

pub sorted-session : (v : Value) → (is_null v || is_uuid_value v) ≡ true → sorted v ≡ v
sorted-session (str s) h = refl
sorted-session null h = refl
sorted-session (bool b) h = refl
sorted-session (int z) h = refl
sorted-session (list xs) h = cc
sorted-session (dict d) h = cc

pub sorted-turn : (v : Value) → (is_null v || is_nat v) ≡ true → sorted v ≡ v
sorted-turn (str s) h = refl
sorted-turn null h = refl
sorted-turn (bool b) h = refl
sorted-turn (int z) h = refl
sorted-turn (list xs) h = cc
sorted-turn (dict d) h = cc

-- and so the hash of the record before, or `None`, is equal to itself
pub sorted-link : (v : Value) → (is_null v || is_hash v) ≡ true → value_eq (sorted v) v ≡ true
unfolding value_eq
sorted-link null h = refl
sorted-link (str s) h = eq_refl s
sorted-link (bool b) h = cc
sorted-link (int z) h = cc
sorted-link (list xs) h = cc
sorted-link (dict d) h = cc

same_text : (v : Value) (s : String) → value_eq v (str s) ≡ true → v ≡ str s
unfolding value_eq
same_text (str t) s h = ap str ((eq_iff t s).0 h)
same_text null s h = cc
same_text (bool b) s h = cc
same_text (int z) s h = cc
same_text (list xs) s h = cc
same_text (dict d) s h = cc

-- equality with a UUID, the other way round
pub value_eq-uuid :
    (v w : Value) → is_uuid_value w ≡ true → value_eq v w ≡ true → value_eq w v ≡ true
unfolding value_eq
value_eq-uuid v (str s) h e = rw (same_text v s e) (eq_refl s)
value_eq-uuid v null h e = cc
value_eq-uuid v (bool b) h e = cc
value_eq-uuid v (int z) h e = cc
value_eq-uuid v (list xs) h e = cc
value_eq-uuid v (dict d) h e = cc
