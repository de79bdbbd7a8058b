-- ===== src/Journal/Extends.antt =====
-- journal/store.py: a record that `_read_verified` accepts extends the journal that was read.
use civ5_agent_macos.Base.{
  ◌⊎◌, inl, inr, ◌||◌, ℕ, zero, suc, ◌≡◌, refl, subst, ◌⊎◌, inl, inr, true, false, some, List, [],
  ◌∷◌, ◌++◌, arith, length, last?, get_elem?, Bool-cases, String,
}
use civ5_agent_macos.Python.{is_str-eq, Value, str, ok, is_str, value_eq}
use civ5_agent_macos.Validation.{member}
use civ5_agent_macos.Journal.{JournalRecord}
use civ5_agent_macos.Journal.Reader.{
  live_record_kinds, is_one_of, check_place, check_kind, live_record, bind_session_record,
  start_record, correction_record,
}
use civ5_agent_macos.Journal.Invariants.{Binds, At}

pub last?-At :
    (rs : List JournalRecord) (i : ℕ) (q : JournalRecord)
    → At rs i q
    → suc i ≡ length rs
    → last? rs ≡ some q
last?-At [] i q h e = cc
last?-At (x ∷ []) zero q h e = h
last?-At (x ∷ []) (suc i) q h e = cc
last?-At (x ∷ y ∷ rs) zero q h e = absurd (omega arith)
last?-At (x ∷ y ∷ rs) (suc i) q h e = last?-At (y ∷ rs) i q h (omega arith)

pub get_elem?-append {ℓ} :
    {A : Type ℓ} (xs ys : List A) (i : ℕ) (x : A)
    → get_elem? xs i ≡ some x
    → get_elem? (xs ++ ys) i ≡ some x
get_elem?-append [] ys i x h = cc
get_elem?-append (z ∷ xs) ys zero x h = h
get_elem?-append (z ∷ xs) ys (suc i) x h = get_elem?-append xs ys i x h

pub get_elem?-length {ℓ} :
    {A : Type ℓ} (xs : List A) (y : A) → get_elem? (xs ++ (y ∷ [])) (length xs) ≡ some y
get_elem?-length [] y = refl
get_elem?-length (x ∷ xs) y = get_elem?-length xs y

pub check_place-first :
    (r : JournalRecord) → check_place [] r ≡ ok tt → is_str "journal_started" r.kind ≡ true
unfolding check_place
check_place-first r h = ground arith

-- what a record behind others was checked against
pub record Follows (rs : List JournalRecord) (f r : JournalRecord) : Type 0 where
  pub same_match : value_eq r.match_id f.match_id ≡ true
  pub not_started : is_str "journal_started" r.kind ≡ false
  pub chained :
      (l : JournalRecord) → last? rs ≡ some l → value_eq r.previous_hash l.record_hash ≡ true

pub check_place-Follows :
    (rs : List JournalRecord) (f r : JournalRecord)
    → check_place rs r ≡ ok tt
    → At rs 0 f
    → Follows rs f r
unfolding check_place
check_place-Follows [] f r h k = cc
check_place-Follows (x ∷ rs) f r h k = elim (Bool-cases (value_eq r.match_id x.match_id)) [
  | inr n ↦ ground arith
  | inl n ↦
      let e : x ≡ f = cc in
      record {
        same_match = subst (λ (q : JournalRecord). value_eq r.match_id q.match_id ≡ true) e n;
        not_started = ground arith;
        chained = λ l m. ground (arith, m, h);
      }
]

pub live_binds_nothing :
    (kind : Value)
    → is_one_of kind live_record_kinds ≡ true
    → (is_str "session_binding" kind ≡ false) × (is_str "journal_started" kind ≡ false)
live_binds_nothing kind live = (never "session_binding" refl, never "journal_started" refl)
  where
    never : (t : String) → is_one_of (str t) live_record_kinds ≡ false → is_str t kind ≡ false
    never t other = elim (Bool-cases (is_str t kind)) [
      | inr n ↦ n
      | inl e ↦
          let same : is_one_of (str t) live_record_kinds ≡ true =
            subst (λ v. is_one_of v live_record_kinds ≡ true) (is_str-eq t kind e) live in
          absurd (cc)
    ]

-- what the kind of a record was checked for
pub check_kind-live :
    (bound next : List Value) (r : JournalRecord)
    → check_kind bound r ≡ ok next
    → is_one_of r.kind live_record_kinds ≡ true
    → member r.bridge_session_id bound ≡ true
unfolding check_kind
check_kind-live bound next r h live =
    let (b, s) = live_binds_nothing r.kind live in
    let go : live_record bound r ≡ ok next = rw (b, s, live) at h in
    unfold live_record in (ground (arith, go))

-- behind a record that binds its session
binding_known :
    (bound next : List Value) (r : JournalRecord) (session : Value)
    → next ≡ r.bridge_session_id ∷ bound
    → (is_str "journal_started" r.kind || is_str "session_binding" r.kind) ≡ true
    → member session next ≡ true
    → (member session bound ≡ true) ⊎ Binds r session
binding_known bound next r session e k m =
    let m' : (value_eq session r.bridge_session_id || member session bound) ≡ true =
      subst (λ vs. member session vs ≡ true) e m in
    elim (Bool-cases (value_eq session r.bridge_session_id)) [
      | inl same ↦ inr (k, same)
      | inr other ↦ inl (rw other at m')
    ]

pub check_kind-known :
    (bound next : List Value) (r : JournalRecord)
    → check_kind bound r ≡ ok next
    → (session : Value) → member session next ≡ true
    → (member session bound ≡ true) ⊎ Binds r session
unfolding check_kind
check_kind-known bound next r h session m = elim (Bool-cases (is_str "session_binding" r.kind)) [
  | inl b ↦ binding_known bound next r session (bind_next (rw b at h)) (ground (arith, b)) m
  | inr n ↦ elim (Bool-cases (is_str "journal_started" r.kind)) [
    | inl b ↦ binding_known bound next r session (start_next (rw (n, b) at h)) (ground (arith, b)) m
    | inr k ↦ elim (Bool-cases (is_one_of r.kind live_record_kinds)) [
      | inl l ↦ inl (rw (live_next (rw (n, k, l) at h)) m)
      | inr o ↦ elim (Bool-cases (is_str "correction" r.kind)) [
        | inl c ↦ inl (rw (correction_next (rw (n, k, o, c) at h)) m)
        | inr c ↦ inl (
            let x : ok bound ≡ ok next = rw (n, k, o, c) at h in
            let e : bound ≡ next = cc in rw e m)
      ]
    ]
  ]
]
  where
    bind_next : bind_session_record bound r ≡ ok next → next ≡ r.bridge_session_id ∷ bound
    bind_next go = unfold bind_session_record in (ground (arith, go))

    start_next : start_record bound r ≡ ok next → next ≡ r.bridge_session_id ∷ bound
    start_next go = unfold start_record in (ground (arith, go))

    live_next : live_record bound r ≡ ok next → bound ≡ next
    live_next go = unfold live_record in (ground (arith, go))

    correction_next : correction_record bound r ≡ ok next → bound ≡ next
    correction_next go = unfold correction_record in (ground (arith, go))
