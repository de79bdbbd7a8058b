-- ===== src/Journal/Appends.antt =====
-- journal/store.py: the record that `append` or `bind_session` writes is accepted behind those that
-- were read.
use civ5_agent_macos.Base.{
  sym, subst, ◌++◌, eqb_refl, ◌≡◌, refl, ap, subst, ◌∙◌, true, false, some, List, [], ◌∷◌, String,
  arith, length, last?, Bool-cases, inl, inr, eq_iff,
}
use civ5_agent_macos.Base.Int.{pos}
use civ5_agent_macos.Python.{
  Value, null, int, str, dict, Fields, field, end, Runtime, ok, is_null, is_str, value_eq, one_of,
}
use civ5_agent_macos.Validation.{member}
use civ5_agent_macos.Journal.{JournalRecord, Encoding, Line}
use civ5_agent_macos.Journal.Json.{sorted, sorted_fields}
use civ5_agent_macos.Journal.Reader.{
  Reading, live_record_kinds, is_one_of, check_place, check_kind, check_turn, check_record,
  supersedes_one_of, bind_session_record, live_record, correction_record,
}
use civ5_agent_macos.Journal.Roundtrip.{canonical, Encoded, encode_record-Encoded}
use civ5_agent_macos.Journal.Extends.{live_binds_nothing}
use civ5_agent_macos.Journal.Prepares.{Shaped, Prepared, validate_values-Shaped}
use civ5_agent_macos.Journal.Sorting.{
  supersedes_one_of-sorted_fields, sorted-uuid, sorted-session, sorted-turn, sorted-link,
  value_eq-uuid,
}
use civ5_agent_macos.Journal.Store.{
  Kernel, require_match, check_bound, check_order, check_superseded, prior_turn,
}

-- the arguments that `append` and `bind_session` pass on
pub data Request (kind : String) (payload : Fields) (session turn : Value) : Type 0 where
  live :
      is_one_of (str kind) live_record_kinds ≡ true
      → is_null session ≡ false
      → is_null turn ≡ false
      → Request kind payload session turn
  correction : kind ≡ "correction" → Request kind payload session turn
  binding :
      kind ≡ "session_binding"
      → payload ≡ field "authority" (str "operator") end
      → is_null session ≡ false
      → turn ≡ null
      → Request kind payload session turn

pub is_one_of_text :
    (s : String) (names : List String) → one_of s names ≡ true → is_one_of (str s) names ≡ true
is_one_of_text s [] h = h
is_one_of_text s (n ∷ ns) h = ground (arith, eq_iff n s, eq_iff s n, is_one_of_text s ns)

module _ {Byte : Type 0} (py : Runtime) (json : Encoding Byte) (kernel : Kernel) where
  module _ (match_id : Value) (kind : String) (payload : Fields) (session turn : Value)
      (now : String) (s : Reading) (r : JournalRecord) (line : Line Byte)
      (p : Prepared py json kernel match_id kind payload session turn now s r line) where
    open p use {first, last, owned, bound, ordered, superseded, at_end, built, encoded}

    written : Encoded py json r line
    written = encode_record-Encoded py json r line encoded

    shaped : Shaped r
    shaped = validate_values-Shaped py json r written.valid

    -- the fields as they are read back
    abbrev c : JournalRecord
    c = canonical r

    c_kind : c.kind ≡ str kind
    c_kind = ap sorted built.kind_lem

    c_sequence : c.sequence ≡ int (pos (length s.records))
    c_sequence = ap sorted built.sequence_lem

    c_payload : c.payload ≡ dict (sorted_fields payload)
    c_payload = ap sorted built.payload_lem

    c_match : c.match_id ≡ match_id
    c_match = sorted-uuid r.match_id shaped.match_form ∙ built.match_lem

    c_session : c.bridge_session_id ≡ session
    c_session = sorted-session r.bridge_session_id shaped.session_form ∙ built.session_lem

    c_turn : c.turn ≡ turn
    c_turn = sorted-turn r.turn shaped.turn_form ∙ built.turn_lem

    c_link : value_eq c.previous_hash last.record_hash ≡ true
    c_link =
        subst (λ v. value_eq c.previous_hash v ≡ true) built.link_lem
          (sorted-link r.previous_hash shaped.link_form)

    owned_first :
        (f : JournalRecord) (rs : List JournalRecord)
        → require_match match_id (f ∷ rs) ≡ ok first
        → value_eq c.match_id f.match_id ≡ true
    unfolding require_match
    owned_first f rs h = rw c_match (
        value_eq-uuid f.match_id match_id (rw (← built.match_lem) shaped.match_form)
          (ground (arith, h)))

    accepts_place :
        (rs : List JournalRecord)
        → rs ≡ s.records
        → is_str "journal_started" (str kind) ≡ false
        → check_place rs c ≡ ok tt
    unfolding check_place
    accepts_place [] e k =
        let nothing : last? [] ≡ some last = subst (λ rs. last? rs ≡ some last) (sym e) at_end in cc
    accepts_place (f ∷ rs) e k =
        let last_one = subst (λ xs. last? xs ≡ some last) (sym e) at_end in
        let same =
          owned_first f rs (subst (λ xs. require_match match_id xs ≡ ok first) (sym e) owned) in
        rw (same, last_one, c_link, c_kind, k) refl

    accepts_turn : (next : Value) × (check_turn (prior_turn s.records) c.turn ≡ ok next)
    unfolding check_turn check_order
    accepts_turn = elim (Bool-cases (is_null turn)) [
      | inl n ↦ (prior_turn s.records, rw (c_turn, n) refl)
      | inr n ↦ elim (Bool-cases (is_null (prior_turn s.records))) [
        | inl m ↦ (turn, rw (c_turn, n, m) refl)
        | inr m ↦ (turn, rw (c_turn, n, m) (ground (arith, n, m, ordered)))
      ]
    ]

    accepts_live :
        is_one_of (str kind) live_record_kinds ≡ true
        → is_null session ≡ false
        → is_null turn ≡ false
        → check_kind s.bound_sessions c ≡ ok s.bound_sessions
    unfolding check_kind live_record check_bound
    accepts_live l n t =
        let (b, k) = live_binds_nothing (str kind) l in
        let m : member session s.bound_sessions ≡ true = ground (arith, b, n, bound) in
        rw (c_kind, b, k, l, c_session, m, c_turn, t) refl

    accepts_correction : kind ≡ "correction" → check_kind s.bound_sessions c ≡ ok s.bound_sessions
    unfolding check_kind correction_record check_superseded
    accepts_correction e =
        let k = c_kind ∙ ap str e in
        let found : supersedes_one_of (int (pos (length s.records))) payload ≡ true =
          ground (arith, e, eq_iff kind "correction", superseded) in
        rw (k, c_payload, c_sequence)
          (rw (supersedes_one_of-sorted_fields (int (pos (length s.records))) payload, found) refl)

    accepts_binding :
        kind ≡ "session_binding"
        → payload ≡ field "authority" (str "operator") end
        → is_null session ≡ false
        → turn ≡ null
        → check_kind s.bound_sessions c ≡ ok (c.bridge_session_id ∷ s.bound_sessions)
    unfolding check_kind bind_session_record check_bound
    accepts_binding e a n t =
        let k = c_kind ∙ ap str e in
        let content = c_payload ∙ ap (λ d. dict (sorted_fields d)) a in
        let new : member session s.bound_sessions ≡ false =
          ground (arith, e, eq_iff kind "session_binding", bound) in
        rw (k, content, c_session, n, c_turn, t, new) refl

    not_started : Request kind payload session turn → is_str "journal_started" (str kind) ≡ false
    not_started (live l n t) = (live_binds_nothing (str kind) l).1
    not_started (correction e) = rw e refl
    not_started (binding e a n t) = rw e refl

    accepts_kind :
        Request kind payload session turn
        → (bound_next : List Value) × (check_kind s.bound_sessions c ≡ ok bound_next)
    accepts_kind (live l n t) = (s.bound_sessions, accepts_live l n t)
    accepts_kind (correction e) = (s.bound_sessions, accepts_correction e)
    accepts_kind (binding e a n t) =
        (c.bridge_session_id ∷ s.bound_sessions, accepts_binding e a n t)

    c_numbered : value_eq c.sequence (int (pos (length s.records))) ≡ true
    unfolding value_eq
    c_numbered = rw c_sequence (eqb_refl (length s.records))

    -- The written record is accepted behind those that were read.
    pub accepted :
        Request kind payload session turn
        → s.last_turn ≡ prior_turn s.records
        → (t : Reading) × (check_record s c ≡ ok t) × (t.records ≡ s.records ++ (c ∷ []))
    unfolding check_record
    accepted q e =
        let (bound_next, k) = accepts_kind q in
        let (turn_next, u) = accepts_turn in
        (
          record {
            records = s.records ++ (c ∷ []);
            bound_sessions = bound_next;
            last_turn = turn_next;
          },
          rw (c_numbered, accepts_place s.records refl (not_started q), k, e, u) refl,
          refl,
        )
