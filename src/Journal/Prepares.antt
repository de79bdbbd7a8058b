-- ===== src/Journal/Prepares.antt =====
-- journal/store.py: what `_append_locked` has checked when it writes a record.
use civ5_agent_macos.Base.{
  ◌≡◌, ap, subst, ◌∙◌, true, false, ◌||◌, some, String, arith, length, last?, Option-cases, inl,
  inr,
}
use civ5_agent_macos.Base.Int.{pos}
use civ5_agent_macos.Python.{
  Value, int, str, dict, Fields, unexpected, Runtime, ok, err, is_null, is_nat, >>=-ok, ◌>>=◌,
}
use civ5_agent_macos.Identity.{is_uuid_value, validate_uuid4}
use civ5_agent_macos.Journal.{JournalRecord, Encoding, Line}
use civ5_agent_macos.Journal.Codec.{as_dict, is_hash, validate_values, build_record, encode_record}
use civ5_agent_macos.Journal.Reader.{Reading}
use civ5_agent_macos.Journal.Store.{
  Kernel, with_encoding, require_match, check_bound, check_order, check_superseded, next_record,
}

-- what a valid record holds
pub record Shaped (r : JournalRecord) : Type 0 where
  pub match_form : is_uuid_value r.match_id ≡ true
  pub session_form : (is_null r.bridge_session_id || is_uuid_value r.bridge_session_id) ≡ true
  pub turn_form : (is_null r.turn || is_nat r.turn) ≡ true
  pub link_form : (is_null r.previous_hash || is_hash r.previous_hash) ≡ true

module _ {Byte : Type 0} (py : Runtime) (json : Encoding Byte) where
  pub validate_values-Shaped :
      (r : JournalRecord) → validate_values py json (as_dict r) true ≡ ok tt → Shaped r
  unfolding validate_values validate_uuid4
  validate_values-Shaped r h = ground arith

  -- the fields of a record that `build_record` returns
  pub record Built (sequence match_id session captured_at turn kind payload previous : Value)
      (r : JournalRecord) : Type 0 where
    pub sequence_lem : r.sequence ≡ sequence
    pub match_lem : r.match_id ≡ match_id
    pub session_lem : r.bridge_session_id ≡ session
    pub turn_lem : r.turn ≡ turn
    pub kind_lem : r.kind ≡ kind
    pub payload_lem : r.payload ≡ payload
    pub link_lem : r.previous_hash ≡ previous

  pub build_record-Built :
      (sequence match_id session captured_at turn kind payload previous : Value) (r : JournalRecord)
      → build_record py json sequence match_id session captured_at turn kind payload previous ≡ ok r
      → Built sequence match_id session captured_at turn kind payload previous r
  unfolding build_record
  build_record-Built sequence match_id session captured_at turn kind payload previous r h =
      let (u, valid, made) = >>=-ok (validate_values py json _ false) _ h in
      record {
        sequence_lem = cc;
        match_lem = cc;
        session_lem = cc;
        turn_lem = cc;
        kind_lem = cc;
        payload_lem = cc;
        link_lem = cc;
      }

  module _ (kernel : Kernel) (match_id : Value) (kind : String) (payload : Fields)
      (session turn : Value) (now : String) (s : Reading) where
    -- the checks of `_append_locked`, and what it is about to write
    pub record Prepared (r : JournalRecord) (line : Line Byte) : Type 0 where
      pub first : JournalRecord
      pub last : JournalRecord
      pub owned : require_match match_id s.records ≡ ok first
      pub bound : check_bound kind session turn payload s ≡ ok tt
      pub ordered : check_order kind session turn payload s ≡ ok tt
      pub superseded : check_superseded kind session turn payload s ≡ ok tt
      pub at_end : last? s.records ≡ some last
      pub built :
          Built
            (int (pos (length s.records)))
            match_id
            session
            (str now)
            turn
            (str kind)
            (dict payload)
            last.record_hash
            r
      pub encoded : encode_record py json r ≡ ok line

    pub next_record-Prepared :
        (r : JournalRecord) (line : Line Byte)
        → next_record py json kernel match_id kind payload session turn now s ≡ ok (r, line)
        → Prepared r line
    unfolding next_record
    next_record-Prepared r line h =
        let (f, owned, h1) = >>=-ok (require_match match_id s.records) _ h in
        let (u1, bound, h2) = >>=-ok (check_bound kind session turn payload s) _ h1 in
        let (u2, ordered, h3) = >>=-ok (check_order kind session turn payload s) _ h2 in
        let (u3, superseded, h4) = >>=-ok (check_superseded kind session turn payload s) _ h3 in
        elim (Option-cases (last? s.records)) [
          | inl n ↦ absurd (let e : err (unexpected "IndexError") ≡ ok (r, line) = rw n at h4 in cc)
          | inr (l, at_end) ↦ finish f l owned bound ordered superseded at_end (rw at_end at h4)
        ]
      where
        finish :
            (f l : JournalRecord)
            → require_match match_id s.records ≡ ok f
            → check_bound kind session turn payload s ≡ ok tt
            → check_order kind session turn payload s ≡ ok tt
            → check_superseded kind session turn payload s ≡ ok tt
            → last? s.records ≡ some l
            → (build_record py json
                  (int (pos (length s.records)))
                  match_id
                  session
                  (str now)
                  turn
                  (str kind)
                  (dict payload)
                  l.record_hash
                >>= with_encoding py json kernel)
              ≡ ok (r, line)
            → Prepared r line
        finish f l owned bound ordered superseded at_end h =
            let (q, built, h1) = >>=-ok (build_record py json _ _ _ _ _ _ _ _) _ h in
            let (x, encoded, h2) = >>=-ok (encode_record py json q) _ h1 in
            let same : q ≡ r = cc in
            let here : x ≡ line = cc in
            record {
              first = f;
              last = l;
              owned = owned;
              bound = bound;
              ordered = ordered;
              superseded = superseded;
              at_end = at_end;
              built = build_record-Built _ _ _ _ _ _ _ _ r (built ∙ ap ok same);
              encoded =
                  subst (λ y. encode_record py json r ≡ ok y) here
                    (subst (λ y. encode_record py json y ≡ ok x) same encoded);
            }
