-- ===== src/Validation/Ids.antt =====
-- The identifiers in a state that has passed `validate_live_state` of validation.py.
use civ5_agent_macos.Base.{◌≡◌, true, false, inl, inr, List, [], ◌∷◌, String, arith, All, map}
use civ5_agent_macos.Base.Int.{pos}
use civ5_agent_macos.Python.{Value, Runtime, ok, Result-cases, get, value_eq}
use civ5_agent_macos.State.{GameState}
use civ5_agent_macos.Validation.{validate_live_state, items_of, fields_of, is_int_from, member}
use civ5_agent_macos.Validation.Records.{
  validate_records, validate_relations, validate_lists, validate_diplomacy,
}

-- the id of a record, and the player of a diplomatic relation
abbrev pub record_id : Value → Value
record_id r = get "id" (fields_of r)

abbrev pub player_of : Value → Value
player_of r = get "player_id" (fields_of r)

-- no later value equals an earlier one
abbrev pub HasNoRepeats : List Value → Type 0
HasNoRepeats [] = Unit
HasNoRepeats (v ∷ vs) = All (λ w. value_eq w v ≡ false) vs × HasNoRepeats vs

-- The records have natural numbers as ids, and no two the same.
abbrev pub IsIndexed : (Value → Value) → List Value → Type 0
IsIndexed id rs = All (λ r. is_int_from (pos 0) (id r) ≡ true) rs × HasNoRepeats (map id rs)

module _ (id : Value → Value) where
  -- none of the records has a seen id
  abbrev IsNew : List Value → List Value → Type 0
  IsNew seen rs = All (λ r. member (id r) seen ≡ false) rs

  IsNew-split :
      (v : Value) (seen rs : List Value)
      → IsNew (v ∷ seen) rs
      → All (λ w. value_eq w v ≡ false) (map id rs) × IsNew seen rs
  IsNew-split v seen [] h = (tt, tt)
  IsNew-split v seen (r ∷ rs) h =
      let (apart, new) = IsNew-split v seen rs h.1 in
      ((ground (arith, h.0), apart), (ground (arith, h.0), new))

module _ (py : Runtime) where
  records-IsIndexed :
      (kind : String) (seen rs : List Value)
      → validate_records py kind seen rs ≡ ok tt
      → IsNew record_id seen rs × IsIndexed record_id rs
  unfolding validate_records
  records-IsIndexed kind seen [] h = (tt, (tt, tt))
  records-IsIndexed kind seen (r ∷ rs) h =
      elim (Result-cases (validate_records py kind (record_id r ∷ seen) rs)) [
        | inr (e, p) ↦ absurd (ground arith)
        | inl (u, p) ↦
            let (new, (numbered, apart)) = records-IsIndexed kind (record_id r ∷ seen) rs p in
            let (later, unseen) = IsNew-split record_id (record_id r) seen rs new in
            ((ground arith, unseen), ((ground arith, numbered), (later, apart)))
      ]

  relations-IsIndexed :
      (s : GameState) (seen rs : List Value)
      → validate_relations py s seen rs ≡ ok tt
      → IsNew player_of seen rs
        × IsIndexed player_of rs
        × All (λ r. value_eq (player_of r) s.active_player ≡ false) rs
  unfolding validate_relations
  relations-IsIndexed s seen [] h = (tt, (tt, tt), tt)
  relations-IsIndexed s seen (r ∷ rs) h =
      elim (Result-cases (validate_relations py s (player_of r ∷ seen) rs)) [
        | inr (e, p) ↦ absurd (ground arith)
        | inl (u, p) ↦
            let (new, (numbered, apart), others) =
              relations-IsIndexed s (player_of r ∷ seen) rs p in
            let (later, unseen) = IsNew-split player_of (player_of r) seen rs new in
            (
              (ground arith, unseen),
              ((ground arith, numbered), (later, apart)),
              (ground arith, others),
            )
      ]

  lists-IsIndexed :
      (s : GameState)
      → validate_lists py s ≡ ok tt
      → IsIndexed record_id (items_of s.cities) × IsIndexed record_id (items_of s.units)
  unfolding validate_lists
  lists-IsIndexed s h = elim (Result-cases (validate_records py "city" [] (items_of s.cities))) [
    | inr (e, p) ↦ absurd (ground arith)
    | inl (u, p) ↦ elim (Result-cases (validate_records py "unit" [] (items_of s.units))) [
      | inr (e, q) ↦ absurd (ground arith)
      | inl (v, q) ↦ (
        (records-IsIndexed "city" [] (items_of s.cities) p).1,
        (records-IsIndexed "unit" [] (items_of s.units) q).1,
      )
    ]
  ]

  passed :
      (s t : GameState)
      → validate_live_state py s ≡ ok t
      → (validate_lists py s ≡ ok tt) × (validate_diplomacy py s ≡ ok tt)
  unfolding validate_live_state
  passed s t h = ground arith

  -- In a state that passes the validation the cities have natural numbers as ids, no two the same,
  -- and so have the units; the players of the diplomatic relations are natural numbers, no two the
  -- same, and none is the active player.
  pub validate_live_state-IsIndexed :
      (s t : GameState)
      → validate_live_state py s ≡ ok t
      → IsIndexed record_id (items_of s.cities)
        × IsIndexed record_id (items_of s.units)
        × IsIndexed player_of (items_of s.diplomacy)
        × All (λ r. value_eq (player_of r) s.active_player ≡ false) (items_of s.diplomacy)
  unfolding validate_diplomacy
  validate_live_state-IsIndexed s t h =
      let (listed, related) = passed s t h in
      let (cities, units) = lists-IsIndexed s listed in
      let (_, players, others) = relations-IsIndexed s [] (items_of s.diplomacy) related in
      (cities, units, players, others)
