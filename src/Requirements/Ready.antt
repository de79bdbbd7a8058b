-- ===== src/Requirements/Ready.antt =====
-- When a state leaves nothing to be done before its turn ends.
use civ5_agent_macos.Base.{
  ◌≡◌, refl, Bool, true, false, Bool-cases, inl, inr, ◌↔◌, List, [], ◌∷◌, ◌++◌, if◌then◌else◌,
  arith, All,
}
use civ5_agent_macos.Base.Int.{leb_ℤ}
use civ5_agent_macos.Python.{Value, get, is_null, truthy}
use civ5_agent_macos.State.{GameState}
use civ5_agent_macos.Validation.{fields_of, items_of, schema_from}
use civ5_agent_macos.Requirements.{
  requirements_of, research_requirements, production_requirements, order_requirements,
  blocking_requirements, needs_production, needs_orders, is_blocked, sort_by_id, insert_by_id,
  id_of,
}

-- a technology is to be chosen
abbrev pub is_research_due : GameState → Bool
is_research_due s =
    if schema_from 5 s
    then truthy (get "required" (fields_of s.research_choice))
    else is_null s.research

-- The turn is the player's and may end, every city builds, and no unit waits for orders.
pub record IsReady (s : GameState) : Type 0 where
  pub active : truthy s.turn_active ≡ true
  pub researched : is_research_due s ≡ false
  pub produced : All (λ c. needs_production c ≡ false) (items_of s.cities)
  pub ordered : All (λ u. needs_orders s u ≡ false) (items_of s.units)
  pub unblocked : is_blocked s ≡ false

module _ (P : Value → Type 0) where
  insert-All : (v : Value) (xs : List Value) → P v → All P xs → All P (insert_by_id v xs)
  unfolding insert_by_id
  insert-All v [] h hs = (h, tt)
  insert-All v (w ∷ ws) h hs = elim (Bool-cases (leb_ℤ (id_of v) (id_of w))) [
    | inl e ↦ rw e (h, hs)
    | inr e ↦ rw e (hs.0, insert-All v ws h hs.1)
  ]

  All-insert : (v : Value) (xs : List Value) → All P (insert_by_id v xs) → P v × All P xs
  unfolding insert_by_id
  All-insert v [] h = h
  All-insert v (w ∷ ws) h = elim (Bool-cases (leb_ℤ (id_of v) (id_of w))) [
    | inl e ↦ let go : All P (v ∷ w ∷ ws) = rw e at h in go
    | inr e ↦
        let go : All P (w ∷ insert_by_id v ws) = rw e at h in
        let (hv, hs) = All-insert v ws go.1 in (hv, (go.0, hs))
  ]

  sort-All : (xs : List Value) → All P xs → All P (sort_by_id xs)
  unfolding sort_by_id
  sort-All [] h = tt
  sort-All (x ∷ xs) h = insert-All x (sort_by_id xs) h.0 (sort-All xs h.1)

  All-sort : (xs : List Value) → All P (sort_by_id xs) → All P xs
  unfolding sort_by_id
  All-sort [] h = tt
  All-sort (x ∷ xs) h = let (hx, hs) = All-insert x (sort_by_id xs) h in (hx, All-sort xs hs)

production-none :
    (cs : List Value) → (production_requirements cs ≡ []) ↔ All (λ c. needs_production c ≡ false) cs
unfolding production_requirements
production-none [] = (λ _. tt, λ _. refl)
production-none (c ∷ cs) = elim (Bool-cases (needs_production c)) [
  | inl e ↦ (λ h. ground arith, λ h. cc (e, h.0))
  | inr e ↦ (
    λ h. (e, (production-none cs).0 (let go : production_requirements cs ≡ [] = rw e at h in go)),
    λ h. rw e ((production-none cs).1 h.1),
  )
]

orders-none :
    (s : GameState) (us : List Value)
    → (order_requirements s us ≡ []) ↔ All (λ u. needs_orders s u ≡ false) us
unfolding order_requirements
orders-none s [] = (λ _. tt, λ _. refl)
orders-none s (u ∷ us) = elim (Bool-cases (needs_orders s u)) [
  | inl e ↦ (λ h. ground arith, λ h. cc (e, h.0))
  | inr e ↦ (
    λ h. (e, (orders-none s us).0 (let go : order_requirements s us ≡ [] = rw e at h in go)),
    λ h. rw e ((orders-none s us).1 h.1),
  )
]

append-none {ℓ} : {A : Type ℓ} (xs ys : List A) → xs ++ ys ≡ [] → (xs ≡ []) × (ys ≡ [])
append-none [] ys h = (refl, h)
append-none (x ∷ xs) ys h = cc

research-none : (s : GameState) → (research_requirements s ≡ []) ↔ (is_research_due s ≡ false)
unfolding research_requirements
research-none s = (λ h. ground arith, λ h. ground arith)

blocking-none : (s : GameState) → (blocking_requirements s ≡ []) ↔ (is_blocked s ≡ false)
unfolding blocking_requirements
blocking-none s = (λ h. ground arith, λ h. ground arith)

-- The requirements of a state are none exactly if it is the player's turn, no technology is to be
-- chosen, every city has a production, no unit waits for orders and the turn is not blocked.
pub requirements_of-none_iff : (s : GameState) → (requirements_of s ≡ []) ↔ IsReady s
unfolding requirements_of
requirements_of-none_iff s = (to, from)
  where
    cities : List Value
    cities = sort_by_id (items_of s.cities)

    units : List Value
    units = sort_by_id (items_of s.units)

    parts :
        research_requirements s
            ++ (production_requirements cities
                ++ (order_requirements s units ++ blocking_requirements s))
          ≡ []
        → truthy s.turn_active ≡ true
        → IsReady s
    parts h t =
        let (r, h1) = append-none (research_requirements s) _ h in
        let (p, h2) = append-none (production_requirements cities) _ h1 in
        let (o, b) = append-none (order_requirements s units) _ h2 in
        record {
          active = t;
          researched = (research-none s).0 r;
          produced = All-sort _ (items_of s.cities) ((production-none cities).0 p);
          ordered = All-sort _ (items_of s.units) ((orders-none s units).0 o);
          unblocked = (blocking-none s).0 b;
        }

    to : requirements_of s ≡ [] → IsReady s
    to h = elim (Bool-cases (truthy s.turn_active)) [
      | inl t ↦ parts (ground arith) t
      | inr f ↦ ground arith
    ]

    from : IsReady s → requirements_of s ≡ []
    from i =
        rw
          (
            i.active,
            (research-none s).1 i.researched,
            (production-none cities).1 (sort-All _ (items_of s.cities) i.produced),
            (orders-none s units).1 (sort-All _ (items_of s.units) i.ordered),
            (blocking-none s).1 i.unblocked,
          )
          refl
