-- ===== src/Executor/Coverage/Covers.antt =====
-- What it means that the remaining actions leave no requirement uncovered.
use civ5_agent_macos.Base.{
  ℕ, zero, suc, ◌≡◌, refl, Bool, true, false, not, ◌&&◌, ◌||◌, ◌↔◌, inl, inr, Bool-cases,
  Option-cases, none, some, List, [], ◌∷◌, arith, any, first, keep, is_empty, All, get_elem?,
}
use civ5_agent_macos.Plan.{PlannedAction}
use civ5_agent_macos.Requirements.{TurnRequirement}
use civ5_agent_macos.Executor.Coverage.{
  action_covers, is_blocker, structured, is_uncovered, uncovered_requirement,
}

module _ {A : Type 0} (p : A → Bool) where
  first-none : (xs : List A) → (first p xs ≡ none) ↔ All (λ x. p x ≡ false) xs
  first-none [] = (λ _. tt, λ _. refl)
  first-none (x ∷ xs) = elim (Bool-cases (p x)) [
    | inl t ↦ (λ h. ground arith, λ h. ground arith)
    | inr f ↦ (λ h. (f, (first-none xs).0 (rw f at h)), λ h. rw f ((first-none xs).1 h.1))
  ]

  first-some :
      (xs : List A) (x : A)
      → first p xs ≡ some x
      → (p x ≡ true) × (i : ℕ) × (get_elem? xs i ≡ some x)
  first-some [] x h = cc
  first-some (y ∷ ys) x h = elim (Bool-cases (p y)) [
    | inl t ↦ let e : y ≡ x = ground arith in rw (← e) (t, zero, refl)
    | inr f ↦ let (q, i, e) = first-some ys x (rw f at h) in (q, suc i, e)
  ]

  keep-get_elem? :
      (xs : List A) (i : ℕ) (x : A)
      → get_elem? (keep p xs) i ≡ some x
      → (j : ℕ) × (get_elem? xs j ≡ some x)
  keep-get_elem? [] i x h = cc
  keep-get_elem? (y ∷ ys) zero x h = elim (Bool-cases (p y)) [
    | inl t ↦ (zero, rw t at h)
    | inr f ↦ let (j, e) = keep-get_elem? ys zero x (rw f at h) in (suc j, e)
  ]
  keep-get_elem? (y ∷ ys) (suc i) x h = elim (Bool-cases (p y)) [
    | inl t ↦ let (j, e) = keep-get_elem? ys i x (rw t at h) in (suc j, e)
    | inr f ↦ let (j, e) = keep-get_elem? ys (suc i) x (rw f at h) in (suc j, e)
  ]

-- Some remaining action covers the requirement.
abbrev pub is_covered : List PlannedAction → TurnRequirement → Bool
is_covered remaining r = any (λ a. action_covers a r) remaining

-- Every requirement but the blockers is covered, and there is no blocker without such a one.
abbrev pub IsCovered : List TurnRequirement → List PlannedAction → Type 0
IsCovered rs remaining =
    All (λ r. (is_blocker r || is_covered remaining r) ≡ true) rs
    × ((is_empty (structured rs) && any is_blocker rs) ≡ false)

structured-All :
    (remaining : List PlannedAction) (rs : List TurnRequirement)
    → All (λ r. is_uncovered remaining r ≡ false) (structured rs)
      ↔ All (λ r. (is_blocker r || is_covered remaining r) ≡ true) rs
structured-All remaining [] = (λ _. tt, λ _. tt)
structured-All remaining (r ∷ rs) = elim (Bool-cases (is_blocker r)) [
  | inl t ↦ (
    λ h. (ground arith, (structured-All remaining rs).0 (rw t at h)),
    λ h. rw t ((structured-All remaining rs).1 h.1),
  )
  | inr f ↦ (
    λ h.
        let go : All (λ q. is_uncovered remaining q ≡ false) (r ∷ structured rs) = rw f at h in
        (ground (arith, go.0), (structured-All remaining rs).0 go.1),
    λ h. rw f (ground (arith, h.0), (structured-All remaining rs).1 h.1),
  )
]

no_blocker :
    (rs : List TurnRequirement) → (first is_blocker rs ≡ none) ↔ (any is_blocker rs ≡ false)
no_blocker [] = (λ _. refl, λ _. refl)
no_blocker (r ∷ rs) = elim (Bool-cases (is_blocker r)) [
  | inl t ↦ (λ h. ground arith, λ h. ground arith)
  | inr f ↦ (λ h. rw f ((no_blocker rs).0 (rw f at h)), λ h. rw f ((no_blocker rs).1 (rw f at h)))
]

blocker-is_covered :
    (remaining : List PlannedAction) (r : TurnRequirement)
    → is_blocker r ≡ true
    → is_covered remaining r ≡ false
unfolding action_covers
blocker-is_covered [] r h = refl
blocker-is_covered (a ∷ rest) r h = ground (arith, blocker-is_covered rest r h)

-- No requirement is reported exactly if every requirement but the blockers is covered by a
-- remaining action, and no blocker stands without such a requirement.
pub uncovered_requirement-none_iff :
    (rs : List TurnRequirement) (remaining : List PlannedAction)
    → (uncovered_requirement rs remaining ≡ none) ↔ IsCovered rs remaining
unfolding uncovered_requirement
uncovered_requirement-none_iff rs remaining =
    elim (Option-cases (first (is_uncovered remaining) (structured rs))) [
      | inr (q, e) ↦ (
        λ h. ground arith,
        λ h.
            let none_left =
              (first-none (is_uncovered remaining) (structured rs)).1
                ((structured-All remaining rs).1 h.0) in
            cc (e, none_left),
      )
      | inl e ↦ (
        λ h. (
          (structured-All remaining rs).0
              ((first-none (is_uncovered remaining) (structured rs)).0 e),
          ground (arith, (no_blocker rs).0),
        ),
        λ h. ground (arith, (no_blocker rs).1),
      )
    ]

-- The requirement that is reported is one of the state's, and no remaining action covers it.
pub uncovered_requirement-some :
    (rs : List TurnRequirement) (remaining : List PlannedAction) (r : TurnRequirement)
    → uncovered_requirement rs remaining ≡ some r
    → ((i : ℕ) × (get_elem? rs i ≡ some r)) × (is_covered remaining r ≡ false)
unfolding uncovered_requirement
uncovered_requirement-some rs remaining r h =
    elim (Option-cases (first (is_uncovered remaining) (structured rs))) [
      | inr (q, e) ↦
          let same : q ≡ r = ground arith in
          let (u, i, at) = first-some (is_uncovered remaining) (structured rs) q e in
          rw (← same) (keep-get_elem? (λ r. not (is_blocker r)) rs i q at, ground (arith, u))
      | inl e ↦
          let found : first is_blocker rs ≡ some r = ground arith in
          let (b, i, at) = first-some is_blocker rs r found in
          ((i, at), blocker-is_covered remaining r b)
    ]
