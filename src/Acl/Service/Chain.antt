-- ===== src/Acl/Service/Chain.antt =====
-- The climb to the ancestors: it ends, it follows parents, it meets nothing twice but to stop there,
-- and it finds the whole chain where that is short and has no cycle.
use sync_ai_final.Base.{
  Bool-cases, Option-cases, nat_eq, list_eqb, list_eq, option_eq, pair_eq, eqb_comm, length, any,
  any-map_pred, any-or, any-none, contains, distinct, Text, nonempty, ℕ, zero, suc, ◌≤◌, ◌≡◌, refl,
  inl, inr, true, false, not, ◌||◌, Option, none, some, List, [], ◌∷◌, arith,
}
use sync_ai_final.Models.{Uuid, Time}
use sync_ai_final.Acl.Service.{Service, climb, parent_in, cached, get_ancestors}

-- All but the last container of a list.
abbrev pub init : List Text → List Text
init [] = []
init (c ∷ []) = []
init (c ∷ d ∷ cs) = c ∷ init (d ∷ cs)

module _ (parent : Text → Option Text) where
  -- Each container of the list is the parent of the one before it, and none is empty.
  abbrev pub IsChain : Text → List Text → Type 0
  IsChain c [] = Unit {0}
  IsChain c (p ∷ ps) = (parent c ≡ some p) × (nonempty p ≡ true) × IsChain p ps

  -- The list is a chain that ends at a container with no parent.
  abbrev pub IsWholeChain : Text → List Text → Type 0
  IsWholeChain c [] = parent c ≡ none
  IsWholeChain c (p ∷ ps) = (parent c ≡ some p) × (nonempty p ≡ true) × IsWholeChain p ps

  climb-IsChain :
      (rounds : ℕ) (visited : List Text) (c : Text) → IsChain c (climb parent rounds visited c)
  unfolding climb
  climb-IsChain zero visited c = tt
  climb-IsChain (suc rounds) visited c =
      elim (Bool-cases (not (nonempty c) || contains visited c)) [
        | inl stop ↦ rw stop tt
        | inr go ↦ elim (Option-cases (parent c)) [
          | inl root ↦ rw (go, root, climb) tt
          | inr (p, e) ↦ elim (Bool-cases (nonempty p)) [
            | inl full ↦ rw (go, e, climb) (rw full (e, full, climb-IsChain rounds (c ∷ visited) p))
            | inr blank ↦ rw (go, e, climb) (rw blank tt)
          ]
        ]
      ]

  length-climb-le :
      (rounds : ℕ) (visited : List Text) (c : Text)
      → length (climb parent rounds visited c) ≤ rounds
  unfolding climb
  length-climb-le zero visited c = omega arith
  length-climb-le (suc rounds) visited c = elim (Option-cases (parent c)) [
    | inl root ↦ ground arith
    | inr (p, e) ↦ ground (arith, length-climb-le rounds (c ∷ visited) p)
  ]

  -- Nothing stands twice before the last container, and nothing visited stands there.
  climb-distinct :
      (rounds : ℕ) (visited : List Text) (c : Text)
      → let l = init (c ∷ climb parent rounds visited c) in
        (distinct l ≡ true) × (any (λ x. contains visited x) l ≡ false)
  unfolding climb
  climb-distinct zero visited c = (refl, refl)
  climb-distinct (suc rounds) visited c =
      elim (Bool-cases (not (nonempty c) || contains visited c)) [
        | inl stop ↦ rw stop (refl, refl)
        | inr go ↦ elim (Option-cases (parent c)) [
          | inl root ↦ rw (go, root, climb) (refl, refl)
          | inr (p, e) ↦ elim (Bool-cases (nonempty p)) [
            | inl full ↦
                let rest = climb parent rounds (c ∷ visited) p in
                let ih = climb-distinct rounds (c ∷ visited) p in
                rw (go, e, climb)
                  (rw full (
                    ground (
                      arith,
                      ih,
                      any-or (λ x. list_eqb c x) (λ x. contains visited x) (init (p ∷ rest)),
                      any-map_pred (λ x. list_eqb x c) (λ x. list_eqb c x) (init (p ∷ rest))
                          (λ x. eqb_comm x c),
                    ),
                    ground (
                      arith,
                      ih,
                      go,
                      any-or (λ x. list_eqb c x) (λ x. contains visited x) (init (p ∷ rest)),
                    ),
                  ))
            | inr blank ↦ rw (go, e, climb) (rw blank (refl, refl))
          ]
        ]
      ]

  climb-whole :
      (ps : List Text) (rounds : ℕ) (visited : List Text) (c : Text)
      → nonempty c ≡ true
      → IsWholeChain c ps
      → distinct (c ∷ ps) ≡ true
      → any (λ x. contains visited x) (c ∷ ps) ≡ false
      → length ps ≤ rounds
      → climb parent rounds visited c ≡ ps
  unfolding climb
  climb-whole [] zero visited c full w d v l = refl
  climb-whole [] (suc rounds) visited c full w d v l = ground (arith, w)
  climb-whole (p ∷ ps) zero visited c full w d v l = absurd (omega arith)
  climb-whole (p ∷ ps) (suc rounds) visited c full w d v l = ground (
    arith,
    w.0,
    w.1,
    climb-whole ps rounds (c ∷ visited) p w.1 w.2 (ground arith)
        (ground (
          arith,
          any-or (λ x. list_eqb c x) (λ x. contains visited x) (p ∷ ps),
          any-map_pred (λ x. list_eqb x c) (λ x. list_eqb c x) (p ∷ ps) (λ x. eqb_comm x c),
        ))
        (omega arith),
  )

-- A chain that is not cached follows the parents, is no longer than `max_depth`, and, but for its
-- last container, names none twice, the start included: so the climb ends on every cycle.
pub get_ancestors_lem :
    (now : Time) (c : Text) (tenant_id : Uuid) (max_depth : ℕ) (s : Service)
    → cached now c tenant_id s ≡ none
    → let ancestors = (get_ancestors now c tenant_id max_depth s).0 in
      IsChain (parent_in s tenant_id) c ancestors
      × (length ancestors ≤ max_depth)
      × (distinct (init (c ∷ ancestors)) ≡ true)
unfolding get_ancestors
get_ancestors_lem now c tenant_id max_depth s miss =
    let parent = parent_in s tenant_id in
    rw (miss, get_ancestors)
      (
        climb-IsChain parent max_depth [] c,
        length-climb-le parent max_depth [] c,
        (climb-distinct parent max_depth [] c).0,
      )

-- Where the parents of a container form a chain without a repetition, of at most `max_depth`
-- containers, up to one without a parent, an uncached call returns that whole chain.
pub get_ancestors_whole :
    (now : Time) (c : Text) (tenant_id : Uuid) (max_depth : ℕ) (s : Service) (ps : List Text)
    → cached now c tenant_id s ≡ none
    → nonempty c ≡ true
    → IsWholeChain (parent_in s tenant_id) c ps
    → distinct (c ∷ ps) ≡ true
    → length ps ≤ max_depth
    → (get_ancestors now c tenant_id max_depth s).0 ≡ ps
unfolding get_ancestors
get_ancestors_whole now c tenant_id max_depth s ps miss full w d l =
    rw (miss, get_ancestors)
      (climb-whole (parent_in s tenant_id) ps max_depth [] c full w d (any-none (c ∷ ps)) l)
