-- ===== src/Acl/Compiler/Expand/Fuel.antt =====
-- Enough fuel: more of it changes nothing.
use sync_ai_final.Base.{
  Bool-cases, Option-cases, nat_eq, list_eq, option_eq, pair_eq, contains, keys, ℕ, zero, suc, ◌≤◌,
  ◌≡◌, refl, inl, inr, List, [], ◌∷◌, arith,
}
use sync_ai_final.Models.{Uuid, Group}
use sync_ai_final.Store.{Repo, get_group}
use sync_ai_final.Acl.Compiler.{expand_nested, expand_members}
use sync_ai_final.Acl.Compiler.Expand.{
  GroupsKeyed, count_out_cons, unvisited, Stored, Stored-id, Stored-key, Grows,
  expand_members-Within, unvisited_mono,
}

module _ (r : Repo) (tenant_id : Uuid) where
  expand_nested_eq :
      (n : ℕ) (rec rec' : Group → List Uuid → List Uuid × List Uuid)
      → Grows r tenant_id rec
      → ((id : Uuid) (g : Group) (v : List Uuid)
          → Stored r tenant_id id g
          → unvisited r tenant_id v ≤ n
          → rec g v ≡ rec' g v)
      → (ids v : List Uuid) → unvisited r tenant_id v ≤ n
      → expand_nested r tenant_id rec ids v ≡ expand_nested r tenant_id rec' ids v
  unfolding expand_nested
  expand_nested_eq n rec rec' grows same [] v h = refl
  expand_nested_eq n rec rec' grows same (id ∷ ids) v h =
      elim (Option-cases (get_group id tenant_id r)) [
        | inl missing ↦ ground (arith, missing, expand_nested_eq n rec rec' grows same ids v h)
        | inr (g, found) ↦
            let fewer = unvisited_mono r tenant_id v (rec g v).1 (grows g v) in
            ground (
              arith,
              found,
              same id g v found h,
              expand_nested_eq n rec rec' grows same ids (rec g v).1 (omega (arith, fewer)),
            )
      ]

  pub expand_members-suc :
      (fuel : ℕ) (id : Uuid) (g : Group) (v : List Uuid)
      → GroupsKeyed r.groups
      → Stored r tenant_id id g
      → unvisited r tenant_id v ≤ fuel
      → expand_members r tenant_id fuel g v ≡ expand_members r tenant_id (suc fuel) g v
  unfolding expand_members
  expand_members-suc zero id g v keyed found h = ground (
    arith,
    count_out_cons v (keys r.groups) g.id,
    Stored-id r tenant_id id keyed found,
    Stored-key r tenant_id id found,
  )
  expand_members-suc (suc fuel) id g v keyed found h = elim (Bool-cases (contains v g.id)) [
    | inl again ↦ ground (arith, again)
    | inr new ↦
        let named = Stored-id r tenant_id id keyed found in
        let stored = rw (← named) at (Stored-key r tenant_id id found) in
        let fewer = count_out_cons v (keys r.groups) g.id stored new in
        ground (
          arith,
          new,
          expand_nested_eq fuel (expand_members r tenant_id fuel)
              (expand_members r tenant_id (suc fuel)) (expand_members-Within r tenant_id fuel)
              (λ id' g' v' s q. expand_members-suc fuel id' g' v' keyed s q) g.member_group_ids
              (g.id ∷ v) (omega (arith, fewer)),
        )
  ]
