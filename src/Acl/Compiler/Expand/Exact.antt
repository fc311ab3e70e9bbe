-- ===== src/Acl/Compiler/Expand/Exact.antt =====
-- The expansion finds exactly the members of the groups that can be reached.
use sync_ai_final.Base.{
  nat_eqb, nat_eqb_iff, Bool-cases, Option-cases, nat_eq, list_eq, option_eq, pair_eq, length,
  contains, contains-append, Dict, keys, ℕ, zero, suc, ◌≤◌, ◌≡◌, refl, ap, ◌↔◌, inl, inr, true,
  false, none, some, List, [], ◌∷◌, ◌++◌, arith,
}
use sync_ai_final.Models.{Uuid, Group}
use sync_ai_final.Store.{Repo, get_group}
use sync_ai_final.Acl.Compiler.{expand_nested, expand_members, enough_fuel}
use sync_ai_final.Acl.Compiler.Expand.Fuel.{expand_members-suc}
use sync_ai_final.Acl.Compiler.Expand.{
  GroupsKeyed, Within, count_out, count_out_cons, unvisited, Stored, Stored-id, Stored-key, Grows,
  expand_nested-Within, expand_members-Within, unvisited_mono,
}

-- The groups below a group, by stored nested groups.
pub data Reaches (r : Repo) (tenant_id : Uuid) (g : Group) : Group → Type 0 where
  here : Reaches r tenant_id g g
  nested :
      {h c : Group} (id : Uuid)
      → Reaches r tenant_id g h
      → contains h.member_group_ids id ≡ true
      → get_group id tenant_id r ≡ some c
      → Reaches r tenant_id g c

module _ (r : Repo) (tenant_id : Uuid) where
  -- A reached group that has this member.
  abbrev pub HasMember : Group → Uuid → Type 0
  HasMember g p = (h : Group) × Reaches r tenant_id g h × (contains h.member_principal_ids p ≡ true)

  Reaches-below :
      {g c h : Group} (id : Uuid)
      → contains g.member_group_ids id ≡ true
      → get_group id tenant_id r ≡ some c
      → Reaches r tenant_id c h
      → Reaches r tenant_id g h
  Reaches-below id m e here = nested id here m e
  Reaches-below id m e (nested id' q m' e') = nested id' (Reaches-below id m e q) m' e'

  abbrev IsSound : (Group → List Uuid → List Uuid × List Uuid) → Type 0
  IsSound rec =
      (g : Group) (v : List Uuid) (p : Uuid) → contains (rec g v).0 p ≡ true → HasMember g p

  expand_nested-HasMember :
      (rec : Group → List Uuid → List Uuid × List Uuid)
      → IsSound rec
      → (g : Group) (ids v : List Uuid) (p : Uuid)
      → ((id : Uuid) → contains ids id ≡ true → contains g.member_group_ids id ≡ true)
      → contains (expand_nested r tenant_id rec ids v).0 p ≡ true
      → HasMember g p
  unfolding expand_nested
  expand_nested-HasMember rec sound g [] v p sub e = absurd (ground arith)
  expand_nested-HasMember rec sound g (id ∷ ids) v p sub e =
      elim (Option-cases (get_group id tenant_id r)) [
        | inl missing ↦
            expand_nested-HasMember rec sound g ids v p (λ j q. sub j (ground arith)) (ground arith)
        | inr (c, found) ↦ elim (Bool-cases (contains (rec c v).0 p)) [
          | inl left ↦
              let (h, q, m) = sound c v p left in
              (h, Reaches-below id (sub id (ground (arith, nat_eqb_iff id id))) found q, m)
          | inr right ↦
              expand_nested-HasMember rec sound g ids (rec c v).1 p (λ j q. sub j (ground arith))
                (ground (
                  arith,
                  contains-append (rec c v).0 (expand_nested r tenant_id rec ids (rec c v).1).0 p,
                ))
        ]
      ]

  expand_members-HasMember : (fuel : ℕ) → IsSound (expand_members r tenant_id fuel)
  unfolding expand_members
  expand_members-HasMember zero g v p e = absurd (ground arith)
  expand_members-HasMember (suc fuel) g v p e = elim (Bool-cases (contains v g.id)) [
    | inl again ↦ absurd (ground arith)
    | inr new ↦ elim (Bool-cases (contains g.member_principal_ids p)) [
      | inl own ↦ (g, here, own)
      | inr below ↦
          let rec = expand_members r tenant_id fuel in
          expand_nested-HasMember rec (expand_members-HasMember fuel) g g.member_group_ids
            (g.id ∷ v) p (λ id q. q)
            (ground (
              arith,
              contains-append g.member_principal_ids
                  (expand_nested r tenant_id rec g.member_group_ids (g.id ∷ v)).0 p,
            ))
    ]
  ]

  -- Every group visited by a call has its stored nested groups visited and its members found.
  abbrev Done : List Uuid → List Uuid → List Uuid → Type 0
  Done v v' found =
      (x : Uuid) (h : Group)
      → contains v' x ≡ true
      → contains v x ≡ false
      → get_group x tenant_id r ≡ some h
      → ((id : Uuid) (c : Group)
          → contains h.member_group_ids id ≡ true
          → get_group id tenant_id r ≡ some c
          → contains v' id ≡ true)
        × ((p : Uuid) → contains h.member_principal_ids p ≡ true → contains found p ≡ true)

  nothing_new : (v : List Uuid) → Done v v []
  nothing_new v x h now before found = absurd (ground arith)

  Done-append :
      (v v1 v2 : List Uuid) (f1 f2 : List Uuid)
      → Within v1 v2
      → Done v v1 f1
      → Done v1 v2 f2
      → Done v v2 (f1 ++ f2)
  Done-append v v1 v2 f1 f2 grows d1 d2 x h now before found = elim (Bool-cases (contains v1 x)) [
    | inl first ↦
        let (kids, members) = d1 x h first before found in
        (
          λ id c m e. grows id (kids id c m e),
          λ p m. ground (arith, members p m, contains-append f1 f2 p),
        )
    | inr second ↦
        let (kids, members) = d2 x h now second found in
        (kids, λ p m. ground (arith, members p m, contains-append f1 f2 p))
  ]

  -- What a call of the recursion does with enough fuel: it visits its group.
  abbrev Finishes : ℕ → (Group → List Uuid → List Uuid × List Uuid) → Type 0
  Finishes n rec =
      (id : Uuid) (g : Group) (v : List Uuid)
      → Stored r tenant_id id g
      → unvisited r tenant_id v ≤ n
      → (contains (rec g v).1 id ≡ true) × Done v (rec g v).1 (rec g v).0

  expand_nested_nil :
      (rec : Group → List Uuid → List Uuid × List Uuid) (v : List Uuid)
      → expand_nested r tenant_id rec [] v ≡ ([], v)
  unfolding expand_nested
  expand_nested_nil rec v = refl

  expand_members-zero : (g : Group) (v : List Uuid) → expand_members r tenant_id zero g v ≡ ([], v)
  unfolding expand_members
  expand_members-zero g v = refl

  module _ (rec : Group → List Uuid → List Uuid × List Uuid) (id : Uuid) (ids v : List Uuid) where
    expand_nested_missing :
        get_group id tenant_id r ≡ none
        → expand_nested r tenant_id rec (id ∷ ids) v ≡ expand_nested r tenant_id rec ids v
    unfolding expand_nested
    expand_nested_missing missing = ground arith

    expand_nested_found :
        (c : Group)
        → get_group id tenant_id r ≡ some c
        → let (first, v1) = rec c v in
          let (others, v2) = expand_nested r tenant_id rec ids v1 in
          expand_nested r tenant_id rec (id ∷ ids) v ≡ (first ++ others, v2)
    unfolding expand_nested
    expand_nested_found c found = ground arith

  expand_nested-Finishes :
      (n : ℕ) (rec : Group → List Uuid → List Uuid × List Uuid)
      → Grows r tenant_id rec
      → Finishes n rec
      → (ids v : List Uuid) → unvisited r tenant_id v ≤ n
      → let (found, v') = expand_nested r tenant_id rec ids v in
        Done v v' found
        × ((id : Uuid) (c : Group)
            → contains ids id ≡ true
            → get_group id tenant_id r ≡ some c
            → contains v' id ≡ true)
  expand_nested-Finishes n rec grows fin [] v q =
      rw (expand_nested_nil rec v) (nothing_new v, λ id c m e. cc)
  expand_nested-Finishes n rec grows fin (id ∷ ids) v q =
      elim (Option-cases (get_group id tenant_id r)) [
        | inl missing ↦
            let (done, seen) = expand_nested-Finishes n rec grows fin ids v q in
            rw (expand_nested_missing rec id ids v missing) (
              done,
              λ j c m e. elim (Bool-cases (contains ids j)) [
                | inl below ↦ seen j c below e
                | inr other ↦ ground (arith, nat_eqb_iff id j)
              ],
            )
        | inr (c, found) ↦
            let v1 = (rec c v).1 in
            let (visited, first) = fin id c v found q in
            let fewer = unvisited_mono r tenant_id v v1 (grows c v) in
            let (done, seen) =
              expand_nested-Finishes n rec grows fin ids v1 (omega (arith, fewer)) in
            let within = expand_nested-Within r tenant_id rec grows ids v1 in
            rw (expand_nested_found rec id ids v c found) (
              Done-append v v1 (expand_nested r tenant_id rec ids v1).1 (rec c v).0
                  (expand_nested r tenant_id rec ids v1).0 within first done,
              λ j d m e. elim (Bool-cases (contains ids j)) [
                | inl below ↦ seen j d below e
                | inr other ↦ within j (ground (arith, nat_eqb_iff id j))
              ],
            )
      ]

  module _ (fuel : ℕ) (g : Group) (v : List Uuid) where
    expand_members_again :
        contains v g.id ≡ true → expand_members r tenant_id (suc fuel) g v ≡ ([], v)
    unfolding expand_members
    expand_members_again again = ground arith

    expand_members_new :
        contains v g.id ≡ false
        → let (others, v') =
            expand_nested r tenant_id
              (expand_members r tenant_id fuel)
              g.member_group_ids
              (g.id ∷ v) in
          expand_members r tenant_id (suc fuel) g v ≡ (g.member_principal_ids ++ others, v')
    unfolding expand_members
    expand_members_new new = ground arith

  Done-self :
      (g : Group) (v v' : List Uuid) (others : List Uuid)
      → get_group g.id tenant_id r ≡ some g
      → Done (g.id ∷ v) v' others
      → ((id : Uuid) (c : Group)
          → contains g.member_group_ids id ≡ true
          → get_group id tenant_id r ≡ some c
          → contains v' id ≡ true)
      → Done v v' (g.member_principal_ids ++ others)
  Done-self g v v' others self done seen x h now before found = elim (Bool-cases (nat_eqb g.id x)) [
    | inl same ↦
        let path = (nat_eqb_iff g.id x).0 same in
        let one : some h ≡ some g = cc (ap (λ y. get_group y tenant_id r) path) in
        let it : h ≡ g = cc in
        rw it (seen, λ p m. ground (arith, m, contains-append g.member_principal_ids others p))
    | inr apart ↦
        let (kids, members) = done x h now (ground arith) found in
        (kids, λ p m. ground (arith, members p m, contains-append g.member_principal_ids others p))
  ]

  expand_members-Finishes :
      (fuel : ℕ) → GroupsKeyed r.groups → Finishes fuel (expand_members r tenant_id fuel)
  expand_members-Finishes zero keyed id g v found q = rw (expand_members-zero g v) (
    ground (arith, count_out_cons v (keys r.groups) id, Stored-key r tenant_id id found),
    nothing_new v,
  )
  expand_members-Finishes (suc fuel) keyed id g v found q =
      let named = Stored-id r tenant_id id keyed found in
      elim (Bool-cases (contains v g.id)) [
        | inl again ↦ rw (expand_members_again fuel g v again) (rw named at again, nothing_new v)
        | inr new ↦
            let stored = rw (← named) at (Stored-key r tenant_id id found) in
            let fewer = count_out_cons v (keys r.groups) g.id stored new in
            let rec = expand_members r tenant_id fuel in
            let grows = expand_members-Within r tenant_id fuel in
            let (done, seen) =
              expand_nested-Finishes fuel rec grows (expand_members-Finishes fuel keyed)
                g.member_group_ids (g.id ∷ v) (omega (arith, fewer)) in
            let (others, v') = expand_nested r tenant_id rec g.member_group_ids (g.id ∷ v) in
            let within =
              expand_nested-Within r tenant_id rec grows g.member_group_ids (g.id ∷ v) id in
            rw (expand_members_new fuel g v new) (
              within (ground (arith, named, nat_eqb_iff g.id id)),
              Done-self g v v' others (rw (← named) at found) done seen,
            )
      ]

  -- With all visited, a reached group is visited.
  Reaches-visited :
      (v' found : List Uuid) {g h : Group} (id : Uuid)
      → GroupsKeyed r.groups
      → get_group id tenant_id r ≡ some g
      → contains v' id ≡ true
      → Done [] v' found
      → Reaches r tenant_id g h
      → (x : Uuid) × (get_group x tenant_id r ≡ some h) × (contains v' x ≡ true)
  Reaches-visited v' found id keyed e m done here = (id, e, m)
  Reaches-visited v' found id keyed e m done (nested {h = mid} {c = c} j q k f) =
      let (x, ex, mx) = Reaches-visited v' found id keyed e m done q in
      (j, f, (done x mid mx refl ex).0 j c k f)

  length-keys : (d : Dict Uuid Group) → count_out [] (keys d) ≡ length d
  length-keys [] = refl
  length-keys ((k, g) ∷ d) = ap suc (length-keys d)

-- Where each group is stored under its own id, expanding a stored group from no visited group finds
-- exactly the members of the groups that it reaches through stored nested groups, itself included,
-- whatever cycles there are; and one more unit of fuel changes nothing.
pub expand_members_exact :
    (r : Repo) (tenant_id id : Uuid) (g : Group)
    → GroupsKeyed r.groups
    → get_group id tenant_id r ≡ some g
    → let fuel = enough_fuel r tenant_id in
      ((p : Uuid)
        → (contains (expand_members r tenant_id fuel g []).0 p ≡ true) ↔ HasMember r tenant_id g p)
      × (expand_members r tenant_id fuel g [] ≡ expand_members r tenant_id (suc fuel) g [])
expand_members_exact r tenant_id id g keyed found =
    let fuel = enough_fuel r tenant_id in
    let bound = length-keys r tenant_id r.groups in
    let enough : unvisited r tenant_id [] ≤ fuel = omega (arith, bound) in
    let (seen, done) = expand_members-Finishes r tenant_id fuel keyed id g [] found enough in
    let (members, v') = expand_members r tenant_id fuel g [] in
    (
      λ p. (
        expand_members-HasMember r tenant_id fuel g [] p,
        λ (h, q, m).
            let (x, ex, mx) = Reaches-visited r tenant_id v' members id keyed found seen done q in
            (done x h mx refl ex).1 p m,
      ),
      expand_members-suc r tenant_id fuel id g [] keyed found enough,
    )
