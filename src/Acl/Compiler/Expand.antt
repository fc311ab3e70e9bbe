-- ===== src/Acl/Compiler/Expand.antt =====
-- The expansion of nested groups (`_expand_group_members_safe`): the groups not visited yet bound the
-- depth of the calls.
pub mod Fuel
pub mod Exact
use sync_ai_final.Base.{
  nat_eqb_iff, Option-cases, nat_eq, list_eq, option_eq, pair_eq, length, filter, contains, Text,
  Dict, keys, get, insert, contains-keys, ℕ, zero, suc, ◌≤◌, ◌<◌, ◌≡◌, refl, inl, inr, true, false,
  not, some, List, [], ◌∷◌, arith,
}
use sync_ai_final.Models.{Uuid, Group}
use sync_ai_final.Store.{Repo, create_group, get_group}
use sync_ai_final.Acl.Compiler.{expand_nested, expand_members}

-- Each group is stored under its own id, as `create_group` does it.
abbrev pub GroupsKeyed : Dict Uuid Group → Type 0
GroupsKeyed [] = Unit {0}
GroupsKeyed ((k, g) ∷ d) = (g.id ≡ k) × GroupsKeyed d

get-GroupsKeyed :
    (k : Uuid) (d : Dict Uuid Group) (g : Group) → GroupsKeyed d → get k d ≡ some g → g.id ≡ k
unfolding get
get-GroupsKeyed k [] g h e = cc
get-GroupsKeyed k ((j, g') ∷ d) g h e =
    ground (arith, h.0, nat_eqb_iff j k, get-GroupsKeyed k d g h.1)

insert-GroupsKeyed :
    (g : Group) (d : Dict Uuid Group) → GroupsKeyed d → GroupsKeyed (insert g.id g d)
unfolding insert
insert-GroupsKeyed g [] h = (refl, tt)
insert-GroupsKeyed g ((j, g') ∷ d) h = ground (arith, insert-GroupsKeyed g d h.1)

pub create_group-GroupsKeyed :
    (lower : Text → Text) (g : Group) (r : Repo)
    → GroupsKeyed r.groups
    → GroupsKeyed (create_group lower g r).groups
unfolding create_group
create_group-GroupsKeyed lower g r h = insert-GroupsKeyed g r.groups h

-- Every id of the first list is in the second.
abbrev pub Within : List Uuid → List Uuid → Type 0
Within v v' = (x : Uuid) → contains v x ≡ true → contains v' x ≡ true

abbrev pub count_out : List Uuid → List Uuid → ℕ
count_out v ks = length (filter (λ k. not (contains v k)) ks)

count_out_mono : (v v' ks : List Uuid) → Within v v' → count_out v' ks ≤ count_out v ks
count_out_mono v v' [] h = omega arith
count_out_mono v v' (k ∷ ks) h = ground (arith, h k, count_out_mono v v' ks h)

pub count_out_cons :
    (v ks : List Uuid) (x : Uuid)
    → contains ks x ≡ true
    → contains v x ≡ false
    → count_out (x ∷ v) ks < count_out v ks
count_out_cons v [] x h q = cc
count_out_cons v (k ∷ ks) x h q = ground (
  arith,
  count_out_cons v ks x,
  count_out_mono v (x ∷ v) ks (λ y e. ground arith),
  nat_eqb_iff k x,
  nat_eqb_iff x k,
)

module _ (r : Repo) (tenant_id : Uuid) where
  -- The stored groups that were not visited.
  abbrev pub unvisited : List Uuid → ℕ
  unvisited v = count_out v (keys r.groups)

  abbrev pub Stored : Uuid → Group → Type 0
  Stored id g = get_group id tenant_id r ≡ some g

  pub Stored-id : (id : Uuid) {g : Group} → GroupsKeyed r.groups → Stored id g → g.id ≡ id
  unfolding get_group
  Stored-id id h e = elim (Option-cases (get id r.groups)) [
    | inl missing ↦ ground arith
    | inr (g', found) ↦ ground (arith, get-GroupsKeyed id r.groups g' h found)
  ]

  pub Stored-key : (id : Uuid) {g : Group} → Stored id g → contains (keys r.groups) id ≡ true
  unfolding get_group
  Stored-key id e = ground (arith, contains-keys id r.groups)

  abbrev pub Grows : (Group → List Uuid → List Uuid × List Uuid) → Type 0
  Grows rec = (g : Group) (v : List Uuid) → Within v (rec g v).1

  pub expand_nested-Within :
      (rec : Group → List Uuid → List Uuid × List Uuid)
      → Grows rec
      → (ids v : List Uuid) → Within v (expand_nested r tenant_id rec ids v).1
  unfolding expand_nested
  expand_nested-Within rec h [] v x e = e
  expand_nested-Within rec h (id ∷ ids) v x e = elim (Option-cases (get_group id tenant_id r)) [
    | inl missing ↦ ground (arith, expand_nested-Within rec h ids v x e)
    | inr (g, found) ↦ ground (arith, h g v x e, expand_nested-Within rec h ids (rec g v).1 x)
  ]

  pub expand_members-Within : (fuel : ℕ) → Grows (expand_members r tenant_id fuel)
  unfolding expand_members
  expand_members-Within zero g v x e = e
  expand_members-Within (suc fuel) g v x e = ground (
    arith,
    expand_nested-Within (expand_members r tenant_id fuel) (expand_members-Within fuel)
        g.member_group_ids (g.id ∷ v) x,
  )

  pub unvisited_mono : (v v' : List Uuid) → Within v v' → unvisited v' ≤ unvisited v
  unvisited_mono v v' h = count_out_mono v v' (keys r.groups) h
