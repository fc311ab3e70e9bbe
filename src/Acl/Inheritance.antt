-- ===== src/Acl/Inheritance.antt =====
-- `compute_inherited_entries`, backend/app/acl/inheritance.py. The service's cache is the state;
-- the clock is an argument.
pub mod Nearest
use sync_ai_final.Base.{
  ltb, leb, nat_eqb, if◌then◌else◌, nat_eqb_iff, Equality, nat_eq, list_eq, option_eq, pair_eq,
  Text, codes, Dict, get, insert, ℕ, suc, ◌≡◌, ◌↔◌, Bool, true, false, Option, none, some, List, [],
  ◌∷◌, arith,
}
use sync_ai_final.Models.{Uuid, Time, CanonicalDocument, AclEntry, ContainerAclEntry}
use sync_ai_final.Acl.Service.{Service, get_ancestors, default_depth, get_container_permissions}

-- `id_key`: the tag and the text of the UUID.
pub data IdKey : Type 0 where
  principal_key : Uuid → IdKey
  group_key : Uuid → IdKey

abbrev pub id_key_eqb : IdKey → IdKey → Bool
id_key_eqb (principal_key a) (principal_key b) = nat_eqb a b
id_key_eqb (principal_key a) (group_key b) = false
id_key_eqb (group_key a) (principal_key b) = false
id_key_eqb (group_key a) (group_key b) = nat_eqb a b

pub id_key_eqb_iff : (a b : IdKey) → (id_key_eqb a b ≡ true) ↔ (a ≡ b)
id_key_eqb_iff (principal_key a) (principal_key b) = ground (arith, nat_eqb_iff a b)
id_key_eqb_iff (principal_key a) (group_key b) = ground arith
id_key_eqb_iff (group_key a) (principal_key b) = ground arith
id_key_eqb_iff (group_key a) (group_key b) = ground (arith, nat_eqb_iff a b)

instance abbrev pub id_key_eq : Equality IdKey
id_key_eq = record { eqb = id_key_eqb; eqb_iff = id_key_eqb_iff }

-- The principal if there is one, else the group.
abbrev pub holder_key : Option Uuid → Option Uuid → Option IdKey
holder_key (some p) g = some (principal_key p)
holder_key none (some g) = some (group_key g)
holder_key none none = none

-- `deny_map` and `allow_map`.
pub record Maps : Type 0 where
  pub deny_map : Dict IdKey ℕ
  pub allow_map : Dict IdKey (ℕ × AclEntry)

abbrev pub no_maps : Maps
no_maps = record { deny_map = []; allow_map = [] }

unfoldable pub note_deny : IdKey → ℕ → Dict IdKey ℕ → Dict IdKey ℕ
note_deny k distance d = elim (get k d) [
  | none ↦ insert k distance d
  | some old ↦ if ltb distance old then insert k distance d else d
]

unfoldable pub note_allow :
    IdKey → ℕ → AclEntry → Dict IdKey (ℕ × AclEntry) → Dict IdKey (ℕ × AclEntry)
note_allow k distance entry d = elim (get k d) [
  | none ↦ insert k (distance, entry) d
  | some (old, e) ↦ if ltb distance old then insert k (distance, entry) d else d
]

-- The last loop: an allow goes if a deny of its holder is as near or nearer.
unfoldable pub surviving : Dict IdKey ℕ → Dict IdKey (ℕ × AclEntry) → List AclEntry
surviving denies [] = []
surviving denies ((k, (distance, entry)) ∷ d) =
    let overridden : Bool = elim (get k denies) [ none ↦ false | some n ↦ leb n distance ] in
    if overridden then surviving denies d else entry ∷ surviving denies d

module _ (now : Time) (document : CanonicalDocument) where
  abbrev pub inherited_entry : Text → ContainerAclEntry → AclEntry
  inherited_entry container_id cperm = record {
    document_id = document.id;
    principal_id = cperm.principal_id;
    group_id = cperm.group_id;
    permission = cperm.permission;
    granted_via = codes "inherited";
    source_container_id = some container_id;
    is_deny = false;
    source_type = document.source_type;
    tenant_id = document.tenant_id;
    created_at = now;
    updated_at = now;
  }

  -- The body of the innermost loop.
  unfoldable pub visit_perm : ℕ → Text → ContainerAclEntry → Maps → Maps
  visit_perm distance container_id cperm m = elim (holder_key cperm.principal_id cperm.group_id) [
    | none ↦ m
    | some k ↦
        if cperm.is_deny
        then record m { deny_map = note_deny k distance m.deny_map }
        else record m {
          allow_map = note_allow k distance (inherited_entry container_id cperm) m.allow_map;
        }
  ]

  unfoldable pub visit_perms : ℕ → Text → List ContainerAclEntry → Maps → Maps
  visit_perms distance container_id [] m = m
  visit_perms distance container_id (p ∷ ps) m =
      visit_perms distance container_id ps (visit_perm distance container_id p m)

  -- The loop over `enumerate(all_containers)`, from `distance` on.
  unfoldable pub visit_containers : Service → ℕ → List Text → Maps → Maps
  visit_containers s distance [] m = m
  visit_containers s distance (c ∷ cs) m =
      visit_containers s (suc distance) cs
        (visit_perms distance c (get_container_permissions c document.tenant_id s) m)

  unfoldable pub visit_parents : List Text → Service → Maps → Maps × Service
  visit_parents [] s m = (m, s)
  visit_parents (parent_id ∷ ps) s m =
      let (ancestors, s') = get_ancestors now parent_id document.tenant_id default_depth s in
      visit_parents ps s' (visit_containers s' 0 (parent_id ∷ ancestors) m)

  unfoldable pub compute_inherited_entries : Service → List AclEntry × Service
  compute_inherited_entries s =
      let (m, s') = visit_parents document.parent_ids s no_maps in
      (surviving m.deny_map m.allow_map, s')
