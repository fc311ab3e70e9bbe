-- ===== src/Tests/Expand.antt =====
-- Two groups that contain each other.
use sync_ai_final.Base.{
  nat_eq, list_eq, option_eq, pair_eq, contains, codes, get, ◌≡◌, refl, ◌↔◌, true, none, List, [],
  ◌∷◌,
}
use sync_ai_final.Models.{Uuid, Group}
use sync_ai_final.Store.{Repo, empty_repo, get_group}
use sync_ai_final.Acl.Compiler.{expand_nested, expand_members}
use sync_ai_final.Acl.Compiler.Expand.Exact.{HasMember, expand_members_exact}

abbrev group_of : Uuid → List Uuid → List Uuid → Group
group_of id members nested_groups = record {
  id = id;
  tenant_id = 1;
  name = [];
  email = none;
  source_type = codes "onedrive";
  source_id = [];
  member_principal_ids = members;
  member_group_ids = nested_groups;
  created_at = 0;
  updated_at = 0;
}

abbrev staff : Group
staff = group_of 20 (7 ∷ []) (21 ∷ 99 ∷ [])

abbrev circular : Repo
circular = record empty_repo { groups = (20, staff) ∷ (21, group_of 21 (8 ∷ []) (20 ∷ [])) ∷ [] }

expand_members-staff : (expand_members circular 1 3 staff []).0 ≡ 7 ∷ 8 ∷ []
unfolding expand_members expand_nested get_group get
expand_members-staff = refl

expand_members_exact_example :
    ((p : Uuid)
      → (contains (expand_members circular 1 3 staff []).0 p ≡ true) ↔ HasMember circular 1 staff p)
    × (expand_members circular 1 3 staff [] ≡ expand_members circular 1 4 staff [])
unfolding get_group get
expand_members_exact_example = expand_members_exact circular 1 20 staff (refl, (refl, tt)) refl
