-- ===== src/Store/Containers.antt =====
-- Container permissions and edges of backend/app/storage/canonical_repo.py.
use sync_ai_final.Base.{
  if◌then◌else◌, ◌==◌, nat_eq, list_eq, option_eq, pair_eq, filter, Text, Dict, get, insert, erase,
  Bool, not, ◌&&◌, ◌||◌, Option, List, [], ◌∷◌, ◌++◌,
}
use sync_ai_final.Models.{Uuid, ContainerAclEntry, ContainerEdge}
use sync_ai_final.Store.{Repo, or_empty}

abbrev pub same_holder : ContainerAclEntry → ContainerAclEntry → Bool
same_holder entry e = e.principal_id == entry.principal_id && e.group_id == entry.group_id

unfoldable pub upsert_container_acl : ContainerAclEntry → Repo → Repo
upsert_container_acl entry r =
    let key : Text × Uuid = (entry.container_id, entry.tenant_id) in
    let existing = or_empty (get key r.container_acl_entries) in
    record r {
      container_acl_entries =
          insert key (filter (λ e. not (same_holder entry e)) existing ++ entry ∷ [])
            r.container_acl_entries;
    }

unfoldable pub get_container_acl_entries : Text → Uuid → Repo → List ContainerAclEntry
get_container_acl_entries container_id tenant_id r =
    or_empty (get (container_id, tenant_id) r.container_acl_entries)

unfoldable pub upsert_edge : ContainerEdge → Repo → Repo
upsert_edge edge r = record r {
  container_edges =
      insert (edge.child_container_id, edge.tenant_id) edge.parent_container_id r.container_edges;
}

unfoldable pub get_parent_container : Text → Uuid → Repo → Option Text
get_parent_container child_id tenant_id r = get (child_id, tenant_id) r.container_edges

-- The edges that name the container at either end, whatever their tenant.
unfoldable pub drop_edges : Text → Dict (Text × Uuid) Text → Dict (Text × Uuid) Text
drop_edges container_id [] = []
drop_edges container_id (((child, tenant), parent) ∷ d) =
    if child == container_id || parent == container_id
    then drop_edges container_id d
    else ((child, tenant), parent) ∷ drop_edges container_id d

unfoldable pub delete_container : Text → Uuid → Repo → Repo
delete_container container_id tenant_id r = record r {
  container_acl_entries = erase (container_id, tenant_id) r.container_acl_entries;
  container_edges = drop_edges container_id r.container_edges;
}
