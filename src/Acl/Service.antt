-- ===== src/Acl/Service.antt =====
-- `ContainerService`, backend/app/acl/container_service.py: the folder hierarchy and its cache of
-- ancestor chains. The repository is the memory mode of the canonical repository, and the clock is
-- an argument. The cache's key `(str(tenant_id), container_id)` is the pair of the two.
pub mod Chain
pub mod Cache
use sync_ai_final.Base.{
  ltb, if◌then◌else◌, nat_eq, list_eq, option_eq, pair_eq, contains, Text, nonempty, Dict, get,
  insert, erase, ℕ, zero, suc, ◌+◌, ◌-◌, not, ◌||◌, Option, none, some, List, [], ◌∷◌,
}
use sync_ai_final.Models.{Uuid, Time, ContainerAclEntry, ContainerEdge}
use sync_ai_final.Store.{Repo}
use sync_ai_final.Store.Containers.{
  upsert_container_acl, get_container_acl_entries, upsert_edge, get_parent_container,
}

pub record Service : Type 0 where
  pub repo : Repo
  pub cache_ttl : Time
  pub ancestor_cache : Dict (Uuid × Text) (List Text)
  pub cache_timestamps : Dict (Uuid × Text) Time

-- The `while` loop, by recursion on the rounds left, `max_depth - depth`; `parent` is
-- `get_parent_container` in the tenant. A missing or empty parent ends it, and a container that was
-- visited before.
unfoldable pub climb : (Text → Option Text) → ℕ → List Text → Text → List Text
climb parent zero visited current = []
climb parent (suc rounds) visited current =
    if not (nonempty current) || contains visited current then [] else elim (parent current) [
      | none ↦ []
      | some parent_id ↦
          if nonempty parent_id
          then parent_id ∷ climb parent rounds (current ∷ visited) parent_id
          else []
    ]

abbrev pub parent_in : Service → Uuid → Text → Option Text
parent_in s tenant_id c = get_parent_container c tenant_id s.repo

-- A chain that was cached less than `cache_ttl` ago; a missing timestamp is 0.
unfoldable pub cached : Time → Text → Uuid → Service → Option (List Text)
cached now container_id tenant_id s =
    let cache_key : Uuid × Text = (tenant_id, container_id) in
    elim (get cache_key s.ancestor_cache) [
      | none ↦ none
      | some ancestors ↦
          let cache_time : Time = elim (get cache_key s.cache_timestamps) [
            | none ↦ 0
            | some t ↦ t
          ] in
          if ltb now (cache_time + s.cache_ttl) then some ancestors else none
    ]

unfoldable pub get_ancestors : Time → Text → Uuid → ℕ → Service → List Text × Service
get_ancestors now container_id tenant_id max_depth s =
    let cache_key : Uuid × Text = (tenant_id, container_id) in
    let ancestors = climb (parent_in s tenant_id) max_depth [] container_id in
    elim (cached now container_id tenant_id s) [
      | some hit ↦ (hit, s)
      | none ↦ (
        ancestors,
        record s {
          ancestor_cache = insert cache_key ancestors s.ancestor_cache;
          cache_timestamps = insert cache_key now s.cache_timestamps;
        },
      )
    ]

-- The default of `max_depth`.
abbrev pub default_depth : ℕ
default_depth = 50

unfoldable pub get_container_permissions : Text → Uuid → Service → List ContainerAclEntry
get_container_permissions container_id tenant_id s =
    get_container_acl_entries container_id tenant_id s.repo

unfoldable pub invalidate_cache : Text → Uuid → Service → Service
invalidate_cache container_id tenant_id s =
    let cache_key : Uuid × Text = (tenant_id, container_id) in
    record s {
      ancestor_cache = erase cache_key s.ancestor_cache;
      cache_timestamps = erase cache_key s.cache_timestamps;
    }

unfoldable pub upsert_container_edge : Time → Text → Text → Text → Uuid → Service → Service
upsert_container_edge now parent_id child_id source_type tenant_id s =
    let edge : ContainerEdge = record {
      parent_container_id = parent_id;
      child_container_id = child_id;
      tenant_id = tenant_id;
      source_type = source_type;
      created_at = now;
    } in
    let cache_key : Uuid × Text = (tenant_id, child_id) in
    record s {
      repo = upsert_edge edge s.repo;
      ancestor_cache = erase cache_key s.ancestor_cache;
      cache_timestamps = erase cache_key s.cache_timestamps;
    }

unfoldable pub upsert_container_permission : ContainerAclEntry → Service → Service
upsert_container_permission entry s = record s { repo = upsert_container_acl entry s.repo }
