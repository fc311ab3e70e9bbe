-- ===== src/Acl/Service/Cache.antt =====
-- The cache of ancestor chains, and what an edge that changes does to it.
use sync_ai_final.Base.{
  nat_eq, list_eqb_iff, list_eq, option_eq, pair_eq, eqb_refl, Text, nonempty, insert, get-insert,
  get-erase, ℕ, suc, ◌+◌, ◌<◌, ◌≡◌, refl, ap, ◌∙◌, ◌≢◌, true, Option, none, some, List, [], ◌∷◌,
  arith,
}
use sync_ai_final.Models.{Uuid, Time}
use sync_ai_final.Store.Containers.{upsert_edge, get_parent_container}
use sync_ai_final.Acl.Service.{
  Service, climb, parent_in, cached, get_ancestors, upsert_container_edge,
}

cached-upsert_container_edge_self :
    (now then_ : Time) (parent_id child_id source_type : Text) (tenant_id : Uuid) (s : Service)
    → cached then_ child_id tenant_id
        (upsert_container_edge now parent_id child_id source_type tenant_id s)
      ≡ none
unfolding cached upsert_container_edge
cached-upsert_container_edge_self now then_ parent_id child_id source_type tenant_id s =
    let k : Uuid × Text = (tenant_id, child_id) in
    ground (arith, get-erase k k s.ancestor_cache, eqb_refl k)

cached-upsert_container_edge_ne :
    (now then_ : Time) (parent_id child_id source_type : Text) (tenant_id : Uuid) (s : Service)
    (c : Text)
    → child_id ≢ c
    → cached then_ c tenant_id
        (upsert_container_edge now parent_id child_id source_type tenant_id s)
      ≡ cached then_ c tenant_id s
unfolding cached upsert_container_edge
cached-upsert_container_edge_ne now then_ parent_id child_id source_type tenant_id s c ne =
    let k : Uuid × Text = (tenant_id, child_id) in
    let j : Uuid × Text = (tenant_id, c) in
    ground (
      arith,
      list_eqb_iff child_id c,
      get-erase k j s.ancestor_cache,
      get-erase k j s.cache_timestamps,
    )

get_ancestors_hit :
    (now : Time) (c : Text) (tenant_id : Uuid) (depth : ℕ) (s : Service) {l : List Text}
    → cached now c tenant_id s ≡ some l
    → get_ancestors now c tenant_id depth s ≡ (l, s)
unfolding get_ancestors
get_ancestors_hit now c tenant_id depth s hit = rw (hit, get_ancestors)

abbrev remembered : Time → Text → Uuid → ℕ → Service → Service
remembered now c tenant_id depth s = record s {
  ancestor_cache =
      insert (tenant_id, c) (climb (parent_in s tenant_id) depth [] c) s.ancestor_cache;
  cache_timestamps = insert (tenant_id, c) now s.cache_timestamps;
}

get_ancestors_miss :
    (now : Time) (c : Text) (tenant_id : Uuid) (depth : ℕ) (s : Service)
    → cached now c tenant_id s ≡ none
    → get_ancestors now c tenant_id depth s
      ≡ (climb (parent_in s tenant_id) depth [] c, remembered now c tenant_id depth s)
unfolding get_ancestors
get_ancestors_miss now c tenant_id depth s miss = rw (miss, get_ancestors)

cached-remembered :
    (now later : Time) (c : Text) (tenant_id : Uuid) (depth : ℕ) (s : Service)
    → later < now + s.cache_ttl
    → cached later c tenant_id (remembered now c tenant_id depth s)
      ≡ some (climb (parent_in s tenant_id) depth [] c)
unfolding cached
cached-remembered now later c tenant_id depth s soon =
    let k : Uuid × Text = (tenant_id, c) in
    let l = climb (parent_in s tenant_id) depth [] c in
    ground
      (arith, get-insert k k l s.ancestor_cache, get-insert k k now s.cache_timestamps, eqb_refl k)

-- A chain that was just computed is returned again, and the service left alone, as long as the
-- cache's lifetime has not passed.
pub get_ancestors_again :
    (now later : Time) (c : Text) (tenant_id : Uuid) (depth other_depth : ℕ) (s : Service)
    → cached now c tenant_id s ≡ none
    → later < now + s.cache_ttl
    → let (ancestors, s') = get_ancestors now c tenant_id depth s in
      get_ancestors later c tenant_id other_depth s' ≡ (ancestors, s')
get_ancestors_again now later c tenant_id depth other_depth s miss soon =
    rw (get_ancestors_miss now c tenant_id depth s miss) (
      get_ancestors_hit later c tenant_id other_depth (remembered now c tenant_id depth s)
        (cached-remembered now later c tenant_id depth s soon))

parent_in-upsert_container_edge :
    (now : Time) (parent_id child_id source_type : Text) (tenant_id : Uuid) (s : Service)
    → parent_in
        (upsert_container_edge now parent_id child_id source_type tenant_id s)
        tenant_id
        child_id
      ≡ some parent_id
unfolding upsert_container_edge get_parent_container upsert_edge
parent_in-upsert_container_edge now parent_id child_id source_type tenant_id s =
    let k : Text × Uuid = (child_id, tenant_id) in
    ground (arith, get-insert k k parent_id s.repo.container_edges, eqb_refl k)

climb_step :
    (parent : Text → Option Text) (rounds : ℕ) (c : Text) {p : Text}
    → nonempty c ≡ true
    → parent c ≡ some p
    → nonempty p ≡ true
    → climb parent (suc rounds) [] c ≡ p ∷ climb parent rounds (c ∷ []) p
unfolding climb
climb_step parent rounds c hc e hp = rw (hc, e, climb) (rw hp refl)

-- After an edge is written, the next call for the child itself begins with the new parent.
pub upsert_container_edge-get_ancestors :
    (now later : Time) (parent_id child_id source_type : Text) (tenant_id : Uuid) (rounds : ℕ)
    (s : Service)
    → nonempty parent_id ≡ true
    → nonempty child_id ≡ true
    → let s' = upsert_container_edge now parent_id child_id source_type tenant_id s in
      (get_ancestors later child_id tenant_id (suc rounds) s').0
      ≡ parent_id ∷ climb (parent_in s' tenant_id) rounds (child_id ∷ []) parent_id
upsert_container_edge-get_ancestors now later parent_id child_id source_type tenant_id rounds s hp
      hc =
    let s' = upsert_container_edge now parent_id child_id source_type tenant_id s in
    let miss =
      cached-upsert_container_edge_self now later parent_id child_id source_type tenant_id s in
    let top = parent_in-upsert_container_edge now parent_id child_id source_type tenant_id s in
    ap (λ r. r.0) (get_ancestors_miss later child_id tenant_id (suc rounds) s' miss)
    ∙ climb_step (parent_in s' tenant_id) rounds child_id hc top hp

-- The cached chain of any other container of the tenant is still returned after an edge is written,
-- also where it runs through the child and the child has a new parent.
pub upsert_container_edge-stale :
    (now later : Time) (parent_id child_id source_type : Text) (tenant_id : Uuid) (depth : ℕ)
    (s : Service) (c : Text) {ancestors : List Text}
    → child_id ≢ c
    → cached later c tenant_id s ≡ some ancestors
    → (get_ancestors later c tenant_id depth
        (upsert_container_edge now parent_id child_id source_type tenant_id s)).0
      ≡ ancestors
upsert_container_edge-stale now later parent_id child_id source_type tenant_id depth s c ne hit =
    ap (λ r. r.0)
      (get_ancestors_hit later c tenant_id depth
        (upsert_container_edge now parent_id child_id source_type tenant_id s)
        (cached-upsert_container_edge_ne now later parent_id child_id source_type tenant_id s c ne
          ∙ hit))
