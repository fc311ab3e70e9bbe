-- ===== src/Graph.antt =====
-- `MockGraphStore`, backend/app/services/graph/mock_store.py: nodes and edges of each tenant, in
-- memory. Properties are texts, since `str()` is taken of those that are read. A snapshot shares the
-- property dicts of the edges it copies; here it has their values when it is taken.
pub mod Walk
pub mod Split
pub mod Valid
pub mod Tenants
use sync_ai_final.Base.{
  if◌then◌else◌, ◌==◌, nat_eq, list_eq, option_eq, pair_eq, length, filter, contains, Text, codes,
  nonempty, Dict, values, get, insert, erase, has_key, ℕ, ◌+◌, Bool, true, false, not, ◌||◌, Option,
  none, some, List, [], ◌∷◌, ◌++◌, map,
}
use sync_ai_final.Store.{or_empty}

abbrev pub Props : Type 0
Props = Dict Text Text

pub record Node : Type 0 where
  pub label : Text
  pub labels : List Text
  pub source_id : Text
  pub properties : Props

pub record Edge : Type 0 where
  pub rel_type : Text
  pub source_id : Text
  pub target_id : Text
  pub properties : Props
  pub source_label : Option Text
  pub target_label : Option Text

pub record GraphStore : Type 0 where
  pub nodes : Dict Text (Dict Text Node)
  pub edges : Dict Text (List Edge)

-- The part of one tenant, `self.nodes[tenant_id]` and `self.edges[tenant_id]`.
pub record Tenant : Type 0 where
  pub nodes : Dict Text Node
  pub edges : List Edge

unfoldable pub ensure_tenant : Text → GraphStore → GraphStore
ensure_tenant tenant_id g = record {
  nodes = if has_key tenant_id g.nodes then g.nodes else insert tenant_id [] g.nodes;
  edges = if has_key tenant_id g.edges then g.edges else insert tenant_id [] g.edges;
}

unfoldable pub tenant_of : Text → GraphStore → Tenant
tenant_of tenant_id g = record {
  nodes = or_empty (get tenant_id g.nodes);
  edges = or_empty (get tenant_id g.edges);
}

unfoldable pub put_tenant : Text → Tenant → GraphStore → GraphStore
put_tenant tenant_id t g = record {
  nodes = insert tenant_id t.nodes g.nodes;
  edges = insert tenant_id t.edges g.edges;
}

unfoldable pub clear_tenant : Text → GraphStore → GraphStore
clear_tenant tenant_id = put_tenant tenant_id (record { nodes = []; edges = [] })

-- A method that ensures the tenant and then works on its part.
unfoldable pub on_tenant : {A : Type 0} → Text → (Tenant → A × Tenant) → GraphStore → A × GraphStore
on_tenant tenant_id method g =
    let g' = ensure_tenant tenant_id g in
    let (result, t) = method (tenant_of tenant_id g') in (result, put_tenant tenant_id t g')

-- `d.update(other)`
unfoldable pub update : Props → Props → Props
update d [] = d
update d ((k, v) ∷ other) = update (insert k v d) other

unfoldable pub upsert_node : Text → Text → Props → Tenant → Tenant
upsert_node label source_id properties t =
    let props = insert (codes "label") label (insert (codes "source_id") source_id properties) in
    record t {
      nodes =
          insert source_id
            (record {
              label = label;
              labels = label ∷ [];
              source_id = source_id;
              properties = props;
            })
            t.nodes;
    }

-- `label or "Entity"`
abbrev pub or_entity : Option Text → Text
or_entity none = codes "Entity"
or_entity (some label) = if nonempty label then label else codes "Entity"

unfoldable pub ensure_stub : Text → Option Text → Dict Text Node → Dict Text Node
ensure_stub id label nodes =
    if has_key id nodes
    then nodes
    else insert id
        (record {
          label = or_entity label;
          labels = or_entity label ∷ [];
          source_id = id;
          properties = (codes "source_id", id) ∷ [];
        })
        nodes

abbrev pub EdgeKey : Type 0
EdgeKey = Text × (Text × Text)

abbrev pub edge_key : Edge → EdgeKey
edge_key e = (e.rel_type, (e.source_id, e.target_id))

-- The loop over the edges: the first with the new edge's key takes the new properties; if there is
-- none, the edge is appended.
unfoldable pub update_or_append : Edge → List Edge → List Edge
update_or_append new [] = new ∷ []
update_or_append new (e ∷ es) =
    if edge_key e == edge_key new
    then record e { properties = update e.properties new.properties } ∷ es
    else e ∷ update_or_append new es

unfoldable pub upsert_edge :
    (upper : Text → Text) → Text → Text → Text → Props → Option Text → Option Text → Tenant → Tenant
upsert_edge upper rel_type source_id target_id properties source_label target_label t = record {
  nodes = ensure_stub target_id target_label (ensure_stub source_id source_label t.nodes);
  edges =
      update_or_append
        (record {
          rel_type = upper rel_type;
          source_id = source_id;
          target_id = target_id;
          properties = properties;
          source_label = source_label;
          target_label = target_label;
        })
        t.edges;
}

abbrev pub involves : Text → Edge → Bool
involves id e = e.source_id == id || e.target_id == id

unfoldable pub delete_node : Text → Tenant → Bool × Tenant
delete_node source_id t =
    if has_key source_id t.nodes
    then (
      true,
      record {
        nodes = erase source_id t.nodes;
        edges = filter (λ e. not (involves source_id e)) t.edges;
      },
    )
    else (false, t)

unfoldable pub get_edges_involving : Text → Tenant → List Edge
get_edges_involving source_id t = filter (involves source_id) t.edges

pub record Snapshot : Type 0 where
  pub secondary_node : Option Node
  pub original_edges : List Edge

pub record MergeResult : Type 0 where
  pub edges_redirected : ℕ
  pub snapshot : Snapshot

-- One end of an edge.
abbrev pub redirect_id : Text → Text → Text → Text
redirect_id primary_id secondary_id id = if id == secondary_id then primary_id else id

unfoldable pub redirect : Text → Text → Edge → Edge
redirect primary_id secondary_id e = record e {
  source_id = redirect_id primary_id secondary_id e.source_id;
  target_id = redirect_id primary_id secondary_id e.target_id;
}

-- The ends that are redirected, of all edges. The source's end is written before the target's is
-- looked at, which are two fields.
unfoldable pub count_ends : Text → List Edge → ℕ
count_ends id [] = 0
count_ends id (e ∷ es) =
    (if e.source_id == id then 1 else 0) + (if e.target_id == id then 1 else 0) + count_ends id es

unfoldable pub merge_persons : Text → Text → Tenant → MergeResult × Tenant
merge_persons primary_id secondary_id t = (
  record {
    edges_redirected = count_ends secondary_id t.edges;
    snapshot = record {
      secondary_node = get secondary_id t.nodes;
      original_edges = get_edges_involving secondary_id t;
    };
  },
  record {
    nodes = erase secondary_id t.nodes;
    edges = map (redirect primary_id secondary_id) t.edges;
  },
)

-- The inner loop of `split_persons`: the first edge with the key goes.
unfoldable pub remove_first : EdgeKey → List Edge → List Edge
remove_first k [] = []
remove_first k (e ∷ es) = if edge_key e == k then es else e ∷ remove_first k es

unfoldable pub restore_edges : Text → Text → List Edge → List Edge → List Edge
restore_edges primary_id secondary_id [] edges = edges
restore_edges primary_id secondary_id (orig ∷ rest) edges =
    let k = edge_key (redirect primary_id secondary_id orig) in
    restore_edges primary_id secondary_id rest (remove_first k edges ++ orig ∷ [])

-- `if not snapshot` holds for no snapshot: one that `merge_persons` made is not empty.
unfoldable pub split_persons : Text → Text → Option Snapshot → Tenant → (Bool × ℕ) × Tenant
split_persons primary_id secondary_id none t = ((false, 0), t)
split_persons primary_id secondary_id (some s) t = (
  (true, length s.original_edges),
  record {
    nodes = elim s.secondary_node [ none ↦ t.nodes | some n ↦ insert secondary_id n t.nodes ];
    edges = restore_edges primary_id secondary_id s.original_edges t.edges;
  },
)

unfoldable pub count_edges : List Edge → Dict Text ℕ → Dict Text ℕ
count_edges [] counts = counts
count_edges (e ∷ es) counts =
    let n : ℕ = elim (get e.rel_type counts) [ none ↦ 0 | some n ↦ n ] in
    count_edges es (insert e.rel_type (n + 1) counts)

unfoldable pub count_edges_by_type : Tenant → Dict Text ℕ
count_edges_by_type t = count_edges t.edges []

unfoldable pub list_node_ids : Option Text → Dict Text Node → List Text
list_node_ids label [] = []
list_node_ids label ((id, node) ∷ nodes) =
    let wanted : Bool = elim label [
      | none ↦ true
      | some l ↦ not (nonempty l) || node.label == l || contains node.labels l
    ] in
    if wanted then id ∷ list_node_ids label nodes else list_node_ids label nodes
