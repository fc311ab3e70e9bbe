-- ===== src/Graph/Walk.antt =====
-- `traverse`, `related` and `people_search`. A Python set has no order of its own: here the visited
-- ids stand in the order in which they were found, the latest first.
pub mod Near
use sync_ai_final.Base.{
  leb, if◌then◌else◌, ◌==◌, nat_eq, list_eq, option_eq, pair_eq, take, is_empty, filter, contains,
  Text, codes, nonempty, starts_with, Dict, values, get, has_key, ℕ, zero, suc, ◌+◌, Bool, true,
  not, ◌&&◌, ◌||◌, Option, none, some, List, [], ◌∷◌, ◌++◌, map,
}
use sync_ai_final.Graph.{Node, Edge, Tenant}

pub record Walk : Type 0 where
  pub visited : List Text
  pub collected : List Edge
  pub next_layer : List Text

-- The types in upper case, if some are given; `none` is no filter, and so is an empty list.
abbrev pub allowed_types : (Text → Text) → Option (List Text) → List Text
allowed_types upper none = []
allowed_types upper (some types) = map upper types

abbrev pub is_allowed : List Text → Edge → Bool
is_allowed allowed e = is_empty allowed || contains allowed e.rel_type

-- An edge with one end in the layer: it is collected, and its other end is visited.
unfoldable pub visit : Edge → Text → Walk → Walk
visit e id w =
    if contains w.visited id then record w { collected = w.collected ++ e ∷ [] } else record {
      visited = id ∷ w.visited;
      collected = w.collected ++ e ∷ [];
      next_layer = id ∷ w.next_layer;
    }

unfoldable pub visit_edge : List Text → List Text → Edge → Walk → Walk
visit_edge allowed layer e w =
    if not (is_allowed allowed e)
    then w
    else if contains layer e.source_id
    then visit e e.target_id w
    else if contains layer e.target_id
    then visit e e.source_id w
    else w

unfoldable pub visit_edges : List Text → List Text → List Edge → Walk → Walk
visit_edges allowed layer [] w = w
visit_edges allowed layer (e ∷ es) w = visit_edges allowed layer es (visit_edge allowed layer e w)

-- The loop on `range(depth)`; `next_layer` is the layer that a round starts from.
unfoldable pub walk : List Text → List Edge → ℕ → Walk → Walk
walk allowed edges zero w = w
walk allowed edges (suc n) w =
    let w' = visit_edges allowed w.next_layer edges (record w { next_layer = [] }) in
    let rest = walk allowed edges n w' in if is_empty w'.next_layer then w' else rest

-- `[self.nodes[tenant_id][nid] for nid in visited_nodes if nid in ...]`
unfoldable pub found_nodes : Dict Text Node → List Text → List Node
found_nodes nodes [] = []
found_nodes nodes (id ∷ ids) = elim (get id nodes) [
  | none ↦ found_nodes nodes ids
  | some n ↦ n ∷ found_nodes nodes ids
]

abbrev pub start_walk : Text → Walk
start_walk id = record { visited = id ∷ []; collected = []; next_layer = id ∷ [] }

module _ (upper : Text → Text) where
  unfoldable pub traverse : Text → Option (List Text) → ℕ → ℕ → Tenant → List Node × List Edge
  traverse start_node_id relationship_types depth limit t =
      if not (has_key start_node_id t.nodes)
      then ([], [])
      else let w =
          walk (allowed_types upper relationship_types) t.edges depth (start_walk start_node_id) in
        (take limit (found_nodes t.nodes w.visited), take limit w.collected)

  unfoldable pub related : Text → ℕ → ℕ → Option (List Text) → Tenant → List Node
  related node_id depth limit relationship_types t =
      filter (λ n. not (n.source_id == node_id))
        (traverse node_id relationship_types depth limit t).0

-- `q in text`
unfoldable pub contains_text : Text → Text → Bool
contains_text q [] = starts_with [] q
contains_text q (c ∷ s) = starts_with (c ∷ s) q || contains_text q s

module _ (lower : Text → Text) where
  -- `str(props.get(k, "")).lower()`
  abbrev pub prop_of : Text → Node → Text
  prop_of k node = lower (elim (get k node.properties) [ none ↦ [] | some v ↦ v ])

  -- A filter that is not set lets every person through.
  abbrev pub same_prop : Option Text → Text → Bool
  same_prop none v = true
  same_prop (some wanted) v = not (nonempty wanted) || v == lower wanted

  unfoldable pub is_wanted : Text → Option Text → Option Text → Node → Bool
  is_wanted query department team node =
      node.label == codes "Person"
      && same_prop department (prop_of (codes "department") node)
      && same_prop team (prop_of (codes "team") node)
      && (contains_text (lower query) (prop_of (codes "display_name") node)
          || contains_text (lower query) (prop_of (codes "email") node))

  -- The loop, with the results so far counted: it breaks when there are `limit`.
  unfoldable pub people : Text → Option Text → Option Text → ℕ → ℕ → List Node → List Node
  people query department team limit n [] = []
  people query department team limit n (node ∷ nodes) =
      let found = node ∷ people query department team limit (n + 1) nodes in
      let others = people query department team limit n nodes in
      if is_wanted query department team node
      then if leb limit (n + 1) then node ∷ [] else found
      else others

  unfoldable pub people_search : Text → Option Text → Option Text → ℕ → Tenant → List Node
  people_search query department team limit t =
      people query department team limit 0 (values t.nodes)
