-- ===== src/Tests/Graph.antt =====
-- Two persons who know a third and each other.
use sync_ai_final.Base.{
  nat_eq, list_eqb, list_eq, option_eq, pair_eq, length, contains, Text, codes, get, insert,
  has_key, ◌≡◌, refl, ◌↔◌, true, none, some, [], ◌∷◌, map, arith,
}
use sync_ai_final.Graph.{
  Tenant, ensure_stub, update_or_append, upsert_edge, get_edges_involving, merge_persons,
  split_persons,
}
use sync_ai_final.Graph.Walk.{visit, visit_edge, visit_edges, walk, found_nodes, traverse}
use sync_ai_final.Graph.Split.{count, split_persons-merge_persons}
use sync_ai_final.Graph.Valid.{
  IsValid, edge_upserted, persons_merged, Reachable, empty, next, Reachable-IsValid,
}
use sync_ai_final.Graph.Walk.Near.{Near, traverse-Near}
use sync_ai_final.Tests.Samples.{ascii_lower}

abbrev ann : Text
ann = codes "ann"

abbrev bob : Text
bob = codes "bob"

abbrev cid : Text
cid = codes "cid"

abbrev knows : Text
knows = codes "knows"

abbrev no_one : Tenant
no_one = record { nodes = []; edges = [] }

abbrev one_edge : Tenant
one_edge = upsert_edge ascii_lower knows ann bob [] none none no_one

abbrev two_edges : Tenant
two_edges = upsert_edge ascii_lower knows bob cid [] none none one_edge

two_edges-Reachable : Reachable ascii_lower two_edges
two_edges-Reachable =
    next (next empty (edge_upserted knows ann bob [] none none no_one))
      (edge_upserted knows bob cid [] none none one_edge)

Reachable-IsValid_example : IsValid (merge_persons ann bob two_edges).1
unfolding upsert_edge ensure_stub update_or_append get insert list_eqb
Reachable-IsValid_example =
    Reachable-IsValid ascii_lower
      (next two_edges-Reachable (persons_merged ann bob two_edges refl refl))

split_persons-merge_persons_example :
    let (merged, t') = merge_persons ann bob two_edges in
    let (result, t'') = split_persons ann bob (some merged.snapshot) t' in
    (get bob t''.nodes ≡ get bob two_edges.nodes)
    × (count (knows, (bob, cid)) t''.edges ≡ count (knows, (bob, cid)) two_edges.edges)
    × (result ≡ (true, length (get_edges_involving bob two_edges)))
split_persons-merge_persons_example =
    split_persons-merge_persons ann bob two_edges bob (knows, (bob, cid))

traverse-Near_example :
    (contains (map (λ n. n.source_id) (traverse ascii_lower ann none 1 9 two_edges).0) bob ≡ true)
    ↔ (Near [] two_edges.edges (ann ∷ []) 1 bob × (has_key bob two_edges.nodes ≡ true))
unfolding upsert_edge ensure_stub update_or_append get insert list_eqb walk visit_edges visit_edge
    visit found_nodes
traverse-Near_example =
    traverse-Near ascii_lower ann none 1 9 two_edges bob
      (Reachable-IsValid ascii_lower two_edges-Reachable).keyed refl (omega arith)
