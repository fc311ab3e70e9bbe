-- ===== src/Graph/Valid.antt =====
-- The invariant of a tenant's graph, over all sequences of changes.
use sync_ai_final.Base.{
  Bool-cases, ◌==◌, nat_eq, list_eqb_iff, list_eq, option_eq, pair_eq, eqb_refl, eqb_comm, any,
  filter, Text, codes, Dict, get, insert, erase, has_key, get-insert, get-erase, ◌≡◌, refl, inl,
  inr, Bool, true, false, not, ◌&&◌, ◌||◌, Option, some, List, [], ◌∷◌, map, arith,
}
use sync_ai_final.Graph.{
  Props, Node, Edge, Tenant, upsert_node, or_entity, ensure_stub, update_or_append, upsert_edge,
  involves, delete_node, redirect, merge_persons,
}

abbrev pub is_dangling : Dict Text Node → Edge → Bool
is_dangling nodes e = not (has_key e.source_id nodes && has_key e.target_id nodes)

-- Nodes are stored under their own ids, and both ends of each edge are stored.
pub record IsValid (t : Tenant) : Type 0 where
  pub keyed : (id : Text) (n : Node) → get id t.nodes ≡ some n → n.source_id ≡ id
  pub no_dangling : any (is_dangling t.nodes) t.edges ≡ false

any-dangling_mono :
    (nodes nodes' : Dict Text Node) (es : List Edge)
    → ((id : Text) → has_key id nodes ≡ true → has_key id nodes' ≡ true)
    → any (is_dangling nodes) es ≡ false
    → any (is_dangling nodes') es ≡ false
any-dangling_mono nodes nodes' [] h q = refl
any-dangling_mono nodes nodes' (e ∷ es) h q =
    ground (arith, h e.source_id, h e.target_id, any-dangling_mono nodes nodes' es h)

has_key-insert_mono :
    (k : Text) (n : Node) (nodes : Dict Text Node) (id : Text)
    → has_key id nodes ≡ true
    → has_key id (insert k n nodes) ≡ true
has_key-insert_mono k n nodes id h = ground (arith, get-insert k id n nodes)

insert-keyed :
    (t : Tenant) (k : Text) (n : Node)
    → IsValid t
    → n.source_id ≡ k
    → IsValid (record t { nodes = insert k n t.nodes })
insert-keyed t k n v e = record {
  keyed = λ id m q. ground (arith, get-insert k id n t.nodes, list_eqb_iff k id, v.keyed id m);
  no_dangling =
      any-dangling_mono t.nodes (insert k n t.nodes) t.edges (has_key-insert_mono k n t.nodes)
        v.no_dangling;
}

upsert_node-IsValid :
    (label source_id : Text) (props : Props) (t : Tenant)
    → IsValid t
    → IsValid (upsert_node label source_id props t)
unfolding upsert_node
upsert_node-IsValid label source_id props t v = insert-keyed t source_id _ v refl

ensure_stub-IsValid :
    (id : Text) (label : Option Text) (t : Tenant)
    → IsValid t
    → IsValid (record t { nodes = ensure_stub id label t.nodes })
unfolding ensure_stub
ensure_stub-IsValid id label t v = elim (Bool-cases (has_key id t.nodes)) [
  | inl old ↦ rw (old, ensure_stub) v
  | inr new ↦ rw (new, ensure_stub) (insert-keyed t id _ v refl)
]

has_key-ensure_stub :
    (id : Text) (label : Option Text) (nodes : Dict Text Node) (j : Text)
    → has_key j (ensure_stub id label nodes) ≡ (has_key j nodes || id == j)
unfolding ensure_stub
has_key-ensure_stub id label nodes j =
    let stub : Node = record {
      label = or_entity label;
      labels = or_entity label ∷ [];
      source_id = id;
      properties = (codes "source_id", id) ∷ [];
    } in
    ground (arith, get-insert id j stub nodes, list_eqb_iff id j)

update_or_append-no_dangling :
    (nodes : Dict Text Node) (new : Edge) (es : List Edge)
    → is_dangling nodes new ≡ false
    → any (is_dangling nodes) es ≡ false
    → any (is_dangling nodes) (update_or_append new es) ≡ false
unfolding update_or_append
update_or_append-no_dangling nodes new [] h q = rw h refl
update_or_append-no_dangling nodes new (e ∷ es) h q =
    ground (arith, update_or_append-no_dangling nodes new es)

upsert_edge-IsValid :
    (upper : Text → Text) (rel source target : Text) (props : Props)
    (source_label target_label : Option Text) (t : Tenant)
    → IsValid t
    → IsValid (upsert_edge upper rel source target props source_label target_label t)
unfolding upsert_edge
upsert_edge-IsValid upper rel source target props source_label target_label t v =
    let t1 = record t { nodes = ensure_stub source source_label t.nodes } in
    let v1 = ensure_stub-IsValid source source_label t v in
    let v2 = ensure_stub-IsValid target target_label t1 v1 in
    let nodes = ensure_stub target target_label t1.nodes in
    record {
      keyed = v2.keyed;
      no_dangling =
          update_or_append-no_dangling nodes _ t.edges
            (ground (
              arith,
              has_key-ensure_stub target target_label t1.nodes source,
              has_key-ensure_stub target target_label t1.nodes target,
              has_key-ensure_stub source source_label t.nodes source,
              eqb_refl source,
              eqb_refl target,
            ))
            v2.no_dangling;
    }

erase-keyed :
    (id : Text) (nodes : Dict Text Node) (j : Text) (n : Node)
    → get j (erase id nodes) ≡ some n
    → get j nodes ≡ some n
erase-keyed id nodes j n h = ground (arith, get-erase id j nodes)

filter-no_dangling :
    (id : Text) (nodes : Dict Text Node) (es : List Edge)
    → any (is_dangling nodes) es ≡ false
    → any (is_dangling (erase id nodes)) (filter (λ e. not (involves id e)) es) ≡ false
filter-no_dangling id nodes [] h = refl
filter-no_dangling id nodes (e ∷ es) h = ground (
  arith,
  filter-no_dangling id nodes es,
  get-erase id e.source_id nodes,
  get-erase id e.target_id nodes,
  list_eqb_iff id e.source_id,
  list_eqb_iff id e.target_id,
  list_eqb_iff e.source_id id,
  list_eqb_iff e.target_id id,
)

delete_node-IsValid : (id : Text) (t : Tenant) → IsValid t → IsValid (delete_node id t).1
unfolding delete_node
delete_node-IsValid id t v = elim (Bool-cases (has_key id t.nodes)) [
  | inl stored ↦
      rw (stored, delete_node)
        (record {
          keyed = λ j n h. v.keyed j n (erase-keyed id t.nodes j n h);
          no_dangling = filter-no_dangling id t.nodes t.edges v.no_dangling;
        })
  | inr missing ↦ rw (missing, delete_node) v
]

redirect-no_dangling :
    (primary secondary : Text) (nodes : Dict Text Node) (es : List Edge)
    → has_key primary nodes ≡ true
    → (primary == secondary) ≡ false
    → any (is_dangling nodes) es ≡ false
    → any (is_dangling (erase secondary nodes)) (map (redirect primary secondary) es) ≡ false
unfolding redirect
redirect-no_dangling primary secondary nodes [] p o h = refl
redirect-no_dangling primary secondary nodes (e ∷ es) p o h = ground (
  arith,
  redirect-no_dangling primary secondary nodes es,
  get-erase secondary primary nodes,
  get-erase secondary e.source_id nodes,
  get-erase secondary e.target_id nodes,
  eqb_comm primary secondary,
  eqb_comm e.source_id secondary,
  eqb_comm e.target_id secondary,
)

merge_persons-IsValid :
    (primary secondary : Text) (t : Tenant)
    → has_key primary t.nodes ≡ true
    → (primary == secondary) ≡ false
    → IsValid t
    → IsValid (merge_persons primary secondary t).1
unfolding merge_persons
merge_persons-IsValid primary secondary t p o v = record {
  keyed = λ j n h. v.keyed j n (erase-keyed secondary t.nodes j n h);
  no_dangling = redirect-no_dangling primary secondary t.nodes t.edges p o v.no_dangling;
}

-- The changes that a tenant's graph goes through. A merge is asked for two persons of whom the
-- primary is stored; the route that merges checks neither.
pub data Change (upper : Text → Text) : Tenant → Tenant → Type 0 where
  node_upserted :
      (label source_id : Text) (props : Props) (t : Tenant)
      → Change upper t (upsert_node label source_id props t)
  edge_upserted :
      (rel source target : Text) (props : Props) (source_label target_label : Option Text)
      (t : Tenant)
      → Change upper t (upsert_edge upper rel source target props source_label target_label t)
  node_deleted : (id : Text) (t : Tenant) → Change upper t (delete_node id t).1
  persons_merged :
      (primary secondary : Text) (t : Tenant)
      → has_key primary t.nodes ≡ true
      → (primary == secondary) ≡ false
      → Change upper t (merge_persons primary secondary t).1

pub data Reachable (upper : Text → Text) : Tenant → Type 0 where
  empty : Reachable upper (record { nodes = []; edges = [] })
  next : {t t' : Tenant} → Reachable upper t → Change upper t t' → Reachable upper t'

Change-IsValid : (upper : Text → Text) {t t' : Tenant} → Change upper t t' → IsValid t → IsValid t'
Change-IsValid upper (node_upserted label id props t) v = upsert_node-IsValid label id props t v
Change-IsValid upper (edge_upserted rel s d props sl dl t) v =
    upsert_edge-IsValid upper rel s d props sl dl t v
Change-IsValid upper (node_deleted id t) v = delete_node-IsValid id t v
Change-IsValid upper (persons_merged p s t stored other) v =
    merge_persons-IsValid p s t stored other v

-- However nodes and edges are upserted, nodes are deleted, and persons are merged into another stored
-- person, each node stays stored under its own id, and both ends of every edge stay stored.
pub Reachable-IsValid : (upper : Text → Text) {t : Tenant} → Reachable upper t → IsValid t
unfolding get
Reachable-IsValid upper empty = record { keyed = λ id n h. cc; no_dangling = refl }
Reachable-IsValid upper (next r c) = Change-IsValid upper c (Reachable-IsValid upper r)
