-- ===== src/Graph/Split.antt =====
-- `split_persons` after `merge_persons`.
use sync_ai_final.Base.{
  if◌then◌else◌, Bool-cases, Option-cases, ◌==◌, nat_eq, list_eqb_iff, list_eq, option_eq,
  pair_eqb_iff, pair_eq, length, filter, Text, get, erase, get-insert, get-erase, ℕ, ◌+◌, ◌≤◌, ◌<◌,
  ◌≡◌, refl, inl, inr, true, false, some, List, [], ◌∷◌, ◌++◌, map, arith,
}
use sync_ai_final.Graph.{
  Edge, Tenant, EdgeKey, edge_key, involves, get_edges_involving, redirect, merge_persons,
  remove_first, restore_edges, split_persons,
}

-- How many of the edges have the key.
abbrev pub count : EdgeKey → List Edge → ℕ
count k [] = 0
count k (e ∷ es) = (if edge_key e == k then 1 else 0) + count k es

count-append : (k : EdgeKey) (xs ys : List Edge) → count k (xs ++ ys) ≡ count k xs + count k ys
count-append k [] ys = omega arith
count-append k (e ∷ xs) ys = omega (arith, count-append k xs ys)

count-remove_first :
    (k j : EdgeKey) (es : List Edge)
    → 0 < count k es
    → count j (remove_first k es) + (if k == j then 1 else 0) ≡ count j es
unfolding remove_first
count-remove_first k j [] h = absurd (omega arith)
count-remove_first k j (e ∷ es) h = ground (
  arith,
  count-remove_first k j es,
  pair_eqb_iff (edge_key e) k,
  pair_eqb_iff (edge_key e) j,
  pair_eqb_iff k j,
)

module _ (primary_id secondary_id : Text) where
  abbrev redirected : List Edge → List Edge
  redirected = map (redirect primary_id secondary_id)

  -- Each edge that is put back takes one redirected edge away.
  count-restore_edges :
      (origs edges : List Edge) (j : EdgeKey)
      → ((k : EdgeKey) → count k (redirected origs) ≤ count k edges)
      → count j (restore_edges primary_id secondary_id origs edges) + count j (redirected origs)
        ≡ count j edges + count j origs
  unfolding restore_edges
  count-restore_edges [] edges j h = omega arith
  count-restore_edges (orig ∷ rest) edges j h =
      let k = edge_key (redirect primary_id secondary_id orig) in
      let edges' = remove_first k edges ++ orig ∷ [] in
      let present : 0 < count k edges = ground (arith, h k, pair_eqb_iff k k) in
      let step : (i : EdgeKey)
          → count i edges' + (if k == i then 1 else 0) ≡ count i edges + count i (orig ∷ []) =
        λ i. omega (
          arith,
          count-append i (remove_first k edges) (orig ∷ []),
          count-remove_first k i edges present,
        ) in
      let enough : (i : EdgeKey) → count i (redirected rest) ≤ count i edges' =
        λ i. omega (arith, step i, h i) in
      omega (arith, count-restore_edges rest edges' j enough, step j)

  redirect-other :
      (e : Edge) → involves secondary_id e ≡ false → redirect primary_id secondary_id e ≡ e
  unfolding redirect
  redirect-other e h = ground arith

  count-redirected :
      (k : EdgeKey) (es : List Edge)
      → count k (redirected es) + count k (filter (involves secondary_id) es)
        ≡ count k (redirected (filter (involves secondary_id) es)) + count k es
  count-redirected k [] = refl
  count-redirected k (e ∷ es) = elim (Bool-cases (involves secondary_id e)) [
    | inl here ↦ rw here (omega (arith, count-redirected k es))
    | inr other ↦ rw other (rw (redirect-other e other) (omega (arith, count-redirected k es)))
  ]

  involved-le :
      (k : EdgeKey) (es : List Edge)
      → count k (redirected (filter (involves secondary_id) es)) ≤ count k (redirected es)
  involved-le k [] = omega arith
  involved-le k (e ∷ es) = elim (Bool-cases (involves secondary_id e)) [
    | inl here ↦ rw here (omega (arith, involved-le k es))
    | inr other ↦ rw other (omega (arith, involved-le k es))
  ]

  -- Splitting two persons right after they were merged, with the snapshot of the merge: every node
  -- is there as before the merge and no other; for each type and pair of ends there are as many edges
  -- as before; and the edges that the merge touched are reported as restored.
  pub split_persons-merge_persons :
      (t : Tenant) (id : Text) (k : EdgeKey)
      → let (merged, t') = merge_persons primary_id secondary_id t in
        let (result, t'') = split_persons primary_id secondary_id (some merged.snapshot) t' in
        (get id t''.nodes ≡ get id t.nodes)
        × (count k t''.edges ≡ count k t.edges)
        × (result ≡ (true, length (get_edges_involving secondary_id t)))
  unfolding split_persons merge_persons get_edges_involving
  split_persons-merge_persons t id k = (
    elim (Option-cases (get secondary_id t.nodes)) [
      | inl missing ↦
          rw (missing, split_persons)
            (ground (arith, get-erase secondary_id id t.nodes, list_eqb_iff secondary_id id))
      | inr (n, stored) ↦
          rw (stored, split_persons)
            (ground (
              arith,
              get-insert secondary_id id n (erase secondary_id t.nodes),
              get-erase secondary_id id t.nodes,
              list_eqb_iff secondary_id id,
            ))
    ],
    omega (
      arith,
      count-restore_edges (get_edges_involving secondary_id t) (redirected t.edges) k
          (λ i. involved-le i t.edges),
      count-redirected k t.edges,
    ),
    refl,
  )
