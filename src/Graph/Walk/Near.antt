-- ===== src/Graph/Walk/Near.antt =====
-- What `traverse` finds: the nodes at most `depth` steps away.
use sync_ai_final.Base.{
  if◌then◌else◌, Bool-cases, Option-cases, ◌==◌, nat_eq, list_eqb_iff, list_eq, option_eq, pair_eq,
  eqb_refl, length, is_empty, any, any-is_empty, take_all, contains, Text, Dict, get, has_key, ℕ,
  zero, suc, ◌≤◌, ◌≡◌, refl, ◌↔◌, inl, inr, Bool, true, false, not, ◌&&◌, ◌||◌, Option, some, List,
  [], ◌∷◌, map, arith,
}
use sync_ai_final.Graph.{Node, Edge, Tenant}
use sync_ai_final.Graph.Walk.{
  Walk, allowed_types, is_allowed, visit, visit_edge, visit_edges, walk, found_nodes, start_walk,
  traverse,
}

-- The edge joins the two ids, in either direction.
abbrev pub joins : Text → Text → Edge → Bool
joins x y e = (e.source_id == x && e.target_id == y) || (e.target_id == x && e.source_id == y)

abbrev pub linked : List Text → List Edge → Text → Text → Bool
linked allowed es x y = any (λ e. is_allowed allowed e && joins x y e) es

-- At most `n` steps along allowed edges from an id of the list.
pub data Near (allowed : List Text) (es : List Edge) (from : List Text) : ℕ → Text → Type 0 where
  here : {n : ℕ} {x : Text} → contains from x ≡ true → Near allowed es from n x
  next :
      {n : ℕ} {x y : Text}
      → Near allowed es from n x
      → linked allowed es x y ≡ true
      → Near allowed es from (suc n) y

module _ (allowed layer : List Text) where
  -- The edges of one round visit an id if it was visited or one of them joins it to the layer.
  abbrev meets : Text → Edge → Bool
  meets x e =
      is_allowed allowed e
      && ((contains layer e.source_id && e.target_id == x)
          || (not (contains layer e.source_id) && contains layer e.target_id && e.source_id == x))

  visited-visit_edge :
      (e : Edge) (w : Walk) (x : Text)
      → contains (visit_edge allowed layer e w).visited x ≡ (contains w.visited x || meets x e)
  unfolding visit_edge visit
  visited-visit_edge e w x = ground (arith, list_eqb_iff e.target_id x, list_eqb_iff e.source_id x)

  visited-visit_edges :
      (es : List Edge) (w : Walk) (x : Text)
      → contains (visit_edges allowed layer es w).visited x
        ≡ (contains w.visited x || any (meets x) es)
  unfolding visit_edges
  visited-visit_edges [] w x = ground arith
  visited-visit_edges (e ∷ es) w x =
      ground
        (arith, visited-visit_edges es (visit_edge allowed layer e w) x, visited-visit_edge e w x)

  -- The next layer has the ids that are new.
  next_layer-visit_edge :
      (e : Edge) (w : Walk) (v : List Text) (x : Text)
      → contains w.visited x ≡ (contains v x || contains w.next_layer x)
      → contains (visit_edge allowed layer e w).visited x
        ≡ (contains v x || contains (visit_edge allowed layer e w).next_layer x)
  unfolding visit_edge visit
  next_layer-visit_edge e w v x h =
      ground (arith, list_eqb_iff e.target_id x, list_eqb_iff e.source_id x)

  next_layer-visit_edges :
      (es : List Edge) (w : Walk) (v : List Text) (x : Text)
      → contains w.visited x ≡ (contains v x || contains w.next_layer x)
      → contains (visit_edges allowed layer es w).visited x
        ≡ (contains v x || contains (visit_edges allowed layer es w).next_layer x)
  unfolding visit_edges
  next_layer-visit_edges [] w v x h = h
  next_layer-visit_edges (e ∷ es) w v x h =
      next_layer-visit_edges es (visit_edge allowed layer e w) v x (next_layer-visit_edge e w v x h)

  meets-linked :
      (es : List Edge) (x y : Text)
      → contains layer x ≡ true
      → linked allowed es x y ≡ true
      → (any (meets y) es || contains layer y) ≡ true
  meets-linked [] x y h l = cc
  meets-linked (e ∷ es) x y h l = ground (
    arith,
    meets-linked es x y h,
    list_eqb_iff e.source_id x,
    list_eqb_iff e.target_id x,
    list_eqb_iff e.source_id y,
    list_eqb_iff e.target_id y,
  )

  joined_end : Text → Edge → Text
  joined_end x e = if contains layer e.source_id then e.source_id else e.target_id

  met_from :
      (es : List Edge) (x : Text)
      → any (meets x) es ≡ true
      → (z : Text) × (contains layer z ≡ true) × (linked allowed es z x ≡ true)
  unfolding joined_end
  met_from [] x h = absurd (cc)
  met_from (e ∷ es) x h = elim (Bool-cases (meets x e)) [
    | inl met ↦
        (joined_end x e, ground arith, ground (arith, eqb_refl e.source_id, eqb_refl e.target_id))
    | inr other ↦ let (z, near, link) = met_from es x (ground arith) in (z, near, ground arith)
  ]

module _ (allowed : List Text) (es : List Edge) where
  -- What a round starts from: the layer is visited, and only the layer may have unvisited neighbours.
  record IsFrontier (w : Walk) : Type 0 where
    layer : (x : Text) → contains w.next_layer x ≡ true → contains w.visited x ≡ true
    closed :
        (x y : Text)
        → contains w.visited x ≡ true
        → contains w.next_layer x ≡ false
        → linked allowed es x y ≡ true
        → contains w.visited y ≡ true

  abbrev next_round : Walk → Walk
  next_round w = visit_edges allowed w.next_layer es (record w { next_layer = [] })

  module _ (w : Walk) (h : IsFrontier w) where
    abbrev w' : Walk
    w' = next_round w

    visited' :
        (x : Text)
        → contains w'.visited x ≡ (contains w.visited x || any (meets allowed w.next_layer x) es)
    visited' x = visited-visit_edges allowed w.next_layer es (record w { next_layer = [] }) x

    new' : (x : Text) → contains w'.visited x ≡ (contains w.visited x || contains w'.next_layer x)
    new' x =
        next_layer-visit_edges allowed w.next_layer es (record w { next_layer = [] }) w.visited x
          (ground arith)

    old-visited : (x : Text) → contains w.visited x ≡ true → contains w'.visited x ≡ true
    old-visited x v = ground (arith, visited' x)

    neighbour-visited :
        (x y : Text)
        → contains w.visited x ≡ true
        → linked allowed es x y ≡ true
        → contains w'.visited y ≡ true
    neighbour-visited x y v l =
        ground
          (arith, visited' y, meets-linked allowed w.next_layer es x y, h.closed x y, h.layer y)

    next_round-IsFrontier : IsFrontier w'
    next_round-IsFrontier = record {
      layer = λ x l. ground (arith, new' x);
      closed = λ x y v l k. neighbour-visited x y (ground (arith, new' x)) k;
    }

    -- One step back.
    visited-Near :
        (n : ℕ) (x : Text) → contains w'.visited x ≡ true → Near allowed es w.visited (suc n) x
    visited-Near n x v = elim (Bool-cases (contains w.visited x)) [
      | inl old ↦ here old
      | inr new ↦
          let (z, l, k) = met_from allowed w.next_layer es x (ground (arith, visited' x)) in
          next (here (h.layer z l)) k
    ]

    Near-back :
        (n : ℕ) (x : Text) → Near allowed es w'.visited n x → Near allowed es w.visited (suc n) x
    Near-back n x (here v) = visited-Near n x v
    Near-back (suc n) x (next {x = y} p l) = next (Near-back n y p) l

    Near-zero : (x : Text) → Near allowed es w.visited zero x → contains w.visited x ≡ true
    Near-zero x (here v) = v

    Near-on :
        (n : ℕ) (x : Text) → Near allowed es w.visited (suc n) x → Near allowed es w'.visited n x
    Near-on n x (here v) = here (old-visited x v)
    Near-on zero x (next {x = y} p l) = here (neighbour-visited y x (Near-zero y p) l)
    Near-on (suc n) x (next {x = y} p l) = next (Near-on n y p) l

    Near-closed :
        is_empty w'.next_layer ≡ true
        → (n : ℕ) (x : Text) → Near allowed es w.visited n x
        → contains w'.visited x ≡ true
    Near-closed e n x (here v) = old-visited x v
    Near-closed e (suc n) x (next {x = y} p l) =
        next_round-IsFrontier.closed y x (Near-closed e n y p)
          (any-is_empty (λ z. z == y) w'.next_layer e) l

  walk-Near :
      (n : ℕ) (w : Walk) (x : Text)
      → IsFrontier w
      → (contains (walk allowed es n w).visited x ≡ true) ↔ Near allowed es w.visited n x
  unfolding walk
  walk-Near zero w x h = (λ v. here v, Near-zero w h x)
  walk-Near (suc n) w x h =
      let ih = walk-Near n (next_round w) x (next_round-IsFrontier w h) in
      elim (Bool-cases (is_empty (next_round w).next_layer)) [
        | inl done ↦ rw done (visited-Near w h n x, Near-closed w h done (suc n) x)
        | inr more ↦ rw more (λ v. Near-back w h n x (ih.0 v), λ p. ih.1 (Near-on w h n x p))
      ]

  start_walk-IsFrontier : (id : Text) → IsFrontier (start_walk id)
  start_walk-IsFrontier id = record { layer = λ x l. l; closed = λ x y v l k. cc }

found_nodes-ids :
    (nodes : Dict Text Node) (ids : List Text) (x : Text)
    → ((id : Text) (n : Node) → get id nodes ≡ some n → n.source_id ≡ id)
    → contains (map (λ n. n.source_id) (found_nodes nodes ids)) x
      ≡ (contains ids x && has_key x nodes)
unfolding found_nodes
found_nodes-ids nodes [] x h = refl
found_nodes-ids nodes (id ∷ ids) x h = elim (Option-cases (get id nodes)) [
  | inl missing ↦
      rw (missing, found_nodes) (ground (arith, found_nodes-ids nodes ids x h, list_eqb_iff id x))
  | inr (n, stored) ↦
      rw (stored, found_nodes)
        (ground (arith, found_nodes-ids nodes ids x h, list_eqb_iff id x, h id n stored))
]

-- Where each node is stored under its own id and the limit does not cut, `traverse` from a stored
-- node returns the node of an id exactly if the id is stored and at most `depth` edges of the
-- allowed types away, whatever cycles there are.
pub traverse-Near :
    (upper : Text → Text) (start : Text) (types : Option (List Text)) (depth limit : ℕ) (t : Tenant)
    (x : Text)
    → ((id : Text) (n : Node) → get id t.nodes ≡ some n → n.source_id ≡ id)
    → has_key start t.nodes ≡ true
    → length (
        found_nodes t.nodes
          (walk (allowed_types upper types) t.edges depth (start_walk start)).visited)
      ≤ limit
    → (contains (map (λ n. n.source_id) (traverse upper start types depth limit t).0) x ≡ true)
      ↔ (Near (allowed_types upper types) t.edges (start ∷ []) depth x × (has_key x t.nodes ≡ true))
unfolding traverse
traverse-Near upper start types depth limit t x keyed stored enough =
    let allowed = allowed_types upper types in
    let ids = (walk allowed t.edges depth (start_walk start)).visited in
    let near =
      walk-Near allowed t.edges depth (start_walk start) x
        (start_walk-IsFrontier allowed t.edges start) in
    rw stored (
      rw (take_all limit (found_nodes t.nodes ids) enough) (
        rw (found_nodes-ids t.nodes ids x keyed)
          (λ h. (near.0 (ground arith), ground arith), λ (p, s). ground (arith, near.1 p))))
