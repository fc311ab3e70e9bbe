-- ===== src/Search/Federated/Ranked.antt =====
-- What the fusion returns.
use sync_ai_final.Base.{
  Option-cases, nat_eq, list_eq, option_eq, pair_eq, eqb_refl, length, take, take_all, length-map,
  contains, distinct, Text, Dict, get, has_key, contains-keys, ℕ, zero, suc, ◌≤◌, ◌≡◌, refl, sym,
  ap, ◌∙◌, inl, inr, true, some, List, [], ◌∷◌, map, arith,
}
use sync_ai_final.Search.Federated.Scores.{is_hit, has_key-fuse_both, distinct-fuse_both}
use sync_ai_final.Search.Federated.Order.{
  at_most, descending, ids, scores_of, descending-sort_ranked, contains-sort_ranked,
  distinct-sort_ranked, ids-keys, length-sort_ranked,
}
use sync_ai_final.Search.Federated.{
  Floats, Doc, Bucket, ResultItem, sort_ranked, result_item, result_items, fuse_both,
  merge_and_rank,
}

module _ (fl : Floats) where
  open fl use {Float}

  -- The items of ids that the buckets have.
  module _ (metadata : Dict Text (Bucket fl)) where
    items_of :
        (ranked : List (Text × Float))
        → ((id : Text) → contains (ids fl ranked) id ≡ true → has_key id metadata ≡ true)
        → (items : List (ResultItem fl)) × (result_items fl metadata ranked ≡ some items)
          × (map (λ i. i.document_id) items ≡ ids fl ranked)
          × (map (λ i. i.score) items ≡ scores_of fl ranked)
    unfolding result_items result_item
    items_of [] h = ([], refl, refl, refl)
    items_of ((id, s) ∷ ranked) h = elim (Option-cases (get id metadata)) [
      | inl missing ↦ absurd (ground (arith, h id, eqb_refl id))
      | inr (b, stored) ↦
          let (items, found, same_ids, same_scores) = items_of ranked (λ j m. h j (ground arith)) in
          (
            result_item fl id s b ∷ items,
            rw (stored, result_items) (rw found refl),
            ap (◌∷◌ id) same_ids,
            ap (◌∷◌ s) same_scores,
          )
    ]

  contains-take :
      (n : ℕ) (xs : List (Text × Float)) (id : Text)
      → contains (ids fl (take n xs)) id ≡ true
      → contains (ids fl xs) id ≡ true
  contains-take zero xs id h = cc
  contains-take (suc n) [] id h = h
  contains-take (suc n) (x ∷ xs) id h = ground (arith, contains-take n xs id)

  distinct-take :
      (n : ℕ) (xs : List (Text × Float))
      → distinct (ids fl xs) ≡ true
      → distinct (ids fl (take n xs)) ≡ true
  distinct-take zero xs h = refl
  distinct-take (suc n) [] h = refl
  distinct-take (suc n) (x ∷ xs) h = ground (arith, distinct-take n xs, contains-take n xs x.0)

  at_most-take :
      (n : ℕ) (s : Float) (xs : List (Text × Float))
      → at_most fl s (scores_of fl xs) ≡ true
      → at_most fl s (scores_of fl (take n xs)) ≡ true
  at_most-take zero s xs h = refl
  at_most-take (suc n) s [] h = refl
  at_most-take (suc n) s (x ∷ xs) h = ground (arith, at_most-take n s xs)

  descending-take :
      (n : ℕ) (xs : List (Text × Float))
      → descending fl (scores_of fl xs) ≡ true
      → descending fl (scores_of fl (take n xs)) ≡ true
  descending-take zero xs h = refl
  descending-take (suc n) [] h = refl
  descending-take (suc n) (x ∷ xs) h = ground (arith, descending-take n xs, at_most-take n x.1 xs)

  length-take-le : (n : ℕ) (xs : List (Text × Float)) → length (ids fl (take n xs)) ≤ n
  length-take-le zero xs = omega arith
  length-take-le (suc n) [] = omega arith
  length-take-le (suc n) (x ∷ xs) = omega (arith, length-take-le n xs)

  module _ (lexical_results vector_results : List (Doc fl)) (size : ℕ) where
    abbrev ranked : List (Text × Float)
    ranked = sort_ranked fl (fuse_both fl lexical_results vector_results).scores

    contains-ranked :
        (id : Text) → contains (ids fl ranked) id ≡ is_hit fl lexical_results vector_results id
    contains-ranked id =
        let scores = (fuse_both fl lexical_results vector_results).scores in
        contains-sort_ranked fl scores id
        ∙ rw (ids-keys fl scores)
            (contains-keys id scores ∙ (has_key-fuse_both fl lexical_results vector_results id).0)

    -- The fusion never fails: it returns items whose ids are ids of hits, none of them twice, in
    -- descending order of their scores, and at most `size` of them.
    pub merge_and_rank_lem :
        (items : List (ResultItem fl)) × (merge_and_rank fl lexical_results vector_results size
          ≡ some items)
        × ((id : Text)
            → contains (map (λ i. i.document_id) items) id ≡ true
            → is_hit fl lexical_results vector_results id ≡ true)
        × (distinct (map (λ i. i.document_id) items) ≡ true)
        × (descending fl (map (λ i. i.score) items) ≡ true)
        × (length items ≤ size)
    unfolding merge_and_rank
    merge_and_rank_lem =
        let f = fuse_both fl lexical_results vector_results in
        let hit_of = λ (id : Text) (m : contains (ids fl (take size ranked)) id ≡ true).
          sym (contains-ranked id) ∙ contains-take size ranked id m in
        let (items, found, same_ids, same_scores) =
          items_of f.metadata (take size ranked)
            (λ id m. (has_key-fuse_both fl lexical_results vector_results id).1 ∙ hit_of id m) in
        (
          items,
          found,
          rw same_ids hit_of,
          rw same_ids (
              distinct-take size ranked (
                distinct-sort_ranked fl f.scores (
                  rw (ids-keys fl f.scores)
                    (distinct-fuse_both fl lexical_results vector_results)))),
          rw same_scores (descending-take size ranked (descending-sort_ranked fl f.scores)),
          omega (
            arith,
            length-take-le size ranked,
            ap length same_ids,
            length-map (λ (i : ResultItem fl). i.document_id) items,
          ),
        )

    -- Where the hits have no more than `size` different ids, the ids of the items are exactly those of
    -- the hits of the two lists.
    pub merge_and_rank_all :
        (id : Text)
        → length (fuse_both fl lexical_results vector_results).scores ≤ size
        → (items : List (ResultItem fl)) × (merge_and_rank fl lexical_results vector_results size
            ≡ some items)
          × (contains (map (λ i. i.document_id) items) id
              ≡ is_hit fl lexical_results vector_results id)
    unfolding merge_and_rank
    merge_and_rank_all id enough =
        let f = fuse_both fl lexical_results vector_results in
        let whole = take_all size ranked (omega (arith, length-sort_ranked fl f.scores)) in
        let (items, found, same_ids, same_scores) = items_of f.metadata ranked (λ j m.
          (has_key-fuse_both fl lexical_results vector_results j).1
          ∙ sym (contains-ranked j)
          ∙ m) in
        (items, ap (result_items fl f.metadata) whole ∙ found, rw same_ids (contains-ranked id))
