-- ===== src/Search/Federated/Order.antt =====
-- The order of the fused hits.
use sync_ai_final.Base.{
  Bool-cases, ◌==◌, nat_eq, list_eq, option_eq, pair_eq, eqb_comm, and_left, and_right, and_intro,
  length, contains, distinct, Text, Dict, keys, suc, ◌≡◌, refl, ap, ◌∙◌, inl, inr, Bool, true,
  false, not, ◌&&◌, ◌||◌, List, [], ◌∷◌, map, arith,
}
use sync_ai_final.Search.Federated.{Floats, insert_ranked, sort_ranked}

module _ (fl : Floats) where
  open fl use {Float, le, le_total, le_trans}

  -- No score of the list is above `s`.
  abbrev pub at_most : Float → List Float → Bool
  at_most s [] = true
  at_most s (r ∷ rs) = le r s && at_most s rs

  abbrev pub descending : List Float → Bool
  descending [] = true
  descending (s ∷ ss) = at_most s ss && descending ss

  abbrev pub ids : List (Text × Float) → List Text
  ids = map (λ x. x.0)

  abbrev pub scores_of : List (Text × Float) → List Float
  scores_of = map (λ x. x.1)

  at_most_mono :
      (r s : Float) (xs : List Float) → le r s ≡ true → at_most r xs ≡ true → at_most s xs ≡ true
  at_most_mono r s [] h q = refl
  at_most_mono r s (x ∷ xs) h q = ground (arith, le_trans x r s, at_most_mono r s xs)

  at_most-insert_ranked :
      (r : Float) (x : Text × Float) (xs : List (Text × Float))
      → at_most r (scores_of (insert_ranked fl x xs)) ≡ (le x.1 r && at_most r (scores_of xs))
  unfolding insert_ranked
  at_most-insert_ranked r (id, s) [] = refl
  at_most-insert_ranked r (id, s) ((j, q) ∷ xs) = ground (arith, at_most-insert_ranked r (id, s) xs)

  descending-insert_ranked :
      (x : Text × Float) (xs : List (Text × Float))
      → descending (scores_of xs) ≡ true
      → descending (scores_of (insert_ranked fl x xs)) ≡ true
  unfolding insert_ranked
  descending-insert_ranked (id, s) [] h = refl
  descending-insert_ranked (id, s) ((j, r) ∷ xs) h = elim (Bool-cases (le r s)) [
    | inl before ↦ rw before (ground (arith, at_most_mono r s (scores_of xs) before))
    | inr after ↦
        let low = and_left (at_most r (scores_of xs)) (descending (scores_of xs)) h in
        let rest =
          descending-insert_ranked (id, s) xs
            (and_right (at_most r (scores_of xs)) (descending (scores_of xs)) h) in
        rw after
          (and_intro (at_most-insert_ranked r (id, s) xs ∙ and_intro (le_total r s after) low) rest)
  ]

  pub descending-sort_ranked :
      (xs : List (Text × Float)) → descending (scores_of (sort_ranked fl xs)) ≡ true
  unfolding sort_ranked
  descending-sort_ranked [] = refl
  descending-sort_ranked (x ∷ xs) =
      descending-insert_ranked x (sort_ranked fl xs) (descending-sort_ranked xs)

  contains-insert_ranked :
      (x : Text × Float) (xs : List (Text × Float)) (id : Text)
      → contains (ids (insert_ranked fl x xs)) id ≡ (x.0 == id || contains (ids xs) id)
  unfolding insert_ranked
  contains-insert_ranked (i, s) [] id = refl
  contains-insert_ranked (i, s) ((j, r) ∷ xs) id =
      ground (arith, contains-insert_ranked (i, s) xs id)

  pub contains-sort_ranked :
      (xs : List (Text × Float)) (id : Text)
      → contains (ids (sort_ranked fl xs)) id ≡ contains (ids xs) id
  unfolding sort_ranked
  contains-sort_ranked [] id = refl
  contains-sort_ranked (x ∷ xs) id =
      ground (arith, contains-insert_ranked x (sort_ranked fl xs) id, contains-sort_ranked xs id)

  distinct-insert_ranked :
      (x : Text × Float) (xs : List (Text × Float))
      → contains (ids xs) x.0 ≡ false
      → distinct (ids xs) ≡ true
      → distinct (ids (insert_ranked fl x xs)) ≡ true
  unfolding insert_ranked
  distinct-insert_ranked (i, s) [] h q = refl
  distinct-insert_ranked (i, s) ((j, r) ∷ xs) h q = elim (Bool-cases (le r s)) [
    | inl before ↦ rw before (ground arith)
    | inr after ↦
        let apart = and_left (not (contains (ids xs) j)) (distinct (ids xs)) q in
        let rest =
          distinct-insert_ranked (i, s) xs (ground (arith))
            (and_right (not (contains (ids xs) j)) (distinct (ids xs)) q) in
        let other : (i == j) ≡ false = rw (eqb_comm i j) (ground arith) in
        rw after (and_intro (rw (contains-insert_ranked (i, s) xs j) (rw other apart)) rest)
  ]

  pub distinct-sort_ranked :
      (xs : List (Text × Float))
      → distinct (ids xs) ≡ true
      → distinct (ids (sort_ranked fl xs)) ≡ true
  unfolding sort_ranked
  distinct-sort_ranked [] h = refl
  distinct-sort_ranked ((i, s) ∷ xs) h =
      distinct-insert_ranked (i, s) (sort_ranked fl xs) (ground (arith, contains-sort_ranked xs i))
        (distinct-sort_ranked xs (ground arith))

  pub ids-keys : (d : Dict Text Float) → ids d ≡ keys d
  ids-keys [] = refl
  ids-keys ((k, v) ∷ d) = ap (◌∷◌ k) (ids-keys d)

  length-insert_ranked :
      (x : Text × Float) (xs : List (Text × Float))
      → length (insert_ranked fl x xs) ≡ suc (length xs)
  unfolding insert_ranked
  length-insert_ranked (i, s) [] = refl
  length-insert_ranked (i, s) ((j, r) ∷ xs) = ground (arith, length-insert_ranked (i, s) xs)

  pub length-sort_ranked : (xs : List (Text × Float)) → length (sort_ranked fl xs) ≡ length xs
  unfolding sort_ranked
  length-sort_ranked [] = refl
  length-sort_ranked (x ∷ xs) =
      length-insert_ranked x (sort_ranked fl xs) ∙ ap suc (length-sort_ranked xs)
