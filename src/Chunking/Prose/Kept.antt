-- ===== src/Chunking/Prose/Kept.antt =====
-- No sentence is lost.
use sync_ai_final.Base.{
  ltb, if◌then◌else◌, Bool-cases, nat_eq, list_eq, option_eq, pair_eq, length, Text, ℕ, ◌+◌, ◌≡◌,
  refl, sym, ap, ◌∙◌, inl, inr, true, false, List, [], ◌∷◌, ◌++◌, map, append_assoc,
}
use sync_ai_final.Chunking.Prose.{
  split_sentences, join_words, last_of, ProseChunk, prose_chunk, chunk_sentences, number_chunks,
  chunk_prose,
}

abbrev tail : List Text → List Text
tail [] = []
tail (x ∷ xs) = xs

abbrev tails : List (List Text) → List Text
tails [] = []
tails (g ∷ gs) = tail g ++ tails gs

abbrev all_of : List (List Text) → List Text
all_of [] = []
all_of (g ∷ gs) = g ++ all_of gs

-- The sentences of the chunks, where each chunk but the first is read without its first sentence, if
-- sentences are repeated.
abbrev pub recovered : (overlap : ℕ) → List (List Text) → List Text
recovered overlap [] = []
recovered overlap (g ∷ gs) = g ++ (if ltb 0 overlap then tails gs else all_of gs)

cons_inj : {x : Text} {xs ys : List Text} → x ∷ xs ≡ x ∷ ys → xs ≡ ys
cons_inj h = cc

module _ (digest : ℕ → Text → Text) (chunk_size overlap : ℕ) (parent_doc_id : Text) where
  abbrev groups : List Text → ℕ → List Text → List (List Text)
  groups = chunk_sentences digest chunk_size overlap parent_doc_id

  groups_end : (x : Text) (xs : List Text) (len : ℕ) → groups (x ∷ xs) len [] ≡ (x ∷ xs) ∷ []
  unfolding chunk_sentences
  groups_end x xs len = refl

  groups_full :
      (x : Text) (xs : List Text) (len : ℕ) (sent : Text) (sents : List Text)
      → ltb chunk_size (len + length sent) ≡ true
      → groups (x ∷ xs) len (sent ∷ sents)
        ≡ (x ∷ xs)
          ∷ (if ltb 0 overlap
              then groups (last_of x xs ∷ sent ∷ []) (length (last_of x xs) + length sent + 1) sents
              else groups (sent ∷ []) (length sent + 1) sents)
  unfolding chunk_sentences
  groups_full x xs len sent sents full = rw (full, chunk_sentences) refl

  groups_room :
      (x : Text) (xs : List Text) (len : ℕ) (sent : Text) (sents : List Text)
      → ltb chunk_size (len + length sent) ≡ false
      → groups (x ∷ xs) len (sent ∷ sents)
        ≡ groups (x ∷ (xs ++ sent ∷ [])) (len + length sent + 1) sents
  unfolding chunk_sentences
  groups_room x xs len sent sents room = rw (room, chunk_sentences) refl

  -- The chunk at hand is the start of the next chunk that is made.
  groups_start :
      (x : Text) (xs : List Text) (len : ℕ) (sents : List Text)
      → (ys : List Text) × (gs : List (List Text)) × (groups (x ∷ xs) len sents ≡ (x ∷ ys) ∷ gs)
  groups_start x xs len [] = (xs, [], groups_end x xs len)
  groups_start x xs len (sent ∷ sents) = elim (Bool-cases (ltb chunk_size (len + length sent))) [
    | inl full ↦ (
      xs,
      if ltb 0 overlap
          then groups (last_of x xs ∷ sent ∷ []) (length (last_of x xs) + length sent + 1) sents
          else groups (sent ∷ []) (length sent + 1) sents,
      groups_full x xs len sent sents full,
    )
    | inr room ↦
        let (ys, gs, e) = groups_start x (xs ++ sent ∷ []) (len + length sent + 1) sents in
        (ys, gs, groups_room x xs len sent sents room ∙ e)
  ]

  -- A list of chunks of which the first is not empty, behind a chunk.
  recovered-cons_repeats :
      (g : List Text) (y : Text) (ys : List Text) (gs : List (List Text)) (rest : List Text)
      → ltb 0 overlap ≡ true
      → recovered overlap ((y ∷ ys) ∷ gs) ≡ y ∷ rest
      → recovered overlap (g ∷ (y ∷ ys) ∷ gs) ≡ g ++ rest
  recovered-cons_repeats g y ys gs rest repeats h =
      let start : y ∷ (ys ++ tails gs) ≡ recovered overlap ((y ∷ ys) ∷ gs) = rw repeats refl in
      let whole : g ++ (ys ++ tails gs) ≡ recovered overlap (g ∷ (y ∷ ys) ∷ gs) = rw repeats refl in
      sym whole ∙ ap (λ ts. g ++ ts) (cons_inj (start ∙ h))

  recovered-cons_single :
      (g : List Text) (y : Text) (ys : List Text) (gs : List (List Text)) (rest : List Text)
      → ltb 0 overlap ≡ false
      → recovered overlap ((y ∷ ys) ∷ gs) ≡ y ∷ rest
      → recovered overlap (g ∷ (y ∷ ys) ∷ gs) ≡ g ++ y ∷ rest
  recovered-cons_single g y ys gs rest single h =
      let start : y ∷ (ys ++ all_of gs) ≡ recovered overlap ((y ∷ ys) ∷ gs) = rw single refl in
      let whole : g ++ y ∷ (ys ++ all_of gs) ≡ recovered overlap (g ∷ (y ∷ ys) ∷ gs) =
        rw single refl in
      sym whole ∙ ap (λ ts. g ++ ts) (start ∙ h)

  recovered-groups :
      (x : Text) (xs : List Text) (len : ℕ) (sents : List Text)
      → recovered overlap (groups (x ∷ xs) len sents) ≡ x ∷ (xs ++ sents)
  recovered-groups x xs len [] = rw (groups_end x xs len) (elim (Bool-cases (ltb 0 overlap)) [
    | inl repeats ↦ rw repeats refl
    | inr single ↦ rw single refl
  ])
  recovered-groups x xs len (sent ∷ sents) =
      let last = last_of x xs in
      let n = length last + length sent + 1 in
      let (ys, gs, e) = groups_start last (sent ∷ []) n sents in
      let (zs, hs, f) = groups_start sent [] (length sent + 1) sents in
      let repeated = recovered-groups last (sent ∷ []) n sents in
      let fresh = recovered-groups sent [] (length sent + 1) sents in
      let longer = recovered-groups x (xs ++ sent ∷ []) (len + length sent + 1) sents in
      elim (Bool-cases (ltb chunk_size (len + length sent))) [
        | inl full ↦
            ap (recovered overlap) (groups_full x xs len sent sents full)
            ∙ elim (Bool-cases (ltb 0 overlap)) [
              | inl repeats ↦
                  ap
                    (λ b. recovered overlap (
                      (x ∷ xs)
                      ∷ (if b
                          then groups (last ∷ sent ∷ []) n sents
                          else groups (sent ∷ []) (length sent + 1) sents)))
                    repeats
                  ∙ ap (λ ts. recovered overlap ((x ∷ xs) ∷ ts)) e
                  ∙ recovered-cons_repeats (x ∷ xs) last ys gs (sent ∷ sents) repeats
                      (ap (recovered overlap) (sym e) ∙ repeated)
              | inr single ↦
                  ap
                    (λ b. recovered overlap (
                      (x ∷ xs)
                      ∷ (if b
                          then groups (last ∷ sent ∷ []) n sents
                          else groups (sent ∷ []) (length sent + 1) sents)))
                    single
                  ∙ ap (λ ts. recovered overlap ((x ∷ xs) ∷ ts)) f
                  ∙ recovered-cons_single (x ∷ xs) sent zs hs sents single
                      (ap (recovered overlap) (sym f) ∙ fresh)
            ]
        | inr room ↦
            ap (recovered overlap) (groups_room x xs len sent sents room)
            ∙ longer
            ∙ ap (λ ts. x ∷ ts) (append_assoc xs (sent ∷ []) sents)
      ]

  contents-number_chunks :
      (n : ℕ) (gs : List (List Text))
      → map
          (λ (c : ProseChunk). c.content)
          (number_chunks digest chunk_size overlap parent_doc_id n gs)
        ≡ map join_words gs
  unfolding number_chunks prose_chunk
  contents-number_chunks n [] = refl
  contents-number_chunks n (g ∷ gs) = ap (◌∷◌ (join_words g)) (contents-number_chunks (n + 1) gs)

  recovered-chunk_sentences : (sents : List Text) → recovered overlap (groups [] 0 sents) ≡ sents
  unfolding chunk_sentences
  recovered-chunk_sentences [] = refl
  recovered-chunk_sentences (s ∷ ss) = recovered-groups s [] (0 + length s + 1) ss

  -- The contents of the chunks of a text that is not empty are groups of sentences, each joined by spaces,
  -- whose sentences are all the sentences of the text in their order. With an overlap each group but
  -- the first has one sentence more at its start, which is left out of the count.
  pub chunk_prose_lem :
      (c : ℕ) (cs : Text)
      → (gs : List (List Text)) × (map
            (λ (chunk : ProseChunk). chunk.content)
            (chunk_prose digest chunk_size overlap parent_doc_id (c ∷ cs))
          ≡ map join_words gs)
        × (recovered overlap gs ≡ split_sentences (c ∷ cs))
  unfolding chunk_prose
  chunk_prose_lem c cs = (
    groups [] 0 (split_sentences (c ∷ cs)),
    contents-number_chunks 0 (groups [] 0 (split_sentences (c ∷ cs))),
    recovered-chunk_sentences (split_sentences (c ∷ cs)),
  )
