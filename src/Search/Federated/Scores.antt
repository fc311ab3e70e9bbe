-- ===== src/Search/Federated/Scores.antt =====
-- The dicts of the fusion: which ids they have.
use sync_ai_final.Base.{
  if◌then◌else◌, ◌==◌, nat_eq, list_eq, option_eq, pair_eq, any, distinct, Text, nonempty, keys,
  get, insert, has_key, get-insert, distinct-keys-insert, ℕ, ◌+◌, ◌≡◌, refl, ◌∙◌, Bool, true, not,
  ◌&&◌, ◌||◌, Option, List, [], ◌∷◌, arith,
}
use sync_ai_final.Search.Federated.{
  Floats, Doc, Bucket, Fusion, doc_id, lexical_bucket, vector_bucket, add_score, fuse, fuse_both,
}

module _ (fl : Floats) where
  -- The hit counts for the id.
  abbrev pub is_of : Text → Doc fl → Bool
  is_of id doc = nonempty (doc_id fl doc) && doc_id fl doc == id

  abbrev pub empty_fusion : Fusion fl
  empty_fusion = record { scores = []; metadata = [] }

  module _ (bucket_of : Doc fl → Option (Bucket fl) → Bucket fl) where
    -- One turn of the loop.
    abbrev fuse_doc : ℕ → Doc fl → Fusion fl → Fusion fl
    fuse_doc rank doc f =
        let id = doc_id fl doc in
        if not (nonempty id) then f else record {
          scores = insert id (add_score fl (get id f.scores) rank) f.scores;
          metadata = insert id (bucket_of doc (get id f.metadata)) f.metadata;
        }

    has_key-fuse_doc :
        (rank : ℕ) (doc : Doc fl) (f : Fusion fl) (id : Text)
        → (has_key id (fuse_doc rank doc f).scores ≡ (has_key id f.scores || is_of id doc))
          × (has_key id (fuse_doc rank doc f).metadata ≡ (has_key id f.metadata || is_of id doc))
    has_key-fuse_doc rank doc f id =
        let d = doc_id fl doc in
        (
          ground (arith, get-insert d id (add_score fl (get d f.scores) rank) f.scores),
          ground (arith, get-insert d id (bucket_of doc (get d f.metadata)) f.metadata),
        )

    pub has_key-fuse :
        (rank : ℕ) (docs : List (Doc fl)) (f : Fusion fl) (id : Text)
        → (has_key id (fuse fl bucket_of rank docs f).scores
            ≡ (has_key id f.scores || any (is_of id) docs))
          × (has_key id (fuse fl bucket_of rank docs f).metadata
              ≡ (has_key id f.metadata || any (is_of id) docs))
    unfolding fuse
    has_key-fuse rank [] f id = (ground arith, ground arith)
    has_key-fuse rank (doc ∷ docs) f id =
        let ih = has_key-fuse (rank + 1) docs (fuse_doc rank doc f) id in
        let turn = has_key-fuse_doc rank doc f id in
        (ih.0 ∙ ground (arith, turn.0), ih.1 ∙ ground (arith, turn.1))

    pub distinct-fuse :
        (rank : ℕ) (docs : List (Doc fl)) (f : Fusion fl)
        → distinct (keys f.scores) ≡ true
        → distinct (keys (fuse fl bucket_of rank docs f).scores) ≡ true
    unfolding fuse
    distinct-fuse rank [] f h = h
    distinct-fuse rank (doc ∷ docs) f h =
        let d = doc_id fl doc in
        distinct-fuse (rank + 1) docs (fuse_doc rank doc f)
          (ground (arith, distinct-keys-insert d (add_score fl (get d f.scores) rank) f.scores))

  module _ (lexical_results vector_results : List (Doc fl)) where
    -- Some hit of either list counts for the id.
    abbrev pub is_hit : Text → Bool
    is_hit id = any (is_of id) lexical_results || any (is_of id) vector_results

    pub has_key-fuse_both :
        (id : Text)
        → (has_key id (fuse_both fl lexical_results vector_results).scores ≡ is_hit id)
          × (has_key id (fuse_both fl lexical_results vector_results).metadata ≡ is_hit id)
    unfolding fuse_both get
    has_key-fuse_both id =
        let first = fuse fl (lexical_bucket fl) 1 lexical_results empty_fusion in
        let one = has_key-fuse (lexical_bucket fl) 1 lexical_results empty_fusion id in
        let two = has_key-fuse (vector_bucket fl) 1 vector_results first id in
        (two.0 ∙ ground (arith, one.0), two.1 ∙ ground (arith, one.1))

    pub distinct-fuse_both :
        distinct (keys (fuse_both fl lexical_results vector_results).scores) ≡ true
    unfolding fuse_both
    distinct-fuse_both =
        distinct-fuse (vector_bucket fl) 1 vector_results _
          (distinct-fuse (lexical_bucket fl) 1 lexical_results empty_fusion refl)
