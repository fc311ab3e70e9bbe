-- ===== src/Search/Federated.antt =====
-- Reciprocal rank fusion, backend/app/api/v1/search/federated.py. The hits of the backends are inputs.
-- A hit is a dict: a text that is missing is the empty text.
pub mod Scores
pub mod Order
pub mod Ranked
pub mod Endpoint
use sync_ai_final.Base.{
  ltb, if◌then◌else◌, nat_eq, list_eq, option_eq, pair_eq, length, take, is_empty, contains, Text,
  codes, nonempty, strip, Dict, get, insert, has_key, ℕ, ◌+◌, ◌≡◌, Bool, true, false, not, ◌&&◌,
  ◌||◌, Option, none, some, List, [], ◌∷◌, ◌++◌,
}
use sync_ai_final.Graph.{Props, update}

-- Floats, with the order on those that are numbers.
pub record Floats : Type 1 where
  pub Float : Type 0
  pub zero_float : Float
  pub plus : Float → Float → Float
  pub inverse : ℕ → Float
  pub le : Float → Float → Bool
  pub le_total : (a b : Float) → le a b ≡ false → le b a ≡ true
  pub le_trans : (a b c : Float) → le a b ≡ true → le b c ≡ true → le a c ≡ true

-- `a or b`
abbrev pub or_text : Text → Text → Text
or_text a b = if nonempty a then a else b

module _ (fl : Floats) where
  open fl use {Float, zero_float, plus, inverse, le}

  pub record Doc : Type 0 where
    pub document_id : Text
    pub id : Text
    pub title : Text
    pub snippet : Text
    pub score : Float
    pub sources : List Text
    pub from_email : Text
    pub source_type : Text
    pub metadata : Option Props

  pub record Bucket : Type 0 where
    pub title : Text
    pub snippet : Text
    pub lexical_score : Option Float
    pub vector_score : Option Float
    pub sources : List Text
    pub from_email : Text
    pub source_type : Text
    pub metadata : Props

  pub record ResultItem : Type 0 where
    pub document_id : Text
    pub score : Float
    pub fusion_score : Float
    pub title : Text
    pub snippet : Text
    pub sources : List Text
    pub lexical_score : Option Float
    pub vector_score : Option Float
    pub metadata : Option Props

  pub record Fusion : Type 0 where
    pub scores : Dict Text Float
    pub metadata : Dict Text Bucket

  unfoldable pub doc_id : Doc → Text
  doc_id doc = or_text doc.document_id doc.id

  abbrev pub meta_of : Doc → Props
  meta_of doc = elim doc.metadata [ none ↦ [] | some m ↦ m ]

  abbrev pub text_at : Text → Props → Text
  text_at k m = elim (get k m) [ none ↦ [] | some v ↦ v ]

  unfoldable pub prefer_snippet : Text → Text → Text
  prefer_snippet existing candidate =
      let a = strip existing in
      let b = strip candidate in if ltb (length a) (length b) then b else a

  -- The metadata of a hit that is not empty.
  unfoldable pub nonempty_values : Props → Props
  nonempty_values [] = []
  nonempty_values ((k, v) ∷ m) =
      if nonempty v then (k, v) ∷ nonempty_values m else nonempty_values m

  unfoldable pub ingest_hit_meta : Bucket → Doc → Bucket
  ingest_hit_meta bucket doc =
      let meta = meta_of doc in
      let longer = not (nonempty bucket.title) || ltb (length bucket.title) (length doc.title) in
      let from_email =
        or_text doc.from_email
          (or_text (text_at (codes "from_email") meta) (text_at (codes "from") meta)) in
      let source_type = or_text doc.source_type (text_at (codes "source_type") meta) in
      record bucket {
        title = if nonempty doc.title && longer then doc.title else bucket.title;
        snippet = prefer_snippet bucket.snippet doc.snippet;
        from_email = or_text bucket.from_email from_email;
        source_type = or_text bucket.source_type source_type;
        metadata = update bucket.metadata (nonempty_values meta);
      }

  -- `if s not in src: src.append(s)`, for each
  unfoldable pub add_sources : List Text → List Text → List Text
  add_sources [] src = src
  add_sources (s ∷ ss) src = add_sources ss (if contains src s then src else src ++ s ∷ [])

  abbrev pub lexical_name : Text
  lexical_name = codes "lexical"

  abbrev pub vector_name : Text
  vector_name = codes "vector"

  -- `doc.get("sources") or ["lexical"]`
  abbrev pub lexical_sources : Doc → List Text
  lexical_sources doc = if is_empty doc.sources then lexical_name ∷ [] else doc.sources

  unfoldable pub new_bucket : Doc → Option Float → Option Float → List Text → Bucket
  new_bucket doc lexical_score vector_score sources = record {
    title = doc.title;
    snippet = doc.snippet;
    lexical_score = lexical_score;
    vector_score = vector_score;
    sources = sources;
    from_email = doc.from_email;
    source_type = doc.source_type;
    metadata = meta_of doc;
  }

  unfoldable pub lexical_bucket : Doc → Option Bucket → Bucket
  lexical_bucket doc none =
      ingest_hit_meta (new_bucket doc (some doc.score) none (lexical_sources doc)) doc
  lexical_bucket doc (some old) =
      let src = add_sources (lexical_sources doc) old.sources in
      let src' =
        if not (contains src lexical_name) && is_empty doc.sources
        then src ++ lexical_name ∷ []
        else src in
      ingest_hit_meta (record old { sources = src'; lexical_score = some doc.score }) doc

  unfoldable pub vector_bucket : Doc → Option Bucket → Bucket
  vector_bucket doc none =
      ingest_hit_meta (new_bucket doc none (some doc.score) (vector_name ∷ [])) doc
  vector_bucket doc (some old) =
      ingest_hit_meta
        (record old {
          sources = add_sources (vector_name ∷ []) old.sources;
          vector_score = some doc.score;
        })
        doc

  abbrev pub rrf_constant : ℕ
  rrf_constant = 60

  unfoldable pub add_score : Option Float → ℕ → Float
  add_score old rank =
      plus (elim old [ none ↦ zero_float | some s ↦ s ]) (inverse (rrf_constant + rank))

  -- One loop over hits, counted from `rank`, with the update of the bucket of its backend.
  unfoldable pub fuse : (Doc → Option Bucket → Bucket) → ℕ → List Doc → Fusion → Fusion
  fuse bucket_of rank [] f = f
  fuse bucket_of rank (doc ∷ docs) f =
      let id = doc_id doc in
      fuse bucket_of (rank + 1) docs (
        if not (nonempty id) then f else record {
          scores = insert id (add_score (get id f.scores) rank) f.scores;
          metadata = insert id (bucket_of doc (get id f.metadata)) f.metadata;
        })

  -- `sorted(..., key=score, reverse=True)` keeps the order of equal scores.
  unfoldable pub insert_ranked : Text × Float → List (Text × Float) → List (Text × Float)
  insert_ranked (id, s) [] = (id, s) ∷ []
  insert_ranked (id, s) ((j, r) ∷ xs) =
      if le r s then (id, s) ∷ (j, r) ∷ xs else (j, r) ∷ insert_ranked (id, s) xs

  unfoldable pub sort_ranked : List (Text × Float) → List (Text × Float)
  sort_ranked [] = []
  sort_ranked (x ∷ xs) = insert_ranked x (sort_ranked xs)

  -- `setdefault`, of a text that is not empty
  abbrev pub set_default : Text → Text → Props → Props
  set_default k v m = if nonempty v && not (has_key k m) then insert k v m else m

  unfoldable pub result_item : Text → Float → Bucket → ResultItem
  result_item id score b = record {
    document_id = id;
    score = score;
    fusion_score = score;
    title = b.title;
    snippet = b.snippet;
    sources = b.sources;
    lexical_score = b.lexical_score;
    vector_score = b.vector_score;
    metadata =
        let m =
          set_default (codes "source_type") b.source_type
            (set_default (codes "from_email") b.from_email b.metadata) in
        if is_empty m then none else some m;
  }

  -- `none` is the `KeyError` of `metadata[doc_id]`.
  unfoldable pub result_items : Dict Text Bucket → List (Text × Float) → Option (List ResultItem)
  result_items metadata [] = some []
  result_items metadata ((id, score) ∷ ranked) = elim (get id metadata) [
    | none ↦ none
    | some b ↦ elim (result_items metadata ranked) [
      | none ↦ none
      | some items ↦ some (result_item id score b ∷ items)
    ]
  ]

  unfoldable pub fuse_both : List Doc → List Doc → Fusion
  fuse_both lexical_results vector_results =
      fuse vector_bucket 1 vector_results
        (fuse lexical_bucket 1 lexical_results (record { scores = []; metadata = [] }))

  unfoldable pub merge_and_rank : List Doc → List Doc → ℕ → Option (List ResultItem)
  merge_and_rank lexical_results vector_results size =
      let f = fuse_both lexical_results vector_results in
      result_items f.metadata (take size (sort_ranked f.scores))
