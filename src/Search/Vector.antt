-- ===== src/Search/Vector.antt =====
-- `MockVectorStore`, backend/app/services/vector/mock_store.py. Embeddings and metadata are kept as
-- they come: the search looks at neither.
pub mod Found
use sync_ai_final.Base.{
  leb, if◌then◌else◌, ◌==◌, nat_eq, list_eq, option_eq, pair_eq, length, Text, codes, nonempty,
  Dict, get, insert, erase, has_key, ℕ, ◌+◌, Bool, false, not, ◌&&◌, Option, none, some, List, [],
  ◌∷◌,
}
use sync_ai_final.Acl.Filter.{is_fail_closed, document_is_visible}

-- What a caller gives for a chunk.
pub record Chunk (V : Type 0) : Type 0 where
  pub embedding : List V
  pub document_id : Text
  pub model_version : Text
  pub acl_terms : List Text
  pub chunk_text : Text
  pub metadata : Dict Text V

-- An entry of a batch.
pub record BatchEntry (V : Type 0) : Type 0 where
  pub chunk_id : Text
  pub document_id : Option Text
  pub embedding : List V
  pub model_version : Option Text
  pub acl_terms : Option (List Text)
  pub acl_filter_terms : Option (List Text)
  pub chunk_text : Option Text
  pub metadata : Option (Dict Text V)

pub record ChunkHit (V : Type 0) : Type 0 where
  pub chunk_id : Text
  pub document_id : Text
  pub score : ℕ
  pub model_version : Text
  pub chunk_text : Text
  pub metadata : Dict Text V

abbrev pub VectorStore : Type 0 → Type 0
VectorStore V = Dict Text (Dict Text (Chunk V))

-- `a or b or []`
abbrev pub first_terms : Option (List Text) → Option (List Text) → List Text
first_terms (some (t ∷ ts)) other = t ∷ ts
first_terms (some []) none = []
first_terms (some []) (some ts) = ts
first_terms none none = []
first_terms none (some ts) = ts

abbrev pub given : {A : Type 0} → Option A → A → A
given none default_value = default_value
given (some a) default_value = a

module _ {V : Type 0} where
  unfoldable pub upsert_chunk : Text → Text → Chunk V → VectorStore V → VectorStore V
  upsert_chunk tenant_id chunk_id chunk s =
      let chunks : Dict Text (Chunk V) = elim (get tenant_id s) [ none ↦ [] | some d ↦ d ] in
      insert tenant_id (insert chunk_id chunk chunks) s

  unfoldable pub chunk_of : BatchEntry V → Chunk V
  chunk_of b = record {
    embedding = b.embedding;
    document_id = given b.document_id b.chunk_id;
    model_version = given b.model_version (codes "v1");
    acl_terms = first_terms b.acl_terms b.acl_filter_terms;
    chunk_text = given b.chunk_text [];
    metadata = given b.metadata [];
  }

  unfoldable pub upsert_all : Text → List (BatchEntry V) → VectorStore V → VectorStore V
  upsert_all tenant_id [] s = s
  upsert_all tenant_id (b ∷ bs) s =
      upsert_all tenant_id bs (upsert_chunk tenant_id b.chunk_id (chunk_of b) s)

  unfoldable pub upsert_batch : Text → List (BatchEntry V) → VectorStore V → ℕ × VectorStore V
  upsert_batch tenant_id chunks s = (length chunks, upsert_all tenant_id chunks s)

  unfoldable pub chunk_hit : Text → Chunk V → ChunkHit V
  chunk_hit chunk_id c = record {
    chunk_id = chunk_id;
    document_id = c.document_id;
    score = 1;
    model_version = c.model_version;
    chunk_text = c.chunk_text;
    metadata = c.metadata;
  }

  -- `if model_version and ...`: an empty version asks for none.
  abbrev pub other_version : Option Text → Chunk V → Bool
  other_version none c = false
  other_version (some v) c = nonempty v && not (c.model_version == v)

  -- The loop over the tenant's chunks, with the number of results so far.
  unfoldable pub search_chunks :
      List Text → Option Text → ℕ → ℕ → Dict Text (Chunk V) → List (ChunkHit V)
  search_chunks acl_terms model_version top_k n [] = []
  search_chunks acl_terms model_version top_k n ((chunk_id, c) ∷ chunks) =
      let skipped = search_chunks acl_terms model_version top_k n chunks in
      let more = search_chunks acl_terms model_version top_k (n + 1) chunks in
      if other_version model_version c
      then skipped
      else if not (document_is_visible acl_terms (some c.acl_terms))
      then skipped
      else chunk_hit chunk_id c ∷ (if leb top_k (n + 1) then [] else more)

  unfoldable pub search : Text → List Text → ℕ → Option Text → VectorStore V → List (ChunkHit V)
  search tenant_id acl_terms top_k model_version s =
      if is_fail_closed acl_terms then [] else elim (get tenant_id s) [
        | none ↦ []
        | some chunks ↦ search_chunks acl_terms model_version top_k 0 chunks
      ]

  unfoldable pub delete_chunk : Text → Text → VectorStore V → VectorStore V
  delete_chunk tenant_id chunk_id s = elim (get tenant_id s) [
    | none ↦ s
    | some d ↦ if has_key chunk_id d then insert tenant_id (erase chunk_id d) s else s
  ]

  unfoldable pub clear_tenant : Text → VectorStore V → VectorStore V
  clear_tenant tenant_id s = erase tenant_id s
