-- ===== src/Search/Vector/Found.antt =====
-- What the vector search finds.
use sync_ai_final.Base.{
  nat_eqb, if◌then◌else◌, Bool-cases, Option-cases, nat_eq, list_eq, option_eq, pair_eq, take, Text,
  Dict, get, ℕ, zero, suc, ◌+◌, ◌≡◌, refl, sym, ap, ◌∙◌, inl, inr, true, false, not, ◌&&◌, Option,
  none, some, List, [], ◌∷◌, arith,
}
use sync_ai_final.Acl.Filter.{is_fail_closed, document_is_visible}
use sync_ai_final.Search.Vector.{
  Chunk, ChunkHit, VectorStore, chunk_hit, other_version, search_chunks, search,
}

module _ {V : Type 0} (acl_terms : List Text) (model_version : Option Text) where
  -- All chunks of the wanted version that the caller may see.
  abbrev pub matching : Dict Text (Chunk V) → List (ChunkHit V)
  matching [] = []
  matching ((chunk_id, c) ∷ chunks) =
      if not (other_version model_version c) && document_is_visible acl_terms (some c.acl_terms)
      then chunk_hit chunk_id c ∷ matching chunks
      else matching chunks

  search_chunks_lem :
      (m n : ℕ) (chunks : Dict Text (Chunk V))
      → search_chunks acl_terms model_version (n + suc m) n chunks ≡ take (suc m) (matching chunks)
  unfolding search_chunks
  search_chunks_lem m n [] = refl
  search_chunks_lem zero n ((id, c) ∷ chunks) = ground (arith, search_chunks_lem zero n chunks)
  search_chunks_lem (suc m) n ((id, c) ∷ chunks) =
      let same : n + suc (suc m) ≡ n + 1 + suc m = omega arith in
      ground (
        arith,
        search_chunks_lem (suc m) n chunks,
        rw (← same) at (search_chunks_lem m (n + 1) chunks),
      )

  search_chunks_zero :
      (chunks : Dict Text (Chunk V))
      → search_chunks acl_terms model_version 0 0 chunks ≡ take 1 (matching chunks)
  unfolding search_chunks
  search_chunks_zero [] = refl
  search_chunks_zero ((id, c) ∷ chunks) = ground (arith, search_chunks_zero chunks)

  matching-fail_closed :
      (chunks : Dict Text (Chunk V)) → is_fail_closed acl_terms ≡ true → matching chunks ≡ []
  unfolding document_is_visible
  matching-fail_closed [] h = refl
  matching-fail_closed ((id, c) ∷ chunks) h = ground (arith, matching-fail_closed chunks)

  search_chunks_top :
      (top_k : ℕ) (chunks : Dict Text (Chunk V))
      → search_chunks acl_terms model_version top_k 0 chunks
        ≡ take (if nat_eqb top_k 0 then 1 else top_k) (matching chunks)
  search_chunks_top zero chunks = search_chunks_zero chunks
  search_chunks_top (suc m) chunks =
      let same : 0 + suc m ≡ suc m = omega arith in
      let positive : nat_eqb (suc m) 0 ≡ false = ground arith in
      rw positive (rw same at (search_chunks_lem m 0 chunks))

  abbrev pub chunks_of : Text → VectorStore V → Dict Text (Chunk V)
  chunks_of tenant_id s = elim (get tenant_id s) [ none ↦ [] | some d ↦ d ]

  take_none : (n : ℕ) → take n (matching []) ≡ []
  take_none zero = refl
  take_none (suc n) = refl

  -- The search returns the first `top_k` of the tenant's chunks that are of the wanted version and
  -- visible to the caller, in the order in which they were stored; asked for none, it returns one.
  pub search_lem :
      (tenant_id : Text) (top_k : ℕ) (s : VectorStore V)
      → search tenant_id acl_terms top_k model_version s
        ≡ take (if nat_eqb top_k 0 then 1 else top_k) (matching (chunks_of tenant_id s))
  unfolding search
  search_lem tenant_id top_k s =
      let n : ℕ = if nat_eqb top_k 0 then 1 else top_k in
      elim (Bool-cases (is_fail_closed acl_terms)) [
        | inl closed ↦
            rw closed (
              sym (ap (take n) (matching-fail_closed (chunks_of tenant_id s) closed) ∙ take_none n))
        | inr open_terms ↦ rw open_terms (elim (Option-cases (get tenant_id s)) [
          | inl missing ↦
              let none_of : chunks_of tenant_id s ≡ [] = rw (missing, chunks_of) refl in
              rw (missing, search) (sym (ap (λ c. take n (matching c)) none_of ∙ take_none n))
          | inr (chunks, stored) ↦
              let all_of : chunks_of tenant_id s ≡ chunks = rw (stored, chunks_of) refl in
              rw (stored, search)
                (search_chunks_top top_k chunks ∙ ap (λ c. take n (matching c)) (sym all_of))
        ])
      ]
