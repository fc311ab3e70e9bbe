-- ===== src/Search/Lexical/Hidden.antt =====
-- A document that the caller may not see leaves no trace in the response.
use sync_ai_final.Base.{
  if◌then◌else◌, Bool-cases, ◌==◌, nat_eq, list_eqb_iff, list_eq, option_eq, pair_eq, eqb_refl,
  length, take, drop, contains, distinct, Text, Dict, keys, get, insert, erase, get-insert, ℕ, ◌≡◌,
  refl, sym, ap, ◌∙◌, inl, inr, true, false, Option, some, List, [], ◌∷◌, arith,
}
use sync_ai_final.Acl.Filter.{is_fail_closed, document_is_visible}
use sync_ai_final.Search.Lexical.{
  IndexedDocument, Response, LexicalStore, tenant_documents, index_document, hits, count_facets,
  visible_docs, search,
}

erase-absent :
    {V : Type 0} (k : Text) (d : Dict Text V) → contains (keys d) k ≡ false → erase k d ≡ d
unfolding erase
erase-absent k [] h = refl
erase-absent k ((j, v) ∷ d) h = ground (arith, erase-absent k d)

module _ (lower : Text → Text) (acl_terms : List Text) (query : Text) where
  visible_docs-insert :
      (id : Text) (doc : IndexedDocument) (d : Dict Text IndexedDocument)
      → document_is_visible acl_terms doc.acl_filter_terms ≡ false
      → distinct (keys d) ≡ true
      → visible_docs lower acl_terms query (insert id doc d)
        ≡ visible_docs lower acl_terms query (erase id d)
  unfolding visible_docs insert erase
  visible_docs-insert id doc [] hidden u = ground arith
  visible_docs-insert id doc ((j, other) ∷ d) hidden u =
      ground (arith, visible_docs-insert id doc d hidden, erase-absent id d, list_eqb_iff j id)

  visible_docs-erase :
      (id : Text) (d : Dict Text IndexedDocument)
      → ((doc : IndexedDocument)
          → get id d ≡ some doc
          → document_is_visible acl_terms doc.acl_filter_terms ≡ false)
      → distinct (keys d) ≡ true
      → visible_docs lower acl_terms query d ≡ visible_docs lower acl_terms query (erase id d)
  unfolding visible_docs erase get
  visible_docs-erase id [] hidden u = refl
  visible_docs-erase id ((j, other) ∷ d) hidden u = elim (Bool-cases (j == id)) [
    | inl same ↦ ground (arith, hidden other, erase-absent id d, list_eqb_iff j id)
    | inr apart ↦
        let hidden' : (doc : IndexedDocument)
            → get id d ≡ some doc
            → document_is_visible acl_terms doc.acl_filter_terms ≡ false =
          λ doc e. hidden doc (rw apart e) in
        ground (arith, visible_docs-erase id d hidden')
  ]

  -- The response, given the documents that are visible and match.
  abbrev answer : List Text → ℕ → ℕ → Dict Text IndexedDocument → Option Response
  answer facets from size docs =
      if is_fail_closed acl_terms
      then some (record { results = []; facets = []; total = 0 })
      else some (record {
        results = take size (drop from (hits docs));
        facets = count_facets facets docs [];
        total = length (hits docs);
      })

  search_stored :
      (tenant_id : Text) (facets : List Text) (from size : ℕ) (s : LexicalStore)
      (d : Dict Text IndexedDocument)
      → get tenant_id s ≡ some d
      → search lower tenant_id query acl_terms facets from size s
        ≡ answer facets from size (visible_docs lower acl_terms query d)
  unfolding search
  search_stored tenant_id facets from size s d stored = rw (stored, search) refl

  get-index_document :
      (tenant_id id : Text) (doc : IndexedDocument) (s : LexicalStore)
      (d : Dict Text IndexedDocument)
      → get tenant_id s ≡ some d
      → get tenant_id (index_document tenant_id id doc s) ≡ some (insert id doc d)
  unfolding index_document
  get-index_document tenant_id id doc s d stored =
      let docs : tenant_documents tenant_id s ≡ d = rw (stored, tenant_documents) refl in
      rw docs (get-insert tenant_id tenant_id (insert id doc d) s ∙ rw (eqb_refl tenant_id) refl)

  -- Where the tenant's dict has no key twice, indexing a document that the caller may not see, under
  -- the id of none or of one that the caller may not see either, changes nothing in the response to the
  -- caller: neither results nor total nor facet counts.
  pub search-index_document :
      (tenant_id id : Text) (doc : IndexedDocument) (facets : List Text) (from size : ℕ)
      (s : LexicalStore) {d : Dict Text IndexedDocument}
      → get tenant_id s ≡ some d
      → distinct (keys d) ≡ true
      → ((old : IndexedDocument)
          → get id d ≡ some old
          → document_is_visible acl_terms old.acl_filter_terms ≡ false)
      → document_is_visible acl_terms doc.acl_filter_terms ≡ false
      → search lower tenant_id query acl_terms facets from size (index_document tenant_id id doc s)
        ≡ search lower tenant_id query acl_terms facets from size s
  search-index_document tenant_id id doc facets from size s {d} stored u old hidden =
      let kept = visible_docs-insert id doc d hidden u ∙ sym (visible_docs-erase id d old u) in
      let s' = index_document tenant_id id doc s in
      search_stored tenant_id facets from size s' (insert id doc d)
        (get-index_document tenant_id id doc s d stored)
      ∙ ap (answer facets from size) kept
      ∙ sym (search_stored tenant_id facets from size s d stored)
