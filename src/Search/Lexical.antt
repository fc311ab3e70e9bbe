-- ===== src/Search/Lexical.antt =====
-- `MockLexicalStore`, backend/app/services/lexical/mock_store.py. A document is its ACL terms and its
-- other fields, which are texts.
pub mod Hidden
pub mod Pages
use sync_ai_final.Base.{
  if◌then◌else◌, ◌==◌, nat_eq, list_eq, option_eq, pair_eq, length, take, drop, Text, codes,
  nonempty, Dict, values, get, insert, erase, has_key, ℕ, ◌+◌, Bool, not, ◌||◌, Option, none, some,
  List, [], ◌∷◌, ◌++◌,
}
use sync_ai_final.Acl.Filter.{is_fail_closed, document_is_visible}
use sync_ai_final.Graph.Walk.{contains_text}

pub record IndexedDocument : Type 0 where
  pub acl_filter_terms : Option (List Text)
  pub fields : Dict Text Text

pub record Hit : Type 0 where
  pub document_id : Text
  pub score : ℕ
  pub title : Text
  pub snippet : Text
  pub file_path : Option Text
  pub source : Option Text
  pub language : Option Text

abbrev pub FacetCounts : Type 0
FacetCounts = Dict Text ℕ

pub record Response : Type 0 where
  pub results : List Hit
  pub facets : Dict Text FacetCounts
  pub total : ℕ

abbrev pub LexicalStore : Type 0
LexicalStore = Dict Text (Dict Text IndexedDocument)

abbrev pub tenant_documents : Text → LexicalStore → Dict Text IndexedDocument
tenant_documents tenant_id s = elim (get tenant_id s) [ none ↦ [] | some d ↦ d ]

unfoldable pub index_document : Text → Text → IndexedDocument → LexicalStore → LexicalStore
index_document tenant_id document_id document s =
    insert tenant_id (insert document_id document (tenant_documents tenant_id s)) s

-- The loop over the batch: a document with no id is passed over.
unfoldable pub index_all :
    List IndexedDocument → Dict Text IndexedDocument → Dict Text IndexedDocument
index_all [] d = d
index_all (doc ∷ docs) d = index_all docs (elim (get (codes "document_id") doc.fields) [
  | none ↦ d
  | some id ↦ if nonempty id then insert id doc d else d
])

unfoldable pub index_batch : Text → List IndexedDocument → LexicalStore → ℕ × LexicalStore
index_batch tenant_id documents s =
    (length documents, insert tenant_id (index_all documents (tenant_documents tenant_id s)) s)

unfoldable pub delete_document : Text → Text → LexicalStore → LexicalStore
delete_document tenant_id document_id s = elim (get tenant_id s) [
  | none ↦ s
  | some d ↦ if has_key document_id d then insert tenant_id (erase document_id d) s else s
]

unfoldable pub clear_tenant : Text → LexicalStore → LexicalStore
clear_tenant tenant_id s = erase tenant_id s

unfoldable pub field_or_empty : Text → IndexedDocument → Text
field_or_empty k doc = elim (get k doc.fields) [ none ↦ [] | some v ↦ v ]

unfoldable pub to_hit : Text → IndexedDocument → Hit
to_hit doc_id doc = record {
  document_id = doc_id;
  score = 1;
  title = field_or_empty (codes "title") doc;
  snippet = take 200 (field_or_empty (codes "body_text") doc);
  file_path = get (codes "file_path") doc.fields;
  source = get (codes "source") doc.fields;
  language = get (codes "language") doc.fields;
}

unfoldable pub hits : Dict Text IndexedDocument → List Hit
hits [] = []
hits ((id, doc) ∷ docs) = to_hit id doc ∷ hits docs

-- The counts of one facet field, in the order in which its values are met.
unfoldable pub count_values : Text → Dict Text IndexedDocument → FacetCounts → FacetCounts
count_values field [] counts = counts
count_values field ((id, doc) ∷ docs) counts =
    let value = field_or_empty field doc in
    let old : ℕ = elim (get value counts) [ none ↦ 0 | some n ↦ n ] in
    count_values field docs (if nonempty value then insert value (old + 1) counts else counts)

unfoldable pub count_facets :
    List Text → Dict Text IndexedDocument → Dict Text FacetCounts → Dict Text FacetCounts
count_facets [] docs result = result
count_facets (field ∷ fields) docs result =
    count_facets fields docs (insert field (count_values field docs []) result)

module _ (lower : Text → Text) where
  unfoldable pub matches_query : Text → Text → IndexedDocument → Bool
  matches_query query doc_id doc =
      let blank = codes " " in
      let text =
        field_or_empty (codes "title") doc
        ++ (blank
            ++ (field_or_empty (codes "body_text") doc
                ++ (blank ++ (field_or_empty (codes "file_path") doc ++ (blank ++ doc_id))))) in
      not (nonempty query) || query == codes "*" || contains_text (lower query) (lower text)

  -- The loop over the tenant's documents.
  unfoldable pub visible_docs :
      List Text → Text → Dict Text IndexedDocument → Dict Text IndexedDocument
  visible_docs acl_terms query [] = []
  visible_docs acl_terms query ((doc_id, doc) ∷ docs) =
      let rest = visible_docs acl_terms query docs in
      if not (document_is_visible acl_terms doc.acl_filter_terms)
      then rest
      else if not (matches_query query doc_id doc)
      then rest
      else (doc_id, doc) ∷ rest

  -- `none` is the `KeyError` of a tenant with no documents.
  unfoldable pub search :
      Text → Text → List Text → List Text → ℕ → ℕ → LexicalStore → Option Response
  search tenant_id query acl_terms facets from size s =
      if is_fail_closed acl_terms
      then some (record { results = []; facets = []; total = 0 })
      else elim (get tenant_id s) [
        | none ↦ none
        | some documents ↦
            let docs = visible_docs acl_terms query documents in
            some (record {
              results = take size (drop from (hits docs));
              facets = count_facets facets docs [];
              total = length (hits docs);
            })
      ]
