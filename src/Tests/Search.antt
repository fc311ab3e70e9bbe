-- ===== src/Tests/Search.antt =====
-- Small indexes and hits.
use sync_ai_final.Base.{
  leb, nat_eq, list_eqb, list_eq, option_eq, pair_eq, leb_total, leb_trans, length, contains,
  distinct, Text, codes, is_space, lstrip, keep_char, rstrip, strip, get, insert, ℕ, ◌+◌, ◌-◌, ◌≤◌,
  ◌≡◌, refl, true, false, Option, none, some, List, [], ◌∷◌, map, arith,
}
use sync_ai_final.Search.Lexical
use sync_ai_final.Search.Lexical.{
  IndexedDocument, Response, LexicalStore, index_document, hits, search,
}
use sync_ai_final.Search.Lexical.Hidden.{search-index_document}
use sync_ai_final.Acl.Filter.{is_fail_closed, is_bypass, deny_terms_for, document_is_visible}
use sync_ai_final.Acl.Terms.{
  null, text, atom, Payload, add, add_value, add_values, collect_claims, acl_terms_from_jwt,
}
use sync_ai_final.Search.Federated.{
  Floats, Doc, ResultItem, doc_id, add_score, fuse, insert_ranked, sort_ranked, result_items,
  fuse_both, merge_and_rank,
}
use sync_ai_final.Search.Federated.Scores.{is_hit}
use sync_ai_final.Search.Federated.Order.{descending}
use sync_ai_final.Search.Federated.Ranked.{merge_and_rank_lem}
use sync_ai_final.Search.Federated.Endpoint.{
  FederatedRequest, Backend, FederatedResponse, Answer, response, run_federated_backends,
  federated_search,
}
use sync_ai_final.Search.Federated.Endpoint.Pages.{NamesOther, AllDown, federated_search_page}
use sync_ai_final.Search.Vector.{Chunk, VectorStore}
use sync_ai_final.Tests.Samples.{ascii_lower, doc_a}

abbrev me : List Text
me = codes "u" ∷ []

abbrev open_doc : IndexedDocument
open_doc = record { acl_filter_terms = some me; fields = (codes "title", codes "Plan") ∷ [] }

abbrev secret_doc : IndexedDocument
secret_doc = record {
  acl_filter_terms = some (codes "v" ∷ []);
  fields = (codes "title", codes "Plan") ∷ [];
}

abbrev lexical_index : LexicalStore
lexical_index = (codes "t", (doc_a, open_doc) ∷ []) ∷ []

abbrev plan_query : List Text → ℕ → ℕ → LexicalStore → Option Lexical.Response
plan_query facets = Lexical.search ascii_lower (codes "t") (codes "plan") me facets

search-index_document_example :
    plan_query
      (codes "title" ∷ [])
      0
      5
      (Lexical.index_document (codes "t") (codes "s") secret_doc lexical_index)
    ≡ plan_query (codes "title" ∷ []) 0 5 lexical_index
unfolding get list_eqb document_is_visible is_fail_closed is_bypass deny_terms_for strip lstrip
    rstrip keep_char is_space
search-index_document_example =
    search-index_document ascii_lower me (codes "plan") (codes "t") (codes "s") secret_doc
      (codes "title" ∷ []) 0 5 lexical_index refl refl (λ old e. cc) refl

abbrev some_chunk : Chunk ℕ
some_chunk = record {
  embedding = 1 ∷ [];
  document_id = doc_a;
  model_version = codes "v1";
  acl_terms = me;
  chunk_text = [];
  metadata = [];
}

abbrev vector_index : VectorStore ℕ
vector_index = (codes "t", (codes "c", some_chunk) ∷ (codes "d", some_chunk) ∷ []) ∷ []

-- Millionths.
abbrev pub millionths : Floats
millionths = record {
  Float = ℕ;
  zero_float = 0;
  plus = ◌+◌;
  inverse = λ n. 1000000 - n;
  le = leb;
  le_total = leb_total;
  le_trans = leb_trans;
}

abbrev hit_of : Text → Doc millionths
hit_of id = record {
  document_id = id;
  id = [];
  title = [];
  snippet = [];
  score = 1;
  sources = [];
  from_email = [];
  source_type = [];
  metadata = none;
}

abbrev some_hits : List (Doc millionths)
some_hits = hit_of doc_a ∷ hit_of (codes "b") ∷ []

merge_and_rank_lem_example :
    (found : List (ResultItem millionths)) × (merge_and_rank millionths some_hits
        (hit_of doc_a ∷ [])
        1
      ≡ some found)
    × ((id : Text)
        → contains (map (λ i. i.document_id) found) id ≡ true
        → is_hit millionths some_hits (hit_of doc_a ∷ []) id ≡ true)
    × (distinct (map (λ i. i.document_id) found) ≡ true)
    × (descending millionths (map (λ i. i.score) found) ≡ true)
    × (length found ≤ 1)
merge_and_rank_lem_example = merge_and_rank_lem millionths some_hits (hit_of doc_a ∷ []) 1

abbrev pub all_hits : Backend millionths
all_hits query tenant_id acl_terms size = (some_hits, true)

abbrev token : Payload
token = record {
  acl_terms = atom null;
  acl_filter_terms = atom null;
  sub = atom (text (codes "u"));
  principal_id = atom null;
  user_id = atom null;
  email = atom null;
  groups = atom null;
}

abbrev request : FederatedRequest
request = record {
  query = codes "plan";
  tenant_id = none;
  from = 1;
  size = 1;
  enable_vector = true;
  enable_lexical = false;
}

abbrev reply : FederatedRequest → Answer millionths
reply body =
    federated_search millionths ascii_lower all_hits all_hits all_hits body (codes "t") token

abbrev other_tenant : FederatedRequest
other_tenant = record request { tenant_id = some (codes "u") }

abbrev NamesOtherTenant : Type 0
NamesOtherTenant =
    NamesOther millionths ascii_lower all_hits all_hits all_hits other_tenant (codes "t") token

abbrev AllBackendsDown : Type 0
AllBackendsDown =
    AllDown millionths ascii_lower all_hits all_hits all_hits other_tenant (codes "t") token

abbrev second_page : FederatedResponse millionths
second_page = record {
  results = [];
  total = 1;
  degraded = false;
  backends = true ∷ true ∷ [];
  query = codes "plan";
}

reply-second_page : reply request ≡ response second_page
unfolding federated_search run_federated_backends merge_and_rank fuse_both fuse doc_id insert get
    list_eqb sort_ranked insert_ranked result_items add_score acl_terms_from_jwt collect_claims
    add_values add_value add is_fail_closed strip lstrip rstrip keep_char is_space
reply-second_page = refl

federated_search_page_example : second_page.results ≡ []
federated_search_page_example =
    federated_search_page millionths ascii_lower all_hits all_hits all_hits request (codes "t")
      token (omega arith) reply-second_page
