-- ===== src/Search/Federated/Endpoint/Pages.antt =====
-- The answers of the endpoint.
use sync_ai_final.Base.{
  nat_eq, list_eq, option_eq, pair_eq, length, take, drop, take_all, drop_all, Text, ℕ, ◌≤◌, ◌≡◌,
  ◌≢◌, Bool, true, false, some, List, [], ◌++◌, arith,
}
use sync_ai_final.Acl.Terms.{Payload, acl_terms_from_jwt}
use sync_ai_final.Search.Federated.{Floats, ResultItem}
use sync_ai_final.Search.Federated.Ranked.{merge_and_rank_lem}
use sync_ai_final.Search.Federated.Endpoint.{
  FederatedRequest, Backend, FederatedResponse, Answer, response, enabled, run_federated_backends,
  is_mismatch, federated_search,
}

module _ (fl : Floats) (lower : Text → Text) (indexed lexical vector : Backend fl) where
  -- The merged items, which there always are.
  merged :
      (query tenant_id : Text) (terms : List Text) (size : ℕ) (lex vec : Bool)
      → (found : List (ResultItem fl)) × ((run_federated_backends fl lower indexed lexical vector
            query tenant_id terms size lex vec).0
          ≡ some found)
        × (length found ≤ size)
  unfolding run_federated_backends
  merged query tenant_id terms size lex vec =
      let (one, one_ok) = indexed query tenant_id terms size in
      let (two, two_ok) =
        enabled fl lower indexed lexical vector lex (lexical query tenant_id terms size) in
      let (three, three_ok) =
        enabled fl lower indexed lexical vector vec (vector query tenant_id terms size) in
      let (found, e, hit, once, order, short) = merge_and_rank_lem fl (one ++ two) three size in
      (found, e, short)

  module _ (body : FederatedRequest) (tenant_id : Text) (user : Payload) where
    abbrev pub answer : Answer fl
    answer = federated_search fl lower indexed lexical vector body tenant_id user

    abbrev pub terms : List Text
    terms = acl_terms_from_jwt lower user

    abbrev pub oks : List Bool
    oks =
        (run_federated_backends fl lower indexed lexical vector body.query tenant_id terms body.size
          body.enable_lexical body.enable_vector).1

    abbrev mismatch : Bool
    mismatch = is_mismatch fl lower indexed lexical vector body.tenant_id tenant_id

    -- The request names a tenant, and not the token's.
    abbrev pub NamesOther : Type 0
    NamesOther = (t : Text) × (body.tenant_id ≡ some t) × (t ≢ []) × (t ≢ tenant_id)

    -- Every backend that the request asks fails for its query, with the terms of the caller.
    abbrev pub AllDown : Type 0
    AllDown =
        ((indexed body.query tenant_id terms body.size).1 ≡ false)
        × (body.enable_lexical ≡ true → (lexical body.query tenant_id terms body.size).1 ≡ false)
        × (body.enable_vector ≡ true → (vector body.query tenant_id terms body.size).1 ≡ false)

    -- A page that starts at `size` or later is empty, whatever the backends found: the fusion keeps
    -- `size` items before the page is cut.
    pub federated_search_page :
        {r : FederatedResponse fl} → body.size ≤ body.from → answer ≡ response r → r.results ≡ []
    unfolding federated_search
    federated_search_page {r} later e =
        let (found, fused, short) =
          merged body.query tenant_id terms body.size body.enable_lexical body.enable_vector in
        let gone : take body.size (drop body.from found) ≡ [] =
          rw (drop_all body.from found (omega arith)) (take_all body.size [] (omega arith)) in
        ground (arith, e, fused, gone)
