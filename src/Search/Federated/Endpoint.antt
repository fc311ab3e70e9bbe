-- ===== src/Search/Federated/Endpoint.antt =====
-- `run_federated_backends` and the endpoint `federated_search`. A backend is a function of the query,
-- the tenant, the caller's terms and the size to its hits and whether it is `ok`.
pub mod Pages
use sync_ai_final.Base.{
  if◌then◌else◌, ◌==◌, nat_eq, list_eq, option_eq, pair_eq, length, take, drop, any, Text, nonempty,
  ℕ, Bool, true, false, not, ◌&&◌, Option, none, some, List, [], ◌∷◌, ◌++◌,
}
use sync_ai_final.Acl.Filter.{is_fail_closed}
use sync_ai_final.Acl.Terms.{Payload, acl_terms_from_jwt}
use sync_ai_final.Search.Federated.{Floats, Doc, ResultItem, merge_and_rank}

pub record FederatedRequest : Type 0 where
  pub query : Text
  pub tenant_id : Option Text
  pub from : ℕ
  pub size : ℕ
  pub enable_vector : Bool
  pub enable_lexical : Bool

module _ (fl : Floats) where
  abbrev pub Backend : Type 0
  Backend = Text → Text → List Text → ℕ → List (Doc fl) × Bool

  -- Without the time that it took; of the status of a backend, whether it is `ok`.
  pub record FederatedResponse : Type 0 where
    pub results : List (ResultItem fl)
    pub total : ℕ
    pub degraded : Bool
    pub backends : List Bool
    pub query : Text

  -- A response, an `HTTPException` with its status, or a `KeyError` of the fusion.
  pub data Answer : Type 0 where
    response : FederatedResponse → Answer
    http_exception : ℕ → Answer
    key_error : Answer

  module _ (lower : Text → Text) (indexed lexical vector : Backend) where
    -- The hits and the status of a backend, if it is enabled.
    abbrev pub enabled : Bool → List (Doc fl) × Bool → List (Doc fl) × List Bool
    enabled true (hits, ok) = (hits, ok ∷ [])
    enabled false (hits, ok) = ([], [])

    unfoldable pub run_federated_backends :
        Text → Text → List Text → ℕ → Bool → Bool → Option (List (ResultItem fl)) × List Bool
    run_federated_backends query tenant_id acl_terms size enable_lexical enable_vector =
        let (indexed_results, indexed_ok) = indexed query tenant_id acl_terms size in
        let (lexical_results, lexical_ok) =
          enabled enable_lexical (lexical query tenant_id acl_terms size) in
        let (vector_results, vector_ok) =
          enabled enable_vector (vector query tenant_id acl_terms size) in
        (
          merge_and_rank fl (indexed_results ++ lexical_results) vector_results size,
          indexed_ok ∷ (lexical_ok ++ vector_ok),
        )

    -- `body.tenant_id and body.tenant_id != tenant_id`
    abbrev pub is_mismatch : Option Text → Text → Bool
    is_mismatch none tenant_id = false
    is_mismatch (some t) tenant_id = nonempty t && not (t == tenant_id)

    -- `tenant_id` is the claim of the token.
    unfoldable pub federated_search : FederatedRequest → Text → Payload → Answer
    federated_search body tenant_id current_user =
        let acl_terms = acl_terms_from_jwt lower current_user in
        let (merged, oks) =
          run_federated_backends body.query tenant_id acl_terms body.size body.enable_lexical
            body.enable_vector in
        if is_mismatch body.tenant_id tenant_id
        then http_exception 403
        else if is_fail_closed acl_terms
        then response (record {
          results = [];
          total = 0;
          degraded = false;
          backends = [];
          query = body.query;
        })
        else elim merged [
          | none ↦ key_error
          | some merged_items ↦
              if not (any (λ ok. ok) oks)
              then http_exception 503
              else response (record {
                results = take body.size (drop body.from merged_items);
                total = length merged_items;
                degraded = any (λ ok. not ok) oks;
                backends = oks;
                query = body.query;
              })
        ]
