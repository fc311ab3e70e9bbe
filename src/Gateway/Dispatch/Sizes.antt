-- ===== src/Gateway/Dispatch/Sizes.antt =====
-- The sizes of the searches that a tool call makes.
use sync_ai_final.Base.{
  nat_eq, list_eq, option_eq, pair_eq, length, any, contains, Text, nonempty, ℕ, ◌≤◌, ◌≡◌, refl, ap,
  Bool, true, not, ◌||◌, Option, some, ◌++◌, arith,
}
use sync_ai_final.Acl.Terms.{Claim}
use sync_ai_final.Reader.{Bytes, DocumentStore}
use sync_ai_final.Search.Federated.{Floats}
use sync_ai_final.Search.Federated.Endpoint.{Backend, run_federated_backends}
use sync_ai_final.Search.Federated.Ranked.{merge_and_rank_lem}
use sync_ai_final.Gateway.{Arguments}
use sync_ai_final.Gateway.Dispatch.{
  Number, nonnegative, negative, clamp_size, search_tools, inprocess_terms, query_of, size_of,
  Found, search_result, returned, federated_search_inprocess, dispatch_tool,
}

pub clamp_size_bounds : (n : Number) → (1 ≤ clamp_size n) × (clamp_size n ≤ 100)
unfolding clamp_size
clamp_size_bounds (nonnegative n) = ground arith
clamp_size_bounds (negative n) = ground arith

module _ (fl : Floats) (lower : Text → Text) (indexed lexical vector : Backend fl)
    (to_int : Claim → Option Number) (decode : Bytes → Text)
    (is_allowed : Text → Text → Text → Bool) (stream_chunk_bytes threshold : ℕ)
    (store : DocumentStore) where
  -- A search answers with at most `size` items and never raises.
  federated_search_inprocess-length :
      (query tenant_id principal_id : Text) (size : ℕ)
      → (found : Found fl) × (federated_search_inprocess fl lower indexed lexical vector query
            tenant_id principal_id size
          ≡ returned (search_result found))
        × (found.query ≡ query)
        × (run_federated_backends fl lower indexed lexical vector query tenant_id
              (inprocess_terms principal_id)
              size
              true
              true
            ≡ (some found.results, found.backends))
        × (length found.results ≤ size)
        × (found.total ≡ length found.results)
  unfolding federated_search_inprocess run_federated_backends
  federated_search_inprocess-length query tenant_id principal_id size =
      let terms = inprocess_terms principal_id in
      let (merged_items, found, known, apart, ordered, short) =
        merge_and_rank_lem fl
          ((indexed query tenant_id terms size).0 ++ (lexical query tenant_id terms size).0)
          (vector query tenant_id terms size).0 size in
      let (merged, oks) =
        run_federated_backends fl lower indexed lexical vector query tenant_id terms size true
          true in
      (
        record {
          results = merged_items;
          total = length merged_items;
          degraded = not (any (λ ok. ok) oks) || any (λ ok. not ok) oks;
          backends = oks;
          query = query;
        },
        rw (found, federated_search_inprocess) refl,
        refl,
        ap (λ m. (m, oks)) found,
        short,
        refl,
      )

  -- A call of a search tool whose query is not blank and whose size, if one is given, is a number
  -- returns what the backends, asked for that query in the tenant with the terms of the principal and
  -- one size between 1 and 100, give after their fusion, and the state of each; these are at most 100
  -- items, whatever the size of the call is, and the total is their number.
  pub dispatch_tool-search :
      (tool_name tenant_id principal_id : Text) (arguments : Arguments) (n : Number)
      → contains search_tools tool_name ≡ true
      → nonempty (query_of arguments) ≡ true
      → size_of to_int arguments ≡ some n
      → (found : Found fl) × (dispatch_tool fl lower indexed lexical vector to_int decode is_allowed
            stream_chunk_bytes threshold store tool_name arguments tenant_id principal_id
          ≡ returned (search_result found))
        × (found.query ≡ query_of arguments)
        × ((size : ℕ) × (1 ≤ size)
            × (size ≤ 100)
            × (run_federated_backends fl lower indexed lexical vector
                  (query_of arguments)
                  tenant_id
                  (inprocess_terms principal_id)
                  size
                  true
                  true
                ≡ (some found.results, found.backends)))
        × (length found.results ≤ 100)
        × (found.total ≡ length found.results)
  unfolding dispatch_tool
  dispatch_tool-search tool_name tenant_id principal_id arguments n is_search asked sized =
      let (found, answered, same, searched, short, total) =
        federated_search_inprocess-length (query_of arguments) tenant_id principal_id
          (clamp_size n) in
      (
        found,
        rw (is_search, dispatch_tool) (rw (asked, sized) answered),
        same,
        (clamp_size n, (clamp_size_bounds n).0, (clamp_size_bounds n).1, searched),
        omega (arith, short, (clamp_size_bounds n).1),
        total,
      )
