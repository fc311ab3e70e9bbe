-- ===== src/Gateway/Dispatch.antt =====
-- `dispatch_tool`, backend/app/services/mcp_gateway/dispatch.py, with `federated_search_inprocess` of
-- backend/app/services/query_federator and `build_document_payload` of
-- backend/app/services/document_reader/reader.py. The backends of the search, the decoding of bytes
-- and Python's `int()` are parameters.
pub mod Sizes
pub mod Bodies
use sync_ai_final.Base.{
  ltb, if◌then◌else◌, nat_eq, list_eq, option_eq, pair_eq, length, any, contains, Text, codes,
  nonempty, strip, get, insert, ℕ, ◌+◌, Bool, true, not, ◌&&◌, ◌||◌, Option, none, some, List, [],
  ◌∷◌, ◌++◌,
}
use sync_ai_final.Acl.Filter.{is_fail_closed}
use sync_ai_final.Acl.Terms.{null, Claim, atom, claim_str, truthy, or_else, user_prefix}
use sync_ai_final.Reader.{
  Bytes, MetaValue, none_value, text_value, texts, number, mapping, MetaDict, no_entries, or_empty,
  Metadata, DocumentStore, get_metadata, Reading, http_exception, file_not_found, whole, streamed,
  read_document,
}
use sync_ai_final.Search.Federated.{Floats, ResultItem, doc_id}
use sync_ai_final.Search.Federated.Endpoint.{Backend, enabled, run_federated_backends}
use sync_ai_final.Gateway.{empty_claim, Arguments}

-- A Python `int`: `negative n` is `-(n + 1)`.
pub data Number : Type 0 where
  nonnegative : ℕ → Number
  negative : ℕ → Number

-- `max(1, min(size, 100))`
unfoldable pub clamp_size : Number → ℕ
clamp_size (nonnegative n) = if ltb n 1 then 1 else if ltb 100 n then 100 else n
clamp_size (negative n) = 1

abbrev pub search_tools : List Text
search_tools = codes "search" ∷ codes "federated_search" ∷ []

abbrev pub read_tools : List Text
read_tools = codes "read_document" ∷ codes "document.read" ∷ codes "get_document" ∷ []

-- `arguments.get(key)`
abbrev pub argument : Text → Arguments → Claim
argument key args = elim (get key args) [ none ↦ atom null | some v ↦ v ]

-- `UserContext.build_acl_terms` with no groups, and the term that the caller adds
unfoldable pub inprocess_terms : Text → List Text
inprocess_terms principal_id =
    let built = if nonempty principal_id then principal_id ∷ [] else [] in
    let acl_terms = if is_fail_closed built then [] else built in
    let user_term = user_prefix ++ principal_id in
    if nonempty principal_id && not (contains acl_terms user_term)
    then acl_terms ++ user_term ∷ []
    else acl_terms

-- `dict(value or {})`, of a dict
abbrev pub structured_of : Option MetaValue → MetaDict
structured_of none = no_entries
structured_of (some none_value) = no_entries
structured_of (some (text_value t)) = no_entries
structured_of (some (texts ts)) = no_entries
structured_of (some (number n)) = no_entries
structured_of (some (mapping m)) = m

unfoldable pub get_structured_metadata : Text → Text → DocumentStore → Option MetaDict
get_structured_metadata tenant_id doc_id s = elim (get_metadata tenant_id doc_id s) [
  | none ↦ none
  | some meta ↦ some (structured_of (get (codes "structured_metadata") meta))
]

unfoldable pub build_document_payload : Text → Text → Metadata → Text → Option MetaDict → Metadata
build_document_payload doc_id tenant_id visible_metadata body structured_data =
    insert (codes "structured_metadata") (mapping (or_empty structured_data)) (
      insert (codes "body") (text_value body) (
        insert (codes "tenant_id") (text_value tenant_id)
          (insert (codes "document_id") (text_value doc_id) visible_metadata)))

-- `str(arguments.get("query") or "").strip()`
abbrev pub query_of : Arguments → Text
query_of arguments = strip (claim_str (or_else (argument (codes "query") arguments) empty_claim))

-- `int(arguments.get("size") or 20)`
abbrev pub size_of : (to_int : Claim → Option Number) → Arguments → Option Number
size_of to_int arguments =
    let requested = argument (codes "size") arguments in
    if truthy requested then to_int requested else some (nonnegative 20)

abbrev pub doc_id_of : Arguments → Text
doc_id_of arguments = strip (
    claim_str (
      or_else (argument (codes "document_id") arguments)
        (or_else (argument (codes "doc_id") arguments) empty_claim)))

module _ (fl : Floats) where
  pub record Found : Type 0 where
    pub results : List (ResultItem fl)
    pub total : ℕ
    pub degraded : Bool
    pub backends : List Bool
    pub query : Text

  pub data ToolResult : Type 0 where
    search_result : Found → ToolResult
    document_payload : Metadata → ToolResult

  -- A result, an `HTTPException` with its status, or another exception.
  pub data Dispatched : Type 0 where
    returned : ToolResult → Dispatched
    raised_http : ℕ → Dispatched
    raised : Dispatched

  module _ (lower : Text → Text) (indexed lexical vector : Backend fl) where
    -- With `acl_terms` absent and both backends enabled.
    unfoldable pub federated_search_inprocess : Text → Text → Text → ℕ → Dispatched
    federated_search_inprocess query tenant_id principal_id size =
        let (merged, oks) =
          run_federated_backends fl lower indexed lexical vector query tenant_id
            (inprocess_terms principal_id) size true true in
        elim merged [
          | none ↦ raised
          | some merged_items ↦ returned (
              search_result (record {
                results = merged_items;
                total = length merged_items;
                degraded = not (any (λ ok. ok) oks) || any (λ ok. not ok) oks;
                backends = oks;
                query = query;
              }))
        ]

    module _ (to_int : Claim → Option Number) (decode : Bytes → Text)
        (is_allowed : Text → Text → Text → Bool) (stream_chunk_bytes threshold : ℕ)
        (store : DocumentStore) where
      abbrev pub search_tool : Arguments → Text → Text → Dispatched
      search_tool arguments tenant_id principal_id =
          let query = query_of arguments in
          if not (nonempty query) then raised_http 400 else elim (size_of to_int arguments) [
            | none ↦ raised
            | some n ↦ federated_search_inprocess query tenant_id principal_id (clamp_size n)
          ]

      -- `(body or b"").decode(...)`: the body of a streamed document is `None`.
      abbrev pub payload_of : Text → Text → Reading lower → Dispatched
      payload_of tenant_id doc_id (http_exception status) = raised_http status
      payload_of tenant_id doc_id file_not_found = raised
      payload_of tenant_id doc_id (whole meta body) = returned (
          document_payload (
            build_document_payload doc_id tenant_id meta (decode body)
              (get_structured_metadata tenant_id doc_id store)))
      payload_of tenant_id doc_id (streamed meta stream) = returned (
          document_payload (
            build_document_payload doc_id tenant_id meta (decode [])
              (get_structured_metadata tenant_id doc_id store)))

      abbrev pub read_tool : Arguments → Text → Text → Dispatched
      read_tool arguments tenant_id principal_id =
          let doc_id = doc_id_of arguments in
          if not (nonempty doc_id)
          then raised_http 400
          else payload_of tenant_id doc_id (
              read_document lower is_allowed stream_chunk_bytes store tenant_id doc_id principal_id
                threshold)

      unfoldable pub dispatch_tool : Text → Arguments → Text → Text → Dispatched
      dispatch_tool tool_name arguments tenant_id principal_id =
          if contains search_tools tool_name
          then search_tool arguments tenant_id principal_id
          else if contains read_tools tool_name
          then read_tool arguments tenant_id principal_id
          else raised_http 400
