-- ===== src/Tests/Gateway.antt =====
-- Calls of the MCP gateway by the principal `p` of the tenant `acme`.
use Prim.Native.String.{String}
use sync_ai_final.Base.{
  if◌then◌else◌, nat_eq, list_eqb, list_eq, option_eq, pair_eq, length, contains, Text, codes, ℕ,
  suc, is_space, lstrip, keep_char, rstrip, strip, get, ◌≤◌, ◌≡◌, refl, true, false, Option, none,
  some, List, [], ◌∷◌,
}
use sync_ai_final.Models.{Uuid}
use sync_ai_final.Acl.Terms.{null, text, Claim, atom}
use sync_ai_final.Reader.{
  mapping, no_entries, text_value, Metadata, metadata_of, upsert, hidden_keys,
}
use sync_ai_final.Reader.Redacted.{is_hidden}
use sync_ai_final.Session.{SessionCache}
use sync_ai_final.Session.Revoked.{new_cache, run}
use sync_ai_final.Gateway.{Token, mcp_principal_id, mcp_tenant_id, mcp_jti, Arguments}
use sync_ai_final.Search.Federated.Endpoint.{run_federated_backends}
use sync_ai_final.Gateway.Policies.{ToolPolicy}
use sync_ai_final.Gateway.Dispatch.{
  Number, nonnegative, inprocess_terms, query_of, Found, search_result, document_payload,
  Dispatched, returned, raised_http, dispatch_tool,
}
use sync_ai_final.Gateway.Dispatch.Sizes.{dispatch_tool-search}
use sync_ai_final.Gateway.Dispatch.Bodies.{set_keys, dispatch_tool-upsert}
use sync_ai_final.Gateway.Router.{ToolCallRequest, AuditRow, Caller, Served, post_mcp}
use sync_ai_final.Gateway.Router.Guards.{IsLetThrough}
use sync_ai_final.Gateway.Router.Answers.{Records, post_mcp-audit}
use sync_ai_final.Gateway.Barred.{post_mcp-run}
use sync_ai_final.Tests.Samples.{ascii_lower}
use sync_ai_final.Tests.Session.{acme, turns}
use sync_ai_final.Tests.Reader.{report, no_documents, any_reader}
use sync_ai_final.Tests.Search.{millionths, all_hits}

abbrev claim_of : String → Claim
claim_of s = atom (text (codes s))

abbrev p_token : Token
p_token = record {
  tenant_id = claim_of "acme";
  jti = claim_of "j1";
  sub = claim_of "p";
  principal_id = atom null;
  user_id = atom null;
}

abbrev read_policy : ToolPolicy
read_policy = record {
  tenant_id = acme;
  server_name = codes "default";
  tool_name = codes "get_document";
  allowed = true;
}

abbrev sales_policy : ToolPolicy
sales_policy = record {
  tenant_id = acme;
  server_name = codes "sales";
  tool_name = codes "search";
  allowed = false;
}

abbrev policies : List ToolPolicy
policies = read_policy ∷ sales_policy ∷ []

-- Every number is 7.
abbrev seven : Claim → Option Number
seven c = some (nonnegative 7)

abbrev search_arguments : Arguments
search_arguments = (codes "query", claim_of "plan") ∷ (codes "size", claim_of "7") ∷ []

abbrev read_arguments : Arguments
read_arguments = (codes "doc_id", claim_of "d") ∷ []

-- The threshold is four bytes, and the report has five.
abbrev dispatch : Text → Arguments → Text → Text → Dispatched millionths
dispatch =
    dispatch_tool millionths ascii_lower all_hits all_hits all_hits seven (λ b. b) any_reader 2 4
      (upsert acme (codes "d") report no_documents)

dispatch_tool-search_example :
    (found : Found millionths) × (dispatch (codes "search") search_arguments acme (codes "p")
      ≡ returned (search_result found))
    × (found.query ≡ query_of search_arguments)
    × ((size : ℕ) × (1 ≤ size)
        × (size ≤ 100)
        × (run_federated_backends millionths ascii_lower all_hits all_hits all_hits
              (query_of search_arguments)
              acme
              (inprocess_terms (codes "p"))
              size
              true
              true
            ≡ (some found.results, found.backends)))
    × (length found.results ≤ 100)
    × (found.total ≡ length found.results)
unfolding get strip lstrip rstrip keep_char is_space list_eqb
dispatch_tool-search_example =
    dispatch_tool-search millionths ascii_lower all_hits all_hits all_hits seven (λ b. b) any_reader
      2 4 (upsert acme (codes "d") report no_documents) (codes "search") acme (codes "p")
      search_arguments (nonnegative 7) refl refl refl

abbrev report_in_acme : Metadata
report_in_acme = metadata_of acme (codes "d") report

dispatch_tool-upsert_example :
    (payload : Metadata) × (dispatch (codes "get_document") read_arguments acme (codes "p")
      ≡ returned (document_payload payload))
    × (get (codes "body") payload ≡ some (text_value []))
    × (get (codes "structured_metadata") payload ≡ some (mapping no_entries))
    × (get (codes "tenant_id") payload ≡ some (text_value acme))
    × (get (codes "document_id") payload ≡ some (text_value (codes "d")))
    × ((k : Text)
        → contains set_keys k ≡ false
        → get k payload ≡ (
            if is_hidden ascii_lower report_in_acme (codes "p") k
            then none
            else get k report_in_acme))
unfolding get strip lstrip rstrip keep_char is_space list_eqb hidden_keys metadata_of
dispatch_tool-upsert_example =
    dispatch_tool-upsert millionths ascii_lower all_hits all_hits all_hits seven (λ b. b) any_reader
      2 4 (codes "get_document") acme (codes "p") read_arguments report no_documents refl refl refl
      refl refl refl

abbrev no_uuid : Text → Option Uuid
no_uuid t = none

abbrev same_uuid : Text → Uuid
same_uuid t = 5

abbrev caller : Caller no_uuid same_uuid
caller = record { server = codes "default"; host = none; client = codes "agent" }

abbrev read_call : ToolCallRequest
read_call = record {
  tool = codes "get_document";
  arguments = read_arguments;
  user_id = none;
  tenant_id = some acme;
  principal_id = none;
}

-- The tools, with a count of their calls.
abbrev counted_dispatch : Text → Arguments → Text → Text → ℕ → Dispatched millionths × ℕ
counted_dispatch tool arguments tenant_id principal_id calls =
    (dispatch tool arguments tenant_id principal_id, suc calls)

abbrev ServedTools : Type 0
ServedTools = Served no_uuid same_uuid millionths ℕ counted_dispatch policies

abbrev served : SessionCache → ServedTools
served cache = record { cache = cache; world = 0; audit_logs = [] }

abbrev call_with : SessionCache → Dispatched millionths × ServedTools
call_with cache =
    post_mcp no_uuid same_uuid millionths ℕ counted_dispatch policies 9 true caller read_call
      p_token (served cache)

post_mcp-audit_example :
    (((tenant : Text) → ¬ IsLetThrough 9 p_token (new_cache 2) tenant)
      → ((call_with (new_cache 2)).0 ≡ raised_http 401)
        × ((call_with (new_cache 2)).1.world ≡ 0)
        × ((call_with (new_cache 2)).1.audit_logs ≡ []))
    × ((tenant : Text)
        → IsLetThrough 9 p_token (new_cache 2) tenant
        → (true ≡ false → (call_with (new_cache 2)).1.audit_logs ≡ [])
          × (true ≡ true
              → (row : AuditRow) × ((call_with (new_cache 2)).1.audit_logs ≡ row ∷ [])
                × Records no_uuid same_uuid millionths caller tenant
                    (mcp_principal_id p_token)
                    (codes "get_document")
                    (call_with (new_cache 2)).0
                    row))
post_mcp-audit_example =
    post_mcp-audit no_uuid same_uuid millionths ℕ counted_dispatch policies 9 true caller read_call
      p_token (served (new_cache 2))

post_mcp-run_example :
    ((call_with (run turns (new_cache 2))).0 ≡ raised_http 401)
    × ((call_with (run turns (new_cache 2))).1.world ≡ 0)
    × ((call_with (run turns (new_cache 2))).1.audit_logs ≡ [])
unfolding mcp_tenant_id mcp_jti mcp_principal_id list_eqb
post_mcp-run_example =
    post_mcp-run no_uuid same_uuid millionths ℕ counted_dispatch policies 9 true caller read_call
      p_token 0 [] acme 2 turns refl refl refl
