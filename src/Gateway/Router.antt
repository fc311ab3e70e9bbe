-- ===== src/Gateway/Router.antt =====
-- `call_mcp_tool`, backend/app/services/mcp_gateway/router.py, behind its dependency `get_mcp_identity`, and
-- `write_mcp_audit` of backend/app/services/mcp_gateway/audit.py. The UUIDs are parameters.
pub mod Guards
pub mod Answers
use sync_ai_final.Base.{
  nat_eqb, if◌then◌else◌, nat_eq, list_eq, option_eq, pair_eq, take, Text, codes, nonempty, keys,
  Bool, not, ◌||◌, Option, none, some, List, [], ◌∷◌, ◌++◌,
}
use sync_ai_final.Models.{Uuid, Time}
use sync_ai_final.Session.{SessionCache}
use sync_ai_final.Search.Federated.{Floats}
use sync_ai_final.Gateway.{
  Token, mcp_principal_id, mcp_tenant_id, get_mcp_identity, Arguments, reject_impersonation,
}
use sync_ai_final.Gateway.Policies.{ToolPolicy, is_tool_allowed}
use sync_ai_final.Gateway.Dispatch.{Dispatched, returned, raised_http, raised, dispatch_tool}

pub record ToolCallRequest : Type 0 where
  pub tool : Text
  pub arguments : Arguments
  pub user_id : Option Text
  pub tenant_id : Option Text
  pub principal_id : Option Text

-- The row of `audit_logs`, with the keys of its `target_json`.
pub record AuditRow : Type 0 where
  pub tenant_id : Text
  pub actor_id : Uuid
  pub action_type : Text
  pub host : Option Text
  pub client : Text
  pub user : Text
  pub tool : Text
  pub outcome : Text
  pub server_name : Text
  pub ip_address : Option Text

abbrev pub mcp_tool_call : Text
mcp_tool_call = codes "mcp.tool_call"

abbrev pub success : Text
success = codes "success"

abbrev pub rejected : Text
rejected = codes "rejected"

abbrev pub error : Text
error = codes "error"

-- `(ip_address or host or "")[:64] or None`, where both are the same text
unfoldable pub short_address : Option Text → Option Text
short_address host =
    let cut = take 64 (elim host [ none ↦ [] | some h ↦ h ]) in
    if nonempty cut then some cut else none

-- `a or b`, of an optional text
abbrev pub or_option : Option Text → Option Text → Option Text
or_option none b = b
or_option (some a) b = if nonempty a then some a else b

module _ (as_uuid : Text → Option Uuid) (uuid5_of : Text → Uuid) where
  unfoldable pub actor_id_for_audit : Text → Uuid
  actor_id_for_audit principal_id = elim (as_uuid principal_id) [
    | some id ↦ id
    | none ↦ uuid5_of (codes "mcp.actor:" ++ principal_id)
  ]

  -- What `call_mcp_tool` knows of the HTTP request.
  pub record Caller : Type 0 where
    pub server : Text
    pub host : Option Text
    pub client : Text

  abbrev pub audit_row : Caller → Text → Text → Text → Text → AuditRow
  audit_row caller tenant_id principal_id tool outcome = record {
    tenant_id = tenant_id;
    actor_id = actor_id_for_audit principal_id;
    action_type = mcp_tool_call;
    host = caller.host;
    client = caller.client;
    user = principal_id;
    tool = tool;
    outcome = outcome;
    server_name = caller.server;
    ip_address = short_address caller.host;
  }

  -- An entry whose commit fails is logged and lost.
  unfoldable pub write_mcp_audit : (commits : Bool) → AuditRow → List AuditRow → List AuditRow
  write_mcp_audit commits row audit_logs = if commits then audit_logs ++ row ∷ [] else audit_logs

  module _ (fl : Floats) where
    abbrev pub outcome_of : Dispatched fl → Text
    outcome_of (returned r) = success
    outcome_of (raised_http status) =
        if nat_eqb status 401 || nat_eqb status 403 then rejected else error
    outcome_of raised = error

    module _ (World : Type 0)
        (dispatch_tool : Text → Arguments → Text → Text → World → Dispatched fl × World)
        (tool_policies : List ToolPolicy) where
      -- What the route works on: the session cache, whatever the tools read and change, and the rows.
      pub record Served : Type 0 where
        pub cache : SessionCache
        pub world : World
        pub audit_logs : List AuditRow

      -- The body of the `try`: the tool is called after the guards.
      unfoldable pub guarded_call :
          Text → ToolCallRequest → Token → Text → Text → World → Dispatched fl × World
      guarded_call server body current_user tenant_id principal_id world =
          elim (reject_impersonation current_user body.tenant_id
            (or_option body.user_id body.principal_id) body.arguments) [
              | some status ↦ (raised_http status, world)
              | none ↦
                  if not (is_tool_allowed tool_policies tenant_id server body.tool)
                  then (raised_http 403, world)
                  else dispatch_tool body.tool body.arguments tenant_id principal_id world
            ]

      -- `mcp_tenant_id` raises before the `try`.
      unfoldable pub call_mcp_tool :
          (commits : Bool) → Caller → ToolCallRequest → Token → Served → Dispatched fl × Served
      call_mcp_tool commits caller body current_user s = elim (mcp_tenant_id current_user) [
        | none ↦ (raised_http 401, s)
        | some tenant_id ↦
            let principal_id = mcp_principal_id current_user in
            let (answer, world') =
              guarded_call caller.server body current_user tenant_id principal_id s.world in
            (
              answer,
              record s {
                world = world';
                audit_logs =
                    write_mcp_audit commits
                      (audit_row caller tenant_id principal_id body.tool (outcome_of answer))
                      s.audit_logs;
              },
            )
      ]

      -- The route: the dependency runs first, and the handler only if it lets the caller through.
      unfoldable pub post_mcp :
          Time
          → (commits : Bool) → Caller
          → ToolCallRequest
          → Token
          → Served
          → Dispatched fl × Served
      post_mcp now commits caller body current_user s =
          let (identity, cache') = get_mcp_identity now current_user s.cache in
          elim identity [
            | none ↦ (raised_http 401, record s { cache = cache' })
            | some known ↦
                call_mcp_tool commits caller body current_user (record s { cache = cache' })
          ]
