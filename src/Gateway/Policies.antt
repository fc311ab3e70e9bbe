-- ===== src/Gateway/Policies.antt =====
-- The rows of `tool_policies`, backend/app/models/tool_policy.py, and the queries of
-- backend/app/services/mcp_gateway/allowlist.py. The order by name is the database's: a parameter.
pub mod Listed
use sync_ai_final.Base.{
  if◌then◌else◌, ◌==◌, nat_eq, list_eq, option_eq, pair_eq, filter, Text, Bool, false, ◌&&◌, List,
  [], ◌∷◌, map,
}

pub record ToolPolicy : Type 0 where
  pub tenant_id : Text
  pub server_name : Text
  pub tool_name : Text
  pub allowed : Bool

-- `.where(tenant_id == ...).where(server_name == ...)`
abbrev pub on_server : Text → Text → ToolPolicy → Bool
on_server tenant_id server_name row = row.tenant_id == tenant_id && row.server_name == server_name

-- The first row, or a missing one, which is `None` and false.
unfoldable pub is_tool_allowed : List ToolPolicy → Text → Text → Text → Bool
is_tool_allowed [] tenant_id server_name tool_name = false
is_tool_allowed (row ∷ rows) tenant_id server_name tool_name =
    if on_server tenant_id server_name row && row.tool_name == tool_name
    then row.allowed
    else is_tool_allowed rows tenant_id server_name tool_name

unfoldable pub list_allowed_tools :
    (order_by_name : List Text → List Text) → List ToolPolicy → Text → Text → List Text
list_allowed_tools order_by_name rows tenant_id server_name = order_by_name (
    map (λ (row : ToolPolicy). row.tool_name)
      (filter (λ (row : ToolPolicy). on_server tenant_id server_name row && row.allowed) rows))
