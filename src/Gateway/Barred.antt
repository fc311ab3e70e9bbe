-- ===== src/Gateway/Barred.antt =====
-- The gateway after a revocation.
use sync_ai_final.Base.{
  Bool-cases, nat_eq, list_eq, option_eq, pair_eq, any, Text, nonempty, ℕ, ◌≡◌, refl, ◌∙◌, inl, inr,
  Bool, true, ◌&&◌, ◌||◌, Option, none, some, List,
}
use sync_ai_final.Models.{Uuid, Time}
use sync_ai_final.Session.Revoked.{
  new_cache, Turn, run, revokes_token, revokes_principal, is_revoked-run,
}
use sync_ai_final.Search.Federated.{Floats}
use sync_ai_final.Gateway.{
  Token, mcp_principal_id, mcp_tenant_id, mcp_jti, get_mcp_identity, Arguments,
}
use sync_ai_final.Gateway.Policies.{ToolPolicy}
use sync_ai_final.Gateway.Dispatch.{Dispatched, raised_http}
use sync_ai_final.Gateway.Router.{ToolCallRequest, AuditRow, Caller, post_mcp}
use sync_ai_final.Gateway.Router.Answers.{answered_unknown}

-- The messages revoke the id or the principal of a token, in the tenant.
abbrev revokes : Text → Token → List Turn → Bool
revokes tenant_id t turns =
    (nonempty (mcp_jti t) && any (revokes_token tenant_id (mcp_jti t)) turns)
    || (nonempty (mcp_principal_id t)
        && any (revokes_principal tenant_id (mcp_principal_id t)) turns)

get_mcp_identity-run :
    (now : Time) (t : Token) (tenant_id : Text) (ttl : ℕ) (turns : List Turn)
    → nonempty tenant_id ≡ true
    → mcp_tenant_id t ≡ some tenant_id
    → revokes tenant_id t turns ≡ true
    → (get_mcp_identity now t (run turns (new_cache ttl))).0 ≡ none
unfolding get_mcp_identity
get_mcp_identity-run now t tenant_id ttl turns named tenant h =
    let revoked =
      is_revoked-run tenant_id named now (mcp_jti t) (mcp_principal_id t) ttl turns ∙ h in
    rw (tenant, get_mcp_identity)
      (elim (Bool-cases (nonempty (mcp_principal_id t))) [
        | inl e ↦ rw (e, revoked) refl
        | inr e ↦ rw e refl
      ])

module _ (as_uuid : Text → Option Uuid) (uuid5_of : Text → Uuid) (fl : Floats) (World : Type 0)
    (dispatch_tool : Text → Arguments → Text → Text → World → Dispatched fl × World)
    (tool_policies : List ToolPolicy) (now : Time) (commits : Bool)
    (caller : Caller as_uuid uuid5_of) (body : ToolCallRequest) (t : Token) (world : World)
    (audit_logs : List AuditRow) where
  -- Once a message has revoked the token id or the principal of a token with a named tenant, the gateway
  -- answers each call with the token 401, leaves what the tools work on as it is, whatever a call of a
  -- tool would do to it, and writes no audit row, whatever calls and messages came before and after
  -- that message.
  pub post_mcp-run :
      (tenant_id : Text) (ttl : ℕ) (turns : List Turn)
      → nonempty tenant_id ≡ true
      → mcp_tenant_id t ≡ some tenant_id
      → revokes tenant_id t turns ≡ true
      → let answered =
          post_mcp as_uuid uuid5_of fl World dispatch_tool tool_policies now commits caller body t
            (record {
              cache = run turns (new_cache ttl);
              world = world;
              audit_logs = audit_logs;
            }) in
        (answered.0 ≡ raised_http 401)
        × (answered.1.world ≡ world)
        × (answered.1.audit_logs ≡ audit_logs)
  post_mcp-run tenant_id ttl turns named tenant h =
      answered_unknown as_uuid uuid5_of fl World dispatch_tool tool_policies now commits caller body
        t (record { cache = run turns (new_cache ttl); world = world; audit_logs = audit_logs })
        (get_mcp_identity-run now t tenant_id ttl turns named tenant h)
