-- ===== src/Gateway/Router/Answers.antt =====
-- The answers and the audit rows of `POST /mcp/{server}`.
use sync_ai_final.Base.{
  if◌then◌else◌, nat_eqb, Option-cases, nat_eq, list_eq, option_eq, pair_eq, Text, codes, ◌≡◌, refl,
  ap, inl, inr, ℕ, Bool, true, false, ◌||◌, Option, none, List, [], ◌∷◌, ◌++◌, arith,
}
use sync_ai_final.Models.{Uuid, Time}
use sync_ai_final.Search.Federated.{Floats}
use sync_ai_final.Gateway.{Token, mcp_principal_id, McpIdentity, get_mcp_identity, Arguments}
use sync_ai_final.Gateway.Policies.{ToolPolicy}
use sync_ai_final.Gateway.Dispatch.{ToolResult, Dispatched, returned, raised_http, raised}
use sync_ai_final.Gateway.Router.{
  ToolCallRequest, AuditRow, Caller, audit_row, write_mcp_audit, outcome_of, Served, guarded_call,
  call_mcp_tool, post_mcp,
}
use sync_ai_final.Gateway.Router.Guards.{IsLetThrough, identity_known, identity_let_through}

module _ (as_uuid : Text → Option Uuid) (uuid5_of : Text → Uuid) (fl : Floats) where
  -- The row of a call: who called what, and how it ended.
  abbrev pub Records :
      Caller as_uuid uuid5_of → Text → Text → Text → Dispatched fl → AuditRow → Type 0
  Records caller tenant principal tool answer row =
      (row.tenant_id ≡ tenant)
      × (row.user ≡ principal)
      × (row.tool ≡ tool)
      × (row.server_name ≡ caller.server)
      × (row.client ≡ caller.client)
      × (row.action_type ≡ codes "mcp.tool_call")
      × ((r : ToolResult fl) → answer ≡ returned r → row.outcome ≡ codes "success")
      × ((status : ℕ)
          → answer ≡ raised_http status
          → row.outcome ≡ (
              if nat_eqb status 401 || nat_eqb status 403 then codes "rejected" else codes "error"))
      × (answer ≡ raised → row.outcome ≡ codes "error")

  audit_row-Records :
      (caller : Caller as_uuid uuid5_of) (tenant principal tool : Text) (answer : Dispatched fl)
      → Records caller tenant principal tool answer (
          audit_row as_uuid uuid5_of caller tenant principal tool
            (outcome_of as_uuid uuid5_of fl answer))
  audit_row-Records caller tenant principal tool answer = (
    refl,
    refl,
    refl,
    refl,
    refl,
    refl,
    λ r e. ap (outcome_of as_uuid uuid5_of fl) e,
    λ status e. ap (outcome_of as_uuid uuid5_of fl) e,
    λ e. ap (outcome_of as_uuid uuid5_of fl) e,
  )

  module _ (World : Type 0)
      (dispatch_tool : Text → Arguments → Text → Text → World → Dispatched fl × World)
      (tool_policies : List ToolPolicy) (now : Time) (commits : Bool)
      (caller : Caller as_uuid uuid5_of) (body : ToolCallRequest) (t : Token)
      (s : Served as_uuid uuid5_of fl World dispatch_tool tool_policies) where
    abbrev pub answered :
        Dispatched fl × Served as_uuid uuid5_of fl World dispatch_tool tool_policies
    answered =
        post_mcp as_uuid uuid5_of fl World dispatch_tool tool_policies now commits caller body t s

    abbrev identified : Option McpIdentity
    identified = (get_mcp_identity now t s.cache).0

    -- A call that the dependency refuses reaches no tool and writes no row.
    pub answered_unknown :
        identified ≡ none
        → (answered.0 ≡ raised_http 401)
          × (answered.1.world ≡ s.world)
          × (answered.1.audit_logs ≡ s.audit_logs)
    unfolding post_mcp
    answered_unknown e = rw (e, post_mcp) (refl, refl, refl)

    abbrev guarded : Text → Dispatched fl × World
    guarded tenant =
        guarded_call as_uuid uuid5_of fl World dispatch_tool tool_policies caller.server body t
          tenant (mcp_principal_id t) s.world

    answered_known :
        (tenant : Text)
        → IsLetThrough now t s.cache tenant
        → (answered.0 ≡ (guarded tenant).0)
          × (answered.1.world ≡ (guarded tenant).1)
          × (answered.1.audit_logs
              ≡ write_mcp_audit as_uuid uuid5_of commits
                  (audit_row as_uuid uuid5_of caller tenant
                    (mcp_principal_id t)
                    body.tool
                    (outcome_of as_uuid uuid5_of fl (guarded tenant).0))
                  s.audit_logs)
    unfolding post_mcp call_mcp_tool
    answered_known tenant passes =
        let (known, e, own, principal) = identity_let_through now t s.cache tenant passes in
        rw (e, post_mcp) (rw (passes.0, call_mcp_tool) (refl, refl, refl))

    -- A call by a caller whom the dependency refuses (whose token names no tenant or no principal, or
    -- whose session is revoked) answers 401, calls no tool and writes no audit row. Any other call,
    -- whatever its outcome, adds one row to the log, unless its commit fails, which adds none. The row
    -- has the tenant and the principal of the token, the tool, the server and the client of the call, and
    -- the outcome: `success` for a result, `rejected` for a 401 or a 403, `error` for all else.
    pub post_mcp-audit :
        (((tenant : Text) → ¬ IsLetThrough now t s.cache tenant)
          → (answered.0 ≡ raised_http 401)
            × (answered.1.world ≡ s.world)
            × (answered.1.audit_logs ≡ s.audit_logs))
        × ((tenant : Text)
            → IsLetThrough now t s.cache tenant
            → (commits ≡ false → answered.1.audit_logs ≡ s.audit_logs)
              × (commits ≡ true
                  → (row : AuditRow) × (answered.1.audit_logs ≡ s.audit_logs ++ row ∷ [])
                    × Records caller tenant (mcp_principal_id t) body.tool answered.0 row))
    unfolding write_mcp_audit
    post_mcp-audit = (
      λ refused. elim (Option-cases identified) [
        | inl e ↦ answered_unknown e
        | inr (known, e) ↦ absurd (refused known.tenant_id (identity_known now t s.cache known e).0)
      ],
      λ tenant passes.
          let (answer, changed, logged) = answered_known tenant passes in
          (
            λ fails. ground (arith, logged, fails),
            λ succeeds. (
              audit_row as_uuid uuid5_of caller tenant (mcp_principal_id t) body.tool
                  (outcome_of as_uuid uuid5_of fl answered.0),
              ground (arith, logged, succeeds, answer),
              audit_row-Records caller tenant (mcp_principal_id t) body.tool answered.0,
            ),
          ),
    )
