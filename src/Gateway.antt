-- ===== src/Gateway.antt =====
-- The identity of a caller of the MCP gateway, backend/app/services/mcp_gateway/identity.py. A claim or
-- an argument that is missing is `None`.
pub mod Policies
pub mod Dispatch
pub mod Router
pub mod Barred
use sync_ai_final.Base.{
  if◌then◌else◌, ◌==◌, nat_eq, list_eq, option_eq, pair_eq, any, Text, codes, nonempty, Dict, get,
  ℕ, Bool, false, not, Option, none, some, [], ◌∷◌,
}
use sync_ai_final.Models.{Time}
use sync_ai_final.Acl.Terms.{null, text, other, Claim, atom, items, claim_str, truthy, or_else}
use sync_ai_final.Session.{SessionCache, remember, is_revoked}

-- The claims of a verified token that the gateway reads.
pub record Token : Type 0 where
  pub tenant_id : Claim
  pub jti : Claim
  pub sub : Claim
  pub principal_id : Claim
  pub user_id : Claim

abbrev pub empty_claim : Claim
empty_claim = atom (text [])

unfoldable pub mcp_principal_id : Token → Text
mcp_principal_id current_user = claim_str (
    or_else current_user.sub
      (or_else current_user.principal_id (or_else current_user.user_id empty_claim)))

-- `none` is the `UnauthorizedError`.
unfoldable pub mcp_tenant_id : Token → Option Text
mcp_tenant_id current_user =
    if truthy current_user.tenant_id then some (claim_str current_user.tenant_id) else none

-- `str(current_user.get("jti") or "")`
unfoldable pub mcp_jti : Token → Text
mcp_jti current_user = claim_str (or_else current_user.jti empty_claim)

-- What the dependency writes to `request.state`.
pub record McpIdentity : Type 0 where
  pub tenant_id : Text
  pub principal_id : Text
  pub jti : Text

-- `none` is the `UnauthorizedError`, with status 401.
unfoldable pub get_mcp_identity : Time → Token → SessionCache → Option McpIdentity × SessionCache
get_mcp_identity now current_user cache = elim (mcp_tenant_id current_user) [
  | none ↦ (none, cache)
  | some tenant_id ↦
      let principal_id = mcp_principal_id current_user in
      let jti = mcp_jti current_user in
      let (revoked, cache') = is_revoked now tenant_id jti principal_id cache in
      if not (nonempty principal_id) then (none, cache) else if revoked then (none, cache') else (
        some (record { tenant_id = tenant_id; principal_id = principal_id; jti = jti }),
        remember now tenant_id jti principal_id cache',
      )
]

abbrev pub Arguments : Type 0
Arguments = Dict Text Claim

-- `claimed is not None and str(claimed) != token`
abbrev pub is_other : Text → Option Claim → Bool
is_other token none = false
is_other token (some (atom null)) = false
is_other token (some (atom (text t))) = not (t == token)
is_other token (some (atom (other b t))) = not (t == token)
is_other token (some (items t vs)) = not (t == token)

abbrev pub given : Option Text → Option Claim
given none = none
given (some t) = some (atom (text t))

-- The status of the `HTTPException`, if one is raised.
unfoldable pub reject_impersonation : Token → Option Text → Option Text → Arguments → Option ℕ
reject_impersonation current_user body_tenant_id body_user_id args =
    elim (mcp_tenant_id current_user) [
      | none ↦ some 401
      | some token_tenant ↦
          let token_principal = mcp_principal_id current_user in
          if any (is_other token_tenant) (given body_tenant_id ∷ get (codes "tenant_id") args ∷ [])
          then some 403
          else if any (is_other token_principal) (
              given body_user_id
              ∷ get (codes "user_id") args
              ∷ get (codes "principal_id") args
              ∷ get (codes "actor_id") args
              ∷ [])
          then some 403
          else none
    ]
