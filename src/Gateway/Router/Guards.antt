-- ===== src/Gateway/Router/Guards.antt =====
-- What the guards of a call ask for, apart from the way the code tests it.
use sync_ai_final.Base.{
  Option-cases, nat_eq, list_eqb_iff, list_eq, option_eq, pair_eq, ℕ, Text, codes, nonempty, get,
  ◌≡◌, refl, ◌↔◌, inl, inr, true, false, Option, none, some, ◌≢◌, arith,
}
use sync_ai_final.Models.{Time}
use sync_ai_final.Session.{SessionCache, is_revoked}
use sync_ai_final.Acl.Terms.{null, text, other, Claim, atom, items, claim_str}
use sync_ai_final.Gateway.{
  Token, mcp_principal_id, mcp_tenant_id, mcp_jti, McpIdentity, get_mcp_identity, is_other, given,
  reject_impersonation,
}
use sync_ai_final.Gateway.Router.{ToolCallRequest, or_option}

module _ (now : Time) (t : Token) (cache : SessionCache) where
  -- The token names the tenant and a principal, and its session is not revoked.
  abbrev pub IsLetThrough : Text → Type 0
  IsLetThrough tenant =
      (mcp_tenant_id t ≡ some tenant)
      × (nonempty (mcp_principal_id t) ≡ true)
      × ((is_revoked now tenant (mcp_jti t) (mcp_principal_id t) cache).0 ≡ false)

  pub identity_known :
      (known : McpIdentity)
      → (get_mcp_identity now t cache).0 ≡ some known
      → IsLetThrough known.tenant_id × (mcp_principal_id t ≡ known.principal_id)
  unfolding get_mcp_identity
  identity_known known h = elim (Option-cases (mcp_tenant_id t)) [
    | inl e ↦ ground (arith, e, h)
    | inr (tenant, e) ↦ ground (arith, e, h)
  ]

  pub identity_let_through :
      (tenant : Text)
      → IsLetThrough tenant
      → (known : McpIdentity) × ((get_mcp_identity now t cache).0 ≡ some known)
        × (known.tenant_id ≡ tenant)
        × (known.principal_id ≡ mcp_principal_id t)
  unfolding get_mcp_identity
  identity_let_through tenant (named, given, live) = (
    record { tenant_id = tenant; principal_id = mcp_principal_id t; jti = mcp_jti t },
    ground (arith, named, given, live),
    refl,
    refl,
  )

-- What the request says, if it says anything, is the value of the token.
abbrev pub Binds : Text → Option Claim → Type 0
Binds value claimed = (c : Claim) → claimed ≡ some c → c ≢ atom null → claim_str c ≡ value

is_other-Binds : (value : Text) (c : Option Claim) → (is_other value c ≡ false) ↔ Binds value c
is_other-Binds value none = ((λ h c e. cc), λ h. refl)
is_other-Binds value (some (atom null)) =
    (λ h c e given. absurd (given (ground (arith, e))), λ h. refl)
is_other-Binds value (some (atom (text s))) = (
  λ h c e given. ground (arith, e, h, list_eqb_iff s value),
  λ h. ground (arith, h (atom (text s)) refl (λ e. cc), list_eqb_iff s value),
)
is_other-Binds value (some (atom (other b s))) = (
  λ h c e given. ground (arith, e, h, list_eqb_iff s value),
  λ h. ground (arith, h (atom (other b s)) refl (λ e. cc), list_eqb_iff s value),
)
is_other-Binds value (some (items s vs)) = (
  λ h c e given. ground (arith, e, h, list_eqb_iff s value),
  λ h. ground (arith, h (items s vs) refl (λ e. cc), list_eqb_iff s value),
)

-- No tenant or user that the request names differs from the given ones.
abbrev pub IsOwn : Text → Text → ToolCallRequest → Type 0
IsOwn tenant principal body =
    Binds tenant (given body.tenant_id)
    × Binds tenant (get (codes "tenant_id") body.arguments)
    × Binds principal (given (or_option body.user_id body.principal_id))
    × Binds principal (get (codes "user_id") body.arguments)
    × Binds principal (get (codes "principal_id") body.arguments)
    × Binds principal (get (codes "actor_id") body.arguments)

abbrev rejected : Token → ToolCallRequest → Option ℕ
rejected t body =
    reject_impersonation t body.tenant_id (or_option body.user_id body.principal_id) body.arguments

-- The request is not refused as an impersonation exactly if all that it names are the token's.
pub reject_impersonation-IsOwn :
    (t : Token) (tenant : Text) (body : ToolCallRequest)
    → mcp_tenant_id t ≡ some tenant
    → (rejected t body ≡ none) ↔ IsOwn tenant (mcp_principal_id t) body
unfolding reject_impersonation
reject_impersonation-IsOwn t tenant body named =
    let p = mcp_principal_id t in
    let a = is_other-Binds tenant (given body.tenant_id) in
    let b = is_other-Binds tenant (get (codes "tenant_id") body.arguments) in
    let c = is_other-Binds p (given (or_option body.user_id body.principal_id)) in
    let d = is_other-Binds p (get (codes "user_id") body.arguments) in
    let e = is_other-Binds p (get (codes "principal_id") body.arguments) in
    let f = is_other-Binds p (get (codes "actor_id") body.arguments) in
    (
      λ h. (
        a.0 (ground (arith, named, h)),
        b.0 (ground (arith, named, h)),
        c.0 (ground (arith, named, h)),
        d.0 (ground (arith, named, h)),
        e.0 (ground (arith, named, h)),
        f.0 (ground (arith, named, h)),
      ),
      λ (ha, hb, hc, hd, he, hf).
          ground (arith, named, a.1 ha, b.1 hb, c.1 hc, d.1 hd, e.1 he, f.1 hf),
    )
