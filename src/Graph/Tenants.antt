-- ===== src/Graph/Tenants.antt =====
-- A method works on its own tenant.
use sync_ai_final.Base.{
  if◌then◌else◌, ◌==◌, nat_eq, list_eqb_iff, list_eq, option_eq, pair_eq, Text, get-insert, ◌≡◌,
  refl, ap, ◌∙◌, [], arith,
}
use sync_ai_final.Graph.{GraphStore, Tenant, ensure_tenant, tenant_of, put_tenant, on_tenant}

tenant_of-ensure_tenant :
    (tenant other : Text) (g : GraphStore)
    → tenant_of other (ensure_tenant tenant g) ≡ tenant_of other g
unfolding tenant_of ensure_tenant
tenant_of-ensure_tenant tenant other g = ground (
  arith,
  get-insert tenant other [] g.nodes,
  get-insert tenant other [] g.edges,
  list_eqb_iff tenant other,
)

tenant_of-put_tenant :
    (tenant other : Text) (t : Tenant) (g : GraphStore)
    → tenant_of other (put_tenant tenant t g) ≡ (if tenant == other then t else tenant_of other g)
unfolding tenant_of put_tenant
tenant_of-put_tenant tenant other t g =
    ground (arith, get-insert tenant other t.nodes g.nodes, get-insert tenant other t.edges g.edges)

-- A method gets its own tenant's nodes and edges and no others, whether or not the tenant was known;
-- what it leaves is stored for its tenant, and every other tenant keeps what it had.
pub on_tenant-tenant_of :
    {A : Type 0} (tenant other : Text) (method : Tenant → A × Tenant) (g : GraphStore)
    → let (result, g') = on_tenant tenant method g in
      (result ≡ (method (tenant_of tenant g)).0)
      × (tenant_of other g'
          ≡ (if tenant == other then (method (tenant_of tenant g)).1 else tenant_of other g))
unfolding on_tenant
on_tenant-tenant_of tenant other method g =
    let own = tenant_of-ensure_tenant tenant tenant g in
    let t = (method (tenant_of tenant (ensure_tenant tenant g))).1 in
    (
      ap (λ s. (method s).0) own,
      tenant_of-put_tenant tenant other t (ensure_tenant tenant g)
          ∙ rw own (rw (tenant_of-ensure_tenant tenant other g) refl),
    )
