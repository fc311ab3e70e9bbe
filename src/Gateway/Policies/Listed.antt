-- ===== src/Gateway/Policies/Listed.antt =====
-- The tools that the gateway lists are those that it lets through.
use sync_ai_final.Base.{
  Bool-cases, ap, inl, inr, ◌↔◌, ◌++◌, ◌==◌, nat_eq, list_eqb_iff, list_eq, option_eq, pair_eq, any,
  filter, contains, Text, ◌≡◌, refl, ◌∙◌, Bool, true, false, not, ◌&&◌, List, [], ◌∷◌, map, arith,
}
use sync_ai_final.Gateway.Policies.{ToolPolicy, on_server, is_tool_allowed, list_allowed_tools}

-- The unique constraint of the table: no two rows have the same tenant, server and tool.
abbrev pub same_key : ToolPolicy → ToolPolicy → Bool
same_key a b = on_server a.tenant_id a.server_name b && b.tool_name == a.tool_name

unfoldable pub unique_rows : List ToolPolicy → Bool
unique_rows [] = true
unique_rows (row ∷ rows) = not (any (same_key row) rows) && unique_rows rows

module _ (tenant_id server_name tool_name : Text) where
  abbrev is_row : ToolPolicy → Bool
  is_row row = on_server tenant_id server_name row && row.tool_name == tool_name

  abbrev names : List ToolPolicy → List Text
  names rows =
      map (λ (row : ToolPolicy). row.tool_name)
        (filter (λ (row : ToolPolicy). on_server tenant_id server_name row && row.allowed) rows)

  -- The first row of the tool for the tenant on the server allows it.
  abbrev pub FirstAllows : List ToolPolicy → Type 0
  FirstAllows rows =
      (before : List ToolPolicy) × (row : ToolPolicy) × (after : List ToolPolicy) × (rows
        ≡ before ++ row ∷ after)
      × (any is_row before ≡ false)
      × (row.tenant_id ≡ tenant_id)
      × (row.server_name ≡ server_name)
      × (row.tool_name ≡ tool_name)
      × (row.allowed ≡ true)

  FirstAllows-is_tool_allowed :
      (before : List ToolPolicy) (row : ToolPolicy) (after : List ToolPolicy)
      → any is_row before ≡ false
      → is_row row ≡ true
      → is_tool_allowed (before ++ row ∷ after) tenant_id server_name tool_name ≡ row.allowed
  unfolding is_tool_allowed
  FirstAllows-is_tool_allowed [] row after h q = ground (arith, q)
  FirstAllows-is_tool_allowed (b ∷ bs) row after h q =
      ground (arith, FirstAllows-is_tool_allowed bs row after, q)

  is_tool_allowed-FirstAllows :
      (rows : List ToolPolicy)
      → is_tool_allowed rows tenant_id server_name tool_name ≡ true
      → FirstAllows rows
  unfolding is_tool_allowed
  is_tool_allowed-FirstAllows [] h = cc
  is_tool_allowed-FirstAllows (row ∷ rows) h = elim (Bool-cases (is_row row)) [
    | inl same ↦ (
      [],
      row,
      rows,
      refl,
      refl,
      ground (arith, same, list_eqb_iff row.tenant_id tenant_id),
      ground (arith, same, list_eqb_iff row.server_name server_name),
      ground (arith, same, list_eqb_iff row.tool_name tool_name),
      ground (arith, same, h),
    )
    | inr differ ↦
        let (before, first, after, e, none_before, t, s, n, allowed) =
          is_tool_allowed-FirstAllows rows (ground (arith, differ, h)) in
        (
          row ∷ before,
          first,
          after,
          ap (λ rs. row ∷ rs) e,
          ground (arith, differ, none_before),
          t,
          s,
          n,
          allowed,
        )
  ]

  -- A tool is let through exactly if the first row of its key allows it.
  pub is_tool_allowed_iff :
      (rows : List ToolPolicy)
      → (is_tool_allowed rows tenant_id server_name tool_name ≡ true) ↔ FirstAllows rows
  is_tool_allowed_iff rows = (
    is_tool_allowed-FirstAllows rows,
    λ (before, row, after, e, none_before, t, s, n, allowed).
        ap (λ rs. is_tool_allowed rs tenant_id server_name tool_name) e
        ∙ FirstAllows-is_tool_allowed before row after none_before (
            ground (
              arith,
              t,
              s,
              n,
              list_eqb_iff row.tenant_id tenant_id,
              list_eqb_iff row.server_name server_name,
              list_eqb_iff row.tool_name tool_name,
            ))
        ∙ allowed,
  )

  not_allowed :
      (rows : List ToolPolicy) → any is_row rows ≡ false → contains (names rows) tool_name ≡ false
  not_allowed [] h = refl
  not_allowed (row ∷ rows) h = ground (arith, not_allowed rows)

  same_key-is_row :
      (row : ToolPolicy) (rows : List ToolPolicy)
      → is_row row ≡ true
      → any (same_key row) rows ≡ any is_row rows
  same_key-is_row row [] h = refl
  same_key-is_row row (next ∷ rows) h = ground (
    arith,
    same_key-is_row row rows h,
    list_eqb_iff row.tenant_id tenant_id,
    list_eqb_iff row.server_name server_name,
    list_eqb_iff row.tool_name tool_name,
  )

  contains-names :
      (rows : List ToolPolicy)
      → unique_rows rows ≡ true
      → contains (names rows) tool_name ≡ is_tool_allowed rows tenant_id server_name tool_name
  unfolding unique_rows is_tool_allowed
  contains-names [] h = refl
  contains-names (row ∷ rows) h =
      ground (arith, contains-names rows, same_key-is_row row rows, not_allowed rows)

  -- Where the rows have distinct keys, a tool is listed for a tenant and a server exactly if a call of
  -- it is let through; the order of the list is any that keeps its members.
  pub list_allowed_tools-is_tool_allowed :
      (order_by_name : List Text → List Text)
      → ((ts : List Text) (t : Text) → contains (order_by_name ts) t ≡ contains ts t)
      → (rows : List ToolPolicy) → unique_rows rows ≡ true
      → contains (list_allowed_tools order_by_name rows tenant_id server_name) tool_name
        ≡ is_tool_allowed rows tenant_id server_name tool_name
  unfolding list_allowed_tools
  list_allowed_tools-is_tool_allowed order_by_name kept rows h =
      kept (names rows) tool_name ∙ contains-names rows h
