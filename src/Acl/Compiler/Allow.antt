-- ===== src/Acl/Compiler/Allow.antt =====
-- The compiler makes entries that allow.
use sync_ai_final.Base.{
  Bool-cases, Option-cases, Equality, nat_eq, list_eq, option_eq, pair_eq, any, any-append, Text,
  Dict, values, insert, ℕ, suc, ◌≡◌, refl, ◌∙◌, inl, inr, Bool, false, List, [], ◌∷◌, ◌++◌, map,
  arith,
}
use sync_ai_final.Models.{
  Uuid, Time, PermissionLevel, CanonicalDocument, AclEntry, ContainerAclEntry, IdentityHint,
}
use sync_ai_final.Store.{Repo, get_group}
use sync_ai_final.Identity.{Matcher, is_mirror_source}
use sync_ai_final.Acl.Service.{Service, get_ancestors, default_depth, get_container_permissions}
use sync_ai_final.Acl.Inheritance.{
  IdKey, id_key_eq, holder_key, Maps, no_maps, note_allow, surviving, inherited_entry, visit_perm,
  visit_perms, visit_containers, visit_parents, compute_inherited_entries,
}
use sync_ai_final.Acl.Compiler.{
  State, Key, key_of, deny_keys, drop_denied, keep_best, best_entries, apply_deny_overrides,
  expand_members, enough_fuel, member_entry, expand_entry, expand_group_membership, compile_hint,
  compile_direct_entries, compile_all, compile,
}

abbrev pub denies : List AclEntry → Bool
denies = any (λ e. e.is_deny)

any-values-insert :
    {K V : Type 0} ⦃e : Equality K⦄
    → (p : V → Bool) (k : K) (v : V) (d : Dict K V) → any p (values d) ≡ false
    → p v ≡ false
    → any p (values (insert k v d)) ≡ false
unfolding insert
any-values-insert p k v [] h q = rw q refl
any-values-insert ⦃e = e⦄ p k v ((j, w) ∷ d) h q = ground (arith, any-values-insert p k v d)

abbrev Allows : Maps → Type 0
Allows m = any (λ x. x.1.is_deny) (values m.allow_map) ≡ false

note_allow-denies :
    (k : IdKey) (n : ℕ) (entry : AclEntry) (d : Dict IdKey (ℕ × AclEntry))
    → entry.is_deny ≡ false
    → any (λ x. x.1.is_deny) (values d) ≡ false
    → any (λ x. x.1.is_deny) (values (note_allow k n entry d)) ≡ false
unfolding note_allow
note_allow-denies k n entry d q h =
    let inserted = any-values-insert (λ (x : ℕ × AclEntry). x.1.is_deny) k (n, entry) d h q in
    ground (arith, inserted)

surviving-denies :
    (ds : Dict IdKey ℕ) (d : Dict IdKey (ℕ × AclEntry))
    → any (λ x. x.1.is_deny) (values d) ≡ false
    → denies (surviving ds d) ≡ false
unfolding surviving
surviving-denies ds [] h = refl
surviving-denies ds ((k, (n, e)) ∷ d) h = ground (arith, surviving-denies ds d)

module _ (now : Time) (document : CanonicalDocument) where
  visit_perm-Allows :
      (n : ℕ) (c : Text) (p : ContainerAclEntry) (m : Maps)
      → Allows m
      → Allows (visit_perm now document n c p m)
  unfolding visit_perm
  visit_perm-Allows n c p m h = elim (Option-cases (holder_key p.principal_id p.group_id)) [
    | inl nobody ↦ rw (nobody, visit_perm) h
    | inr (k, holder) ↦ ground (
      arith,
      holder,
      h,
      note_allow-denies k n (inherited_entry now document c p) m.allow_map refl h,
    )
  ]

  visit_perms-Allows :
      (n : ℕ) (c : Text) (ps : List ContainerAclEntry) (m : Maps)
      → Allows m
      → Allows (visit_perms now document n c ps m)
  unfolding visit_perms
  visit_perms-Allows n c [] m h = h
  visit_perms-Allows n c (p ∷ ps) m h =
      visit_perms-Allows n c ps (visit_perm now document n c p m) (visit_perm-Allows n c p m h)

  visit_containers-Allows :
      (s : Service) (n : ℕ) (cs : List Text) (m : Maps)
      → Allows m
      → Allows (visit_containers now document s n cs m)
  unfolding visit_containers
  visit_containers-Allows s n [] m h = h
  visit_containers-Allows s n (c ∷ cs) m h =
      visit_containers-Allows s (suc n) cs _
        (visit_perms-Allows n c (get_container_permissions c document.tenant_id s) m h)

  visit_parents-Allows :
      (ps : List Text) (s : Service) (m : Maps)
      → Allows m
      → Allows (visit_parents now document ps s m).0
  unfolding visit_parents
  visit_parents-Allows [] s m h = h
  visit_parents-Allows (p ∷ ps) s m h =
      let (ancestors, s') = get_ancestors now p document.tenant_id default_depth s in
      visit_parents-Allows ps s' _ (visit_containers-Allows s' 0 (p ∷ ancestors) m h)

  compute_inherited_entries-denies :
      (s : Service) → denies (compute_inherited_entries now document s).0 ≡ false
  unfolding compute_inherited_entries
  compute_inherited_entries-denies s =
      let m = (visit_parents now document document.parent_ids s no_maps).0 in
      surviving-denies m.deny_map m.allow_map
        (visit_parents-Allows document.parent_ids s no_maps refl)

  member_entry-denies :
      (entry : AclEntry) (tenant_id : Uuid) (ids : List Uuid)
      → entry.is_deny ≡ false
      → denies (map (member_entry now entry tenant_id) ids) ≡ false
  member_entry-denies entry tenant_id [] h = refl
  member_entry-denies entry tenant_id (id ∷ ids) h =
      ground (arith, member_entry-denies entry tenant_id ids)

  expand_entry-denies :
      (r : Repo) (tenant_id : Uuid) (entry : AclEntry)
      → entry.is_deny ≡ false
      → denies (expand_entry now r tenant_id entry) ≡ false
  unfolding expand_entry
  expand_entry-denies r tenant_id entry h = elim (Option-cases entry.group_id) [
    | inl nobody ↦ rw (nobody, expand_entry) refl
    | inr (id, group) ↦ elim (Option-cases (get_group id tenant_id r)) [
      | inl missing ↦ rw (group, expand_entry) (rw missing refl)
      | inr (g, stored) ↦
          rw (group, expand_entry)
            (rw stored (
              member_entry-denies entry tenant_id
                (expand_members r tenant_id (enough_fuel r tenant_id) g []).0 h))
    ]
  ]

  expand_group_membership-denies :
      (r : Repo) (tenant_id : Uuid) (es : List AclEntry)
      → denies es ≡ false
      → denies (expand_group_membership now r tenant_id es) ≡ false
  unfolding expand_group_membership
  expand_group_membership-denies r tenant_id [] h = refl
  expand_group_membership-denies r tenant_id (e ∷ es) h = ground (
    arith,
    expand_entry-denies r tenant_id e,
    expand_group_membership-denies r tenant_id es,
    any-append (λ (x : AclEntry). x.is_deny) (expand_entry now r tenant_id e)
        (expand_group_membership now r tenant_id es),
  )

  drop_denied-denies :
      (ks : List Key) (es : List AclEntry) → denies es ≡ false → denies (drop_denied ks es) ≡ false
  unfolding drop_denied
  drop_denied-denies ks [] h = refl
  drop_denied-denies ks (e ∷ es) h = ground (arith, drop_denied-denies ks es)

  best_entries-denies :
      (es : List AclEntry) (best : Dict Key AclEntry)
      → denies es ≡ false
      → denies (values best) ≡ false
      → denies (values (best_entries es best)) ≡ false
  unfolding best_entries keep_best
  best_entries-denies [] best h q = q
  best_entries-denies (e ∷ es) best h q =
      let kept = any-values-insert (λ (x : AclEntry). x.is_deny) (key_of e) e best q in
      best_entries-denies es (keep_best e best) (ground arith) (ground (arith, kept))

  module _ (lower : Text → Text) (valid_email : Text → Bool) (uuid4 : ℕ → Uuid)
      (matchers : List Matcher) (tenant_id : Uuid) where
    compile_hint-denies :
        (hint : IdentityHint) (level : PermissionLevel) (s : State)
        → denies
            (compile_hint now lower valid_email uuid4 matchers document tenant_id hint level s).0
          ≡ false
    unfolding compile_hint
    compile_hint-denies hint level s = ground arith

    compile_direct_entries-denies :
        (hints : List (IdentityHint × PermissionLevel)) (s : State)
        → denies
            (compile_direct_entries now lower valid_email uuid4 matchers document hints tenant_id
              s).0
          ≡ false
    unfolding compile_direct_entries
    compile_direct_entries-denies [] s = refl
    compile_direct_entries-denies ((hint, level) ∷ hints) s =
        let (entries, s') =
          compile_hint now lower valid_email uuid4 matchers document tenant_id hint level s in
        let others =
          (compile_direct_entries now lower valid_email uuid4 matchers document hints tenant_id
            s').0 in
        any-append (λ (x : AclEntry). x.is_deny) entries others
        ∙ rw (compile_hint-denies hint level s) (compile_direct_entries-denies hints s')

    compile_all-denies :
        (hints : List (IdentityHint × PermissionLevel)) (s : State)
        → denies (compile_all now lower valid_email uuid4 matchers document hints tenant_id s).0
          ≡ false
    unfolding compile_all
    compile_all-denies hints s =
        let (direct, s1) =
          compile_direct_entries now lower valid_email uuid4 matchers document hints tenant_id s in
        let (inherited, sv) = compute_inherited_entries now document s1.service in
        let none_direct = compile_direct_entries-denies hints s in
        let p = λ (x : AclEntry). x.is_deny in
        let both : denies (direct ++ inherited) ≡ false =
          any-append p direct inherited
          ∙ rw none_direct (compute_inherited_entries-denies s1.service) in
        let members = expand_group_membership-denies sv.repo tenant_id (direct ++ inherited) both in
        let whole =
          any-append p (direct ++ inherited)
            (expand_group_membership now sv.repo tenant_id (direct ++ inherited)) in
        elim (Bool-cases (is_mirror_source document.source_type)) [
          | inl mirror ↦ rw (mirror, compile_all) none_direct
          | inr other ↦ rw (other, compile_all) (whole ∙ rw both members)
        ]

    -- The compiled entries of a document hold no deny, whatever its folders deny: no compilation
    -- writes a row with `is_deny`.
    pub compile-denies :
        (hints : List (IdentityHint × PermissionLevel)) (s : State)
        → denies (compile now lower valid_email uuid4 matchers document hints tenant_id s).0 ≡ false
    unfolding compile apply_deny_overrides
    compile-denies hints s =
        let es = (compile_all now lower valid_email uuid4 matchers document hints tenant_id s).0 in
        best_entries-denies (drop_denied (deny_keys es) es) []
          (drop_denied-denies (deny_keys es) es (compile_all-denies hints s)) refl
