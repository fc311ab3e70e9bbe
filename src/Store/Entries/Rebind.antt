-- ===== src/Store/Entries/Rebind.antt =====
-- Moving the rows of a ghost principal to the login principal.
use sync_ai_final.Base.{
  if◌then◌else◌, nat_eqb_iff, nat_eq, list_eq, option_eq, pair_eq, any, any-append, any-map_pred,
  any-or, any-none, Text, Dict, get, ◌≡◌, refl, ◌∙◌, ◌≢◌, Bool, false, not, ◌&&◌, ◌||◌, some, List,
  [], ◌∷◌, arith,
}
use sync_ai_final.Models.{Uuid, AclEntry}
use sync_ai_final.Store.{Repo, or_empty, document_id_aliases}
use sync_ai_final.Store.Entries.{
  get_acl_entries, is_bound_to, rebind_entries, rebind_rows, rebind_acl_principal,
  principal_can_read_document,
}
use sync_ai_final.Store.Entries.Access.{
  denies_to, allows_to, rows_under, principal_can_read_document_iff,
}

module _ (tenant source target : Uuid) where
  get-rebind_rows :
      (d : Dict Text (List AclEntry)) (doc : Text)
      → or_empty (get doc (rebind_rows tenant source target d).1)
        ≡ rebind_entries tenant source target (or_empty (get doc d))
  unfolding rebind_rows get rebind_entries
  get-rebind_rows [] doc = refl
  get-rebind_rows ((k, es) ∷ d) doc = ground (arith, get-rebind_rows d doc)

  -- What holds of a row after the rewrite, by what held before.
  any-rebind_entries :
      (p : AclEntry → Bool) (es : List AclEntry)
      → any p (rebind_entries tenant source target es)
        ≡ any
            (λ e.
              if is_bound_to tenant source e
              then p (record e { principal_id = some target })
              else p e)
            es
  unfolding rebind_entries
  any-rebind_entries p [] = refl
  any-rebind_entries p (e ∷ es) = ground (arith, any-rebind_entries p es)

  rows_under-rebind :
      (p q : AclEntry → Bool) (names : List Text) (r : Repo)
      → source ≢ target
      → ((es : List AclEntry) → any p (rebind_entries tenant source target es) ≡ any q es)
      → any p (rows_under names (rebind_acl_principal tenant source target r).1)
        ≡ any q (rows_under names r)
  unfolding rebind_acl_principal get_acl_entries
  rows_under-rebind p q [] r ne h = refl
  rows_under-rebind p q (c ∷ cs) r ne h =
      let r' = (rebind_acl_principal tenant source target r).1 in
      let es = get_acl_entries c r in
      ground (
        arith,
        nat_eqb_iff source target,
        any-append p (get_acl_entries c r') (rows_under cs r'),
        any-append q es (rows_under cs r),
        get-rebind_rows r.acl_entries c,
        h es,
        rows_under-rebind p q cs r ne h,
      )

  -- A flag of a row that the rewrite leaves alone.
  moved :
      (flag : AclEntry → Bool) (es : List AclEntry)
      → ((e : AclEntry) → flag (record e { principal_id = some target }) ≡ flag e)
      → any (λ e. is_bound_to tenant target e && flag e) (rebind_entries tenant source target es)
        ≡ any
            (λ e.
              (is_bound_to tenant target e && flag e) || (is_bound_to tenant source e && flag e))
            es
  moved flag es h =
      any-rebind_entries (λ e. is_bound_to tenant target e && flag e) es
      ∙ any-map_pred _ _ es (λ e. ground (arith, h e, nat_eqb_iff target target))

  gone :
      (es : List AclEntry)
      → source ≢ target
      → any (allows_to tenant source) (rebind_entries tenant source target es) ≡ any (λ e. false) es
  gone es ne =
      any-rebind_entries (allows_to tenant source) es
      ∙ any-map_pred _ (λ e. false) es (λ e. ground (arith, nat_eqb_iff target source))

-- Moving the rows of one principal to another: afterwards the target reads a document exactly if a
-- row allowed it to either of the two and no row denied it to either, and the source reads none.
pub rebind_acl_principal-principal_can_read_document :
    (tenant source target : Uuid) (doc : Text) (r : Repo)
    → source ≢ target
    → let rows = rows_under (document_id_aliases doc) r in
      let r' = (rebind_acl_principal tenant source target r).1 in
      (principal_can_read_document tenant target doc r' ≡ (
        (any (allows_to tenant target) rows || any (allows_to tenant source) rows)
        && not (any (denies_to tenant target) rows || any (denies_to tenant source) rows)))
      × (principal_can_read_document tenant source doc r' ≡ false)
rebind_acl_principal-principal_can_read_document tenant source target doc r ne =
    let names = document_id_aliases doc in
    let rows = rows_under names r in
    let r' = (rebind_acl_principal tenant source target r).1 in
    let allow = moved tenant source target (λ e. not e.is_deny) in
    let deny = moved tenant source target (λ e. e.is_deny) in
    let a1 =
      rows_under-rebind tenant source target (allows_to tenant target) _ names r ne
        (λ es. allow es (λ e. refl)) in
    let a2 =
      rows_under-rebind tenant source target (denies_to tenant target) _ names r ne
        (λ es. deny es (λ e. refl)) in
    let a3 =
      rows_under-rebind tenant source target (allows_to tenant source) (λ e. false) names r ne
        (λ es. gone tenant source target es ne) in
    (
      ground (
        arith,
        principal_can_read_document_iff tenant target doc r',
        a1,
        a2,
        any-or (allows_to tenant target) (allows_to tenant source) rows,
        any-or (denies_to tenant target) (denies_to tenant source) rows,
      ),
      ground (arith, principal_can_read_document_iff tenant source doc r', a3, any-none rows),
    )
