-- ===== src/Reader/Checkers/Live.antt =====
-- Reads that are checked against the live ACL rows.
use sync_ai_final.Base.{
  nat_eq, list_eqb_iff, list_eq, option_eq, pair_eq, any, any-append, contains, Text, get-insert, ℕ,
  ◌≡◌, refl, ◌↔◌, Bool, true, false, not, ◌&&◌, Option, some, List, [], ◌∷◌, arith,
}
use sync_ai_final.Models.{Uuid, AclEntry}
use sync_ai_final.Store.{Repo, document_id_aliases}
use sync_ai_final.Store.Entries.{replace_acl_entries, get_acl_entries, principal_can_read_document}
use sync_ai_final.Store.Entries.Access.{
  denies_to, allows_to, rows_under, principal_can_read_document_iff,
}
use sync_ai_final.Reader.{DocumentStore, Reading, http_exception, read_document}
use sync_ai_final.Reader.Body.{read_document_forbidden}
use sync_ai_final.Reader.Checkers.{postgres_is_allowed}

any-rows_under :
    (p : AclEntry → Bool) (names : List Text) (name : Text) (r : Repo)
    → contains names name ≡ true
    → any p (get_acl_entries name r) ≡ true
    → any p (rows_under names r) ≡ true
any-rows_under p [] name r h q = ground (arith, h)
any-rows_under p (c ∷ cs) name r h q = ground (
  arith,
  h,
  q,
  list_eqb_iff c name,
  any-append p (get_acl_entries c r) (rows_under cs r),
  any-rows_under p cs name r,
)

get_acl_entries-replace_acl_entries :
    (name : Text) (entries : List AclEntry) (r : Repo)
    → get_acl_entries name (replace_acl_entries name entries r) ≡ entries
unfolding get_acl_entries replace_acl_entries
get_acl_entries-replace_acl_entries name entries r =
    ground (arith, get-insert name name entries r.acl_entries, list_eqb_iff name name)

module _ (lower : Text → Text) (as_uuid : Text → Option Uuid) (chunk : ℕ)
    (doc_id tenant_id principal_id : Text) (threshold : ℕ) (s : DocumentStore)
    (tenant principal : Uuid) where
  abbrev read_live : Repo → Reading lower
  read_live repo =
      read_document lower (postgres_is_allowed as_uuid repo) chunk s tenant_id doc_id principal_id
        threshold

  -- With the live checker, a read of a document by a caller whose ids are UUIDs is answered with 403
  -- exactly if no row under one of the document's names allows it to the principal in the tenant, or
  -- some such row denies it.
  pub read_document-postgres_is_allowed :
      (repo : Repo)
      → as_uuid tenant_id ≡ some tenant
      → as_uuid principal_id ≡ some principal
      → (read_live repo ≡ http_exception 403) ↔ (
          let rows = rows_under (document_id_aliases doc_id) repo in
          (any (allows_to tenant principal) rows && not (any (denies_to tenant principal) rows))
          ≡ false)
  unfolding postgres_is_allowed
  read_document-postgres_is_allowed repo t p =
      let gate =
        read_document_forbidden lower (postgres_is_allowed as_uuid repo) chunk tenant_id doc_id
          principal_id threshold s in
      let allowed : postgres_is_allowed as_uuid repo tenant_id principal_id doc_id
          ≡ principal_can_read_document tenant principal doc_id repo =
        rw (t, postgres_is_allowed) (rw (p, postgres_is_allowed) refl) in
      ground (arith, gate, allowed, principal_can_read_document_iff tenant principal doc_id repo)

  -- As soon as the rows of one of the document's names are replaced by rows of which one denies the
  -- principal, the next read is answered with 403, whatever the other rows are.
  pub read_document-replace_acl_entries :
      (repo : Repo) (name : Text) (entries : List AclEntry)
      → as_uuid tenant_id ≡ some tenant
      → as_uuid principal_id ≡ some principal
      → contains (document_id_aliases doc_id) name ≡ true
      → any (denies_to tenant principal) entries ≡ true
      → read_live (replace_acl_entries name entries repo) ≡ http_exception 403
  read_document-replace_acl_entries repo name entries t p known denied =
      let repo' = replace_acl_entries name entries repo in
      let held : any (denies_to tenant principal) (get_acl_entries name repo') ≡ true =
        rw (get_acl_entries-replace_acl_entries name entries repo) denied in
      let seen =
        any-rows_under (denies_to tenant principal) (document_id_aliases doc_id) name repo' known
          held in
      (read_document-postgres_is_allowed repo' t p).1 (ground (arith, seen))
