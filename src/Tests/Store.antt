-- ===== src/Tests/Store.antt =====
-- The rows of the canonical repository.
use sync_ai_final.Base.{
  nat_eq, list_eqb, list_eq, option_eq, pair_eq, any, contains, dedup_from, dedup, Text, codes,
  is_space, lstrip, keep_char, rstrip, strip, values, get, insert, ◌≡◌, refl, Bool, true, false,
  none, some, [], ◌∷◌, arith,
}
use sync_ai_final.Models.{read, AclEntry}
use sync_ai_final.Store.{Repo, alias_for, document_id_aliases, upsert_pending_identity}
use sync_ai_final.Store.Entries.{
  get_acl_entries, same_grant, bound_share_acl_entry, is_waiting, drain_pending_identity_queue,
  rebind_acl_principal, principal_can_read_document,
}
use sync_ai_final.Store.Entries.Access.{principal_can_read_document_iff}
use sync_ai_final.Store.Entries.Drain.{drain_pending_identity_queue_lem}
use sync_ai_final.Store.Entries.Rebind.{rebind_acl_principal-principal_can_read_document}
use sync_ai_final.Tests.Samples.{ascii_lower, entry_of, doc_a, stored}

document_id_aliases-a :
    document_id_aliases (codes " a ") ≡ doc_a ∷ codes "google_drive_a" ∷ codes "google_gmail_a" ∷ []
unfolding document_id_aliases alias_for dedup dedup_from strip lstrip rstrip keep_char is_space
    list_eqb
document_id_aliases-a = refl

principal_can_read_document_iff_example : principal_can_read_document 1 8 doc_a stored ≡ true
unfolding document_id_aliases alias_for dedup dedup_from strip lstrip rstrip keep_char is_space
    get_acl_entries get list_eqb
principal_can_read_document_iff_example = principal_can_read_document_iff 1 8 doc_a stored

abbrev another : AclEntry
another = entry_of doc_a (some 9) none read false

abbrev queued : Repo
queued = (upsert_pending_identity ascii_lower 100 3 1 doc_a (codes "X@y") none stored).1

drain_pending_identity_queue_lem_example :
    let r' = (drain_pending_identity_queue ascii_lower 4 1 (codes "x@y") 9 queued).1 in
    let drained = (drain_pending_identity_queue ascii_lower 4 1 (codes "x@y") 9 queued).0 in
    (drained ≡ doc_a ∷ [])
    × (any (is_waiting 1 (codes "x@y")) (values r'.pending_identity) ≡ false)
    × ((d : Text)
        → contains drained d ≡ true
        → any (same_grant (bound_share_acl_entry 4 d 9 1)) (get_acl_entries d r') ≡ true)
    × ((d : Text) (p : AclEntry → Bool)
        → any p (get_acl_entries d queued) ≡ true
        → any p (get_acl_entries d r') ≡ true)
unfolding upsert_pending_identity get insert strip lstrip rstrip keep_char is_space list_eqb
drain_pending_identity_queue_lem_example =
    drain_pending_identity_queue_lem ascii_lower 4 1 (codes "x@y") 9 queued

rebind_acl_principal-principal_can_read_document_example :
    let r' = (rebind_acl_principal 1 8 9 stored).1 in
    (principal_can_read_document 1 9 doc_a r' ≡ true)
    × (principal_can_read_document 1 8 doc_a r' ≡ false)
unfolding document_id_aliases alias_for dedup dedup_from strip lstrip rstrip keep_char is_space
    get_acl_entries get list_eqb
rebind_acl_principal-principal_can_read_document_example =
    rebind_acl_principal-principal_can_read_document 1 8 9 doc_a stored (omega arith)
