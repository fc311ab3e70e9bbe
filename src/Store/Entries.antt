-- ===== src/Store/Entries.antt =====
-- The ACL rows of the documents: `replace_acl_entries` to `principal_can_read_document` of
-- backend/app/storage/canonical_repo.py.
pub mod Access
pub mod Drain
pub mod Rebind
use sync_ai_final.Base.{
  if◌then◌else◌, is_some, bool_eqb, ◌==◌, nat_eq, list_eq, option_eq, pair_eq, any, filter, Text,
  codes, starts_with, strip, Dict, values, keys, get, insert, Bool, false, not, ◌&&◌, none, some,
  List, [], ◌∷◌, ◌++◌,
}
use sync_ai_final.Models.{Uuid, Time, read, owner, AclEntry}
use sync_ai_final.Store.{PendingRow, Repo, or_empty, document_id_aliases}

unfoldable pub replace_acl_entries : Text → List AclEntry → Repo → Repo
replace_acl_entries document_id entries r = record r {
  acl_entries = insert document_id entries r.acl_entries;
}

unfoldable pub get_acl_entries : Text → Repo → List AclEntry
get_acl_entries document_id r = or_empty (get document_id r.acl_entries)

-- The rows that `insert_acl_entry` takes for the same row.
abbrev pub same_grant : AclEntry → AclEntry → Bool
same_grant entry current =
    current.principal_id == entry.principal_id
    && current.group_id == entry.group_id
    && bool_eqb current.is_deny entry.is_deny

unfoldable pub insert_acl_entry : AclEntry → Repo → Repo
insert_acl_entry entry r =
    let existing = or_empty (get entry.document_id r.acl_entries) in
    record r {
      acl_entries =
          insert entry.document_id
            (if any (same_grant entry) existing then existing else existing ++ entry ∷ [])
            r.acl_entries;
    }

unfoldable pub source_type_from_document_id : Text → Text
source_type_from_document_id document_id =
    if starts_with document_id (codes "google_gmail")
    then codes "google_gmail"
    else codes "google_drive"

unfoldable pub bound_share_acl_entry : Time → Text → Uuid → Uuid → AclEntry
bound_share_acl_entry now document_id principal_id tenant_id =
    let source_type = source_type_from_document_id document_id in
    let gmail = source_type == codes "google_gmail" in
    record {
      document_id = document_id;
      principal_id = some principal_id;
      group_id = none;
      permission = if gmail then owner else read;
      granted_via = if gmail then codes "gmail_mailbox" else codes "drive_share";
      source_container_id = none;
      is_deny = false;
      source_type = source_type;
      tenant_id = tenant_id;
      created_at = now;
      updated_at = now;
    }

-- The queue rows that `drain_pending_identity_queue` binds.
abbrev pub is_waiting : Uuid → Text → PendingRow → Bool
is_waiting tenant normalized row =
    row.tenant_id == tenant && row.shared_email == normalized && not (is_some row.resolved_at)

module _ (now : Time) (tenant : Uuid) (normalized : Text) (principal : Uuid) where
  -- The loop over the queue: the rows afterwards, the documents bound, and the repository.
  unfoldable pub drain_rows :
      Dict (Uuid × (Text × Text)) PendingRow
      → Repo
      → Dict (Uuid × (Text × Text)) PendingRow × List Text × Repo
  drain_rows [] r = ([], [], r)
  drain_rows ((key, row) ∷ rows) r =
      let waiting = is_waiting tenant normalized row in
      let (rows', drained, r') = drain_rows rows (
        if waiting
        then insert_acl_entry (bound_share_acl_entry now row.document_id principal tenant) r
        else r) in
      if waiting
      then (
        (key, record row { resolved_at = some now; resolved_principal_id = some principal })
            ∷ rows',
        row.document_id ∷ drained,
        r',
      )
      else ((key, row) ∷ rows', drained, r')

unfoldable pub drain_pending_identity_queue :
    (Text → Text) → Time → Uuid → Text → Uuid → Repo → List Text × Repo
drain_pending_identity_queue lower now tenant email principal r =
    let (rows, drained, r') =
      drain_rows now tenant (lower (strip email)) principal r.pending_identity r in
    (drained, record r' { pending_identity = rows })

abbrev pub is_bound_to : Uuid → Uuid → AclEntry → Bool
is_bound_to tenant principal e = e.tenant_id == tenant && e.principal_id == some principal

module _ (tenant source target : Uuid) where
  unfoldable pub rebind_entries : List AclEntry → List AclEntry
  rebind_entries [] = []
  rebind_entries (e ∷ es) =
      (if is_bound_to tenant source e then record e { principal_id = some target } else e)
      ∷ rebind_entries es

  unfoldable pub rebind_rows : Dict Text (List AclEntry) → List Text × Dict Text (List AclEntry)
  rebind_rows [] = ([], [])
  rebind_rows ((doc_id, entries) ∷ d) =
      let (ids, d') = rebind_rows d in
      (
        if any (is_bound_to tenant source) entries then doc_id ∷ ids else ids,
        (doc_id, rebind_entries entries) ∷ d',
      )

  unfoldable pub rebind_acl_principal : Repo → List Text × Repo
  rebind_acl_principal r =
      if source == target
      then ([], r)
      else (let (ids, d) = rebind_rows r.acl_entries in (ids, record r { acl_entries = d }))

-- The keys of one listed row.
abbrev pub Listed : Type 0
Listed = Text × (Text × Time)

unfoldable pub list_unresolved : Uuid → List PendingRow → List Listed
list_unresolved tenant [] = []
list_unresolved tenant (row ∷ rows) =
    if row.tenant_id == tenant && not (is_some row.resolved_at)
    then (row.document_id, (row.shared_email, row.first_seen_at)) ∷ list_unresolved tenant rows
    else list_unresolved tenant rows

unfoldable pub list_unresolved_pending : Uuid → Repo → List Listed
list_unresolved_pending tenant r = list_unresolved tenant (values r.pending_identity)

-- The rows of one principal under each of the document's names.
unfoldable pub rows_of : Uuid → Uuid → List Text → Repo → List AclEntry
rows_of tenant principal [] r = []
rows_of tenant principal (c ∷ cs) r =
    filter (is_bound_to tenant principal) (get_acl_entries c r) ++ rows_of tenant principal cs r

unfoldable pub principal_can_read_document : Uuid → Uuid → Text → Repo → Bool
principal_can_read_document tenant principal document_id r =
    let entries = rows_of tenant principal (document_id_aliases document_id) r in
    if any (λ e. e.is_deny) entries then false else any (λ e. not e.is_deny) entries
