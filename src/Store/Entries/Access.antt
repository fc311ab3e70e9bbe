-- ===== src/Store/Entries/Access.antt =====
-- Who may read a document, by its ACL rows.
use sync_ai_final.Base.{
  if◌then◌else◌, bool_eqb, ◌==◌, nat_eq, list_eqb_iff, list_eq, option_eqb_iff, option_eq, pair_eq,
  any, filter, any-append, any-filter, Text, get, get-insert, ◌≡◌, refl, Bool, true, false, not,
  ◌&&◌, List, [], ◌∷◌, ◌++◌, arith,
}
use sync_ai_final.Models.{Uuid, AclEntry}
use sync_ai_final.Store.{Repo, or_empty, document_id_aliases}
use sync_ai_final.Store.Entries.{
  get_acl_entries, same_grant, insert_acl_entry, is_bound_to, rows_of, principal_can_read_document,
}

-- A row of this principal that denies, or one that allows.
abbrev pub denies_to : Uuid → Uuid → AclEntry → Bool
denies_to tenant principal e = is_bound_to tenant principal e && e.is_deny

abbrev pub allows_to : Uuid → Uuid → AclEntry → Bool
allows_to tenant principal e = is_bound_to tenant principal e && not e.is_deny

-- All rows that stand under one of the names.
abbrev pub rows_under : List Text → Repo → List AclEntry
rows_under [] r = []
rows_under (c ∷ cs) r = get_acl_entries c r ++ rows_under cs r

any-rows_of :
    (p : AclEntry → Bool) (tenant principal : Uuid) (names : List Text) (r : Repo)
    → any p (rows_of tenant principal names r)
      ≡ any (λ e. is_bound_to tenant principal e && p e) (rows_under names r)
unfolding rows_of
any-rows_of p tenant principal [] r = refl
any-rows_of p tenant principal (c ∷ cs) r =
    let q = λ (e : AclEntry). is_bound_to tenant principal e && p e in
    ground (
      arith,
      any-append p (filter (is_bound_to tenant principal) (get_acl_entries c r))
          (rows_of tenant principal cs r),
      any-filter p (is_bound_to tenant principal) (get_acl_entries c r),
      any-append q (get_acl_entries c r) (rows_under cs r),
      any-rows_of p tenant principal cs r,
    )

-- A principal may read a document exactly if some row under one of the document's names allows it
-- to the principal in the tenant, and no such row denies it.
pub principal_can_read_document_iff :
    (tenant principal : Uuid) (document_id : Text) (r : Repo)
    → let rows = rows_under (document_id_aliases document_id) r in
      principal_can_read_document tenant principal document_id r
      ≡ (any (allows_to tenant principal) rows && not (any (denies_to tenant principal) rows))
unfolding principal_can_read_document
principal_can_read_document_iff tenant principal document_id r =
    let names = document_id_aliases document_id in
    ground (
      arith,
      any-rows_of (λ e. e.is_deny) tenant principal names r,
      any-rows_of (λ e. not e.is_deny) tenant principal names r,
    )

-- Inserting a row leaves an equal grant under the document, keeps every other row of it, and
-- touches no other document.
pub get_acl_entries-insert_acl_entry :
    (entry : AclEntry) (r : Repo) (document_id : Text)
    → get_acl_entries document_id (insert_acl_entry entry r) ≡ (
        if entry.document_id == document_id
        then (if any (same_grant entry) (get_acl_entries document_id r)
            then get_acl_entries document_id r
            else get_acl_entries document_id r ++ entry ∷ [])
        else get_acl_entries document_id r)
unfolding get_acl_entries insert_acl_entry
get_acl_entries-insert_acl_entry entry r document_id =
    let existing = or_empty (get entry.document_id r.acl_entries) in
    ground (
      arith,
      list_eqb_iff entry.document_id document_id,
      get-insert entry.document_id document_id
          (if any (same_grant entry) existing then existing else existing ++ entry ∷ [])
          r.acl_entries,
    )

pub bool_eqb_refl : (b : Bool) → bool_eqb b b ≡ true
bool_eqb_refl true = refl
bool_eqb_refl false = refl

pub same_grant_refl : (e : AclEntry) → same_grant e e ≡ true
same_grant_refl e = ground (
  arith,
  option_eqb_iff e.principal_id e.principal_id,
  option_eqb_iff e.group_id e.group_id,
  bool_eqb_refl e.is_deny,
)

-- After an insertion the document holds a row with the same holder and the same deny flag, the rows
-- it had are still there, and a second insertion of the row changes nothing.
pub insert_acl_entry_lem :
    (entry : AclEntry) (r : Repo) (p : AclEntry → Bool)
    → let rows = get_acl_entries entry.document_id r in
      let rows' = get_acl_entries entry.document_id (insert_acl_entry entry r) in
      (any (same_grant entry) rows' ≡ true)
      × ((any p rows ≡ true) → any p rows' ≡ true)
      × (get_acl_entries entry.document_id (insert_acl_entry entry (insert_acl_entry entry r))
          ≡ rows')
insert_acl_entry_lem entry r p =
    let id = entry.document_id in
    let rows = get_acl_entries id r in
    let same = same_grant_refl entry in
    let once = get_acl_entries-insert_acl_entry entry r id in
    let twice = get_acl_entries-insert_acl_entry entry (insert_acl_entry entry r) id in
    let added = any-append (same_grant entry) rows (entry ∷ []) in
    let kept = any-append p rows (entry ∷ []) in
    let here = list_eqb_iff id id in (ground arith, ground arith, ground arith)
