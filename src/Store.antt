-- ===== src/Store.antt =====
-- `CanonicalRepo` of backend/app/storage/canonical_repo.py in its memory mode (`use_memory=True`).
-- A method takes the repository and returns it changed. The case mapping `str.lower` is the
-- parameter `lower`.
pub mod Documents
pub mod Entries
pub mod Containers
use sync_ai_final.Base.{
  if◌then◌else◌, ◌==◌, nat_eq, list_eq, option_eq, pair_eq, length, drop, is_empty, filter, dedup,
  Text, codes, nonempty, starts_with, strip, Dict, values, get, insert, erase, has_key, Bool, true,
  false, not, ◌&&◌, ◌||◌, Option, none, some, List, [], ◌∷◌, ◌++◌,
}
use sync_ai_final.Models.{
  Uuid, Time, CanonicalDocument, Principal, Group, AclEntry, ContainerAclEntry,
}

-- A row of the pending identity queue.
pub record PendingRow : Type 0 where
  pub id : Uuid
  pub tenant_id : Uuid
  pub source_account_id : Option Uuid
  pub document_id : Text
  pub shared_email : Text
  pub first_seen_at : Time
  pub resolved_at : Option Time
  pub resolved_principal_id : Option Uuid

pub record Repo : Type 0 where
  pub documents : Dict Text CanonicalDocument
  pub principals : Dict Uuid Principal
  pub principals_by_email : Dict (Uuid × Text) Principal
  pub groups : Dict Uuid Group
  pub groups_by_email : Dict (Uuid × Text) Group
  pub groups_by_source : Dict (Text × (Text × Uuid)) Group
  pub acl_entries : Dict Text (List AclEntry)
  pub container_acl_entries : Dict (Text × Uuid) (List ContainerAclEntry)
  pub container_edges : Dict (Text × Uuid) Text
  pub login_users_by_email : Dict (Uuid × Text) (Uuid × Text)
  pub pending_identity : Dict (Uuid × (Text × Text)) PendingRow

abbrev pub empty_repo : Repo
empty_repo = record {
  documents = [];
  principals = [];
  principals_by_email = [];
  groups = [];
  groups_by_email = [];
  groups_by_source = [];
  acl_entries = [];
  container_acl_entries = [];
  container_edges = [];
  login_users_by_email = [];
  pending_identity = [];
}

abbrev pub or_empty {ℓ} : {A : Type ℓ} → Option (List A) → List A
or_empty none = []
or_empty (some xs) = xs

-- Documents

unfoldable pub upsert_document : CanonicalDocument → Repo → Repo
upsert_document doc r = record r { documents = insert doc.id doc r.documents }

unfoldable pub get_document : Text → Repo → Option CanonicalDocument
get_document document_id r = get document_id r.documents

abbrev pub drive_prefix : Text
drive_prefix = codes "google_drive_"

abbrev pub gmail_prefix : Text
gmail_prefix = codes "google_gmail_"

-- One turn of the loop over the two prefixes.
unfoldable pub alias_for : Text → Text → List Text
alias_for raw prefix =
    let rest = drop (length prefix) raw in
    if starts_with raw prefix && nonempty rest
    then rest ∷ []
    else if not (starts_with raw drive_prefix || starts_with raw gmail_prefix)
    then (prefix ++ raw) ∷ []
    else []

unfoldable pub document_id_aliases : Text → List Text
document_id_aliases document_id =
    let raw = strip document_id in
    if not (nonempty raw)
    then []
    else dedup (raw ∷ (alias_for raw drive_prefix ++ alias_for raw gmail_prefix))

-- `pop(alias, None)` on both dicts
unfoldable pub pop_aliases : List Text → Repo → Repo
pop_aliases [] r = r
pop_aliases (a ∷ as') r =
    pop_aliases as'
      (record r { documents = erase a r.documents; acl_entries = erase a r.acl_entries })

unfoldable pub delete_documents_and_acls : List Text → Uuid → Repo → Repo
delete_documents_and_acls [] tenant_id r = r
delete_documents_and_acls (doc_id ∷ ids) tenant_id r =
    delete_documents_and_acls ids tenant_id (pop_aliases (document_id_aliases doc_id) r)

module _ (source_type : Text) (tenant : Uuid) where
  unfoldable pub matching_ids : Dict Text CanonicalDocument → List Text
  matching_ids [] = []
  matching_ids ((doc_id, doc) ∷ d) =
      if doc.source_type == source_type && doc.tenant_id == tenant
      then doc_id ∷ matching_ids d
      else matching_ids d

  abbrev pub of_source : AclEntry → Bool
  of_source e = e.source_type == source_type && e.tenant_id == tenant

  -- The lists without the source's entries; a list that is empty then goes.
  unfoldable pub drop_lingering : Dict Text (List AclEntry) → Dict Text (List AclEntry)
  drop_lingering [] = []
  drop_lingering ((doc_key, entries) ∷ d) =
      let kept = filter (λ e. not (of_source e)) entries in
      if is_empty kept then drop_lingering d else (doc_key, kept) ∷ drop_lingering d

  unfoldable pub delete_documents_by_source : Repo → List Text × Repo
  delete_documents_by_source r =
      let matched = matching_ids r.documents in
      let r' = delete_documents_and_acls matched tenant r in
      (matched, record r' { acl_entries = drop_lingering r'.acl_entries })

-- Principals and groups

module _ (lower : Text → Text) where
  -- `none` is the `ValueError` of an email that exists.
  unfoldable pub create_principal : Principal → Repo → Option Repo
  create_principal p r =
      let email_key : Uuid × Text = (p.tenant_id, lower p.email) in
      if has_key email_key r.principals_by_email
      then none
      else some (record r {
        principals = insert p.id p r.principals;
        principals_by_email = insert email_key p r.principals_by_email;
      })

  unfoldable pub update_principal : Principal → Repo → Repo
  update_principal p r = record r {
    principals = insert p.id p r.principals;
    principals_by_email = insert (p.tenant_id, lower p.email) p r.principals_by_email;
  }

  unfoldable pub get_principal_by_email : Text → Uuid → Repo → Option Principal
  get_principal_by_email email tenant_id r = get (tenant_id, lower email) r.principals_by_email

  unfoldable pub create_group : Group → Repo → Repo
  create_group g r = record r {
    groups = insert g.id g r.groups;
    groups_by_email = elim g.email [
      | none ↦ r.groups_by_email
      | some email ↦
          if nonempty email
          then insert (g.tenant_id, lower email) g r.groups_by_email
          else r.groups_by_email
    ];
    groups_by_source = insert (g.source_type, (g.source_id, g.tenant_id)) g r.groups_by_source;
  }

  unfoldable pub get_group_by_email : Text → Uuid → Repo → Option Group
  get_group_by_email email tenant_id r = get (tenant_id, lower email) r.groups_by_email

  unfoldable pub register_login_user : Uuid → Text → Uuid → Repo → Repo
  register_login_user tenant_id email principal_id r =
      let normalized = lower (strip email) in
      record r {
        login_users_by_email =
            insert (tenant_id, normalized) (principal_id, normalized) r.login_users_by_email;
      }

  unfoldable pub get_login_user_by_email : Text → Uuid → Repo → Option (Uuid × Text)
  get_login_user_by_email email tenant_id r =
      let normalized = lower (strip email) in
      if not (nonempty normalized) then none else get (tenant_id, normalized) r.login_users_by_email

  -- `fresh` is the `uuid4()` of the new row, `now` the clock.
  unfoldable pub upsert_pending_identity :
      (fresh : Uuid) (now : Time) → Uuid → Text → Text → Option Uuid → Repo → Bool × Repo
  upsert_pending_identity fresh now tenant document_id shared_email source_account_id r =
      let email = lower (strip shared_email) in
      let key : Uuid × (Text × Text) = (tenant, (document_id, email)) in
      if has_key key r.pending_identity then (false, r) else (
        true,
        record r {
          pending_identity =
              insert key
                (record {
                  id = fresh;
                  tenant_id = tenant;
                  source_account_id = source_account_id;
                  document_id = document_id;
                  shared_email = email;
                  first_seen_at = now;
                  resolved_at = none;
                  resolved_principal_id = none;
                })
                r.pending_identity;
        },
      )

-- The loop over `self._principals.values()`.
unfoldable pub find_by_source : Text → Text → Uuid → List Principal → Option Principal
find_by_source source_type external_id tenant_id [] = none
find_by_source source_type external_id tenant_id (p ∷ ps) =
    if p.tenant_id == tenant_id && get source_type p.source_identities == some external_id
    then some p
    else find_by_source source_type external_id tenant_id ps

unfoldable pub get_principal_by_source_identity : Text → Text → Uuid → Repo → Option Principal
get_principal_by_source_identity source_type external_id tenant_id r =
    find_by_source source_type external_id tenant_id (values r.principals)

unfoldable pub get_group : Uuid → Uuid → Repo → Option Group
get_group group_id tenant_id r = elim (get group_id r.groups) [
  | none ↦ none
  | some g ↦ if g.tenant_id == tenant_id then some g else none
]

unfoldable pub get_group_by_source_identity : Text → Text → Uuid → Repo → Option Group
get_group_by_source_identity source_type source_id tenant_id r =
    get (source_type, (source_id, tenant_id)) r.groups_by_source
