-- ===== src/Tests/Samples.antt =====
-- Small inputs.
use sync_ai_final.Base.{
  leb, if◌then◌else◌, nat_eq, list_eq, option_eq, pair_eq, Text, codes, ◌+◌, Bool, true, false,
  ◌&&◌, Option, none, some, List, [], ◌∷◌,
}
use sync_ai_final.Models.{
  Uuid, PermissionLevel, read, write, owner, CanonicalDocument, AclEntry, ContainerAclEntry,
}
use sync_ai_final.Store.{Repo, empty_repo}
use sync_ai_final.Acl.Service.{Service}

-- `str.lower` on ASCII.
abbrev pub ascii_lower : Text → Text
ascii_lower [] = []
ascii_lower (c ∷ s) = (if leb 65 c && leb c 90 then c + 32 else c) ∷ ascii_lower s

abbrev pub entry_of : Text → Option Uuid → Option Uuid → PermissionLevel → Bool → AclEntry
entry_of doc principal group level deny = record {
  document_id = doc;
  principal_id = principal;
  group_id = group;
  permission = level;
  granted_via = codes "direct";
  source_container_id = none;
  is_deny = deny;
  source_type = codes "onedrive";
  tenant_id = 1;
  created_at = 0;
  updated_at = 0;
}

abbrev pub doc_a : Text
doc_a = codes "a"

-- Principal 7 may write and read, and is denied; principal 8 may read.
abbrev pub rows : List AclEntry
rows =
    entry_of doc_a (some 7) none write false
    ∷ entry_of doc_a (some 8) none read false
    ∷ entry_of doc_a (some 7) none read true
    ∷ entry_of doc_a (some 8) none owner false
    ∷ []

abbrev pub stored : Repo
stored = record empty_repo { acl_entries = (doc_a, rows) ∷ [] }

-- Folders: leaf under mid under top.
abbrev pub leaf : Text
leaf = codes "leaf"

abbrev pub mid : Text
mid = codes "mid"

abbrev pub top : Text
top = codes "top"

abbrev pub container_row : Text → Option Uuid → Bool → ContainerAclEntry
container_row c p deny = record {
  container_id = c;
  principal_id = p;
  group_id = none;
  permission = read;
  is_deny = deny;
  source_type = codes "onedrive";
  tenant_id = 1;
  created_at = 0;
  updated_at = 0;
}

abbrev pub folders : Repo
folders = record empty_repo {
  container_edges = ((leaf, 1), mid) ∷ ((mid, 1), top) ∷ [];
  container_acl_entries =
      ((mid, 1), container_row mid (some 7) true ∷ container_row mid (some 8) false ∷ [])
      ∷ ((top, 1), container_row top (some 7) false ∷ [])
      ∷ [];
}

abbrev pub service : Service
service = record { repo = folders; cache_ttl = 600; ancestor_cache = []; cache_timestamps = [] }

abbrev pub document : CanonicalDocument
document = record {
  id = doc_a;
  source_type = codes "onedrive";
  source_id = doc_a;
  tenant_id = 1;
  title = doc_a;
  content = [];
  url = none;
  mime_type = [];
  detected_mime_type = [];
  mime_mismatch = false;
  file_extension = none;
  size_bytes = none;
  created_at = 0;
  updated_at = 0;
  source_updated_at = 0;
  owner_principal_id = none;
  creator_principal_id = none;
  last_modifier_principal_id = none;
  structured_metadata = [];
  parent_ids = leaf ∷ [];
}
