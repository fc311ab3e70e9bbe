-- ===== src/Models.antt =====
-- The data models of Block C, backend/app/core/models.py. UUIDs and times are only compared, so
-- they are numbers; the values of free metadata are the text of their JSON.
use sync_ai_final.Base.{nat_eq, list_eq, option_eq, pair_eq, Text, Dict, ℕ, Bool, Option, List}

abbrev pub Uuid : Type 0
Uuid = ℕ

abbrev pub Time : Type 0
Time = ℕ

pub data PermissionLevel : Type 0 where
  none_level read write delete owner : PermissionLevel

pub record CanonicalDocument : Type 0 where
  pub id : Text
  pub source_type : Text
  pub source_id : Text
  pub tenant_id : Uuid
  pub title : Text
  pub content : Text
  pub url : Option Text
  pub mime_type : Text
  pub detected_mime_type : Text
  pub mime_mismatch : Bool
  pub file_extension : Option Text
  pub size_bytes : Option ℕ
  pub created_at : Time
  pub updated_at : Time
  pub source_updated_at : Time
  pub owner_principal_id : Option Uuid
  pub creator_principal_id : Option Uuid
  pub last_modifier_principal_id : Option Uuid
  pub structured_metadata : Dict Text Text
  pub parent_ids : List Text

pub record Principal : Type 0 where
  pub id : Uuid
  pub tenant_id : Uuid
  pub email : Text
  pub name : Option Text
  pub source_identities : Dict Text Text
  pub created_at : Time
  pub updated_at : Time

pub record Group : Type 0 where
  pub id : Uuid
  pub tenant_id : Uuid
  pub name : Text
  pub email : Option Text
  pub source_type : Text
  pub source_id : Text
  pub member_principal_ids : List Uuid
  pub member_group_ids : List Uuid
  pub created_at : Time
  pub updated_at : Time

pub record AclEntry : Type 0 where
  pub document_id : Text
  pub principal_id : Option Uuid
  pub group_id : Option Uuid
  pub permission : PermissionLevel
  pub granted_via : Text
  pub source_container_id : Option Text
  pub is_deny : Bool
  pub source_type : Text
  pub tenant_id : Uuid
  pub created_at : Time
  pub updated_at : Time

pub record ContainerAclEntry : Type 0 where
  pub container_id : Text
  pub principal_id : Option Uuid
  pub group_id : Option Uuid
  pub permission : PermissionLevel
  pub is_deny : Bool
  pub source_type : Text
  pub tenant_id : Uuid
  pub created_at : Time
  pub updated_at : Time

pub record ContainerEdge : Type 0 where
  pub parent_container_id : Text
  pub child_container_id : Text
  pub tenant_id : Uuid
  pub source_type : Text
  pub created_at : Time

pub record IdentityHint : Type 0 where
  pub source_type : Text
  pub external_id : Text
  pub email : Option Text
  pub username : Option Text
  pub name : Option Text

-- `matched_on`
pub data MatchedOn : Type 0 where
  by_email by_username by_new by_pending : MatchedOn

-- The confidences that the resolver gives are 1.0, 0.8 and 0.0: they stand in tenths.
pub record ResolvedIdentity : Type 0 where
  pub principal_id : Option Uuid
  pub principal : Option Principal
  pub confidence : ℕ
  pub matched_on : MatchedOn
  pub is_pending : Bool
