-- ===== src/Connectors.antt =====
-- The runtime status of a connector, backend/app/connectors/google/status_store.py. Redis is a dict, and
-- no client is `none`; its calls do not fail here. A stored status reads back as it was written.
pub mod Disconnected
use sync_ai_final.Base.{
  if◌then◌else◌, ◌==◌, nat_eq, list_eq, option_eq, pair_eq, contains, Text, codes, nonempty, strip,
  Dict, get, insert, ℕ, ◌+◌, Bool, false, not, ◌&&◌, Option, none, some, [], ◌∷◌, ◌++◌,
}
use sync_ai_final.Models.{Time}

pub record Status : Type 0 where
  pub connection_status : Text
  pub files_indexed : ℕ
  pub last_sync_at : Option Time
  pub last_error : Option Text

abbrev pub Client : Type 0
Client = Option (Dict Text Status)

abbrev pub not_connected : Text
not_connected = codes "not_connected"

unfoldable pub status_key : Text → Text → Text → Text
status_key tenant_id source_type user_id =
    let uid = strip user_id in
    let prefix = codes "connector_status:" ++ tenant_id ++ codes ":" in
    if nonempty uid then prefix ++ uid ++ codes ":" ++ source_type else prefix ++ source_type

abbrev pub empty_status : Status
empty_status = record {
  connection_status = not_connected;
  files_indexed = 0;
  last_sync_at = none;
  last_error = none;
}

unfoldable pub get_status_raw : Text → Client → Option Status
get_status_raw key none = none
get_status_raw key (some redis) = get key redis

unfoldable pub get_status : Text → Client → Status
get_status key client = elim (get_status_raw key client) [ none ↦ empty_status | some s ↦ s ]

unfoldable pub is_disconnected : Text → Client → Bool
is_disconnected key client = elim (get_status_raw key client) [
  | none ↦ false
  | some s ↦ s.connection_status == not_connected
]

-- `client.set(key, ...)`, if there is a client
abbrev pub put_status : Text → Status → Client → Client
put_status key s none = none
put_status key s (some redis) = some (insert key s redis)

unfoldable pub clear_status : Text → Client → Status × Client
clear_status key client = (empty_status, put_status key empty_status client)

-- The keyword arguments of `set_status`.
pub record StatusUpdate : Type 0 where
  pub connection_status : Option Text
  pub files_indexed : Option ℕ
  pub last_error : Option Text
  pub increment_indexed : ℕ
  pub force : Bool

-- `connection_status in (...)`
abbrev pub is_synced : Option Text → Bool
is_synced none = false
is_synced (some s) = contains (codes "active" ∷ codes "error" ∷ codes "needs_reauth" ∷ []) s

abbrev pub updated_status : Time → StatusUpdate → Status → Status
updated_status now u current = record {
  connection_status = elim u.connection_status [
    | none ↦ current.connection_status
    | some s ↦ if nonempty s then s else current.connection_status
  ];
  files_indexed = elim u.files_indexed [
    | none ↦ current.files_indexed + u.increment_indexed
    | some n ↦ n
  ];
  last_sync_at = if is_synced u.connection_status then some now else current.last_sync_at;
  last_error = elim u.last_error [ none ↦ current.last_error | some e ↦ some e ];
}

unfoldable pub set_status : Time → Text → StatusUpdate → Client → Status × Client
set_status now key u client =
    let current = get_status key client in
    let next = updated_status now u current in
    if not u.force && is_disconnected key client && not (u.connection_status == some not_connected)
    then (current, client)
    else (next, put_status key next client)
