-- ===== src/Session.antt =====
-- `McpSessionCache`, backend/app/services/mcp_gateway/revocation.py: the sessions and the revocations
-- that a gateway has seen. `now` is the monotonic clock of a call.
pub mod Revoked
use sync_ai_final.Base.{
  ltb, if◌then◌else◌, ◌==◌, nat_eq, list_eq, option_eq, pair_eq, contains, Text, codes, nonempty,
  Dict, get, insert, erase, ℕ, ◌-◌, Bool, not, ◌&&◌, ◌||◌, none, some, List, [], ◌∷◌,
}
use sync_ai_final.Models.{Time}
use sync_ai_final.Store.{or_empty}

-- The token ids of a tenant, each with its principal and the time at which it was cached.
abbrev pub SessionBucket : Type 0
SessionBucket = Dict Text (Text × Time)

pub record SessionCache : Type 0 where
  pub ttl_seconds : ℕ
  pub entries : Dict Text SessionBucket
  pub revoked_jtis : Dict Text (List Text)
  pub revoked_principals : Dict Text (List Text)

-- The payload of a message; a key that is missing is the empty text.
pub record Event : Type 0 where
  pub event_type : Text
  pub tenant_id : Text
  pub jti : Text
  pub principal_id : Text

abbrev pub token_revoked : Text
token_revoked = codes "token_revoked"

abbrev pub session_revoked : Text
session_revoked = codes "session_revoked"

-- `setdefault(tenant_id, set()).add(x)`
unfoldable pub add_revoked : Text → Text → Dict Text (List Text) → Dict Text (List Text)
add_revoked tenant_id x d =
    let old = or_empty (get tenant_id d) in
    insert tenant_id (if contains old x then old else x ∷ old) d

-- A change of a bucket that is there: `self._entries.get(tenant_id, {})` is new if there is none.
unfoldable pub change_bucket :
    Text → (SessionBucket → SessionBucket) → Dict Text SessionBucket → Dict Text SessionBucket
change_bucket tenant_id change entries = elim (get tenant_id entries) [
  | none ↦ entries
  | some bucket ↦ insert tenant_id (change bucket) entries
]

unfoldable pub without_principal : Text → SessionBucket → SessionBucket
without_principal principal_id [] = []
without_principal principal_id ((jti, (pid, at)) ∷ bucket) =
    if pid == principal_id
    then without_principal principal_id bucket
    else (jti, (pid, at)) ∷ without_principal principal_id bucket

unfoldable pub not_expired : ℕ → Time → SessionBucket → SessionBucket
not_expired ttl now [] = []
not_expired ttl now ((jti, (pid, at)) ∷ bucket) =
    if ltb ttl (now - at)
    then not_expired ttl now bucket
    else (jti, (pid, at)) ∷ not_expired ttl now bucket

unfoldable pub remember : Time → Text → Text → Text → SessionCache → SessionCache
remember now tenant_id jti principal_id c = if not (nonempty jti) then c else record c {
  entries =
      insert tenant_id (insert jti (principal_id, now) (or_empty (get tenant_id c.entries)))
        c.entries;
}

unfoldable pub expire : Time → Text → SessionCache → SessionCache
expire now tenant_id c = record c {
  entries = change_bucket tenant_id (not_expired c.ttl_seconds now) c.entries;
}

unfoldable pub is_revoked : Time → Text → Text → Text → SessionCache → Bool × SessionCache
is_revoked now tenant_id jti principal_id c =
    let c' = expire now tenant_id c in
    let by_token = nonempty jti && contains (or_empty (get tenant_id c'.revoked_jtis)) jti in
    let by_principal =
      nonempty principal_id
      && contains (or_empty (get tenant_id c'.revoked_principals)) principal_id in
    (by_token || by_principal, c')

unfoldable pub apply_event : Event → SessionCache → SessionCache
apply_event e c =
    if not (nonempty e.tenant_id)
    then c
    else if e.event_type == token_revoked
    then if not (nonempty e.jti) then c else record c {
      revoked_jtis = add_revoked e.tenant_id e.jti c.revoked_jtis;
      entries = change_bucket e.tenant_id (erase e.jti) c.entries;
    }
    else if e.event_type == session_revoked
    then if not (nonempty e.principal_id) then c else record c {
      revoked_principals = add_revoked e.tenant_id e.principal_id c.revoked_principals;
      entries = change_bucket e.tenant_id (without_principal e.principal_id) c.entries;
    }
    else c
