-- ===== src/Acl/Compiler.antt =====
-- `ACLCompiler`, backend/app/acl/compiler.py. The state is the container service, which holds the
-- repository, with the identity resolver's cache and its count of drawn UUIDs.
pub mod Allow
pub mod Deny
pub mod Expand
use sync_ai_final.Base.{
  ltb, if◌then◌else◌, is_some, ◌==◌, nat_eq, list_eq, option_eq, pair_eq, length, contains, Text,
  codes, nonempty, starts_with, Dict, values, keys, get, insert, ℕ, zero, suc, Bool, false, not,
  ◌&&◌, ◌||◌, Option, none, some, List, [], ◌∷◌, ◌++◌, map,
}
use sync_ai_final.Models.{
  Uuid, Time, PermissionLevel, none_level, read, write, delete, owner, CanonicalDocument, Group,
  AclEntry, IdentityHint, ResolvedIdentity,
}
use sync_ai_final.Store.{
  Repo, create_group, get_group_by_email, get_group, get_group_by_source_identity,
}
use sync_ai_final.Identity.{
  Matcher, google_drive, google_gmail, is_mirror_source, pending, bind, resolve,
}
use sync_ai_final.Acl.Service.{Service}
use sync_ai_final.Acl.Inheritance.{id_key_eq, compute_inherited_entries}

pub record State : Type 0 where
  pub service : Service
  pub email_cache : Dict (Uuid × Text) (Option (Uuid × Text))
  pub draws : ℕ

unfoldable pub permission_rank : PermissionLevel → ℕ
permission_rank none_level = 0
permission_rank read = 1
permission_rank write = 2
permission_rank delete = 3
permission_rank owner = 4

unfoldable pub granted_via : Text → Text
granted_via source_type =
    if source_type == google_drive
    then codes "drive_share"
    else if source_type == google_gmail
    then codes "gmail_mailbox"
    else codes "direct"

-- Deny overrides and deduplication

abbrev pub Key : Type 0
Key = Text × Option Uuid

abbrev pub key_of : AclEntry → Key
key_of e = (e.document_id, e.principal_id)

-- The first loop: the keys of the denies of a principal.
unfoldable pub deny_keys : List AclEntry → List Key
deny_keys [] = []
deny_keys (e ∷ es) =
    if e.is_deny && is_some e.principal_id then key_of e ∷ deny_keys es else deny_keys es

-- The second loop: an allow of a principal that has a deny goes.
unfoldable pub drop_denied : List Key → List AclEntry → List AclEntry
drop_denied denied [] = []
drop_denied denied (e ∷ es) =
    if is_some e.principal_id && contains denied (key_of e) && not e.is_deny
    then drop_denied denied es
    else e ∷ drop_denied denied es

unfoldable pub keep_best : AclEntry → Dict Key AclEntry → Dict Key AclEntry
keep_best e best = elim (get (key_of e) best) [
  | none ↦ insert (key_of e) e best
  | some old ↦
      if ltb (permission_rank old.permission) (permission_rank e.permission)
      then insert (key_of e) e best
      else best
]

unfoldable pub best_entries : List AclEntry → Dict Key AclEntry → Dict Key AclEntry
best_entries [] best = best
best_entries (e ∷ es) best = best_entries es (keep_best e best)

unfoldable pub apply_deny_overrides : List AclEntry → List AclEntry
apply_deny_overrides entries = values (best_entries (drop_denied (deny_keys entries) entries) [])

-- Group membership

-- The recursion over nested groups, on fuel; `visited` is the shared set, which comes back.
module _ (r : Repo) (tenant_id : Uuid) where
  -- The loop over nested groups, given the recursive call.
  unfoldable pub expand_nested :
      (Group → List Uuid → List Uuid × List Uuid) → List Uuid → List Uuid → List Uuid × List Uuid
  expand_nested rec [] visited = ([], visited)
  expand_nested rec (id ∷ ids) visited =
      let (found_here, visited') : List Uuid × List Uuid = elim (get_group id tenant_id r) [
        | none ↦ ([], visited)
        | some g ↦ rec g visited
      ] in
      let (others, visited'') = expand_nested rec ids visited' in (found_here ++ others, visited'')

  unfoldable pub expand_members : ℕ → Group → List Uuid → List Uuid × List Uuid
  expand_members zero group visited = ([], visited)
  expand_members (suc fuel) group visited =
      if contains visited group.id
      then ([], visited)
      else let (nested, visited') =
          expand_nested (expand_members fuel) group.member_group_ids (group.id ∷ visited) in
        (group.member_principal_ids ++ nested, visited')

  -- Every nested call is on a group that is stored and was not visited, so that the number of stored
  -- groups and one more is enough fuel.
  abbrev pub enough_fuel : ℕ
  enough_fuel = suc (length r.groups)

module _ (now : Time) where
  abbrev pub member_entry : AclEntry → Uuid → Uuid → AclEntry
  member_entry entry tenant_id principal_id = record entry {
    principal_id = some principal_id;
    group_id = none;
    granted_via = codes "group_membership";
    tenant_id = tenant_id;
    created_at = now;
    updated_at = now;
  }

  unfoldable pub expand_entry : Repo → Uuid → AclEntry → List AclEntry
  expand_entry r tenant_id entry = elim entry.group_id [
    | none ↦ []
    | some id ↦ elim (get_group id tenant_id r) [
      | none ↦ []
      | some group ↦
          map (member_entry entry tenant_id)
            (expand_members r tenant_id (enough_fuel r tenant_id) group []).0
    ]
  ]

  unfoldable pub expand_group_membership : Repo → Uuid → List AclEntry → List AclEntry
  expand_group_membership r tenant_id [] = []
  expand_group_membership r tenant_id (e ∷ es) =
      expand_entry r tenant_id e ++ expand_group_membership r tenant_id es

  abbrev pub direct_entry :
      CanonicalDocument → Uuid → PermissionLevel → Text → Option Uuid → Option Uuid → AclEntry
  direct_entry document tenant_id level via principal_id group_id = record {
    document_id = document.id;
    principal_id = principal_id;
    group_id = group_id;
    permission = level;
    granted_via = via;
    source_container_id = none;
    is_deny = false;
    source_type = document.source_type;
    tenant_id = tenant_id;
    created_at = now;
    updated_at = now;
  }

  abbrev pub repo_of : State → Repo
  repo_of s = s.service.repo

  abbrev pub set_repo : Repo → State → State
  set_repo r s = let sv = s.service in record s { service = record sv { repo = r } }

  module _ (lower : Text → Text) (valid_email : Text → Bool) (uuid4 : ℕ → Uuid)
      (matchers : List Matcher) where
    unfoldable pub is_group_hint : IdentityHint → Uuid → Repo → Bool
    is_group_hint hint tenant_id r =
        let by_mail : Bool = elim hint.email [
          | none ↦ false
          | some m ↦ nonempty m && is_some (get_group_by_email lower m tenant_id r)
        ] in
        starts_with hint.external_id (codes "group:") || by_mail

    -- `hint.name or hint.email or hint.external_id`
    abbrev pub group_name : IdentityHint → Text
    group_name hint =
        let by_mail : Text = elim hint.email [
          | none ↦ hint.external_id
          | some m ↦ if nonempty m then m else hint.external_id
        ] in
        elim hint.name [ none ↦ by_mail | some n ↦ if nonempty n then n else by_mail ]

    abbrev pub new_group : Uuid → IdentityHint → Uuid → Group
    new_group id hint tenant_id = record {
      id = id;
      tenant_id = tenant_id;
      name = group_name hint;
      email = hint.email;
      source_type = hint.source_type;
      source_id = hint.external_id;
      member_principal_ids = [];
      member_group_ids = [];
      created_at = now;
      updated_at = now;
    }

    unfoldable pub resolve_group : IdentityHint → Uuid → State → Group × State
    resolve_group hint tenant_id s =
        let r = repo_of s in
        let by_mail : Option Group = elim hint.email [
          | none ↦ none
          | some m ↦ if nonempty m then get_group_by_email lower m tenant_id r else none
        ] in
        let group = new_group (uuid4 s.draws) hint tenant_id in
        let made : State =
          set_repo (create_group lower group r) (record s { draws = suc s.draws }) in
        elim (get_group_by_source_identity hint.source_type hint.external_id tenant_id r) [
          | some g ↦ (g, s)
          | none ↦ elim by_mail [ some g ↦ (g, s) | none ↦ (group, made) ]
        ]

    -- The resolver on the compiler's state.
    unfoldable pub resolve_hint :
        IdentityHint → Uuid → Text → State → Option ResolvedIdentity × State
    resolve_hint hint tenant_id document_id s =
        let (res, r) =
          resolve lower valid_email uuid4 now matchers hint tenant_id (some document_id) none
            (record { repo = repo_of s; email_cache = s.email_cache; draws = s.draws }) in
        (res, set_repo r.repo (record s { email_cache = r.email_cache; draws = r.draws }))

    -- The principal that an entry is made for: not after an exception, nor where the bind is pending.
    abbrev pub bound_id : Option ResolvedIdentity → Option Uuid
    bound_id none = none
    bound_id (some res) = if res.is_pending then none else res.principal_id

    -- One turn of the loop over the permission hints.
    unfoldable pub compile_hint :
        CanonicalDocument → Uuid → IdentityHint → PermissionLevel → State → List AclEntry × State
    compile_hint document tenant_id hint level s =
        let (group, sg) = resolve_group hint tenant_id s in
        let (res, sp) = resolve_hint hint tenant_id document.id s in
        if not (is_mirror_source hint.source_type) && is_group_hint hint tenant_id (repo_of s)
        then (direct_entry document tenant_id level (codes "direct") none (some group.id) ∷ [], sg)
        else (
          elim (bound_id res) [
            | none ↦ []
            | some id ↦
                direct_entry document tenant_id level (granted_via document.source_type) (some id)
                  none
                ∷ []
          ],
          sp,
        )

    unfoldable pub compile_direct_entries :
        CanonicalDocument
        → List (IdentityHint × PermissionLevel)
        → Uuid
        → State
        → List AclEntry × State
    compile_direct_entries document [] tenant_id s = ([], s)
    compile_direct_entries document ((hint, level) ∷ hints) tenant_id s =
        let (entries, s') = compile_hint document tenant_id hint level s in
        let (others, s'') = compile_direct_entries document hints tenant_id s' in
        (entries ++ others, s'')

    -- The entries before the deny overrides.
    unfoldable pub compile_all :
        CanonicalDocument
        → List (IdentityHint × PermissionLevel)
        → Uuid
        → State
        → List AclEntry × State
    compile_all document hints tenant_id s =
        let (direct, s1) = compile_direct_entries document hints tenant_id s in
        let (inherited, sv) = compute_inherited_entries now document s1.service in
        let s2 : State = record s1 { service = sv } in
        let all_entries = direct ++ inherited in
        if is_mirror_source document.source_type
        then (direct, s1)
        else (all_entries ++ expand_group_membership sv.repo tenant_id all_entries, s2)

    unfoldable pub compile :
        CanonicalDocument
        → List (IdentityHint × PermissionLevel)
        → Uuid
        → State
        → List AclEntry × State
    compile document hints tenant_id s =
        let (entries, s') = compile_all document hints tenant_id s in
        (apply_deny_overrides entries, s')
