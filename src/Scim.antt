-- ===== src/Scim.antt =====
-- `SCIMSyncService`, backend/app/services/scim_sync.py. The tables are dicts by their keys, the rows of
-- the memberships a list for each group; a session flushes before it queries, and an exception rolls
-- its changes back. The constraints of the tables are those of backend/app/models/user.py and
-- backend/app/models/group.py. `uuid5` in the namespace of the principals and the new ids of groups
-- are parameters.
pub mod Again
pub mod Written
pub mod Members
use sync_ai_final.Base.{
  if◌then◌else◌, ◌==◌, nat_eq, list_eq, option_eq, pair_eq, is_empty, any, filter, contains, dedup,
  Text, codes, nonempty, Dict, keys, get, insert, ℕ, suc, ◌-◌, Bool, true, false, not, ◌&&◌, ◌||◌,
  Option, none, some, List, [], ◌∷◌, ◌++◌, map,
}
use sync_ai_final.Models.{Uuid, Time}

-- A missing text is empty. An email without a value is empty; `none` is no list of emails.
pub record ScimUser : Type 0 where
  pub id : Text
  pub emails : Option (List Text)
  pub display_name : Option Text
  pub user_name : Text
  pub profile : Text

pub record User : Type 0 where
  pub tenant_id : Uuid
  pub idp_subject : Text
  pub email : Text
  pub display_name : Text
  pub source_profiles : Text
  pub status : Text

abbrev pub Users : Type 0
Users = Dict Uuid User

pub record UserStats : Type 0 where
  pub created : ℕ
  pub updated : ℕ
  pub unchanged : ℕ

-- `scim_user.get("emails", [{}])[0].get("value", "")`: `none` is the `IndexError`.
abbrev pub email_of : ScimUser → Option Text
email_of u = elim u.emails [ none ↦ some [] | some [] ↦ none | some (e ∷ es) ↦ some e ]

abbrev pub display_name_of : ScimUser → Text
display_name_of u = elim u.display_name [ none ↦ u.user_name | some n ↦ n ]

module _ (uuid5 : Text → Uuid) (tenant_id : Uuid) where
  abbrev pub principal_of : ScimUser → Uuid
  principal_of u = uuid5 u.id

  abbrev pub new_user : ScimUser → Text → User
  new_user u email = record {
    tenant_id = tenant_id;
    idp_subject = u.id;
    email = email;
    display_name = display_name_of u;
    source_profiles = u.profile;
    status = codes "active";
  }

  -- The user whose row is `existing`, if there is one.
  unfoldable pub write_user : ScimUser → Text → Option User → UserStats × Users → UserStats × Users
  write_user u email (some existing) (stats, db) =
      if not (existing.email == email) || not (existing.display_name == display_name_of u)
      then (
        record stats { updated = suc stats.updated },
        insert (principal_of u)
            (record existing {
              email = email;
              display_name = display_name_of u;
              source_profiles = u.profile;
            })
            db,
      )
      else (record stats { unchanged = suc stats.unchanged }, db)
  write_user u email none (stats, db) =
      (record stats { created = suc stats.created }, insert (principal_of u) (new_user u email) db)

  -- `users.email` and `users.idp_subject` are unique.
  abbrev pub is_taken : Uuid → Text → Text → Uuid × User → Bool
  is_taken p idp_subject email (q, row) =
      not (q == p) && (row.email == email || row.idp_subject == idp_subject)

  -- The row that `write_user` writes, if it writes one, breaks a constraint.
  abbrev pub breaks_unique : ScimUser → Text → Option User → Users → Bool
  breaks_unique u email none db = any (is_taken (principal_of u) u.id email) db
  breaks_unique u email (some existing) db =
      not (existing.email == email) && any (is_taken (principal_of u) existing.idp_subject email) db

  -- `none` is the `IndexError`, or the `IntegrityError` at the next flush.
  unfoldable pub sync_user : ScimUser → UserStats × Users → Option (UserStats × Users)
  sync_user u state = if not (nonempty u.id) then some state else elim (email_of u) [
    | none ↦ none
    | some email ↦
        let existing = get (principal_of u) state.1 in
        if breaks_unique u email existing state.1
        then none
        else some (write_user u email existing state)
  ]

  unfoldable pub sync_loop : List ScimUser → UserStats × Users → Option (UserStats × Users)
  sync_loop [] state = some state
  sync_loop (u ∷ us) state = elim (sync_user u state) [
    | none ↦ none
    | some state' ↦ sync_loop us state'
  ]

  abbrev pub no_changes : UserStats
  no_changes = record { created = 0; updated = 0; unchanged = 0 }

  -- `none` is the exception, before the commit.
  unfoldable pub sync_users : List ScimUser → Users → Option (UserStats × Users)
  sync_users scim_users db = sync_loop scim_users (no_changes, db)

  pub record ScimGroup : Type 0 where
    pub id : Text
    pub display_name : Text
    pub members : List Text

  pub record Group : Type 0 where
    pub group_id : Uuid
    pub display_name : Text
    pub sync_version : ℕ
    pub last_membership_update : Time

  pub record Groups : Type 0 where
    pub groups : Dict (Uuid × Text) Group
    pub memberships : Dict Uuid (List Uuid)

  pub record GroupStats : Type 0 where
    pub created : ℕ
    pub updated : ℕ
    pub membership_changes : ℕ

  -- The principals of the members that have a value, each once.
  unfoldable pub new_memberships : List Text → List Uuid
  new_memberships members = dedup (map uuid5 (filter nonempty members))

  abbrev pub rows_of : Uuid → Dict Uuid (List Uuid) → List Uuid
  rows_of group_id d = elim (get group_id d) [ none ↦ [] | some ps ↦ ps ]

  -- `xs - ys`, of sets
  abbrev pub minus : List Uuid → List Uuid → List Uuid
  minus xs ys = filter (λ x. not (contains ys x)) xs

  -- The rows of the group, and whether they changed.
  unfoldable pub change_members :
      Uuid → List Text → Dict Uuid (List Uuid) → Bool × Dict Uuid (List Uuid)
  change_members group_id members d =
      let existing = rows_of group_id d in
      let new = new_memberships members in
      let to_add = minus new existing in
      let to_remove = minus existing new in
      if is_empty to_add && is_empty to_remove
      then (false, d)
      else (true, insert group_id (minus existing to_remove ++ to_add) d)

  -- Every principal has a row in the table of users.
  abbrev pub have_users : List Uuid → List Uuid → Bool
  have_users users [] = true
  have_users users (p ∷ ps) = contains users p && have_users users ps

  -- `users` are the principals of the table of users, to which a membership has a foreign key: `none` is
  -- the `IntegrityError` at the next flush.
  unfoldable pub update_group_membership :
      List Uuid → Uuid → List Text → Dict Uuid (List Uuid) → Option (Bool × Dict Uuid (List Uuid))
  update_group_membership users group_id members d =
      let to_add = minus (new_memberships members) (rows_of group_id d) in
      if have_users users to_add then some (change_members group_id members d) else none

  module _ (new_id : Text → Uuid) where
    abbrev pub new_group : Time → ScimGroup → Group
    new_group now g = record {
      group_id = new_id g.id;
      display_name = g.display_name;
      sync_version = 1;
      last_membership_update = now;
    }

    -- What is left to write once the members of the group are updated; `existing` is its row, if there
    -- is one.
    unfoldable pub write_group_row :
        Time
        → ScimGroup
        → Option Group
        → Bool × Dict Uuid (List Uuid)
        → GroupStats × Groups
        → GroupStats × Groups
    write_group_row now g (some existing) (changed, memberships') (stats, db) =
        if changed
        then (
          record stats {
            updated = suc stats.updated;
            membership_changes = suc stats.membership_changes;
          },
          record {
            groups =
                insert (tenant_id, g.id)
                  (record existing {
                    sync_version = suc existing.sync_version;
                    last_membership_update = now;
                  })
                  db.groups;
            memberships = memberships';
          },
        )
        else (
          record stats { updated = suc stats.updated },
          record { groups = db.groups; memberships = memberships' },
        )
    write_group_row now g none (changed, memberships') (stats, db) = (
      record stats { created = suc stats.created },
      record {
        groups = insert (tenant_id, g.id) (new_group now g) db.groups;
        memberships = memberships';
      },
    )

    abbrev pub group_id_of : ScimGroup → Option Group → Uuid
    group_id_of g none = new_id g.id
    group_id_of g (some existing) = existing.group_id

    unfoldable pub write_group :
        List Uuid
        → Time
        → ScimGroup
        → Option Group
        → GroupStats × Groups
        → Option (GroupStats × Groups)
    write_group users now g existing (stats, db) =
        elim (update_group_membership users (group_id_of g existing) g.members db.memberships) [
          | none ↦ none
          | some updated ↦ some (write_group_row now g existing updated (stats, db))
        ]

    unfoldable pub sync_groups :
        List Uuid → Time → List ScimGroup → GroupStats × Groups → Option (GroupStats × Groups)
    sync_groups users now [] state = some state
    sync_groups users now (g ∷ gs) state = elim (nonempty g.id) [
      | false ↦ sync_groups users now gs state
      | true ↦ elim (write_group users now g (get (tenant_id, g.id) state.1.groups) state) [
        | none ↦ none
        | some next ↦ sync_groups users now gs next
      ]
    ]
