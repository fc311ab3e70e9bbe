-- ===== src/Scim/Again.antt =====
-- Users that are synced twice.
use sync_ai_final.Base.{
  nat_eqb, Bool-cases, Option-cases, ◌==◌, nat_eq, list_eqb_iff, list_eq, option_eq, pair_eq,
  length, filter, contains, distinct, Text, nonempty, get, get-insert, suc, ◌+◌, ◌≡◌, refl, sym, ap,
  ◌∙◌, ◌⊎◌, inl, inr, Bool, true, false, not, ◌||◌, Option, none, some, List, [], ◌∷◌, map, arith,
}
use sync_ai_final.Models.{Uuid}
use sync_ai_final.Scim.{
  ScimUser, User, Users, UserStats, email_of, display_name_of, principal_of, new_user, write_user,
  breaks_unique, sync_user, sync_loop, no_changes, sync_users,
}

module _ (uuid5 : Text → Uuid) (tenant_id : Uuid) where
  -- The row of the user has what the feed says.
  abbrev IsSynced : ScimUser → Users → Type 0
  IsSynced u db =
      (row : User) × (get (principal_of uuid5 tenant_id u) db ≡ some row)
      × (some row.email ≡ email_of u)
      × (row.display_name ≡ display_name_of u)

  write_user-IsSynced :
      (u : ScimUser) (email : Text) (old : Option User) (stats : UserStats) (db : Users)
      → email_of u ≡ some email
      → get (principal_of uuid5 tenant_id u) db ≡ old
      → IsSynced u (write_user uuid5 tenant_id u email old (stats, db)).1
  unfolding write_user
  write_user-IsSynced u email none stats db e found = (
    new_user uuid5 tenant_id u email,
    ground (arith, get-insert (uuid5 u.id) (uuid5 u.id) (new_user uuid5 tenant_id u email) db),
    sym e,
    refl,
  )
  write_user-IsSynced u email (some row) stats db e found =
      let next : User = record row {
        email = email;
        display_name = display_name_of u;
        source_profiles = u.profile;
      } in
      elim (Bool-cases (not (row.email == email) || not (row.display_name == display_name_of u))) [
        | inl changed ↦ (
          next,
          rw (changed, write_user) (ground (arith, get-insert (uuid5 u.id) (uuid5 u.id) next db)),
          sym e,
          refl,
        )
        | inr same ↦
            let same_email : row.email ≡ email =
              ground (arith, same, list_eqb_iff row.email email) in
            let same_name : row.display_name ≡ display_name_of u =
              ground (arith, same, list_eqb_iff row.display_name (display_name_of u)) in
            (row, rw (same, write_user) found, ap some same_email ∙ sym e, same_name)
      ]

  get-write_user :
      (p : Uuid) (u : ScimUser) (email : Text) (old : Option User) (stats : UserStats) (db : Users)
      → nat_eqb (uuid5 u.id) p ≡ false
      → get p (write_user uuid5 tenant_id u email old (stats, db)).1 ≡ get p db
  unfolding write_user
  get-write_user p u email none stats db other =
      ground (arith, other, get-insert (uuid5 u.id) p (new_user uuid5 tenant_id u email) db)
  get-write_user p u email (some row) stats db other =
      let next : User = record row {
        email = email;
        display_name = display_name_of u;
        source_profiles = u.profile;
      } in
      ground (arith, other, get-insert (uuid5 u.id) p next db)

  -- The principals of the users with an id.
  abbrev pub named : ScimUser → Bool
  named u = nonempty u.id

  abbrev pub principals : List ScimUser → List Uuid
  principals us = map (principal_of uuid5 tenant_id) (filter named us)

  sync_user-blank :
      (u : ScimUser) (state : UserStats × Users)
      → nonempty u.id ≡ false
      → sync_user uuid5 tenant_id u state ≡ some state
  unfolding sync_user
  sync_user-blank u state blank = rw (blank, sync_user) refl

  sync_user-named :
      (u : ScimUser) (email : Text) (state : UserStats × Users)
      → nonempty u.id ≡ true
      → email_of u ≡ some email
      → breaks_unique uuid5 tenant_id u email (get (uuid5 u.id) state.1) state.1 ≡ false
      → sync_user uuid5 tenant_id u state
        ≡ some (write_user uuid5 tenant_id u email (get (uuid5 u.id) state.1) state)
  unfolding sync_user
  sync_user-named u email state given e fits = ground (arith, given, e, fits)

  write_user-unchanged :
      (u : ScimUser) (email : Text) (row : User) (stats : UserStats) (db : Users)
      → row.email ≡ email
      → row.display_name ≡ display_name_of u
      → write_user uuid5 tenant_id u email (some row) (stats, db)
        ≡ (record stats { unchanged = suc stats.unchanged }, db)
  unfolding write_user
  write_user-unchanged u email row stats db h q =
      let same : (not (row.email == email) || not (row.display_name == display_name_of u)) ≡ false =
        ground (
          arith,
          h,
          q,
          list_eqb_iff row.email email,
          list_eqb_iff row.display_name (display_name_of u),
        ) in
      rw (same, write_user) refl

  -- What a loop that succeeds does with its first user.
  first_user :
      (u : ScimUser) (us : List ScimUser) (state last : UserStats × Users)
      → sync_loop uuid5 tenant_id (u ∷ us) state ≡ some last
      → ((nonempty u.id ≡ false) × (sync_loop uuid5 tenant_id us state ≡ some last))
        ⊎ ((email : Text) × (nonempty u.id ≡ true)
            × (email_of u ≡ some email)
            × (sync_loop uuid5 tenant_id us
                  (write_user uuid5 tenant_id u email (get (uuid5 u.id) state.1) state)
                ≡ some last))
  unfolding sync_loop sync_user
  first_user u us state last h = elim (Bool-cases (nonempty u.id)) [
    | inr blank ↦ inl (blank, sym (rw (sync_user-blank u state blank, sync_loop) refl) ∙ h)
    | inl given ↦ elim (Option-cases (email_of u)) [
      | inl e ↦ ground (arith, h, given, e)
      | inr (email, e) ↦
          elim (Bool-cases
            (breaks_unique uuid5 tenant_id u email (get (uuid5 u.id) state.1) state.1)) [
              | inl broken ↦ ground (arith, h, given, e, broken)
              | inr fits ↦ inr (
                email,
                given,
                e,
                sym (rw (sync_user-named u email state given e fits, sync_loop) refl) ∙ h,
              )
            ]
    ]
  ]

  get-sync_loop :
      (p : Uuid) (us : List ScimUser) (stats : UserStats) (db : Users) (last : UserStats × Users)
      → sync_loop uuid5 tenant_id us (stats, db) ≡ some last
      → contains (principals us) p ≡ false
      → get p last.1 ≡ get p db
  unfolding sync_loop
  get-sync_loop p [] stats db last h q = ground (arith, h)
  get-sync_loop p (u ∷ us) stats db last h q = elim (first_user u us (stats, db) last h) [
    | inl (blank, rest) ↦ get-sync_loop p us stats db last rest (ground (arith, q, blank))
    | inr (email, given, e, rest) ↦
        let (stats', db') = write_user uuid5 tenant_id u email (get (uuid5 u.id) db) (stats, db) in
        get-sync_loop p us stats' db' last rest (ground (arith, q, given))
        ∙ get-write_user p u email (get (uuid5 u.id) db) stats db (ground (arith, q, given))
  ]

  abbrev AllSynced : List ScimUser → Users → Type 0
  AllSynced [] db = Unit
  AllSynced (u ∷ us) db = (nonempty u.id ≡ true → IsSynced u db) × AllSynced us db

  sync_loop-AllSynced :
      (us : List ScimUser) (stats : UserStats) (db : Users) (last : UserStats × Users)
      → distinct (principals us) ≡ true
      → sync_loop uuid5 tenant_id us (stats, db) ≡ some last
      → AllSynced us last.1
  unfolding sync_loop
  sync_loop-AllSynced [] stats db last d h = tt
  sync_loop-AllSynced (u ∷ us) stats db last d h = elim (first_user u us (stats, db) last h) [
    | inl (blank, rest) ↦ (
      λ given. ground (arith, blank, given),
      sync_loop-AllSynced us stats db last (ground (arith, d, blank)) rest,
    )
    | inr (email, given, e, rest) ↦
        let (stats', db') = write_user uuid5 tenant_id u email (get (uuid5 u.id) db) (stats, db) in
        let (row, found, same_email, same_name) =
          write_user-IsSynced u email (get (uuid5 u.id) db) stats db e refl in
        let later = get-sync_loop (uuid5 u.id) us stats' db' last rest (ground (arith, d, given)) in
        (
          λ _. (row, later ∙ found, same_email, same_name),
          sync_loop-AllSynced us stats' db' last (ground (arith, d, given)) rest,
        )
  ]

  sync_loop_again :
      (us : List ScimUser) (stats : UserStats) (db : Users)
      → AllSynced us db
      → sync_loop uuid5 tenant_id us (stats, db)
        ≡ some (record stats { unchanged = length (filter named us) + stats.unchanged }, db)
  unfolding sync_loop
  sync_loop_again [] stats db h = ground arith
  sync_loop_again (u ∷ us) stats db (synced, rest) = elim (Bool-cases (nonempty u.id)) [
    | inr blank ↦
        rw (sync_user-blank u (stats, db) blank, sync_loop)
          (sync_loop_again us stats db rest ∙ ground (arith, blank))
    | inl given ↦
        let (row, found, same_email, same_name) = synced given in
        let next : UserStats = record stats { unchanged = suc stats.unchanged } in
        let fits : breaks_unique uuid5 tenant_id u row.email (get (uuid5 u.id) db) db ≡ false =
          ground (arith, found, list_eqb_iff row.email row.email) in
        rw (sync_user-named u row.email (stats, db) given (sym same_email) fits, sync_loop)
          (rw found (
            rw (write_user-unchanged u row.email row stats db refl same_name)
              (sync_loop_again us next db rest ∙ ground (arith, given))))
  ]

  -- A feed whose users have distinct principals, and that could be synced, changes nothing when it is
  -- synced again: no user is created or updated, and all users with an id count as unchanged.
  pub sync_users_again :
      (us : List ScimUser) (db : Users) (first : UserStats × Users)
      → distinct (principals us) ≡ true
      → sync_users uuid5 tenant_id us db ≡ some first
      → sync_users uuid5 tenant_id us first.1
        ≡ some (record { created = 0; updated = 0; unchanged = length (filter named us) }, first.1)
  unfolding sync_users
  sync_users_again us db first d h =
      sync_loop_again us (no_changes uuid5 tenant_id) first.1
        (sync_loop-AllSynced us (no_changes uuid5 tenant_id) db first d h)
      ∙ ground arith
