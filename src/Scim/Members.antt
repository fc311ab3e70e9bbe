-- ===== src/Scim/Members.antt =====
-- The members of groups, as sets, over any feeds.
use sync_ai_final.Scim.Written
use sync_ai_final.Base.{
  nat_eqb, if◌then◌else◌, nat_eqb_iff, Bool-cases, ◌==◌, nat_eq, list_eq, option_eq, pair_eq,
  contains, Text, nonempty, Dict, get, ◌≡◌, refl, sym, ap, ◌∙◌, ◌↔◌, inl, inr, Bool, true, false,
  not, ◌&&◌, ◌||◌, Option, none, some, List, [], ◌∷◌, arith,
}
use sync_ai_final.Scim.{
  ScimGroup, Group, Groups, GroupStats, rows_of, minus, change_members, have_users,
  update_group_membership, write_group_row, group_id_of, write_group, sync_groups,
}
use sync_ai_final.Models.{Uuid, Time}

module _ (uuid5 : Text → Uuid) (tenant_id : Uuid) where
  abbrev rows : Uuid → Dict Uuid (List Uuid) → List Uuid
  rows = rows_of uuid5 tenant_id

  abbrev pub wanted : ScimGroup uuid5 tenant_id → List Uuid
  wanted = Written.wanted uuid5 tenant_id

  abbrev pub member_of : Groups uuid5 tenant_id → Text → Uuid → Bool
  member_of = Written.member_of uuid5 tenant_id

  -- The abstract sync: a group of the feed replaces the set of its members.
  abbrev pub replay : List (ScimGroup uuid5 tenant_id) → (Text → Uuid → Bool) → Text → Uuid → Bool
  replay [] f = f
  replay (g ∷ gs) f =
      if nonempty g.id
      then replay gs (λ k p. if g.id == k then contains (wanted g) p else f k p)
      else replay gs f

  module _ (new_id : Text → Uuid) (apart : (j k : Text) → new_id j ≡ new_id k → j ≡ k) where
    abbrev HasIds : Groups uuid5 tenant_id → Type 0
    HasIds = Written.HasIds uuid5 tenant_id new_id apart

    abbrev write :
        Time
        → ScimGroup uuid5 tenant_id
        → Option (Group uuid5 tenant_id)
        → GroupStats uuid5 tenant_id × Groups uuid5 tenant_id
        → GroupStats uuid5 tenant_id × Groups uuid5 tenant_id
    write = Written.write uuid5 tenant_id new_id apart

    module _ (users : List Uuid) where
      -- Each membership refers to a user.
      abbrev HasUsers : Groups uuid5 tenant_id → Type 0
      HasUsers db =
          (group_id p : Uuid)
          → contains (rows group_id db.memberships) p ≡ true
          → contains users p ≡ true

      have_users-contains :
          (ps : List Uuid) (p : Uuid)
          → have_users uuid5 tenant_id users ps ≡ true
          → contains ps p ≡ true
          → contains users p ≡ true
      have_users-contains [] p h q = cc
      have_users-contains (x ∷ ps) p h q = ground (arith, have_users-contains ps p, nat_eqb_iff x p)

      have_users-minus :
          (xs ys : List Uuid)
          → ((p : Uuid) → contains ys p ≡ true → contains users p ≡ true)
          → have_users uuid5 tenant_id users (minus uuid5 tenant_id xs ys)
            ≡ have_users uuid5 tenant_id users xs
      have_users-minus [] ys h = refl
      have_users-minus (x ∷ xs) ys h = ground (arith, h x, have_users-minus xs ys h)

      -- The members that the feed wants of the group have users.
      abbrev pub are_known : ScimGroup uuid5 tenant_id → Bool
      are_known g = have_users uuid5 tenant_id users (wanted g)

      write_group-known :
          (now : Time) (g : ScimGroup uuid5 tenant_id) (old : Option (Group uuid5 tenant_id))
          (stats : GroupStats uuid5 tenant_id) (db : Groups uuid5 tenant_id)
          → HasUsers db
          → write_group uuid5 tenant_id new_id users now g old (stats, db)
            ≡ (if are_known g then some (write now g old (stats, db)) else none)
      unfolding write_group update_group_membership
      write_group-known now g old stats db h =
          let group_id = group_id_of uuid5 tenant_id new_id g old in
          ground (
            arith,
            have_users-minus (wanted g) (rows group_id db.memberships) (λ p m. h group_id p m),
          )

      memberships-write :
          (now : Time) (g : ScimGroup uuid5 tenant_id) (old : Option (Group uuid5 tenant_id))
          (stats : GroupStats uuid5 tenant_id) (db : Groups uuid5 tenant_id)
          → (write now g old (stats, db)).1.memberships
            ≡ (change_members uuid5 tenant_id
                (group_id_of uuid5 tenant_id new_id g old)
                g.members
                db.memberships).1
      unfolding write_group_row
      memberships-write now g none stats db = refl
      memberships-write now g (some existing) stats db = ground arith

      write-HasUsers :
          (now : Time) (g : ScimGroup uuid5 tenant_id) (old : Option (Group uuid5 tenant_id))
          (stats : GroupStats uuid5 tenant_id) (db : Groups uuid5 tenant_id)
          → HasUsers db
          → are_known g ≡ true
          → HasUsers (write now g old (stats, db)).1
      write-HasUsers now g old stats db h known other p m =
          let group_id = group_id_of uuid5 tenant_id new_id g old in
          let found =
            ap (λ d. contains (rows other d) p) (sym (memberships-write now g old stats db)) ∙ m in
          elim (Bool-cases (nat_eqb group_id other)) [
            | inl e ↦
                let same : group_id ≡ other = (nat_eqb_iff group_id other).0 e in
                have_users-contains (wanted g) p known (
                  sym (
                    Written.rows-change_members uuid5 tenant_id group_id p g.members db.memberships)
                  ∙ ap
                      (λ i.
                        contains
                          (rows i
                            (change_members uuid5 tenant_id group_id g.members db.memberships).1)
                          p)
                      same
                  ∙ found)
            | inr e ↦ h other p (
                ap (λ ps. contains ps p)
                  (sym
                    (Written.rows-other uuid5 tenant_id group_id other g.members db.memberships e))
                ∙ found)
          ]

      abbrev pub sync :
          Time
          → List (ScimGroup uuid5 tenant_id)
          → GroupStats uuid5 tenant_id × Groups uuid5 tenant_id
          → Option (GroupStats uuid5 tenant_id × Groups uuid5 tenant_id)
      sync = sync_groups uuid5 tenant_id new_id users

      -- Every member with an id, of every group with an id, has a user.
      abbrev pub all_known : List (ScimGroup uuid5 tenant_id) → Bool
      all_known [] = true
      all_known (g ∷ gs) = (not (nonempty g.id) || are_known g) && all_known gs

      -- What a sync leaves, where it is as the abstract one.
      abbrev Replayed :
          List (ScimGroup uuid5 tenant_id)
          → (Text → Uuid → Bool)
          → Option (GroupStats uuid5 tenant_id × Groups uuid5 tenant_id)
          → Type 0
      Replayed gs f none = all_known gs ≡ false
      Replayed gs f (some (stats, db)) =
          (all_known gs ≡ true)
          × HasIds db
          × HasUsers db
          × ((k : Text) (p : Uuid) → member_of db k p ≡ replay gs f k p)

      Replayed-next :
          (g : ScimGroup uuid5 tenant_id) (gs : List (ScimGroup uuid5 tenant_id))
          (f : Text → Uuid → Bool)
          (o : Option (GroupStats uuid5 tenant_id × Groups uuid5 tenant_id))
          → nonempty g.id ≡ true
          → are_known g ≡ true
          → Replayed gs (λ k p. if g.id == k then contains (wanted g) p else f k p) o
          → Replayed (g ∷ gs) f o
      Replayed-next g gs f none named known e = rw (named, known) e
      Replayed-next g gs f (some (stats, db)) named known r = rw (named, known) r

      Replayed-skip :
          (g : ScimGroup uuid5 tenant_id) (gs : List (ScimGroup uuid5 tenant_id))
          (f : Text → Uuid → Bool)
          (o : Option (GroupStats uuid5 tenant_id × Groups uuid5 tenant_id))
          → nonempty g.id ≡ false
          → Replayed gs f o
          → Replayed (g ∷ gs) f o
      Replayed-skip g gs f none blank e = rw blank e
      Replayed-skip g gs f (some (stats, db)) blank r = rw blank r

      sync_groups-replay :
          (now : Time) (gs : List (ScimGroup uuid5 tenant_id)) (stats : GroupStats uuid5 tenant_id)
          (db : Groups uuid5 tenant_id) (f : Text → Uuid → Bool)
          → HasIds db
          → HasUsers db
          → ((k : Text) (p : Uuid) → member_of db k p ≡ f k p)
          → Replayed gs f (sync now gs (stats, db))
      unfolding sync_groups
      sync_groups-replay now [] stats db f h u q = (refl, h, u, q)
      sync_groups-replay now (g ∷ gs) stats db f h u q =
          let found = get (tenant_id, g.id) db.groups in
          let (stats', db') = write now g found (stats, db) in
          let written = write_group-known now g found stats db u in
          elim (Bool-cases (nonempty g.id)) [
            | inr blank ↦
                rw (blank, sync_groups)
                  (Replayed-skip g gs f (sync now gs (stats, db)) blank
                    (sync_groups-replay now gs stats db f h u q))
            | inl named ↦ elim (Bool-cases (are_known g)) [
              | inr unknown ↦
                  let raises : write_group uuid5 tenant_id new_id users now g found (stats, db)
                      ≡ none =
                    written ∙ rw unknown refl in
                  rw (named, sync_groups) (rw (raises, sync_groups) (rw (named, unknown) refl))
              | inl known ↦
                  let succeeds : write_group uuid5 tenant_id new_id users now g found (stats, db)
                      ≡ some (stats', db') =
                    written ∙ rw known refl in
                  rw (named, sync_groups)
                    (rw (succeeds, sync_groups)
                      (Replayed-next g gs f (sync now gs (stats', db')) named known (
                        sync_groups-replay now gs stats' db'
                          (λ k p. if g.id == k then contains (wanted g) p else f k p)
                          (Written.write-HasIds uuid5 tenant_id new_id apart now g found stats db
                            refl h)
                          (write-HasUsers now g found stats db u known)
                          (λ k p.
                            Written.member_of-write uuid5 tenant_id new_id apart now g found stats
                              db k p refl h
                            ∙ ap (λ b. if g.id == k then contains (wanted g) p else b) (q k p)))))
            ]
          ]

      abbrev pub no_stats : GroupStats uuid5 tenant_id
      no_stats = record { created = 0; updated = 0; membership_changes = 0 }

      -- What holds of the tables between feeds.
      abbrev Kept : Groups uuid5 tenant_id → (Text → Uuid → Bool) → Type 0
      Kept db f = HasIds db × HasUsers db × ((k : Text) (p : Uuid) → member_of db k p ≡ f k p)

      abbrev pub committed :
          Groups uuid5 tenant_id
          → Option (GroupStats uuid5 tenant_id × Groups uuid5 tenant_id)
          → Groups uuid5 tenant_id
      committed db none = db
      committed db (some (stats, db')) = db'

      committed-Kept :
          (gs : List (ScimGroup uuid5 tenant_id)) (f : Text → Uuid → Bool)
          (db : Groups uuid5 tenant_id)
          (o : Option (GroupStats uuid5 tenant_id × Groups uuid5 tenant_id))
          → Kept db f
          → Replayed gs f o
          → Kept (committed db o) (if all_known gs then replay gs f else f)
      committed-Kept gs f db none kept e = rw e kept
      committed-Kept gs f db (some (stats, db')) kept (e, ids, refer, same) =
          rw e (ids, refer, same)

      none_iff :
          (gs : List (ScimGroup uuid5 tenant_id)) (f : Text → Uuid → Bool)
          (o : Option (GroupStats uuid5 tenant_id × Groups uuid5 tenant_id))
          → Replayed gs f o
          → (o ≡ none) ↔ (all_known gs ≡ false)
      none_iff gs f none e = (λ q. e, λ q. refl)
      none_iff gs f (some (stats, db')) (e, ids, refer, same) = (λ q. cc, λ q. ground (arith, e, q))

      -- Feeds, each with its time, one after the other; a feed that raises is rolled back.
      unfoldable pub sync_feeds :
          List (Time × List (ScimGroup uuid5 tenant_id))
          → Groups uuid5 tenant_id
          → Groups uuid5 tenant_id
      sync_feeds [] db = db
      sync_feeds ((now, gs) ∷ feeds) db =
          sync_feeds feeds (committed db (sync now gs (no_stats, db)))

      -- The abstract sync of the feeds: those with an unknown member count for nothing.
      abbrev pub replay_feeds :
          List (Time × List (ScimGroup uuid5 tenant_id)) → (Text → Uuid → Bool) → Text → Uuid → Bool
      replay_feeds [] f = f
      replay_feeds ((now, gs) ∷ feeds) f =
          replay_feeds feeds (if all_known gs then replay gs f else f)

      sync_feeds-replay :
          (feeds : List (Time × List (ScimGroup uuid5 tenant_id))) (db : Groups uuid5 tenant_id)
          (f : Text → Uuid → Bool)
          → Kept db f
          → Kept (sync_feeds feeds db) (replay_feeds feeds f)
      unfolding sync_feeds
      sync_feeds-replay [] db f kept = kept
      sync_feeds-replay ((now, gs) ∷ feeds) db f (h, u, q) =
          sync_feeds-replay feeds (committed db (sync now gs (no_stats, db)))
            (if all_known gs then replay gs f else f)
            (committed-Kept gs f db (sync now gs (no_stats, db)) (h, u, q)
              (sync_groups-replay now gs no_stats db f h u q))

      abbrev pub no_groups : Groups uuid5 tenant_id
      no_groups = record { groups = []; memberships = [] }

      -- Over any feeds from empty tables of groups, with a table of users that stays as it is, and where
      -- different keys get different group ids: the members of each group are as in the abstract sync on
      -- sets, those with an id in the last feed that had the group and was not rolled back, however the
      -- rows were added and removed on the way. After any feeds, the sync of a further feed raises, and
      -- so is rolled back, exactly if some member with an id, of a group with an id, has no user.
      pub sync_feeds_refines :
          (feeds : List (Time × List (ScimGroup uuid5 tenant_id)))
          → ((k : Text) (p : Uuid)
              → member_of (sync_feeds feeds no_groups) k p ≡ replay_feeds feeds (λ j q. false) k p)
            × ((now : Time) (gs : List (ScimGroup uuid5 tenant_id))
                → (sync now gs (no_stats, sync_feeds feeds no_groups) ≡ none)
                  ↔ (all_known gs ≡ false))
      unfolding get
      sync_feeds_refines feeds =
          let (h, u, q) =
            sync_feeds-replay feeds no_groups (λ j q. false)
              (λ j g found. cc, λ j q found. cc, λ j q. refl) in
          (
            q,
            λ now gs.
                none_iff gs (replay_feeds feeds (λ j q. false))
                  (sync now gs (no_stats, sync_feeds feeds no_groups))
                  (sync_groups-replay now gs no_stats (sync_feeds feeds no_groups)
                    (replay_feeds feeds (λ j q. false)) h u q),
          )
