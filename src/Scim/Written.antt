-- ===== src/Scim/Written.antt =====
-- The rows of the memberships, as sets, and the write of a group.
use sync_ai_final.Base.{
  nat_eqb, if◌then◌else◌, nat_eqb_iff, Bool-cases, Option-cases, ◌==◌, nat_eq, list_eqb,
  list_eqb_iff, list_eq, option_eq, pair_eqb_iff, pair_eq, is_empty, contains, contains-append,
  Text, Dict, get, insert, get-insert, suc, ◌≡◌, refl, ap, ◌∙◌, inl, inr, Bool, true, false, not,
  ◌&&◌, Option, none, some, List, [], ◌∷◌, ◌++◌, arith,
}
use sync_ai_final.Scim.{
  ScimGroup, Group, Groups, GroupStats, new_memberships, rows_of, minus, change_members, new_group,
  write_group_row, group_id_of,
}
use sync_ai_final.Models.{Uuid, Time}

module _ (uuid5 : Text → Uuid) (tenant_id : Uuid) where
  contains-minus :
      (xs ys : List Uuid) (p : Uuid)
      → contains (minus uuid5 tenant_id xs ys) p ≡ (contains xs p && not (contains ys p))
  contains-minus [] ys p = refl
  contains-minus (x ∷ xs) ys p = ground (arith, contains-minus xs ys p, nat_eqb_iff x p)

  contains-is_empty : (xs : List Uuid) (p : Uuid) → is_empty xs ≡ true → contains xs p ≡ false
  contains-is_empty [] p h = refl
  contains-is_empty (x ∷ xs) p h = cc

  abbrev pub rows : Uuid → Dict Uuid (List Uuid) → List Uuid
  rows = rows_of uuid5 tenant_id

  abbrev pub wanted : ScimGroup uuid5 tenant_id → List Uuid
  wanted g = new_memberships uuid5 tenant_id g.members

  rows-insert :
      (group_id : Uuid) (ps : List Uuid) (d : Dict Uuid (List Uuid))
      → rows group_id (insert group_id ps d) ≡ ps
  rows-insert group_id ps d = ground (arith, get-insert group_id group_id ps d)

  pub rows-change_members :
      (group_id p : Uuid) (members : List Text) (d : Dict Uuid (List Uuid))
      → contains (rows group_id (change_members uuid5 tenant_id group_id members d).1) p
        ≡ contains (new_memberships uuid5 tenant_id members) p
  unfolding change_members
  rows-change_members group_id p members d =
      let existing = rows group_id d in
      let new = new_memberships uuid5 tenant_id members in
      let to_add = minus uuid5 tenant_id new existing in
      let to_remove = minus uuid5 tenant_id existing new in
      let next = minus uuid5 tenant_id existing to_remove ++ to_add in
      let added = contains-minus new existing p in
      let removed = contains-minus existing new p in
      elim (Bool-cases (is_empty to_add && is_empty to_remove)) [
        | inl same ↦
            rw (same, change_members)
              (ground (
                arith,
                same,
                added,
                removed,
                contains-is_empty to_add p,
                contains-is_empty to_remove p,
              ))
        | inr changed ↦
            rw (changed, change_members)
              (ap (λ ps. contains ps p) (rows-insert group_id next d)
                ∙ contains-append (minus uuid5 tenant_id existing to_remove) to_add p
                ∙ ground (arith, added, removed, contains-minus existing to_remove p))
      ]

  pub rows-other :
      (group_id other : Uuid) (members : List Text) (d : Dict Uuid (List Uuid))
      → nat_eqb group_id other ≡ false
      → rows other (change_members uuid5 tenant_id group_id members d).1 ≡ rows other d
  unfolding change_members
  rows-other group_id other members d h =
      let existing = rows group_id d in
      let new = new_memberships uuid5 tenant_id members in
      let to_add = minus uuid5 tenant_id new existing in
      let to_remove = minus uuid5 tenant_id existing new in
      let next = minus uuid5 tenant_id existing to_remove ++ to_add in
      ground (arith, h, get-insert group_id other next d)

  -- Who is a member of the group with the key, as a set.
  abbrev pub member_of : Groups uuid5 tenant_id → Text → Uuid → Bool
  member_of db k p = elim (get (tenant_id, k) db.groups) [
    | none ↦ false
    | some g ↦ contains (rows g.group_id db.memberships) p
  ]

  module _ (new_id : Text → Uuid) (apart : (j k : Text) → new_id j ≡ new_id k → j ≡ k) where
    -- The ids of the groups are those that were made for their keys.
    abbrev pub HasIds : Groups uuid5 tenant_id → Type 0
    HasIds db =
        (k : Text) (g : Group uuid5 tenant_id)
        → get (tenant_id, k) db.groups ≡ some g
        → g.group_id ≡ new_id k

    -- The write of a group whose members all have users.
    abbrev pub write :
        Time
        → ScimGroup uuid5 tenant_id
        → Option (Group uuid5 tenant_id)
        → GroupStats uuid5 tenant_id × Groups uuid5 tenant_id
        → GroupStats uuid5 tenant_id × Groups uuid5 tenant_id
    write now g old (stats, db) =
        write_group_row uuid5 tenant_id new_id now g old
          (change_members uuid5 tenant_id (group_id_of uuid5 tenant_id new_id g old) g.members
            db.memberships)
          (stats, db)

    pub write-HasIds :
        (now : Time) (g : ScimGroup uuid5 tenant_id) (old : Option (Group uuid5 tenant_id))
        (stats : GroupStats uuid5 tenant_id) (db : Groups uuid5 tenant_id)
        → get (tenant_id, g.id) db.groups ≡ old
        → HasIds db
        → HasIds (write now g old (stats, db)).1
    unfolding write_group_row
    write-HasIds now g none stats db e h k row found = ground (
      arith,
      found,
      h k row,
      pair_eqb_iff (tenant_id, g.id) (tenant_id, k),
      get-insert (tenant_id, g.id) (tenant_id, k) (new_group uuid5 tenant_id new_id now g)
          db.groups,
      ap new_id,
    )
    write-HasIds now g (some existing) stats db e h k row found =
        let next : Group uuid5 tenant_id = record existing {
          sync_version = suc existing.sync_version;
          last_membership_update = now;
        } in
        ground (
          arith,
          found,
          h k row,
          h g.id existing e,
          pair_eqb_iff (tenant_id, g.id) (tenant_id, k),
          get-insert (tenant_id, g.id) (tenant_id, k) next db.groups,
          ap new_id,
        )

    -- Another group has another id.
    other_id :
        (g : ScimGroup uuid5 tenant_id) (db : Groups uuid5 tenant_id) (k : Text)
        (row : Group uuid5 tenant_id)
        → HasIds db
        → list_eqb g.id k ≡ false
        → get (tenant_id, k) db.groups ≡ some row
        → nat_eqb (new_id g.id) row.group_id ≡ false
    other_id g db k row h differ found = ground (
      arith,
      differ,
      h k row found,
      apart g.id k,
      list_eqb_iff g.id k,
      nat_eqb_iff (new_id g.id) row.group_id,
    )

    pub member_of-write :
        (now : Time) (g : ScimGroup uuid5 tenant_id) (old : Option (Group uuid5 tenant_id))
        (stats : GroupStats uuid5 tenant_id) (db : Groups uuid5 tenant_id) (k : Text) (p : Uuid)
        → get (tenant_id, g.id) db.groups ≡ old
        → HasIds db
        → member_of (write now g old (stats, db)).1 k p
          ≡ (if g.id == k then contains (wanted g) p else member_of db k p)
    unfolding write_group_row
    member_of-write now g none stats db k p e h =
        let inserted =
          get-insert (tenant_id, g.id) (tenant_id, k) (new_group uuid5 tenant_id new_id now g)
            db.groups in
        let pairs = pair_eqb_iff (tenant_id, g.id) (tenant_id, k) in
        let texts = list_eqb_iff g.id k in
        elim (Bool-cases (list_eqb g.id k)) [
          | inl same ↦ ground (
            arith,
            same,
            inserted,
            pairs,
            texts,
            rows-change_members (new_id g.id) p g.members db.memberships,
          )
          | inr differ ↦ elim (Option-cases (get (tenant_id, k) db.groups)) [
            | inl lost ↦ ground (arith, differ, inserted, pairs, texts, lost)
            | inr (row, found) ↦ ground (
              arith,
              differ,
              inserted,
              pairs,
              texts,
              found,
              rows-other (new_id g.id) row.group_id g.members db.memberships
                  (other_id g db k row h differ found),
            )
          ]
        ]
    member_of-write now g (some existing) stats db k p e h =
        let next : Group uuid5 tenant_id = record existing {
          sync_version = suc existing.sync_version;
          last_membership_update = now;
        } in
        let inserted = get-insert (tenant_id, g.id) (tenant_id, k) next db.groups in
        let pairs = pair_eqb_iff (tenant_id, g.id) (tenant_id, k) in
        let texts = list_eqb_iff g.id k in
        elim (Bool-cases (list_eqb g.id k)) [
          | inl same ↦ ground (
            arith,
            e,
            same,
            inserted,
            pairs,
            texts,
            rows-change_members existing.group_id p g.members db.memberships,
          )
          | inr differ ↦ elim (Option-cases (get (tenant_id, k) db.groups)) [
            | inl lost ↦ ground (arith, differ, inserted, pairs, texts, lost)
            | inr (row, found) ↦ ground (
              arith,
              differ,
              inserted,
              pairs,
              texts,
              found,
              rows-other existing.group_id row.group_id g.members db.memberships
                  (rw (h g.id existing e) (other_id g db k row h differ found)),
            )
          ]
        ]
