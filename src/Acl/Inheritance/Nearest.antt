-- ===== src/Acl/Inheritance/Nearest.antt =====
-- Which inherited entries survive: the nearest permission of each holder decides.
use sync_ai_final.Base.{
  ltb, leb, if◌then◌else◌, Bool-cases, Option-cases, nat_eq, list_eq, option_eq, pair_eq, any,
  any-map_pred, contains, distinct, Text, Dict, keys, get, insert, get-insert, distinct-keys-insert,
  ℕ, suc, ◌≡◌, refl, sym, ◌∙◌, inl, inr, Bool, true, false, not, ◌&&◌, Option, none, some, List, [],
  ◌∷◌, ◌++◌, arith,
}
use mathlib.Core.Path.{ap₂}
use sync_ai_final.Models.{Uuid, Time, CanonicalDocument, AclEntry, ContainerAclEntry}
use sync_ai_final.Acl.Service.{Service, get_ancestors, default_depth, get_container_permissions}
use sync_ai_final.Acl.Inheritance.{
  IdKey, id_key_eqb, id_key_eqb_iff, id_key_eq, holder_key, Maps, no_maps, note_deny, note_allow,
  surviving, inherited_entry, visit_perm, visit_perms, visit_containers, visit_parents,
  compute_inherited_entries,
}

-- A permission as the walk meets it: the distance, the container, the permission.
abbrev pub Met : Type 0
Met = ℕ × Text × ContainerAclEntry

abbrev pub met_perms : ℕ → Text → List ContainerAclEntry → List Met
met_perms distance c [] = []
met_perms distance c (p ∷ ps) = (distance, c, p) ∷ met_perms distance c ps

abbrev pub met_containers : Service → Uuid → ℕ → List Text → List Met
met_containers s tenant distance [] = []
met_containers s tenant distance (c ∷ cs) =
    met_perms distance c (get_container_permissions c tenant s)
    ++ met_containers s tenant (suc distance) cs

-- All permissions on the parents and their ancestors, in the order of the walk.
abbrev pub met_parents : Time → Uuid → List Text → Service → List Met
met_parents now tenant [] s = []
met_parents now tenant (p ∷ ps) s =
    let (ancestors, s') = get_ancestors now p tenant default_depth s in
    met_containers s' tenant 0 (p ∷ ancestors) ++ met_parents now tenant ps s'

abbrev pub holder_is : IdKey → Option Uuid → Option Uuid → Bool
holder_is k p g = elim (holder_key p g) [ none ↦ false | some j ↦ id_key_eqb j k ]

abbrev pub allows : IdKey → Met → Bool
allows k o = holder_is k o.2.principal_id o.2.group_id && not o.2.is_deny

abbrev pub denies_it : IdKey → Met → Bool
denies_it k o = holder_is k o.2.principal_id o.2.group_id && o.2.is_deny

abbrev pub grants : IdKey → AclEntry → Bool
grants k e = holder_is k e.principal_id e.group_id

-- The smaller of two distances.
abbrev join : Option ℕ → Option ℕ → Option ℕ
join none y = y
join (some a) none = some a
join (some a) (some b) = if ltb b a then some b else some a

join_assoc : (x y z : Option ℕ) → join (join x y) z ≡ join x (join y z)
join_assoc none y z = refl
join_assoc (some a) none z = refl
join_assoc (some a) (some b) none = ground arith
join_assoc (some a) (some b) (some c) = ground arith

nearest : (Met → Bool) → List Met → Option ℕ
nearest p [] = none
nearest p (o ∷ os) = if p o then join (some o.0) (nearest p os) else nearest p os

is_near : Option ℕ → ℕ → Bool
is_near none a = false
is_near (some n) a = leb n a

any-nearest :
    (p : Met → Bool) (os : List Met) (a : ℕ)
    → any (λ o. p o && leb o.0 a) os ≡ is_near (nearest p os) a
unfolding nearest is_near
any-nearest p [] a = refl
any-nearest p (o ∷ os) a = ground (arith, any-nearest p os a)

-- An element before the bound is found exactly if the nearest one is before it.
survives : Option ℕ → Option ℕ → Bool
survives none bound = false
survives (some a) bound = not (is_near bound a)

any-survives :
    (p : Met → Bool) (os : List Met) (bound : Option ℕ)
    → any (λ o. p o && not (is_near bound o.0)) os ≡ survives (nearest p os) bound
unfolding nearest is_near survives
any-survives p [] bound = refl
any-survives p (o ∷ os) none = ground (arith, any-survives p os none)
any-survives p (o ∷ os) (some n) = ground (arith, any-survives p os (some n))

abbrev distance_of : Option (ℕ × AclEntry) → Option ℕ
distance_of none = none
distance_of (some (d, e)) = some d

get-note_deny :
    (k j : IdKey) (distance : ℕ) (d : Dict IdKey ℕ)
    → get j (note_deny k distance d)
      ≡ (if id_key_eqb k j then join (get j d) (some distance) else get j d)
unfolding note_deny
get-note_deny k j distance d = elim (Option-cases (get k d)) [
  | inl new ↦ ground (arith, get-insert k j distance d, id_key_eqb_iff k j)
  | inr (old, e) ↦ ground (arith, get-insert k j distance d, id_key_eqb_iff k j)
]

get-note_allow :
    (k j : IdKey) (distance : ℕ) (entry : AclEntry) (d : Dict IdKey (ℕ × AclEntry))
    → distance_of (get j (note_allow k distance entry d)) ≡ (
        if id_key_eqb k j
        then join (distance_of (get j d)) (some distance)
        else distance_of (get j d))
unfolding note_allow
get-note_allow k j distance entry d = elim (Option-cases (get k d)) [
  | inl new ↦ ground (arith, get-insert k j (distance, entry) d, id_key_eqb_iff k j)
  | inr ((old, f), e) ↦ ground (arith, get-insert k j (distance, entry) d, id_key_eqb_iff k j)
]

-- The entries of the map stand each under the key of its holder, and each key once.
abbrev Keyed : Dict IdKey (ℕ × AclEntry) → Type 0
Keyed [] = Unit {0}
Keyed ((k, (distance, e)) ∷ d) = (holder_key e.principal_id e.group_id ≡ some k) × Keyed d

insert-Keyed :
    (k : IdKey) (distance : ℕ) (e : AclEntry) (d : Dict IdKey (ℕ × AclEntry))
    → holder_key e.principal_id e.group_id ≡ some k
    → Keyed d
    → Keyed (insert k (distance, e) d)
unfolding insert
insert-Keyed k distance e [] h q = (h, tt)
insert-Keyed k distance e ((j, w) ∷ d) h q =
    ground (arith, id_key_eqb_iff j k, insert-Keyed k distance e d h q.1)

surviving-none :
    (denies : Dict IdKey ℕ) (k : IdKey) (d : Dict IdKey (ℕ × AclEntry))
    → Keyed d
    → contains (keys d) k ≡ false
    → any (grants k) (surviving denies d) ≡ false
unfolding surviving
surviving-none denies k [] h q = refl
surviving-none denies k ((j, (distance, e)) ∷ d) h q =
    ground (arith, h.0, surviving-none denies k d h.1)

any-surviving :
    (denies : Dict IdKey ℕ) (k : IdKey) (d : Dict IdKey (ℕ × AclEntry))
    → Keyed d
    → distinct (keys d) ≡ true
    → any (grants k) (surviving denies d) ≡ survives (distance_of (get k d)) (get k denies)
unfolding surviving survives is_near get
any-surviving denies k [] h q = refl
any-surviving denies k ((j, (distance, e)) ∷ d) h q = ground (
  arith,
  h.0,
  id_key_eqb_iff j k,
  any-surviving denies k d h.1,
  surviving-none denies k d h.1,
  Option-cases (get j denies),
)

-- What the walk has noted, by what it has met.
record IsNoted (os : List Met) (m m' : Maps) : Type 0 where
  denied : (k : IdKey) → get k m'.deny_map ≡ join (get k m.deny_map) (nearest (denies_it k) os)
  allowed :
      (k : IdKey)
      → distance_of (get k m'.allow_map)
        ≡ join (distance_of (get k m.allow_map)) (nearest (allows k) os)
  keyed : Keyed m.allow_map → Keyed m'.allow_map
  once : distinct (keys m.allow_map) ≡ true → distinct (keys m'.allow_map) ≡ true

nearest-append :
    (p : Met → Bool) (xs ys : List Met) → nearest p (xs ++ ys) ≡ join (nearest p xs) (nearest p ys)
unfolding nearest
nearest-append p [] ys = refl
nearest-append p (x ∷ xs) ys =
    ground (arith, nearest-append p xs ys, join_assoc (some x.0) (nearest p xs) (nearest p ys))

join-none : (x : Option ℕ) → join x none ≡ x
join-none none = refl
join-none (some a) = refl

IsNoted-none : (m : Maps) → IsNoted [] m m
unfolding nearest
IsNoted-none m = record {
  denied = λ k. sym (join-none (get k m.deny_map));
  allowed = λ k. sym (join-none (distance_of (get k m.allow_map)));
  keyed = λ h. h;
  once = λ h. h;
}

IsNoted-append :
    (xs ys : List Met) (m m' m'' : Maps)
    → IsNoted xs m m'
    → IsNoted ys m' m''
    → IsNoted (xs ++ ys) m m''
IsNoted-append xs ys m m' m'' h q = record {
  denied = λ k. cc (
    h.denied k,
    q.denied k,
    nearest-append (denies_it k) xs ys,
    join_assoc (get k m.deny_map) (nearest (denies_it k) xs) (nearest (denies_it k) ys),
  );
  allowed = λ k. cc (
    h.allowed k,
    q.allowed k,
    nearest-append (allows k) xs ys,
    join_assoc (distance_of (get k m.allow_map)) (nearest (allows k) xs) (nearest (allows k) ys),
  );
  keyed = λ r. q.keyed (h.keyed r);
  once = λ r. q.once (h.once r);
}

note_allow-Keyed :
    (k : IdKey) (distance : ℕ) (e : AclEntry) (d : Dict IdKey (ℕ × AclEntry))
    → holder_key e.principal_id e.group_id ≡ some k
    → Keyed d
    → Keyed (note_allow k distance e d)
unfolding note_allow
note_allow-Keyed k distance e d h q = elim (Option-cases (get k d)) [
  | inl new ↦ rw (new, note_allow) (insert-Keyed k distance e d h q)
  | inr ((old, f), found) ↦ elim (Bool-cases (ltb distance old)) [
    | inl nearer ↦ rw (found, note_allow) (rw nearer (insert-Keyed k distance e d h q))
    | inr farther ↦ rw (found, note_allow) (rw farther q)
  ]
]

note_allow-distinct :
    (k : IdKey) (distance : ℕ) (e : AclEntry) (d : Dict IdKey (ℕ × AclEntry))
    → distinct (keys d) ≡ true
    → distinct (keys (note_allow k distance e d)) ≡ true
unfolding note_allow
note_allow-distinct k distance e d h = elim (Option-cases (get k d)) [
  | inl new ↦ ground (arith, distinct-keys-insert k (distance, e) d)
  | inr ((old, f), found) ↦ ground (arith, distinct-keys-insert k (distance, e) d)
]

module _ (now : Time) (document : CanonicalDocument) where
  visit_perm-IsNoted :
      (distance : ℕ) (c : Text) (p : ContainerAclEntry) (m : Maps)
      → IsNoted ((distance, c, p) ∷ []) m (visit_perm now document distance c p m)
  unfolding visit_perm nearest
  visit_perm-IsNoted distance c p m =
      let entry = inherited_entry now document c p in
      elim (Option-cases (holder_key p.principal_id p.group_id)) [
        | inl nobody ↦ record {
          denied = λ k. ground (arith, join-none (get k m.deny_map));
          allowed = λ k. ground (arith, join-none (distance_of (get k m.allow_map)));
          keyed = λ h. rw (nobody, visit_perm) h;
          once = λ h. ground arith;
        }
        | inr (j, e) ↦ record {
          denied = λ k.
              ground (arith, get-note_deny j k distance m.deny_map, join-none (get k m.deny_map));
          allowed = λ k. ground (
            arith,
            get-note_allow j k distance entry m.allow_map,
            join-none (distance_of (get k m.allow_map)),
          );
          keyed = λ h. elim (Bool-cases p.is_deny) [
            | inl deny ↦ rw (e, visit_perm) (rw deny h)
            | inr allow ↦
                rw (e, visit_perm) (rw allow (note_allow-Keyed j distance entry m.allow_map e h))
          ];
          once = λ h. ground (arith, note_allow-distinct j distance entry m.allow_map);
        }
      ]

  visit_perms-IsNoted :
      (distance : ℕ) (c : Text) (ps : List ContainerAclEntry) (m : Maps)
      → IsNoted (met_perms distance c ps) m (visit_perms now document distance c ps m)
  unfolding visit_perms
  visit_perms-IsNoted distance c [] m = IsNoted-none m
  visit_perms-IsNoted distance c (p ∷ ps) m =
      let m' = visit_perm now document distance c p m in
      IsNoted-append ((distance, c, p) ∷ []) (met_perms distance c ps) m m'
        (visit_perms now document distance c ps m') (visit_perm-IsNoted distance c p m)
        (visit_perms-IsNoted distance c ps m')

  visit_containers-IsNoted :
      (s : Service) (distance : ℕ) (cs : List Text) (m : Maps)
      → IsNoted
          (met_containers s document.tenant_id distance cs)
          m
          (visit_containers now document s distance cs m)
  unfolding visit_containers
  visit_containers-IsNoted s distance [] m = IsNoted-none m
  visit_containers-IsNoted s distance (c ∷ cs) m =
      let ps = get_container_permissions c document.tenant_id s in
      let m' = visit_perms now document distance c ps m in
      IsNoted-append (met_perms distance c ps)
        (met_containers s document.tenant_id (suc distance) cs) m m'
        (visit_containers now document s (suc distance) cs m') (visit_perms-IsNoted distance c ps m)
        (visit_containers-IsNoted s (suc distance) cs m')

  visit_parents-IsNoted :
      (ps : List Text) (s : Service) (m : Maps)
      → IsNoted (met_parents now document.tenant_id ps s) m (visit_parents now document ps s m).0
  unfolding visit_parents
  visit_parents-IsNoted [] s m = IsNoted-none m
  visit_parents-IsNoted (p ∷ ps) s m =
      let (ancestors, s') = get_ancestors now p document.tenant_id default_depth s in
      let m' = visit_containers now document s' 0 (p ∷ ancestors) m in
      IsNoted-append (met_containers s' document.tenant_id 0 (p ∷ ancestors))
        (met_parents now document.tenant_id ps s') m m' (visit_parents now document ps s' m').0
        (visit_containers-IsNoted s' 0 (p ∷ ancestors) m) (visit_parents-IsNoted ps s' m')

-- A holder (a principal or a group) has an inherited entry exactly if the walk over the parents and
-- their ancestors meets a permission that allows it at a distance at which, or nearer than which,
-- it meets none that denies it.
pub compute_inherited_entries_iff :
    (now : Time) (document : CanonicalDocument) (s : Service) (k : IdKey)
    → let met = met_parents now document.tenant_id document.parent_ids s in
      any (grants k) (compute_inherited_entries now document s).0
      ≡ any (λ o. allows k o && not (any (λ q. denies_it k q && leb q.0 o.0) met)) met
unfolding compute_inherited_entries nearest get
compute_inherited_entries_iff now document s k =
    let met = met_parents now document.tenant_id document.parent_ids s in
    let m = (visit_parents now document document.parent_ids s no_maps).0 in
    let h = visit_parents-IsNoted now document document.parent_ids s no_maps in
    any-surviving m.deny_map k m.allow_map (h.keyed tt) (h.once refl)
    ∙ ap₂ survives (h.allowed k) (h.denied k)
    ∙ sym (any-survives (allows k) met (nearest (denies_it k) met))
    ∙ any-map_pred _ _ met (λ o. ground (arith, any-nearest (denies_it k) met o.0))
