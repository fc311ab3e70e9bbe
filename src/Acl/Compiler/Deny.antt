-- ===== src/Acl/Compiler/Deny.antt =====
-- Deny overrides: no allow beside a deny, one entry for each key, the highest permission.
use sync_ai_final.Base.{
  ltb, leb, if◌then◌else◌, Bool-cases, Option-cases, is_some, ◌==◌, nat_eq, list_eq, option_eq,
  pair_eqb, pair_eqb_iff, pair_eq, any, any-map_pred, any-or, any-and_left, any-none, contains,
  distinct, Text, Dict, values, keys, get, insert, get-insert, distinct-keys-insert, ℕ, ◌≡◌, refl,
  sym, ap, ◌∙◌, inl, inr, Bool, true, false, not, ◌&&◌, ◌||◌, Option, none, some, List, [], ◌∷◌,
  map, arith,
}
use sync_ai_final.Models.{Uuid, AclEntry}
use sync_ai_final.Acl.Compiler.{
  permission_rank, Key, key_of, deny_keys, drop_denied, keep_best, best_entries,
  apply_deny_overrides,
}

abbrev pub has_key_of : Key → AclEntry → Bool
has_key_of k e = key_of e == k

abbrev pub denies_key : Key → AclEntry → Bool
denies_key k e = has_key_of k e && e.is_deny

abbrev pub allows_key : Key → AclEntry → Bool
allows_key k e = has_key_of k e && not e.is_deny

contains-deny_keys :
    (doc : Text) (id : Uuid) (es : List AclEntry)
    → contains (deny_keys es) (doc, some id) ≡ any (denies_key (doc, some id)) es
unfolding deny_keys
contains-deny_keys doc id [] = refl
contains-deny_keys doc id (e ∷ es) = ground (arith, contains-deny_keys doc id es)

any-drop_denied :
    (p : AclEntry → Bool) (denied : List Key) (es : List AclEntry)
    → any p (drop_denied denied es)
      ≡ any
          (λ e. not (is_some e.principal_id && contains denied (key_of e) && not e.is_deny) && p e)
          es
unfolding drop_denied
any-drop_denied p denied [] = refl
any-drop_denied p denied (e ∷ es) = ground (arith, any-drop_denied p denied es)

-- The better of the entry that is kept and the next one.
abbrev better : Option AclEntry → AclEntry → Option AclEntry
better none e = some e
better (some old) e =
    if ltb (permission_rank old.permission) (permission_rank e.permission) then some e else some old

pick : Key → List AclEntry → Option AclEntry → Option AclEntry
pick k [] acc = acc
pick k (e ∷ es) acc = pick k es (if has_key_of k e then better acc e else acc)

get-keep_best :
    (k : Key) (e : AclEntry) (best : Dict Key AclEntry)
    → get k (keep_best e best) ≡ (if has_key_of k e then better (get k best) e else get k best)
unfolding keep_best
get-keep_best k e best = elim (Option-cases (get (key_of e) best)) [
  | inl new ↦ ground (arith, get-insert (key_of e) k e best, pair_eqb_iff (key_of e) k)
  | inr (old, found) ↦ ground (arith, get-insert (key_of e) k e best, pair_eqb_iff (key_of e) k)
]

get-best_entries :
    (k : Key) (es : List AclEntry) (best : Dict Key AclEntry)
    → get k (best_entries es best) ≡ pick k es (get k best)
unfolding best_entries pick
get-best_entries k [] best = refl
get-best_entries k (e ∷ es) best =
    get-best_entries k es (keep_best e best) ∙ ap (pick k es) (get-keep_best k e best)

-- Each entry stands under its own key.
abbrev Keyed : Dict Key AclEntry → Type 0
Keyed [] = Unit {0}
Keyed ((k, e) ∷ d) = (key_of e ≡ k) × Keyed d

insert-Keyed :
    (k : Key) (e : AclEntry) (d : Dict Key AclEntry) → key_of e ≡ k → Keyed d → Keyed (insert k e d)
unfolding insert
insert-Keyed k e [] h q = (h, tt)
insert-Keyed k e ((j, w) ∷ d) h q = elim (Bool-cases (pair_eqb j k)) [
  | inl same ↦ rw same (h ∙ sym ((pair_eqb_iff j k).0 same), q.1)
  | inr other ↦ rw other (q.0, insert-Keyed k e d h q.1)
]

record IsBest (d : Dict Key AclEntry) : Type 0 where
  keyed : Keyed d
  once : distinct (keys d) ≡ true

insert-IsBest : (e : AclEntry) (d : Dict Key AclEntry) → IsBest d → IsBest (insert (key_of e) e d)
insert-IsBest e d h = record {
  keyed = insert-Keyed (key_of e) e d refl h.keyed;
  once = distinct-keys-insert (key_of e) e d h.once;
}

keep_best-IsBest : (e : AclEntry) (d : Dict Key AclEntry) → IsBest d → IsBest (keep_best e d)
unfolding keep_best
keep_best-IsBest e d h = elim (Option-cases (get (key_of e) d)) [
  | inl new ↦ rw (new, keep_best) (insert-IsBest e d h)
  | inr (old, f) ↦
      elim (Bool-cases (ltb (permission_rank old.permission) (permission_rank e.permission))) [
        | inl higher ↦ rw (f, keep_best) (rw higher (insert-IsBest e d h))
        | inr lower ↦ rw (f, keep_best) (rw lower h)
      ]
]

best_entries-IsBest :
    (es : List AclEntry) (d : Dict Key AclEntry) → IsBest d → IsBest (best_entries es d)
unfolding best_entries
best_entries-IsBest [] d h = h
best_entries-IsBest (e ∷ es) d h = best_entries-IsBest es (keep_best e d) (keep_best-IsBest e d h)

keys_of : (d : Dict Key AclEntry) → Keyed d → map key_of (values d) ≡ keys d
keys_of [] h = refl
keys_of ((k, e) ∷ d) h = cc (h.0, keys_of d h.1)

-- What holds of the entry of a key, by the dictionary.
abbrev holds : (AclEntry → Bool) → Option AclEntry → Bool
holds p none = false
holds p (some e) = p e

any-values_none :
    (p : AclEntry → Bool) (k : Key) (d : Dict Key AclEntry)
    → Keyed d
    → contains (keys d) k ≡ false
    → any (λ e. has_key_of k e && p e) (values d) ≡ false
any-values_none p k [] h q = refl
any-values_none p k ((j, e) ∷ d) h q =
    ground (arith, ap (λ j'. pair_eqb j' k) h.0, any-values_none p k d h.1)

any-values :
    (p : AclEntry → Bool) (k : Key) (d : Dict Key AclEntry)
    → IsBest d
    → any (λ e. has_key_of k e && p e) (values d) ≡ holds p (get k d)
unfolding get
any-values p k [] h = refl
any-values p k ((j, e) ∷ d) h =
    let tail : IsBest d = record { keyed = h.keyed.1; once = ground (arith, h.once) } in
    ground (
      arith,
      h.once,
      ap (λ j'. pair_eqb j' k) h.keyed.0,
      pair_eqb_iff j k,
      any-values p k d tail,
      any-values_none p k d h.keyed.1,
    )

-- The picked entry: it is there if some entry has the key, it is one of those, and none ranks
-- higher.
is_some-pick :
    (k : Key) (es : List AclEntry) (acc : Option AclEntry)
    → is_some (pick k es acc) ≡ (is_some acc || any (has_key_of k) es)
unfolding pick
is_some-pick k [] acc = ground arith
is_some-pick k (e ∷ es) none = ground (arith, is_some-pick k es none, is_some-pick k es (some e))
is_some-pick k (e ∷ es) (some a) =
    ground (arith, is_some-pick k es (some a), is_some-pick k es (some e))

pick-holds :
    (p : AclEntry → Bool) (k : Key) (es : List AclEntry) (acc : Option AclEntry)
    → holds p acc ≡ false
    → any (λ e. has_key_of k e && p e) es ≡ false
    → holds p (pick k es acc) ≡ false
unfolding pick
pick-holds p k [] acc h q = h
pick-holds p k (e ∷ es) none h q =
    ground (arith, pick-holds p k es none, pick-holds p k es (some e))
pick-holds p k (e ∷ es) (some a) h q =
    ground (arith, pick-holds p k es (some a), pick-holds p k es (some e))

abbrev below : ℕ → AclEntry → Bool
below n o = ltb (permission_rank o.permission) n

pick-keeps :
    (k : Key) (n : ℕ) (es : List AclEntry) (a : AclEntry)
    → below n a ≡ false
    → holds (below n) (pick k es (some a)) ≡ false
unfolding pick
pick-keeps k n [] a h = h
pick-keeps k n (e ∷ es) a h = ground (arith, pick-keeps k n es a, pick-keeps k n es e)

pick-rank :
    (k : Key) (n : ℕ) (es : List AclEntry) (acc : Option AclEntry)
    → any (λ e. has_key_of k e && not (below n e)) es ≡ true
    → holds (below n) (pick k es acc) ≡ false
unfolding pick
pick-rank k n [] acc h = cc
pick-rank k n (e ∷ es) none h =
    ground (arith, pick-rank k n es none, pick-rank k n es (some e), pick-keeps k n es e)
pick-rank k n (e ∷ es) (some a) h = ground (
  arith,
  pick-rank k n es (some a),
  pick-rank k n es (some e),
  pick-keeps k n es e,
  pick-keeps k n es a,
)

nothing-IsBest : IsBest []
nothing-IsBest = record { keyed = tt; once = refl }

kept : List AclEntry → List AclEntry
kept es = drop_denied (deny_keys es) es

-- What holds of the entry with a key in the result.
any-apply_deny_overrides :
    (p : AclEntry → Bool) (k : Key) (es : List AclEntry)
    → any (λ e. has_key_of k e && p e) (apply_deny_overrides es) ≡ holds p (pick k (kept es) none)
unfolding apply_deny_overrides kept get
any-apply_deny_overrides p k es =
    any-values p k (best_entries (drop_denied (deny_keys es) es) [])
      (best_entries-IsBest (drop_denied (deny_keys es) es) [] nothing-IsBest)
    ∙ ap (holds p) (get-best_entries k (drop_denied (deny_keys es) es) [])

any-kept :
    (p : AclEntry → Bool) (doc : Text) (id : Uuid) (es : List AclEntry)
    → any (λ e. has_key_of (doc, some id) e && p e) (kept es)
      ≡ any
          (λ e.
            not (any (denies_key (doc, some id)) es && not e.is_deny)
            && (has_key_of (doc, some id) e && p e))
          es
unfolding kept
any-kept p doc id es =
    let k : Key = (doc, some id) in
    any-drop_denied (λ e. has_key_of k e && p e) (deny_keys es) es
    ∙ any-map_pred _ _ es (λ e. elim (Bool-cases (has_key_of k e)) [
      | inl same ↦
          let path = (pair_eqb_iff (key_of e) k).0 same in
          ground (
            arith,
            same,
            ap (λ j. contains (deny_keys es) j) path,
            ap (λ j. is_some j.1) path,
            contains-deny_keys doc id es,
          )
      | inr apart ↦ ground (arith, apart)
    ])

module _ (doc : Text) (id : Uuid) (es : List AclEntry)
    (denied : any (denies_key (doc, some id)) es ≡ true) where
  abbrev k : Key
  k = (doc, some id)

  no_allow_kept : any (allows_key k) (kept es) ≡ false
  no_allow_kept =
      any-kept (λ e. not e.is_deny) doc id es
      ∙ any-map_pred _ (λ e. false) es (λ e. ground (arith, denied))
      ∙ any-none es

  deny_kept : any (denies_key k) (kept es) ≡ true
  deny_kept =
      any-kept (λ e. e.is_deny) doc id es
      ∙ any-map_pred _ (denies_key k) es (λ e. ground (arith, denied))
      ∙ denied

  some_kept : any (has_key_of k) (kept es) ≡ true
  some_kept = ground (
    arith,
    deny_kept,
    no_allow_kept,
    any-or (denies_key k) (allows_key k) (kept es),
    any-map_pred (λ e. denies_key k e || allows_key k e) (has_key_of k) (kept es)
        (λ e. ground arith),
  )

  deny_picked : holds (λ e. e.is_deny) (pick k (kept es) none) ≡ true
  deny_picked = elim (Option-cases (pick k (kept es) none)) [
    | inl nothing ↦ ground (arith, nothing, some_kept, is_some-pick k (kept es) none)
    | inr (o, e) ↦
        ground (arith, e, pick-holds (λ e. not e.is_deny) k (kept es) none refl no_allow_kept)
  ]

-- Where some entry denies a document to a principal, the result holds a deny of the document to the
-- principal and no allow, whatever the order of the entries and their permissions.
pub apply_deny_overrides_denied :
    (doc : Text) (id : Uuid) (es : List AclEntry)
    → any (denies_key (doc, some id)) es ≡ true
    → (any (denies_key (doc, some id)) (apply_deny_overrides es) ≡ true)
      × (any (allows_key (doc, some id)) (apply_deny_overrides es) ≡ false)
apply_deny_overrides_denied doc id es denied = (
  any-apply_deny_overrides (λ e. e.is_deny) (doc, some id) es ∙ deny_picked doc id es denied,
  any-apply_deny_overrides (λ e. not e.is_deny) (doc, some id) es
      ∙ pick-holds (λ e. not e.is_deny) (doc, some id) (kept es) none refl
          (no_allow_kept doc id es denied),
)

-- An entry of rank `n` or more.
abbrev pub ranks : ℕ → AclEntry → Bool
ranks n e = leb n (permission_rank e.permission)

rank_of_pick :
    (k : Key) (n : ℕ) (es : List AclEntry)
    → holds (ranks n) (pick k es none) ≡ any (λ e. has_key_of k e && ranks n e) es
rank_of_pick k n es = elim (Bool-cases (any (λ e. has_key_of k e && ranks n e) es)) [
  | inl high ↦ elim (Option-cases (pick k es none)) [
    | inl nothing ↦
        ground (arith, high, is_some-pick k es none, any-and_left (has_key_of k) (ranks n) es)
    | inr (o, e) ↦ ground (
      arith,
      e,
      high,
      pick-rank k n es none (
          any-map_pred (λ e. has_key_of k e && not (below n e)) (λ e. has_key_of k e && ranks n e)
            es (λ e. ground arith)
          ∙ high),
    )
  ]
  | inr low ↦ pick-holds (ranks n) k es none refl low ∙ sym low
]

-- Where no entry denies a document to a principal, the highest permission is kept: the result has
-- an entry of the two with rank `n` or more exactly if the given entries have one.
pub apply_deny_overrides_rank :
    (doc : Text) (id : Uuid) (es : List AclEntry) (n : ℕ)
    → any (denies_key (doc, some id)) es ≡ false
    → any (λ e. has_key_of (doc, some id) e && ranks n e) (apply_deny_overrides es)
      ≡ any (λ e. has_key_of (doc, some id) e && ranks n e) es
apply_deny_overrides_rank doc id es n open_key =
    let k : Key = (doc, some id) in
    let same =
      any-kept (ranks n) doc id es
      ∙ any-map_pred _ (λ e. has_key_of k e && ranks n e) es (λ e. ground (arith, open_key)) in
    any-apply_deny_overrides (ranks n) k es ∙ rank_of_pick k n (kept es) ∙ same

-- The result has at most one entry for each document and principal; entries of groups have no
-- principal, so that at most one of them is left for each document.
pub apply_deny_overrides_once :
    (es : List AclEntry) → distinct (map key_of (apply_deny_overrides es)) ≡ true
unfolding apply_deny_overrides
apply_deny_overrides_once es =
    let h = best_entries-IsBest (drop_denied (deny_keys es) es) [] nothing-IsBest in
    ap distinct (keys_of (best_entries (drop_denied (deny_keys es) es) []) h.keyed) ∙ h.once
