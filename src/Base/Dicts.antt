-- ===== src/Base/Dicts.antt =====
-- A Python dict in insertion order.
use mathlib.Core.Path.{◌≡◌, refl}
use mathlib.Core.Bool.{◌||◌, Bool, true}
use mathlib.Core.Option.{Option, none, some}
use mathlib.Core.List.{List, [], ◌∷◌}
use native.Mathlib.Omega.{arith}
use sync_ai_final.Base.Tests.{
  if◌then◌else◌, is_some, Equality, nat_eq, list_eq, option_eq, pair_eq, eqb_refl, eqb_comm,
}
use sync_ai_final.Base.Lists.{contains, distinct}

abbrev pub Dict : Type 0 → Type 0 → Type 0
Dict K V = List (K × V)

module _ {K V : Type 0} where
  -- `d.values()`
  abbrev pub values : Dict K V → List V
  values [] = []
  values ((k, v) ∷ d) = v ∷ values d

  abbrev pub keys : Dict K V → List K
  keys [] = []
  keys ((k, v) ∷ d) = k ∷ keys d

module _ {K V : Type 0} ⦃e : Equality K⦄ where
  -- `d.get(k)`
  unfoldable pub get : K → Dict K V → Option V
  get k [] = none
  get k ((j, v) ∷ d) = if e.eqb j k then some v else get k d

  -- `d[k] = v`: a key that is there keeps its place.
  unfoldable pub insert : K → V → Dict K V → Dict K V
  insert k v [] = (k, v) ∷ []
  insert k v ((j, w) ∷ d) = if e.eqb j k then (j, v) ∷ d else (j, w) ∷ insert k v d

  -- `d.pop(k, None)`
  unfoldable pub erase : K → Dict K V → Dict K V
  erase k [] = []
  erase k ((j, w) ∷ d) = if e.eqb j k then erase k d else (j, w) ∷ erase k d

  -- `k in d`
  abbrev pub has_key : K → Dict K V → Bool
  has_key k d = is_some (get k d)

  pub get-insert :
      (k j : K) (v : V) (d : Dict K V)
      → get j (insert k v d) ≡ (if e.eqb k j then some v else get j d)
  unfolding get insert
  get-insert k j v [] = refl
  get-insert k j v ((i, w) ∷ d) =
      ground (arith, e.eqb_iff k j, e.eqb_iff i k, e.eqb_iff i j, get-insert k j v d)

  pub has_key-insert : (k : K) (v : V) (d : Dict K V) → has_key k (insert k v d) ≡ true
  has_key-insert k v d = rw (get-insert k k v d) (rw (eqb_refl k) refl)

  pub get-erase :
      (k j : K) (d : Dict K V) → get j (erase k d) ≡ (if e.eqb k j then none else get j d)
  unfolding get erase
  get-erase k j [] = ground arith
  get-erase k j ((i, w) ∷ d) =
      ground (arith, e.eqb_iff k j, e.eqb_iff i k, e.eqb_iff i j, get-erase k j d)

  pub contains-keys : (k : K) (d : Dict K V) → contains (keys d) k ≡ is_some (get k d)
  unfolding get
  contains-keys k [] = refl
  contains-keys k ((j, v) ∷ d) = ground (arith, contains-keys k d)

  pub contains-keys-insert :
      (k j : K) (v : V) (d : Dict K V)
      → contains (keys (insert k v d)) j ≡ (e.eqb k j || contains (keys d) j)
  contains-keys-insert k j v d =
      ground (arith, contains-keys j (insert k v d), contains-keys j d, get-insert k j v d)

  -- A key that is new stays apart from the others.
  pub distinct-keys-insert :
      (k : K) (v : V) (d : Dict K V)
      → distinct (keys d) ≡ true
      → distinct (keys (insert k v d)) ≡ true
  unfolding insert
  distinct-keys-insert k v [] h = refl
  distinct-keys-insert k v ((j, w) ∷ d) h =
      ground (arith, distinct-keys-insert k v d, contains-keys-insert k j v d, eqb_comm j k)
