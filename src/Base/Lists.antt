-- ===== src/Base/Lists.antt =====
-- Python's `any`, `in` and comprehensions on lists.
use Prim.Native.Nat.{ℕ, zero, suc, ◌+◌, ◌≤◌}
use mathlib.Core.Path.{◌≡◌, refl, sym, ap}
use mathlib.Core.Bool.{Bool, true, false, not, ◌&&◌, ◌||◌}
use mathlib.Core.List.{List, [], ◌∷◌, ◌++◌, map}
use native.Mathlib.Omega.{arith}
use sync_ai_final.Base.Tests.{
  if◌then◌else◌, Equality, nat_eq, list_eq, option_eq, pair_eq, eqb_comm,
}

module _ {ℓ} {A : Type ℓ} where
  abbrev pub length : List A → ℕ
  length [] = 0
  length (x ∷ xs) = suc (length xs)

  abbrev pub take : ℕ → List A → List A
  take zero xs = []
  take (suc n) [] = []
  take (suc n) (x ∷ xs) = x ∷ take n xs

  abbrev pub drop : ℕ → List A → List A
  drop zero xs = xs
  drop (suc n) [] = []
  drop (suc n) (x ∷ xs) = drop n xs

  -- `if xs:`
  abbrev pub is_empty : List A → Bool
  is_empty [] = true
  is_empty (x ∷ xs) = false

  abbrev pub any : (A → Bool) → List A → Bool
  any p [] = false
  any p (x ∷ xs) = p x || any p xs

  -- `[x for x in xs if p x]`
  abbrev pub filter : (A → Bool) → List A → List A
  filter p [] = []
  filter p (x ∷ xs) = if p x then x ∷ filter p xs else filter p xs

  pub any-append : (p : A → Bool) (xs ys : List A) → any p (xs ++ ys) ≡ (any p xs || any p ys)
  any-append p [] ys = refl
  any-append p (x ∷ xs) ys = ground (arith, any-append p xs ys)

  pub any-filter : (p q : A → Bool) (xs : List A) → any p (filter q xs) ≡ any (λ x. q x && p x) xs
  any-filter p q [] = refl
  any-filter p q (x ∷ xs) = ground (arith, any-filter p q xs)

  pub any-map_pred : (p q : A → Bool) (xs : List A) → ((x : A) → p x ≡ q x) → any p xs ≡ any q xs
  any-map_pred p q [] h = refl
  any-map_pred p q (x ∷ xs) h = ground (arith, h x, any-map_pred p q xs h)

  pub any-is_empty : (p : A → Bool) (xs : List A) → is_empty xs ≡ true → any p xs ≡ false
  any-is_empty p [] h = refl
  any-is_empty p (x ∷ xs) h = cc

  pub any-or : (p q : A → Bool) (xs : List A) → any (λ x. p x || q x) xs ≡ (any p xs || any q xs)
  any-or p q [] = refl
  any-or p q (x ∷ xs) = ground (arith, any-or p q xs)

  pub any-and_left :
      (p q : A → Bool) (xs : List A) → any (λ x. p x && q x) xs ≡ true → any p xs ≡ true
  any-and_left p q [] h = h
  any-and_left p q (x ∷ xs) h = ground (arith, any-and_left p q xs)

  pub any-none : (xs : List A) → any (λ x. false) xs ≡ false
  any-none [] = refl
  any-none (x ∷ xs) = any-none xs

  pub is_empty-filter :
      (p : A → Bool) (xs : List A) → is_empty xs ≡ true → is_empty (filter p xs) ≡ true
  is_empty-filter p [] h = refl
  is_empty-filter p (x ∷ xs) h = cc

  pub length-append : (xs ys : List A) → length (xs ++ ys) ≡ length xs + length ys
  length-append [] ys = omega arith
  length-append (x ∷ xs) ys = omega (arith, length-append xs ys)

  pub length-filter-le : (p : A → Bool) (xs : List A) → length (filter p xs) ≤ length xs
  length-filter-le p [] = omega arith
  length-filter-le p (x ∷ xs) = ground (arith, length-filter-le p xs)

  pub take_all : (n : ℕ) (xs : List A) → length xs ≤ n → take n xs ≡ xs
  take_all zero [] h = refl
  take_all (suc n) [] h = refl
  take_all zero (x ∷ xs) h = absurd (omega arith)
  take_all (suc n) (x ∷ xs) h = ap (◌∷◌ x) (take_all n xs (omega arith))

  pub drop_all : (n : ℕ) (xs : List A) → length xs ≤ n → drop n xs ≡ []
  drop_all zero [] h = refl
  drop_all (suc n) [] h = refl
  drop_all zero (x ∷ xs) h = absurd (omega arith)
  drop_all (suc n) (x ∷ xs) h = drop_all n xs (omega arith)

pub length-map {ℓ κ} :
    {A : Type ℓ} {B : Type κ} (f : A → B) (xs : List A) → length (map f xs) ≡ length xs
length-map f [] = refl
length-map f (x ∷ xs) = ap suc (length-map f xs)

-- `a in xs`
module _ {A : Type 0} ⦃e : Equality A⦄ where
  abbrev pub contains : List A → A → Bool
  contains xs a = any (λ x. e.eqb x a) xs

  pub contains-append :
      (xs ys : List A) (a : A) → contains (xs ++ ys) a ≡ (contains xs a || contains ys a)
  contains-append xs ys a = any-append (λ x. e.eqb x a) xs ys

  pub any_of_contains :
      (p : A → Bool) (xs : List A) (a : A) → contains xs a ≡ true → p a ≡ true → any p xs ≡ true
  any_of_contains p [] a h q = h
  any_of_contains p (x ∷ xs) a h q = ground (arith, e.eqb_iff x a, any_of_contains p xs a)

  pub not_any_of_contains :
      (p : A → Bool) (xs : List A) (a : A) → any p xs ≡ false → contains xs a ≡ true → p a ≡ false
  not_any_of_contains p xs a h q = ground (arith, any_of_contains p xs a)

  -- Two lists meet, seen from either side.
  pub any-contains_comm :
      (xs ys : List A) → any (λ x. contains ys x) xs ≡ any (λ y. contains xs y) ys
  any-contains_comm [] ys = sym (any-none ys)
  any-contains_comm (x ∷ xs) ys = ground (
    arith,
    any-or (λ y. e.eqb x y) (λ y. contains xs y) ys,
    any-map_pred (λ y. e.eqb y x) (λ y. e.eqb x y) ys (λ y. eqb_comm y x),
    any-contains_comm xs ys,
  )

  -- `p` follows from membership in `ys`, which may then be tested alone.
  pub any-contains_and :
      (p : A → Bool) (xs ys : List A)
      → any (λ y. not (p y)) xs ≡ false
      → any (λ y. p y && contains xs y) ys ≡ any (λ y. contains xs y) ys
  any-contains_and p xs [] h = refl
  any-contains_and p xs (y ∷ ys) h =
      ground (arith, any-contains_and p xs ys h, any_of_contains (λ y. not (p y)) xs y)

  -- No element stands twice.
  abbrev pub distinct : List A → Bool
  distinct [] = true
  distinct (x ∷ xs) = not (contains xs x) && distinct xs

  pub distinct-snoc :
      (xs : List A) (a : A)
      → distinct xs ≡ true
      → contains xs a ≡ false
      → distinct (xs ++ a ∷ []) ≡ true
  distinct-snoc [] a h q = refl
  distinct-snoc (x ∷ xs) a h q =
      ground (arith, distinct-snoc xs a, contains-append xs (a ∷ []) x, eqb_comm a x)

  -- `list(dict.fromkeys(xs))`: each element once, where it stands first.
  unfoldable pub dedup_from : List A → List A → List A
  dedup_from seen [] = []
  dedup_from seen (x ∷ xs) =
      let same = dedup_from seen xs in
      let rest = dedup_from (x ∷ seen) xs in if contains seen x then same else x ∷ rest

  unfoldable pub dedup : List A → List A
  dedup xs = dedup_from [] xs

  contains-dedup_from :
      (seen xs : List A) (a : A)
      → contains (dedup_from seen xs) a ≡ (contains xs a && not (contains seen a))
  unfolding dedup_from
  contains-dedup_from seen [] a = refl
  contains-dedup_from seen (x ∷ xs) a =
      ground
        (arith, e.eqb_iff x a, contains-dedup_from seen xs a, contains-dedup_from (x ∷ seen) xs a)

  pub contains-dedup : (xs : List A) (a : A) → contains (dedup xs) a ≡ contains xs a
  unfolding dedup
  contains-dedup xs a = ground (arith, contains-dedup_from [] xs a)

  distinct-dedup_from : (seen xs : List A) → distinct (dedup_from seen xs) ≡ true
  unfolding dedup_from
  distinct-dedup_from seen [] = refl
  distinct-dedup_from seen (x ∷ xs) = ground (
    arith,
    e.eqb_iff x x,
    contains-dedup_from (x ∷ seen) xs x,
    distinct-dedup_from seen xs,
    distinct-dedup_from (x ∷ seen) xs,
  )

  pub distinct-dedup : (xs : List A) → distinct (dedup xs) ≡ true
  unfolding dedup
  distinct-dedup xs = distinct-dedup_from [] xs
