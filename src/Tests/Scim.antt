-- ===== src/Tests/Scim.antt =====
-- Two feeds of a group and one of users.
use sync_ai_final.Base.{
  ltb, Bool-cases, nat_eq, list_eqb, list_eq, option_eq, pair_eq, dedup_from, dedup, Text, codes,
  get, insert, ℕ, zero, suc, ◌+◌, ◌-◌, ◌≤◌, ◌≡◌, ◌↔◌, refl, sym, ap, ◌∙◌, inl, inr, true, false,
  none, some, List, [], ◌∷◌, arith,
}
use sync_ai_final.Scim.{
  ScimUser, Users, new_user, write_user, sync_user, sync_loop, sync_users, ScimGroup, Groups,
  new_memberships,
}
use sync_ai_final.Scim.Members.{
  member_of, sync, all_known, no_stats, sync_feeds, replay_feeds, no_groups, sync_feeds_refines,
}
use sync_ai_final.Models.{Uuid, Time}
use sync_ai_final.Scim.Again.{sync_users_again}

abbrev first_code : Text → ℕ
first_code [] = 0
first_code (c ∷ s) = c

abbrev id_of_key : Text → ℕ
id_of_key [] = 0
id_of_key (c ∷ s) = suc (c + id_of_key s)

abbrev a_user : ScimUser
a_user = record {
  id = codes "u";
  emails = some (codes "u@x" ∷ []);
  display_name = none;
  user_name = codes "U";
  profile = [];
}

abbrev user_rows : Users
user_rows = (117, new_user first_code 1 a_user (codes "u@x")) ∷ []

sync_users_again_example :
    sync_users first_code 1 (a_user ∷ []) user_rows
    ≡ some (record { created = 0; updated = 0; unchanged = 1 }, user_rows)
unfolding sync_users sync_loop sync_user write_user get insert list_eqb
sync_users_again_example =
    sync_users_again first_code 1 (a_user ∷ []) []
      (record { created = 1; updated = 0; unchanged = 0 }, user_rows) refl refl

-- Texts as numbers, where different texts have different numbers.
abbrev triangle : ℕ → ℕ
triangle zero = 0
triangle (suc n) = suc n + triangle n

abbrev pair_code : ℕ → ℕ → ℕ
pair_code a b = triangle (a + b) + b

abbrev text_code : Text → ℕ
text_code [] = 0
text_code (c ∷ s) = suc (pair_code c (text_code s))

triangle_gap : (n k : ℕ) → suc (triangle n + n) ≤ triangle (suc (k + n))
triangle_gap n zero =
    let e : 0 + n ≡ n = omega arith in
    let f : triangle (0 + n) ≡ triangle n = ap triangle e in omega (arith, f)
triangle_gap n (suc k) =
    let smaller = triangle_gap n k in
    let e : suc k + n ≡ suc (k + n) = omega arith in
    let f : triangle (suc k + n) ≡ triangle (suc (k + n)) = ap triangle e in
    omega (arith, smaller, f)

triangle_less : (n m x y p q : ℕ) → suc n ≤ m → x ≤ n → triangle n + x ≡ triangle m + y → p ≡ q
triangle_less n m x y p q h k e =
    let found : suc ((m - suc n) + n) ≡ m = omega arith in
    let same : triangle (suc ((m - suc n) + n)) ≡ triangle m = ap triangle found in
    omega (arith, triangle_gap n (m - suc n), same)

sums_equal : (a b c d : ℕ) → pair_code a b ≡ pair_code c d → a + b ≡ c + d
sums_equal a b c d h = elim (Bool-cases (ltb (a + b) (c + d))) [
  | inl below ↦
      let less : suc (a + b) ≤ c + d = ground (arith, below) in
      let small : b ≤ a + b = omega arith in
      triangle_less (a + b) (c + d) b d (a + b) (c + d) less small h
  | inr above ↦ elim (Bool-cases (ltb (c + d) (a + b))) [
    | inl below ↦
        let less : suc (c + d) ≤ a + b = ground (arith, below) in
        let small : d ≤ c + d = omega arith in
        triangle_less (c + d) (a + b) d b (a + b) (c + d) less small (sym h)
    | inr equal ↦ ground (arith, above, equal)
  ]
]

pair_code-inj : (a b c d : ℕ) → pair_code a b ≡ pair_code c d → (a ≡ c) × (b ≡ d)
pair_code-inj a b c d h =
    let e = sums_equal a b c d h in
    let same : triangle (a + b) ≡ triangle (c + d) = ap triangle e in
    (omega (arith, e, same, h), omega (arith, same, h))

text_code-inj : (s t : Text) → text_code s ≡ text_code t → s ≡ t
text_code-inj [] [] h = refl
text_code-inj [] (d ∷ t) h = cc
text_code-inj (c ∷ s) [] h = cc
text_code-inj (c ∷ s) (d ∷ t) h =
    let codes_equal : pair_code c (text_code s) ≡ pair_code d (text_code t) = omega (arith, h) in
    let (first, rest) = pair_code-inj c (text_code s) d (text_code t) codes_equal in
    ap (λ x. x ∷ s) first ∙ ap (λ r. d ∷ r) (text_code-inj s t rest)

abbrev group_with : List Text → ScimGroup first_code 1
group_with members = record { id = codes "g"; display_name = []; members = members }

-- The group has the members a and b, then b and c, and then one that is no user.
abbrev abc : List Uuid
abc = 97 ∷ 98 ∷ 99 ∷ []

abbrev some_feeds : List (Time × List (ScimGroup first_code 1))
some_feeds =
    (5, group_with (codes "a" ∷ codes "b" ∷ []) ∷ [])
    ∷ (6, group_with (codes "b" ∷ codes "c" ∷ []) ∷ [])
    ∷ (7, group_with (codes "z" ∷ []) ∷ [])
    ∷ []

abbrev synced : Groups first_code 1
synced =
    sync_feeds first_code 1 text_code text_code-inj abc some_feeds
      (no_groups first_code 1 text_code text_code-inj abc)

sync_feeds_refines_example :
    ((k : Text) (p : Uuid)
      → member_of first_code 1 synced k p
        ≡ replay_feeds first_code 1 text_code text_code-inj abc some_feeds (λ j q. false) k p)
    × ((now : Time) (gs : List (ScimGroup first_code 1))
        → (sync first_code 1 text_code text_code-inj abc now gs
              (no_stats first_code 1 text_code text_code-inj abc, synced)
            ≡ none)
          ↔ (all_known first_code 1 text_code text_code-inj abc gs ≡ false))
sync_feeds_refines_example = sync_feeds_refines first_code 1 text_code text_code-inj abc some_feeds

-- The third feed is rolled back: a has left the group, and c is in it.
replay_feeds-some_feeds :
    (replay_feeds first_code 1 text_code text_code-inj abc some_feeds (λ j q. false) (codes "g") 97
      ≡ false)
    × (replay_feeds first_code 1 text_code text_code-inj abc some_feeds
          (λ j q. false)
          (codes "g")
          99
        ≡ true)
unfolding new_memberships dedup dedup_from list_eqb
replay_feeds-some_feeds = (refl, refl)
