-- ===== src/Acl/Terms/Agree.antt =====
-- The indexing terms of a user agree with the terms that the user's token carries.
use sync_ai_final.Base.{
  if◌then◌else◌, nat_eq, list_eq, option_eq, pair_eq, is_empty, Text, nonempty, starts_with, lstrip,
  rstrip, strip, ◌≡◌, refl, true, false, some, List, [], ◌∷◌, ◌++◌, arith,
}
use sync_ai_final.Acl.Terms.{
  Value, null, text, atom, items, Payload, Collected, nothing, user_prefix, group_prefix, add,
  add_value, add_group, add_groups, add_group_term, add_group_terms, add_principal_term, add_email,
  collect_claims, acl_terms_from_jwt, add_email_term, collect_user, generate_acl_terms_for_user,
}
use sync_ai_final.Acl.Terms.Clean.{add_term-add}

abbrev texts : List Text → List Value
texts [] = []
texts (t ∷ ts) = text t ∷ texts ts

-- A token that claims no terms of its own, with these three claims.
abbrev pub plain_payload : Text → Text → List Text → Text → Payload
plain_payload principal email groups shown = record {
  acl_terms = atom null;
  acl_filter_terms = atom null;
  sub = atom (text principal);
  principal_id = atom null;
  user_id = atom null;
  email = atom (text email);
  groups = items shown (texts groups);
}

-- Every text of the list has no blank at its ends.
abbrev pub AllStripped : List Text → Type 0
AllStripped [] = Unit {0}
AllStripped (t ∷ ts) = (strip t ≡ t) × AllStripped ts

add-blank : (c : Collected) → add [] c ≡ c
unfolding add strip lstrip rstrip
add-blank c = refl

add_group_term-add_group :
    (g : Text) (c : Collected) → strip g ≡ g → add_group_term g c ≡ add_group (text g) c
unfolding add_group_term add_group add_value
add_group_term-add_group [] c h = ground (arith, h, add-blank c)
add_group_term-add_group (x ∷ g) c h =
    ground (arith, h, add_term-add (x ∷ g) c, add_term-add (group_prefix ++ x ∷ g) (add (x ∷ g) c))

add_group_terms-add_groups :
    (gs : List Text) (c : Collected)
    → AllStripped gs
    → add_group_terms gs c ≡ add_groups (texts gs) c
unfolding add_group_terms add_groups
add_group_terms-add_groups [] c h = refl
add_group_terms-add_groups (g ∷ gs) c h =
    rw (add_group_term-add_group g c h.0) (add_group_terms-add_groups gs (add_group (text g) c) h.1)

add_principal_term-add :
    (p : Text) (c : Collected)
    → strip p ≡ p
    → starts_with p user_prefix ≡ false
    → starts_with p group_prefix ≡ false
    → add_principal_term p c ≡ (if nonempty p then add (user_prefix ++ p) (add p c) else c)
unfolding add_principal_term
add_principal_term-add p c h hu hg =
    ground (arith, h, add_term-add p c, add_term-add (user_prefix ++ p) (add p c))

add_email_term-add_email :
    (lower : Text → Text) (m : Text) (c : Collected)
    → nonempty (lower (strip m)) ≡ true
    → add_email_term lower m c ≡ add_email lower m c
unfolding add_email_term add_email
add_email_term-add_email lower m c h =
    let l = lower (strip m) in
    ground (arith, h, add_term-add l c, add_term-add (user_prefix ++ l) (add l c))

add_groups-none :
    (gs : List Text) (c : Collected) → is_empty (texts gs) ≡ true → add_groups (texts gs) c ≡ c
unfolding add_groups
add_groups-none [] c h = refl
add_groups-none (g ∷ gs) c h = cc

-- For a principal and groups without blanks at their ends, a principal with neither prefix, and an
-- email that is not all blanks, the terms written into the index are the terms of the token.
pub generate_acl_terms_for_user-acl_terms_from_jwt :
    (lower : Text → Text) (principal email : Text) (groups : List Text) (shown : Text)
    → strip principal ≡ principal
    → starts_with principal user_prefix ≡ false
    → starts_with principal group_prefix ≡ false
    → nonempty (lower (strip email)) ≡ nonempty email
    → AllStripped groups
    → generate_acl_terms_for_user lower (some principal) (some email) (some groups)
      ≡ acl_terms_from_jwt lower (plain_payload principal email groups shown)
unfolding generate_acl_terms_for_user acl_terms_from_jwt collect_user collect_claims
generate_acl_terms_for_user-acl_terms_from_jwt lower principal email groups shown hp hu hg he hs =
    let c1 =
      if nonempty principal
      then add (user_prefix ++ principal) (add principal nothing)
      else nothing in
    let c2 = if nonempty email then add_email lower email c1 else c1 in
    ground (
      arith,
      add_principal_term-add principal nothing hp hu hg,
      add_email_term-add_email lower email c1,
      add_group_terms-add_groups groups c2 hs,
      add_groups-none groups c2,
    )
