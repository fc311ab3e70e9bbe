-- ===== src/Acl/Terms/Clean.antt =====
-- What the collected terms of a caller never hold: the bypass term, a blank, a term twice.
use sync_ai_final.Base.{
  if◌then◌else◌, Bool-cases, nat_eq, list_eqb, list_eqb_iff, list_eq, option_eq, pair_eq, contains,
  contains-append, distinct, distinct-snoc, Text, nonempty, starts_with, strip, ◌≡◌, refl, inl, inr,
  Bool, true, false, not, ◌&&◌, ◌||◌, List, [], ◌∷◌, ◌++◌, arith,
}
use sync_ai_final.Acl.Filter.{star, is_bypass}
use sync_ai_final.Acl.Terms.{
  Value, null, text, other, Payload, value_str, claim_str, truthy, or_else, items_of, Collected,
  nothing, user_prefix, group_prefix, add, add_value, add_values, add_group, add_groups, add_term,
  add_email, collect_claims, acl_terms_from_jwt,
}

-- `seen` is the set of the terms, and the terms are neither blank nor the bypass term, each once.
pub record IsClean (c : Collected) : Type 0 where
  pub same : (t : Text) → contains c.seen t ≡ contains c.terms t
  pub no_star : contains c.terms star ≡ false
  pub no_blank : contains c.terms [] ≡ false
  pub each_once : distinct c.terms ≡ true

pub nothing-IsClean : IsClean nothing
nothing-IsClean = record { same = λ t. refl; no_star = refl; no_blank = refl; each_once = refl }

pub add_term-add : (raw : Text) (c : Collected) → add_term raw c ≡ add raw c
unfolding add_term add
add_term-add raw c = ground arith

module _ (v : Text) (c : Collected) where
  abbrev push : Collected
  push = record { terms = c.terms ++ v ∷ []; seen = v ∷ c.seen }

  push-IsClean :
      IsClean c
      → nonempty v ≡ true
      → list_eqb v star ≡ false
      → contains c.seen v ≡ false
      → IsClean push
  push-IsClean h full distinct_from_star fresh = record {
    same = λ t. ground (arith, h.same t, contains-append c.terms (v ∷ []) t);
    no_star = ground (arith, h.no_star, contains-append c.terms (v ∷ []) star);
    no_blank = ground (arith, h.no_blank, contains-append c.terms (v ∷ []) [], list_eqb_iff v []);
    each_once = distinct-snoc c.terms v h.each_once (ground (arith, h.same v));
  }

pub add-IsClean : (raw : Text) (c : Collected) → IsClean c → IsClean (add raw c)
unfolding add
add-IsClean raw c h =
    let v = strip raw in
    elim (Bool-cases (not (nonempty v) || list_eqb v star || contains c.seen v)) [
      | inl drop_it ↦ rw drop_it h
      | inr keep_it ↦ rw keep_it (push-IsClean v c h (ground arith) (ground arith) (ground arith))
    ]

add_value-IsClean : (v : Value) (c : Collected) → IsClean c → IsClean (add_value v c)
unfolding add_value
add_value-IsClean null c h = h
add_value-IsClean (text t) c h = add-IsClean t c h
add_value-IsClean (other b t) c h = add-IsClean t c h

add_values-IsClean : (vs : List Value) (c : Collected) → IsClean c → IsClean (add_values vs c)
unfolding add_values
add_values-IsClean [] c h = h
add_values-IsClean (v ∷ vs) c h = add_values-IsClean vs (add_value v c) (add_value-IsClean v c h)

if-IsClean : (b : Bool) (c d : Collected) → IsClean c → IsClean d → IsClean (if b then c else d)
if-IsClean true c d h k = h
if-IsClean false c d h k = k

add_group-IsClean : (g : Value) (c : Collected) → IsClean c → IsClean (add_group g c)
unfolding add_group
add_group-IsClean g c h =
    let c' = add_value g c in
    let k = add_value-IsClean g c h in
    if-IsClean (nonempty (value_str g) && not (starts_with (value_str g) group_prefix))
      (add (group_prefix ++ value_str g) c') c' (add-IsClean (group_prefix ++ value_str g) c' k) k

add_groups-IsClean : (gs : List Value) (c : Collected) → IsClean c → IsClean (add_groups gs c)
unfolding add_groups
add_groups-IsClean [] c h = h
add_groups-IsClean (g ∷ gs) c h = add_groups-IsClean gs (add_group g c) (add_group-IsClean g c h)

module _ (lower : Text → Text) where
  collect_claims-IsClean : (payload : Payload) → IsClean (collect_claims lower payload)
  unfolding collect_claims add_email
  collect_claims-IsClean payload =
      let claimed = or_else payload.acl_terms payload.acl_filter_terms in
      let p = or_else (or_else payload.sub payload.principal_id) payload.user_id in
      let k1 =
        if-IsClean (truthy claimed) (add_values (items_of claimed) nothing) nothing
          (add_values-IsClean (items_of claimed) nothing nothing-IsClean) nothing-IsClean in
      let k2 =
        if-IsClean (truthy p) _ _
          (add-IsClean (user_prefix ++ claim_str p) _ (add-IsClean (claim_str p) _ k1)) k1 in
      let m = lower (strip (claim_str payload.email)) in
      let k3 =
        if-IsClean (truthy payload.email) _ _
          (add-IsClean (user_prefix ++ m) _ (add-IsClean m _ k2)) k2 in
      if-IsClean (truthy payload.groups) _ _ (add_groups-IsClean (items_of payload.groups) _ k3) k3

  -- Whatever the token holds, the caller's terms never bypass the filter, hold no blank term, and
  -- hold no term twice.
  pub acl_terms_from_jwt-IsClean :
      (payload : Payload)
      → (is_bypass (acl_terms_from_jwt lower payload) ≡ false)
        × (contains (acl_terms_from_jwt lower payload) [] ≡ false)
        × (distinct (acl_terms_from_jwt lower payload) ≡ true)
  unfolding acl_terms_from_jwt is_bypass
  acl_terms_from_jwt-IsClean payload =
      let h = collect_claims-IsClean payload in (h.no_star, h.no_blank, h.each_once)
