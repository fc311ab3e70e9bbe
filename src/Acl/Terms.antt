-- ===== src/Acl/Terms.antt =====
-- The terms of a caller: `acl_terms_from_jwt` of backend/app/acl/filter.py, and the two functions of
-- backend/app/acl/term_generator.py. The case mapping of `str.lower` is a table of the interpreter
-- and the parameter `lower` here.
pub mod Clean
pub mod Merge
pub mod Agree
use sync_ai_final.Base.{
  if◌then◌else◌, ◌==◌, nat_eq, list_eq, option_eq, pair_eq, is_empty, contains, Text, codes,
  nonempty, starts_with, strip, Bool, false, not, ◌&&◌, ◌||◌, Option, none, some, List, [], ◌∷◌,
  ◌++◌,
}
use sync_ai_final.Acl.Filter.{star}

-- A value of the decoded token. `other` is a number, a Boolean or an object, by its truth and the
-- text that `str()` gives; a list carries that text too.
pub data Value : Type 0 where
  null : Value
  text : Text → Value
  other : Bool → Text → Value

pub data Claim : Type 0 where
  atom : Value → Claim
  items : Text → List Value → Claim

pub record Payload : Type 0 where
  pub acl_terms : Claim
  pub acl_filter_terms : Claim
  pub sub : Claim
  pub principal_id : Claim
  pub user_id : Claim
  pub email : Claim
  pub groups : Claim

abbrev pub value_str : Value → Text
value_str null = codes "None"
value_str (text t) = t
value_str (other b t) = t

abbrev pub claim_str : Claim → Text
claim_str (atom v) = value_str v
claim_str (items t vs) = t

abbrev pub truthy : Claim → Bool
truthy (atom null) = false
truthy (atom (text t)) = nonempty t
truthy (atom (other b t)) = b
truthy (items t vs) = not (is_empty vs)

-- Python's `a or b`
abbrev pub or_else : Claim → Claim → Claim
or_else a b = if truthy a then a else b

-- `isinstance(claim, (list, tuple))`, with the items if so
abbrev pub items_of : Claim → List Value
items_of (atom v) = []
items_of (items t vs) = vs

-- The two variables that the closure `_add` of each function writes.
pub record Collected : Type 0 where
  pub terms : List Text
  pub seen : List Text

abbrev pub nothing : Collected
nothing = record { terms = []; seen = [] }

abbrev pub user_prefix : Text
user_prefix = codes "user:"

abbrev pub group_prefix : Text
group_prefix = codes "group:"

-- `_add` of `acl_terms_from_jwt`, on a text
unfoldable pub add : Text → Collected → Collected
add raw c =
    let value = strip raw in
    if not (nonempty value) || value == star || contains c.seen value
    then c
    else record { terms = c.terms ++ value ∷ []; seen = value ∷ c.seen }

-- `_add` of `acl_terms_from_jwt`: a null adds nothing
unfoldable pub add_value : Value → Collected → Collected
add_value null c = c
add_value (text t) c = add t c
add_value (other b t) c = add t c

unfoldable pub add_values : List Value → Collected → Collected
add_values [] c = c
add_values (v ∷ vs) c = add_values vs (add_value v c)

unfoldable pub add_group : Value → Collected → Collected
add_group group c =
    let group_str = value_str group in
    let c' = add_value group c in
    if nonempty group_str && not (starts_with group_str group_prefix)
    then add (group_prefix ++ group_str) c'
    else c'

unfoldable pub add_groups : List Value → Collected → Collected
add_groups [] c = c
add_groups (g ∷ gs) c = add_groups gs (add_group g c)

-- `_add` of `generate_acl_terms_for_user`, and the body of the inner loop of `merge_acl_terms`
unfoldable pub add_term : Text → Collected → Collected
add_term raw c =
    let value = strip raw in
    if nonempty value && not (contains c.seen value) && not (value == star)
    then record { terms = c.terms ++ value ∷ []; seen = value ∷ c.seen }
    else c

unfoldable pub add_group_term : Text → Collected → Collected
add_group_term group c =
    let group_str = strip group in
    if nonempty group_str
    then (let c' = add_term group_str c in
        if starts_with group_str group_prefix then c' else add_term (group_prefix ++ group_str) c')
    else c

unfoldable pub add_group_terms : List Text → Collected → Collected
add_group_terms [] c = c
add_group_terms (g ∷ gs) c = add_group_terms gs (add_group_term g c)

unfoldable pub add_principal_term : Text → Collected → Collected
add_principal_term principal_id c =
    let principal = strip principal_id in
    if nonempty principal
    then (let c' = add_term principal c in
        if starts_with principal user_prefix || starts_with principal group_prefix
        then c'
        else add_term (user_prefix ++ principal) c')
    else c

unfoldable pub merge_list : List Text → Collected → Collected
merge_list [] c = c
merge_list (t ∷ ts) c = merge_list ts (add_term t c)

unfoldable pub merge_lists : List (Option (List Text)) → Collected → Collected
merge_lists [] c = c
merge_lists (none ∷ ls) c = merge_lists ls c
merge_lists (some ts ∷ ls) c = merge_lists ls (merge_list ts c)

unfoldable pub merge_acl_terms : List (Option (List Text)) → List Text
merge_acl_terms term_lists = (merge_lists term_lists nothing).terms

module _ (lower : Text → Text) where
  unfoldable pub add_email : Text → Collected → Collected
  add_email email c = add (user_prefix ++ lower (strip email)) (add (lower (strip email)) c)

  unfoldable pub collect_claims : Payload → Collected
  collect_claims payload =
      let claimed = or_else payload.acl_terms payload.acl_filter_terms in
      let c1 = if truthy claimed then add_values (items_of claimed) nothing else nothing in
      let principal = or_else (or_else payload.sub payload.principal_id) payload.user_id in
      let c2 =
        if truthy principal
        then add (user_prefix ++ claim_str principal) (add (claim_str principal) c1)
        else c1 in
      let c3 = if truthy payload.email then add_email (claim_str payload.email) c2 else c2 in
      if truthy payload.groups then add_groups (items_of payload.groups) c3 else c3

  unfoldable pub acl_terms_from_jwt : Payload → List Text
  acl_terms_from_jwt payload = (collect_claims payload).terms

  unfoldable pub add_email_term : Text → Collected → Collected
  add_email_term email c =
      let email_normalized = lower (strip email) in
      if nonempty email_normalized
      then add_term (user_prefix ++ email_normalized) (add_term email_normalized c)
      else c

  unfoldable pub collect_user : Option Text → Option Text → Option (List Text) → Collected
  collect_user principal_id email groups =
      let c1 : Collected = elim principal_id [
        | none ↦ nothing
        | some p ↦ add_principal_term p nothing
      ] in
      let c2 : Collected = elim email [
        | none ↦ c1
        | some m ↦ if nonempty m then add_email_term m c1 else c1
      ] in
      elim groups [ none ↦ c2 | some gs ↦ add_group_terms gs c2 ]

  unfoldable pub generate_acl_terms_for_user :
      Option Text → Option Text → Option (List Text) → List Text
  generate_acl_terms_for_user principal_id email groups =
      (collect_user principal_id email groups).terms
