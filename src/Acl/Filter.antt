-- ===== src/Acl/Filter.antt =====
-- The search-time filter, backend/app/acl/filter.py.
pub mod Visible
pub mod Search
use sync_ai_final.Base.{
  if◌then◌else◌, ◌==◌, nat_eq, list_eq, option_eq, pair_eq, is_empty, any, filter, contains, Text,
  codes, nonempty, starts_with, Bool, true, false, not, ◌&&◌, Option, none, some, List, [], ◌∷◌,
  ◌++◌, map,
}

abbrev pub deny_prefix : Text
deny_prefix = codes "deny:"

-- The test and operations term that sees everything.
abbrev pub star : Text
star = codes "*"

unfoldable pub is_fail_closed : List Text → Bool
is_fail_closed user_acl = not (any nonempty user_acl)

unfoldable pub is_bypass : List Text → Bool
is_bypass user_acl = contains user_acl star

unfoldable pub deny_terms_for : List Text → List Text
deny_terms_for user_acl =
    map (λ term. deny_prefix ++ term)
      (filter (λ term. nonempty term && not (term == star)) user_acl)

unfoldable pub document_is_visible : List Text → Option (List Text) → Bool
document_is_visible user_acl doc_acl =
    if is_fail_closed user_acl
    then false
    else if is_bypass user_acl
    then true
    else let terms = filter nonempty (elim doc_acl [ none ↦ [] | some ts ↦ ts ]) in
      if is_empty terms
      then false
      else let deny_full = deny_terms_for user_acl in
        if any (λ t. contains deny_full t) terms
        then false
        else let positive = filter (λ t. not (starts_with t deny_prefix)) terms in
          if is_empty positive then false else any (λ t. contains user_acl t) positive

-- The Boolean query that is sent to OpenSearch: `terms` clauses that must and must not match.
pub record Clause : Type 0 where
  pub must : List (List Text)
  pub must_not : List (List Text)

-- A `ValueError`, no clause (`None`), or a clause.
pub data ClauseResult : Type 0 where
  value_error : ClauseResult
  skip : ClauseResult
  clause : Clause → ClauseResult

unfoldable pub opensearch_acl_clause : List Text → ClauseResult
opensearch_acl_clause user_acl =
    if is_fail_closed user_acl
    then value_error
    else if is_bypass user_acl
    then skip
    else let deny = deny_terms_for user_acl in
      clause (record { must = user_acl ∷ []; must_not = if is_empty deny then [] else deny ∷ [] })

-- The terms of the Qdrant condition for explicit deny.
unfoldable pub qdrant_must_not_acl : List Text → Option (List Text)
qdrant_must_not_acl user_acl =
    let deny = deny_terms_for user_acl in if is_empty deny then none else some deny
