-- ===== src/Acl/Filter/Search.antt =====
-- The OpenSearch clause selects what `document_is_visible` lets through.
use sync_ai_final.Base.{
  nat_eq, list_eq, option_eq, pair_eq, any, any-map_pred, any-is_empty, contains, any-contains_comm,
  any-contains_and, Text, nonempty, starts_with, ◌≡◌, Bool, true, false, not, ◌&&◌, some, List, [],
  ◌∷◌, arith,
}
use sync_ai_final.Acl.Filter.{
  deny_prefix, is_fail_closed, is_bypass, deny_terms_for, document_is_visible, ClauseResult,
  value_error, skip, clause, opensearch_acl_clause,
}
use sync_ai_final.Acl.Filter.Visible.{denies, contains-deny_terms_for, document_is_visible_iff}

-- OpenSearch's `terms` clause, from its documentation: a document matches if its field holds at
-- least one of the given terms.
abbrev pub TermsQuery : (List Text → List Text → Bool) → Type 0
TermsQuery matches = (terms doc : List Text) → matches terms doc ≡ any (λ t. contains doc t) terms

module _ (matches : List Text → List Text → Bool) where
  abbrev pub matches_all : List (List Text) → List Text → Bool
  matches_all [] doc = true
  matches_all (ts ∷ cs) doc = matches ts doc && matches_all cs doc

  -- The documents that a search with this clause returns: none if it is not sent, all without one.
  abbrev pub selects : ClauseResult → List Text → Bool
  selects value_error doc = false
  selects skip doc = true
  selects (clause c) doc = matches_all c.must doc && not (any (λ ts. matches ts doc) c.must_not)

-- A term that the caller may hold: not blank, and not a deny term.
abbrev pub is_plain : Text → Bool
is_plain t = nonempty t && not (starts_with t deny_prefix)

-- For a caller whose terms are neither blank nor deny terms, the OpenSearch clause returns exactly
-- the documents that `document_is_visible` lets through; `matches` is OpenSearch's `terms` clause.
pub opensearch_acl_clause-document_is_visible :
    (matches : List Text → List Text → Bool) (user_acl doc : List Text)
    → TermsQuery matches
    → any (λ t. not (is_plain t)) user_acl ≡ false
    → selects matches (opensearch_acl_clause user_acl) doc ≡ document_is_visible user_acl (some doc)
unfolding opensearch_acl_clause is_fail_closed is_bypass
opensearch_acl_clause-document_is_visible matches user_acl doc query plain = ground (
  arith,
  document_is_visible_iff user_acl (some doc),
  query user_acl doc,
  query (deny_terms_for user_acl) doc,
  any-contains_comm user_acl doc,
  any-contains_comm (deny_terms_for user_acl) doc,
  any-is_empty (λ t. contains doc t) (deny_terms_for user_acl),
  any-contains_and is_plain user_acl doc plain,
  any-map_pred (λ t. contains (deny_terms_for user_acl) t) (denies user_acl) doc
      (λ t. contains-deny_terms_for user_acl t),
)
