-- ===== src/Tests/Acl.antt =====
-- The filter, the terms, the folders, inheritance and the compiler.
use sync_ai_final.Base.{
  nat_eq, list_eqb, list_eq, option_eq, pair_eq, length, any, contains, distinct, Text, codes,
  is_space, lstrip, keep_char, rstrip, strip, get, insert, ◌≤◌, ◌≡◌, refl, Bool, true, false, ◌&&◌,
  none, some, List, [], ◌∷◌, map, arith,
}
use sync_ai_final.Models.{read}
use sync_ai_final.Store.Containers.{get_container_acl_entries, get_parent_container}
use sync_ai_final.Acl.Filter.{
  star, is_fail_closed, is_bypass, deny_terms_for, document_is_visible, opensearch_acl_clause,
}
use sync_ai_final.Acl.Filter.Visible.{document_is_visible_iff}
use sync_ai_final.Acl.Filter.Search.{selects, opensearch_acl_clause-document_is_visible}
use sync_ai_final.Acl.Terms.{
  null, text, atom, items, Payload, add, add_value, add_values, add_group, add_groups, add_term,
  add_principal_term, add_email, collect_claims, acl_terms_from_jwt, collect_user,
  generate_acl_terms_for_user,
}
use sync_ai_final.Acl.Terms.Agree.{plain_payload, generate_acl_terms_for_user-acl_terms_from_jwt}
use sync_ai_final.Acl.Service.{
  Service, climb, parent_in, cached, get_ancestors, get_container_permissions,
  upsert_container_edge,
}
use sync_ai_final.Acl.Service.Chain.{init, IsChain, get_ancestors_lem, get_ancestors_whole}
use sync_ai_final.Acl.Inheritance.{
  principal_key, id_key_eq, note_deny, note_allow, surviving, visit_perm, visit_perms,
  visit_containers, visit_parents, compute_inherited_entries,
}
use sync_ai_final.Acl.Inheritance.Nearest.{grants, compute_inherited_entries_iff}
use sync_ai_final.Acl.Compiler.{
  permission_rank, deny_keys, drop_denied, keep_best, best_entries, apply_deny_overrides,
}
use sync_ai_final.Acl.Compiler.Deny.{
  has_key_of, denies_key, allows_key, apply_deny_overrides_denied, ranks, apply_deny_overrides_rank,
}
use sync_ai_final.Tests.Samples.{
  ascii_lower, entry_of, doc_a, rows, leaf, mid, top, service, document,
}

abbrev alice : List Text
alice = codes "user:alice" ∷ codes "eng" ∷ []

abbrev shared : List Text
shared = codes "eng" ∷ codes "deny:user:bob" ∷ []

abbrev withheld : List Text
withheld = codes "eng" ∷ codes "deny:user:alice" ∷ []

abbrev any_of : List Text → List Text → Bool
any_of terms doc = any (λ t. contains doc t) terms

document_is_visible_iff_example : document_is_visible alice (some shared) ≡ true
unfolding list_eqb
document_is_visible_iff_example = document_is_visible_iff alice (some shared)

document_is_visible_denied : document_is_visible alice (some withheld) ≡ false
unfolding document_is_visible is_fail_closed is_bypass deny_terms_for list_eqb
document_is_visible_denied = refl

opensearch_acl_clause-document_is_visible_example :
    selects any_of (opensearch_acl_clause alice) withheld
    ≡ document_is_visible alice (some withheld)
opensearch_acl_clause-document_is_visible_example =
    opensearch_acl_clause-document_is_visible any_of alice withheld (λ terms doc. refl) refl

-- A caller who holds a deny term: OpenSearch returns a document that the filter hides.
opensearch_acl_clause_literal_deny :
    let user = codes "deny:a" ∷ [] in
    (selects any_of (opensearch_acl_clause user) user ≡ true)
    × (document_is_visible user (some user) ≡ false)
unfolding opensearch_acl_clause document_is_visible is_fail_closed is_bypass deny_terms_for list_eqb
opensearch_acl_clause_literal_deny = (refl, refl)

abbrev token : Payload
token = record {
  acl_terms = items (codes "['*', 'x']") (text star ∷ text (codes " x ") ∷ null ∷ []);
  acl_filter_terms = atom null;
  sub = atom (text (codes "p1"));
  principal_id = atom null;
  user_id = atom null;
  email = atom (text (codes " A@b "));
  groups = items (codes "['eng']") (text (codes "eng") ∷ []);
}

acl_terms_from_jwt-token :
    acl_terms_from_jwt ascii_lower token
    ≡ codes "x"
      ∷ codes "p1"
      ∷ codes "user:p1"
      ∷ codes "a@b"
      ∷ codes "user:a@b"
      ∷ codes "eng"
      ∷ codes "group:eng"
      ∷ []
unfolding acl_terms_from_jwt collect_claims add_values add_value add add_groups add_group add_email
    strip lstrip rstrip keep_char is_space list_eqb
acl_terms_from_jwt-token = refl

generate_acl_terms_for_user-acl_terms_from_jwt_example :
    generate_acl_terms_for_user ascii_lower
      (some (codes "p1"))
      (some (codes "A@b"))
      (some (codes "eng" ∷ []))
    ≡ acl_terms_from_jwt ascii_lower
        (plain_payload (codes "p1") (codes "A@b") (codes "eng" ∷ []) (codes "['eng']"))
unfolding strip lstrip rstrip keep_char is_space
generate_acl_terms_for_user-acl_terms_from_jwt_example =
    generate_acl_terms_for_user-acl_terms_from_jwt ascii_lower (codes "p1") (codes "A@b")
      (codes "eng" ∷ []) (codes "['eng']") refl refl refl refl (refl, tt)

-- A principal that bears the prefix already: the token has one term more.
generate_acl_terms_for_user_prefixed :
    (generate_acl_terms_for_user ascii_lower (some (codes "user:p")) none none
      ≡ codes "user:p" ∷ [])
    × (acl_terms_from_jwt ascii_lower (plain_payload (codes "user:p") [] [] [])
        ≡ codes "user:p" ∷ codes "user:user:p" ∷ [])
unfolding acl_terms_from_jwt collect_claims add_values add_value add add_groups add_group add_email
    strip lstrip rstrip keep_char is_space list_eqb generate_acl_terms_for_user collect_user
    add_principal_term add_term
generate_acl_terms_for_user_prefixed = (refl, refl)

get_ancestors_lem_example :
    IsChain (parent_in service 1) leaf (get_ancestors 5 leaf 1 50 service).0
    × (length (get_ancestors 5 leaf 1 50 service).0 ≤ 50)
    × (distinct (init (leaf ∷ (get_ancestors 5 leaf 1 50 service).0)) ≡ true)
unfolding cached get
get_ancestors_lem_example = get_ancestors_lem 5 leaf 1 50 service refl

get_ancestors_whole_example : (get_ancestors 5 leaf 1 50 service).0 ≡ mid ∷ top ∷ []
unfolding cached get get_parent_container list_eqb
get_ancestors_whole_example =
    get_ancestors_whole 5 leaf 1 50 service (mid ∷ top ∷ []) refl refl
      (refl, refl, (refl, refl, refl)) refl (omega arith)

abbrev moved_mid : Service
moved_mid = upsert_container_edge 6 (codes "new") mid (codes "onedrive") 1 service

compute_inherited_entries-folders :
    map (λ e. e.principal_id) (compute_inherited_entries 5 document service).0 ≡ some 8 ∷ []
unfolding compute_inherited_entries visit_parents visit_containers visit_perms visit_perm note_deny
    note_allow surviving get_ancestors cached climb get insert get_parent_container
    get_container_permissions get_container_acl_entries list_eqb
compute_inherited_entries-folders = refl

compute_inherited_entries_iff_example :
    any (grants (principal_key 7)) (compute_inherited_entries 5 document service).0 ≡ false
unfolding get_ancestors cached climb get insert get_parent_container get_container_permissions
    get_container_acl_entries list_eqb
compute_inherited_entries_iff_example =
    compute_inherited_entries_iff 5 document service (principal_key 7)

apply_deny_overrides_denied_example :
    (any (denies_key (doc_a, some 7)) (apply_deny_overrides rows) ≡ true)
    × (any (allows_key (doc_a, some 7)) (apply_deny_overrides rows) ≡ false)
unfolding list_eqb
apply_deny_overrides_denied_example = apply_deny_overrides_denied doc_a 7 rows refl

apply_deny_overrides_rank_example :
    any (λ e. has_key_of (doc_a, some 8) e && ranks 4 e) (apply_deny_overrides rows) ≡ true
unfolding list_eqb permission_rank
apply_deny_overrides_rank_example = apply_deny_overrides_rank doc_a 8 rows 4 refl

-- A document shared with the groups 3 and 4 keeps the entry of group 3 alone.
apply_deny_overrides_groups :
    map
      (λ e. e.group_id)
      (apply_deny_overrides
        (entry_of doc_a none (some 3) read false ∷ entry_of doc_a none (some 4) read false ∷ []))
    ≡ some 3 ∷ []
unfolding apply_deny_overrides best_entries keep_best drop_denied deny_keys get insert
    permission_rank list_eqb
apply_deny_overrides_groups = refl
