-- ===== src/Acl/Filter/Visible.antt =====
-- What `document_is_visible` decides, stated by membership of terms.
use sync_ai_final.Base.{
  ◌==◌, nat_eq, list_eqb_iff, list_eq, option_eq, pair_eq, eqb_comm, any, filter, any-filter,
  any-map_pred, any-is_empty, is_empty-filter, contains, Text, nonempty, starts_with, ◌≡◌, refl,
  ◌∙◌, Bool, not, ◌&&◌, ◌||◌, Option, none, some, List, [], ◌∷◌, ◌++◌, arith,
}
use sync_ai_final.Acl.Filter.{
  deny_prefix, star, is_fail_closed, is_bypass, deny_terms_for, document_is_visible,
}

-- A term of the document that lets the caller in.
abbrev pub admits : List Text → Text → Bool
admits user_acl t = nonempty t && not (starts_with t deny_prefix) && contains user_acl t

-- A term of the document that denies one of the caller's own terms.
abbrev pub denies : List Text → Text → Bool
denies user_acl t = any (λ u. nonempty u && not (u == star) && (t == deny_prefix ++ u)) user_acl

pub contains-deny_terms_for :
    (user_acl : List Text) (t : Text) → contains (deny_terms_for user_acl) t ≡ denies user_acl t
unfolding deny_terms_for
contains-deny_terms_for [] t = refl
contains-deny_terms_for (u ∷ us) t =
    ground (arith, contains-deny_terms_for us t, eqb_comm t (deny_prefix ++ u))

abbrev pub terms_of : Option (List Text) → List Text
terms_of none = []
terms_of (some ts) = ts

-- A deny term is never blank.
denies-nonempty :
    (user_acl : List Text) (t : Text) → (nonempty t && denies user_acl t) ≡ denies user_acl t
denies-nonempty [] [] = refl
denies-nonempty (u ∷ us) [] =
    ground (arith, denies-nonempty us [], list_eqb_iff [] (deny_prefix ++ u))
denies-nonempty us (c ∷ t) = refl

denied_terms :
    (user_acl ts : List Text)
    → any (λ t. contains (deny_terms_for user_acl) t) (filter nonempty ts)
      ≡ any (denies user_acl) ts
denied_terms user_acl ts =
    any-filter (λ t. contains (deny_terms_for user_acl) t) nonempty ts
    ∙ any-map_pred (λ t. nonempty t && contains (deny_terms_for user_acl) t) (denies user_acl) ts
        (λ t. ground (arith, contains-deny_terms_for user_acl t, denies-nonempty user_acl t))

admitted_terms :
    (user_acl ts : List Text)
    → any
        (λ t. contains user_acl t)
        (filter (λ t. not (starts_with t deny_prefix)) (filter nonempty ts))
      ≡ any (admits user_acl) ts
admitted_terms user_acl ts =
    let positive = λ (t : Text). not (starts_with t deny_prefix) in
    any-filter (λ t. contains user_acl t) positive (filter nonempty ts)
    ∙ any-filter (λ t. positive t && contains user_acl t) nonempty ts
    ∙ any-map_pred (λ t. nonempty t && (positive t && contains user_acl t)) (admits user_acl) ts
        (λ t. ground arith)

-- A caller sees a document exactly if some term of the caller is not blank, and either the caller
-- holds the bypass term, or some nonblank term of the document that is no deny term is the
-- caller's and no term of the document is a deny term for a nonblank term of the caller.
pub document_is_visible_iff :
    (user_acl : List Text) (doc_acl : Option (List Text))
    → document_is_visible user_acl doc_acl ≡ (
        any nonempty user_acl
        && (contains user_acl star
            || (any (admits user_acl) (terms_of doc_acl)
                && not (any (denies user_acl) (terms_of doc_acl)))))
unfolding document_is_visible is_fail_closed is_bypass
document_is_visible_iff user_acl doc_acl =
    let ts = terms_of doc_acl in
    let positive = λ (t : Text). not (starts_with t deny_prefix) in
    let terms = filter nonempty ts in
    ground (
      arith,
      denied_terms user_acl ts,
      admitted_terms user_acl ts,
      any-is_empty (λ t. contains user_acl t) (filter positive terms),
      is_empty-filter positive terms,
    )
