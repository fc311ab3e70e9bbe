-- ===== src/Acl/Terms/Merge.antt =====
-- `merge_acl_terms` keeps exactly the given terms, stripped, but for blanks and the bypass term.
use sync_ai_final.Base.{
  ◌==◌, nat_eq, list_eqb, list_eqb_iff, list_eq, option_eq, pair_eq, any, any-append, contains,
  contains-append, distinct, Text, nonempty, strip, ◌≡◌, Bool, true, not, ◌&&◌, ◌||◌, Option, none,
  some, List, [], ◌∷◌, ◌++◌, arith,
}
use sync_ai_final.Acl.Filter.{star}
use sync_ai_final.Acl.Terms.{
  Collected, nothing, add, add_term, merge_list, merge_lists, merge_acl_terms,
}
use sync_ai_final.Acl.Terms.Clean.{IsClean, nothing-IsClean, add_term-add, add-IsClean}

-- All the given terms, in order.
abbrev pub given : List (Option (List Text)) → List Text
given [] = []
given (none ∷ ls) = given ls
given (some ts ∷ ls) = ts ++ given ls

-- A term that may be kept.
abbrev pub is_kept : Text → Bool
is_kept t = nonempty t && not (t == star)

contains-add :
    (raw t : Text) (c : Collected)
    → IsClean c
    → contains (add raw c).terms t ≡ (contains c.terms t || (is_kept t && list_eqb (strip raw) t))
unfolding add
contains-add raw t c h = ground (
  arith,
  h.same (strip raw),
  h.same t,
  h.no_star,
  h.no_blank,
  list_eqb_iff (strip raw) t,
  list_eqb_iff (strip raw) star,
  contains-append c.terms (strip raw ∷ []) t,
)

merge_list-IsClean : (ts : List Text) (c : Collected) → IsClean c → IsClean (merge_list ts c)
unfolding merge_list
merge_list-IsClean [] c h = h
merge_list-IsClean (t ∷ ts) c h =
    merge_list-IsClean ts (add_term t c) (rw (add_term-add t c) (add-IsClean t c h))

merge_lists-IsClean :
    (ls : List (Option (List Text))) (c : Collected) → IsClean c → IsClean (merge_lists ls c)
unfolding merge_lists
merge_lists-IsClean [] c h = h
merge_lists-IsClean (none ∷ ls) c h = merge_lists-IsClean ls c h
merge_lists-IsClean (some ts ∷ ls) c h =
    merge_lists-IsClean ls (merge_list ts c) (merge_list-IsClean ts c h)

abbrev from_any : Text → List Text → Bool
from_any t ts = any (λ raw. list_eqb (strip raw) t) ts

contains-merge_list :
    (ts : List Text) (t : Text) (c : Collected)
    → IsClean c
    → contains (merge_list ts c).terms t ≡ (contains c.terms t || (is_kept t && from_any t ts))
unfolding merge_list
contains-merge_list [] t c h = ground arith
contains-merge_list (raw ∷ ts) t c h = ground (
  arith,
  add_term-add raw c,
  contains-merge_list ts t (add raw c) (add-IsClean raw c h),
  contains-add raw t c h,
)

contains-merge_lists :
    (ls : List (Option (List Text))) (t : Text) (c : Collected)
    → IsClean c
    → contains (merge_lists ls c).terms t
      ≡ (contains c.terms t || (is_kept t && from_any t (given ls)))
unfolding merge_lists
contains-merge_lists [] t c h = ground arith
contains-merge_lists (none ∷ ls) t c h = contains-merge_lists ls t c h
contains-merge_lists (some ts ∷ ls) t c h = ground (
  arith,
  contains-merge_lists ls t (merge_list ts c) (merge_list-IsClean ts c h),
  contains-merge_list ts t c h,
  any-append (λ raw. list_eqb (strip raw) t) ts (given ls),
)

-- The merged list holds a term exactly if it is neither blank nor the bypass term and one of the
-- given terms is it after stripping; and it holds no term twice.
pub merge_acl_terms_iff :
    (ls : List (Option (List Text))) (t : Text)
    → (contains (merge_acl_terms ls) t
        ≡ (is_kept t && any (λ raw. list_eqb (strip raw) t) (given ls)))
      × (distinct (merge_acl_terms ls) ≡ true)
unfolding merge_acl_terms
merge_acl_terms_iff ls t = (
  contains-merge_lists ls t nothing nothing-IsClean,
  (merge_lists-IsClean ls nothing nothing-IsClean).each_once,
)
