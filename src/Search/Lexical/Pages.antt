-- ===== src/Search/Lexical/Pages.antt =====
-- The pages of the lexical search.
use sync_ai_final.Base.{
  Bool-cases, Option-cases, nat_eq, list_eq, option_eq, pair_eq, take, drop, Text, get, ℕ, zero,
  suc, ◌+◌, ◌≡◌, refl, sym, ap, ◌∙◌, inl, inr, Option, none, some, List, [], ◌∷◌, ◌++◌, arith,
}
use sync_ai_final.Acl.Filter.{is_fail_closed}
use sync_ai_final.Search.Lexical.{Hit, Response, LexicalStore, hits, visible_docs, search}

-- The hits of a response, if there is one.
abbrev pub page : Option Response → List Hit
page none = []
page (some r) = r.results

drop-none : {A : Type 0} (n : ℕ) → drop {A = A} n [] ≡ []
drop-none zero = refl
drop-none (suc n) = refl

take-none : {A : Type 0} (n : ℕ) → take {A = A} n [] ≡ []
take-none zero = refl
take-none (suc n) = refl

drop-drop : {A : Type 0} (m n : ℕ) (xs : List A) → drop n (drop m xs) ≡ drop (m + n) xs
drop-drop zero n xs = let e : zero + n ≡ n = omega arith in rw e refl
drop-drop (suc m) n [] = drop-none n ∙ sym (drop-none (suc m + n))
drop-drop (suc m) n (x ∷ xs) =
    let e : suc m + n ≡ suc (m + n) = omega arith in rw e (drop-drop m n xs)

take-append-drop :
    {A : Type 0} (m n : ℕ) (xs : List A) → take m xs ++ take n (drop m xs) ≡ take (m + n) xs
take-append-drop zero n xs = let e : zero + n ≡ n = omega arith in rw e refl
take-append-drop (suc m) n [] = let e : suc m + n ≡ suc (m + n) = omega arith in rw e (take-none n)
take-append-drop (suc m) n (x ∷ xs) =
    let e : suc m + n ≡ suc (m + n) = omega arith in rw e (ap (◌∷◌ x) (take-append-drop m n xs))

-- The results of two successive pages of a search, one after the other, are those of one page of
-- both sizes: no result is lost or shown twice.
pub page_append :
    (lower : Text → Text) (tenant_id query : Text) (acl_terms facets : List Text) (from m n : ℕ)
    (s : LexicalStore)
    → page (search lower tenant_id query acl_terms facets from m s)
        ++ page (search lower tenant_id query acl_terms facets (from + m) n s)
      ≡ page (search lower tenant_id query acl_terms facets from (m + n) s)
unfolding search
page_append lower tenant_id query acl_terms facets from m n s =
    elim (Bool-cases (is_fail_closed acl_terms)) [
      | inl closed ↦ rw closed refl
      | inr open_terms ↦ rw open_terms (elim (Option-cases (get tenant_id s)) [
        | inl missing ↦ rw (missing, search) refl
        | inr (documents, stored) ↦
            let all = hits (visible_docs lower acl_terms query documents) in
            rw (stored, search)
              (rw (← (drop-drop from m all)) (take-append-drop m n (drop from all)))
      ])
    ]
