-- ===== src/Store/Documents.antt =====
-- Deletion of documents with their ACL rows.
use sync_ai_final.Base.{
  if◌then◌else◌, Bool-cases, ◌==◌, nat_eq, list_eqb_iff, list_eq, option_eq, pair_eq, eqb_refl, any,
  filter, contains, Text, Dict, values, get, erase, get-erase, ◌≡◌, refl, ◌∙◌, inl, inr, Bool, true,
  false, not, ◌||◌, Option, none, some, List, [], ◌∷◌, arith,
}
use sync_ai_final.Models.{Uuid, CanonicalDocument, AclEntry}
use sync_ai_final.Store.{
  Repo, get_document, document_id_aliases, pop_aliases, delete_documents_and_acls, matching_ids,
  of_source, drop_lingering, delete_documents_by_source,
}

-- A key that deleting the documents `ids` removes.
abbrev pub goes : List Text → Text → Bool
goes ids k = any (λ id. contains (document_id_aliases id) k) ids

gone_if :
    {V : Type 0} (b c : Bool) (x : Option V)
    → (if b then none else (if c then none else x)) ≡ (if c || b then none else x)
gone_if true true x = refl
gone_if true false x = refl
gone_if false true x = refl
gone_if false false x = refl

pop_aliases_lem :
    (as' : List Text) (r : Repo) (k : Text)
    → (get k (pop_aliases as' r).documents ≡ (if contains as' k then none else get k r.documents))
      × (get k (pop_aliases as' r).acl_entries
          ≡ (if contains as' k then none else get k r.acl_entries))
unfolding pop_aliases
pop_aliases_lem [] r k = (refl, refl)
pop_aliases_lem (a ∷ as') r k =
    let r' = record r { documents = erase a r.documents; acl_entries = erase a r.acl_entries } in
    let (docs, rows) = pop_aliases_lem as' r' k in
    (
      ground (arith, docs, get-erase a k r.documents),
      ground (arith, rows, get-erase a k r.acl_entries),
    )

-- Deleting documents removes exactly the aliases of their ids, from the documents and from the ACL
-- rows alike; what is stored under any other key stays.
pub delete_documents_and_acls_lem :
    (ids : List Text) (tenant_id : Uuid) (r : Repo) (k : Text)
    → let r' = delete_documents_and_acls ids tenant_id r in
      (get_document k r' ≡ (if goes ids k then none else get_document k r))
      × (get k r'.acl_entries ≡ (if goes ids k then none else get k r.acl_entries))
unfolding delete_documents_and_acls get_document
delete_documents_and_acls_lem [] tenant_id r k = (refl, refl)
delete_documents_and_acls_lem (id ∷ ids) tenant_id r k =
    let (docs, rows) =
      delete_documents_and_acls_lem ids tenant_id (pop_aliases (document_id_aliases id) r) k in
    let (docs1, rows1) = pop_aliases_lem (document_id_aliases id) r k in
    (ground (arith, docs, docs1), ground (arith, rows, rows1))

module _ (source_type : Text) (tenant : Uuid) where
  abbrev pub has_source : List AclEntry → Bool
  has_source = any (of_source source_type tenant)

  any-filter-not :
      (es : List AclEntry)
      → has_source (filter (λ e. not (of_source source_type tenant e)) es) ≡ false
  any-filter-not [] = refl
  any-filter-not (e ∷ es) = ground (arith, any-filter-not es)

  any-drop_lingering :
      (d : Dict Text (List AclEntry))
      → any has_source (values (drop_lingering source_type tenant d)) ≡ false
  unfolding drop_lingering
  any-drop_lingering [] = refl
  any-drop_lingering ((k, es) ∷ d) = ground (arith, any-drop_lingering d, any-filter-not es)

  contains-matching_ids :
      (id : Text) (doc : CanonicalDocument) (d : Dict Text CanonicalDocument)
      → get id d ≡ some doc
      → doc.source_type ≡ source_type
      → doc.tenant_id ≡ tenant
      → contains (matching_ids source_type tenant d) id ≡ true
  unfolding matching_ids get
  contains-matching_ids id doc [] e s t = cc
  contains-matching_ids id doc ((j, doc') ∷ d) e s t =
      ground (arith, list_eqb_iff j id, eqb_refl source_type, contains-matching_ids id doc d)

  goes_self :
      (ids : List Text) (id : Text)
      → contains ids id ≡ true
      → contains (document_id_aliases id) id ≡ true
      → goes ids id ≡ true
  goes_self [] id h a = h
  goes_self (j ∷ ids) id h a = elim (Bool-cases (j == id)) [
    | inl same ↦ rw ((list_eqb_iff j id).0 same) (rw a refl)
    | inr other ↦ ground (arith, goes_self ids id)
  ]

  -- Deleting a source leaves no ACL row of the source and the tenant under any key; and a document of
  -- theirs whose id is among its own aliases (it is not empty and has no blanks at its ends) is named in the
  -- result and deleted.
  pub delete_documents_by_source_lem :
      (r : Repo) (id : Text) (doc : CanonicalDocument)
      → get_document id r ≡ some doc
      → doc.source_type ≡ source_type
      → doc.tenant_id ≡ tenant
      → contains (document_id_aliases id) id ≡ true
      → let (deleted, r') = delete_documents_by_source source_type tenant r in
        (any has_source (values r'.acl_entries) ≡ false)
        × (contains deleted id ≡ true)
        × (get_document id r' ≡ none)
  unfolding delete_documents_by_source get_document
  delete_documents_by_source_lem r id doc e s t own =
      let ids = matching_ids source_type tenant r.documents in
      let listed = contains-matching_ids id doc r.documents e s t in
      let gone = goes_self ids id listed own in
      (
        any-drop_lingering (delete_documents_and_acls ids tenant r).acl_entries,
        listed,
        (delete_documents_and_acls_lem ids tenant r id).0 ∙ rw gone refl,
      )
