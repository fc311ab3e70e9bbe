-- ===== src/Tests/Live.antt =====
-- A document that principal 7 may read, until a deny is written.
use sync_ai_final.Base.{
  nat_eq, list_eqb, list_eq, option_eq, pair_eq, any, dedup_from, dedup, Text, codes, is_space,
  lstrip, keep_char, rstrip, strip, ◌-◌, ◌≡◌, refl, ◌↔◌, true, false, not, ◌&&◌, Option, none, some,
  List, [], ◌∷◌,
}
use sync_ai_final.Models.{Uuid, read, AclEntry}
use sync_ai_final.Store.{alias_for, document_id_aliases}
use sync_ai_final.Store.Entries.{replace_acl_entries}
use sync_ai_final.Store.Entries.Access.{denies_to, allows_to, rows_under}
use sync_ai_final.Reader.{http_exception, read_document}
use sync_ai_final.Reader.Checkers.{postgres_is_allowed}
use sync_ai_final.Reader.Checkers.Live.{
  read_document-postgres_is_allowed, read_document-replace_acl_entries,
}
use sync_ai_final.Tests.Samples.{ascii_lower, entry_of, doc_a, stored}
use sync_ai_final.Tests.Reader.{no_documents}

abbrev one_digit : Text → Option Uuid
one_digit [] = none
one_digit (c ∷ s) = some (c - 48)

abbrev deny_seven : List AclEntry
deny_seven = entry_of doc_a (some 7) none read true ∷ []

read_document-replace_acl_entries_example :
    read_document ascii_lower
      (postgres_is_allowed one_digit (replace_acl_entries doc_a deny_seven stored))
      4
      no_documents
      (codes "1")
      doc_a
      (codes "7")
      3
    ≡ http_exception 403
unfolding document_id_aliases alias_for dedup dedup_from strip lstrip rstrip keep_char is_space
    list_eqb
read_document-replace_acl_entries_example =
    read_document-replace_acl_entries ascii_lower one_digit 4 doc_a (codes "1") (codes "7") 3
      no_documents 1 7 stored doc_a deny_seven refl refl refl refl

read_document-postgres_is_allowed_example :
    (read_document ascii_lower
        (postgres_is_allowed one_digit stored)
        4
        no_documents
        (codes "1")
        doc_a
        (codes "7")
        3
      ≡ http_exception 403)
    ↔ (let rows_a = rows_under (document_id_aliases doc_a) stored in
        (any (allows_to 1 7) rows_a && not (any (denies_to 1 7) rows_a)) ≡ false)
read_document-postgres_is_allowed_example =
    read_document-postgres_is_allowed ascii_lower one_digit 4 doc_a (codes "1") (codes "7") 3
      no_documents 1 7 stored refl refl
