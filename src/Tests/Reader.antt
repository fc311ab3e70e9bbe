-- ===== src/Tests/Reader.antt =====
-- A stored document of five bytes.
use sync_ai_final.Base.{
  nat_eq, list_eqb, list_eq, option_eq, pair_eq, Text, codes, get, ◌≡◌, refl, Bool, true, none,
  some, [], ◌∷◌, arith,
}
use sync_ai_final.Reader.{
  Metadata, DocumentStore, NewDocument, metadata_of, upsert, hidden_keys, read_document,
}
use sync_ai_final.Reader.Body.{body_of, read_document-upsert}
use sync_ai_final.Tests.Samples.{ascii_lower}

abbrev pub report : NewDocument
report = record {
  title = codes "Report";
  body = 1 ∷ 2 ∷ 3 ∷ 4 ∷ 5 ∷ [];
  structured_metadata = none;
  owner_principal_id = codes "p";
  created_at = none;
  updated_at = none;
  visibility_mode = codes "acl";
  hidden_fields = codes "title" ∷ [];
  acl_entries = [];
  object_key = none;
}

abbrev report_meta : Metadata
report_meta = metadata_of (codes "t") (codes "d") report

abbrev pub no_documents : DocumentStore
no_documents = record { docs = []; objects = [] }

abbrev pub any_reader : Text → Text → Text → Bool
any_reader tenant principal doc = true

read_document-upsert_example :
    body_of ascii_lower (
      read_document ascii_lower any_reader 2
        (upsert (codes "t") (codes "d") report no_documents)
        (codes "t")
        (codes "d")
        (codes "q")
        3)
    ≡ some (1 ∷ 2 ∷ 3 ∷ 4 ∷ 5 ∷ [])
unfolding hidden_keys metadata_of get list_eqb
read_document-upsert_example =
    read_document-upsert ascii_lower any_reader 2 (codes "t") (codes "d") (codes "q") 3 report
      no_documents refl (omega arith) refl refl
