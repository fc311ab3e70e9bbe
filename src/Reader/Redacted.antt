-- ===== src/Reader/Redacted.antt =====
-- What a reader sees of the metadata.
use sync_ai_final.Base.{
  if◌then◌else◌, nat_eq, list_eq, option_eq, pair_eq, contains, Text, get, erase, get-erase, ◌≡◌,
  refl, Bool, not, ◌&&◌, none, List, [], ◌∷◌, arith,
}
use sync_ai_final.Reader.{Metadata, pop_all, hidden_keys, is_owner, redact_fields}

get-pop_all :
    (ks : List Text) (m : Metadata) (k : Text)
    → get k (pop_all ks m) ≡ (if contains ks k then none else get k m)
unfolding pop_all
get-pop_all [] m k = refl
get-pop_all (j ∷ ks) m k = ground (arith, get-pop_all ks (erase j m) k, get-erase j k m)

-- What the caller is not to see: the owner sees everything.
abbrev pub is_hidden : (lower : Text → Text) → Metadata → Text → Text → Bool
is_hidden lower m principal_id k =
    not (is_owner lower m principal_id) && contains (hidden_keys lower m) k

-- The owner of a document sees all of its metadata; anyone else sees exactly the keys that are neither
-- in its hidden fields nor, where its mode is `redacted`, among the sensitive ones, with their values.
pub get-redact_fields :
    (lower : Text → Text) (m : Metadata) (principal_id k : Text)
    → get k (redact_fields lower m principal_id) ≡ (
        if not (is_owner lower m principal_id) && contains (hidden_keys lower m) k
        then none
        else get k m)
unfolding redact_fields
get-redact_fields lower m principal_id k = ground (arith, get-pop_all (hidden_keys lower m) m k)
