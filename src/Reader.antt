-- ===== src/Reader.antt =====
-- The document reader, backend/app/services/document_reader: `InMemoryDocumentStore` of store.py, the
-- checkers of acl_checker.py and `read_document` of reader.py. `hidden_fields` is a list,
-- `body_size` a number and `structured_metadata` a dict, as `upsert` writes them; bodies are bytes.
pub mod Redacted
pub mod Body
pub mod Checkers
use sync_ai_final.Base.{
  ltb, if◌then◌else◌, ◌==◌, nat_eq, list_eq, option_eq, pair_eq, length, take, drop, is_empty, Text,
  codes, nonempty, Dict, get, insert, erase, ℕ, zero, suc, ◌+◌, Bool, not, ◌&&◌, Option, none, some,
  List, [], ◌∷◌, ◌++◌,
}

abbrev pub Bytes : Type 0
Bytes = List ℕ

mutual
  pub data MetaValue : Type 0 where
    none_value : MetaValue
    text_value : Text → MetaValue
    texts : List Text → MetaValue
    number : ℕ → MetaValue
    mapping : MetaDict → MetaValue

  -- A dict inside the metadata.
  pub data MetaDict : Type 0 where
    no_entries : MetaDict
    entry : Text → MetaValue → MetaDict → MetaDict

abbrev pub Metadata : Type 0
Metadata = Dict Text MetaValue

pub record DocumentStore : Type 0 where
  pub docs : Dict (Text × Text) Metadata
  pub objects : Dict Text Bytes

-- `str(value or "")`, of a text
abbrev pub text_of : Option MetaValue → Text
text_of none = []
text_of (some none_value) = []
text_of (some (text_value t)) = t
text_of (some (texts ts)) = []
text_of (some (number n)) = []
text_of (some (mapping m)) = []

-- `value or []`, of a list
abbrev pub texts_of : Option MetaValue → List Text
texts_of none = []
texts_of (some none_value) = []
texts_of (some (text_value t)) = []
texts_of (some (texts ts)) = ts
texts_of (some (number n)) = []
texts_of (some (mapping m)) = []

-- `int(value or 0)`, of a number
abbrev pub number_of : Option MetaValue → ℕ
number_of none = 0
number_of (some none_value) = 0
number_of (some (text_value t)) = 0
number_of (some (texts ts)) = 0
number_of (some (number n)) = n
number_of (some (mapping m)) = 0

pub record NewDocument : Type 0 where
  pub title : Text
  pub body : Bytes
  pub structured_metadata : Option MetaDict
  pub owner_principal_id : Text
  pub created_at : Option Text
  pub updated_at : Option Text
  pub visibility_mode : Text
  pub hidden_fields : List Text
  pub acl_entries : List Text
  pub object_key : Option Text

abbrev pub optional_text : Option Text → MetaValue
optional_text none = none_value
optional_text (some t) = text_value t

-- `structured_metadata or {}`
abbrev pub or_empty : Option MetaDict → MetaDict
or_empty none = no_entries
or_empty (some m) = m

-- `object_key or f"{tenant_id}/{document_id}.bin"`
unfoldable pub key_for : Text → Text → Option Text → Text
key_for tenant_id document_id given =
    let made = tenant_id ++ (codes "/" ++ (document_id ++ codes ".bin")) in
    elim given [ none ↦ made | some k ↦ if nonempty k then k else made ]

unfoldable pub metadata_of : Text → Text → NewDocument → Metadata
metadata_of tenant_id document_id d =
    (codes "document_id", text_value document_id)
    ∷ (codes "tenant_id", text_value tenant_id)
    ∷ (codes "title", text_value d.title)
    ∷ (codes "object_key", text_value (key_for tenant_id document_id d.object_key))
    ∷ (codes "body_size", number (length d.body))
    ∷ (codes "owner_principal_id", text_value d.owner_principal_id)
    ∷ (codes "created_at", optional_text d.created_at)
    ∷ (codes "updated_at", optional_text d.updated_at)
    ∷ (codes "visibility_mode", text_value d.visibility_mode)
    ∷ (codes "hidden_fields", texts d.hidden_fields)
    ∷ (codes "acl_entries", texts d.acl_entries)
    ∷ (codes "structured_metadata", mapping (or_empty d.structured_metadata))
    ∷ []

-- With no `extra`.
unfoldable pub upsert : Text → Text → NewDocument → DocumentStore → DocumentStore
upsert tenant_id document_id d s = record {
  docs = insert (tenant_id, document_id) (metadata_of tenant_id document_id d) s.docs;
  objects = insert (key_for tenant_id document_id d.object_key) d.body s.objects;
}

unfoldable pub delete : Text → Text → DocumentStore → DocumentStore
delete tenant_id document_id s = elim (get (tenant_id, document_id) s.docs) [
  | none ↦ s
  | some meta ↦ record {
    docs = erase (tenant_id, document_id) s.docs;
    objects =
        if is_empty meta
        then s.objects
        else erase (text_of (get (codes "object_key") meta)) s.objects;
  }
]

-- An empty dict counts as none.
unfoldable pub get_metadata : Text → Text → DocumentStore → Option Metadata
get_metadata tenant_id doc_id s = elim (get (tenant_id, doc_id) s.docs) [
  | none ↦ none
  | some meta ↦ if is_empty meta then none else some meta
]

-- `data[i : i + chunk]` for each `i` of `range(0, len(data), chunk)`; the rounds are at most as many
-- as there are bytes.
unfoldable pub slices : (fuel chunk : ℕ) → Bytes → List Bytes
slices zero chunk data_bytes = []
slices (suc fuel) chunk data_bytes =
    let rest = slices fuel chunk (drop chunk data_bytes) in
    if is_empty data_bytes then [] else take chunk data_bytes ∷ rest

-- `none` is the `FileNotFoundError`.
unfoldable pub get_body_stream : ℕ → Text → DocumentStore → Option (List Bytes)
get_body_stream chunk object_key s = elim (get object_key s.objects) [
  | none ↦ none
  | some body ↦ some (slices (length body) chunk body)
]

abbrev pub sensitive_meta_keys : List Text
sensitive_meta_keys =
    codes "internal_notes"
    ∷ codes "hidden_annotation"
    ∷ codes "salary"
    ∷ codes "ssn"
    ∷ codes "secret_field"
    ∷ []

-- `visible.pop(key, None)` for each
unfoldable pub pop_all : List Text → Metadata → Metadata
pop_all [] m = m
pop_all (k ∷ ks) m = pop_all ks (erase k m)

module _ (lower : Text → Text) where
  unfoldable pub hidden_keys : Metadata → List Text
  hidden_keys m =
      let given = text_of (get (codes "visibility_mode") m) in
      let mode = lower (if nonempty given then given else codes "acl") in
      texts_of (get (codes "hidden_fields") m)
      ++ (if mode == codes "redacted" then sensitive_meta_keys else [])

  abbrev pub is_owner : Metadata → Text → Bool
  is_owner m principal_id =
      let owner = text_of (get (codes "owner_principal_id") m) in
      nonempty owner && owner == principal_id

  unfoldable pub redact_fields : Metadata → Text → Metadata
  redact_fields m principal_id = if is_owner m principal_id then m else pop_all (hidden_keys m) m

  -- A status of an `HTTPException`, the metadata with the body or the stream, or a `FileNotFoundError`.
  pub data Reading : Type 0 where
    http_exception : ℕ → Reading
    file_not_found : Reading
    whole : Metadata → Bytes → Reading
    streamed : Metadata → Option (List Bytes) → Reading

  -- `is_allowed` is the checker's answer for the tenant, the principal and the document.
  unfoldable pub read_document :
      (is_allowed : Text → Text → Text → Bool) (stream_chunk_bytes : ℕ)
      → DocumentStore
      → Text
      → Text
      → Text
      → ℕ
      → Reading
  read_document is_allowed stream_chunk_bytes s tenant_id doc_id principal_id threshold =
      if not (is_allowed tenant_id principal_id doc_id)
      then http_exception 403
      else elim (get_metadata tenant_id doc_id s) [
        | none ↦ http_exception 404
        | some meta ↦
            let visible = redact_fields meta principal_id in
            let object_key = text_of (get (codes "object_key") visible) in
            if ltb threshold (number_of (get (codes "body_size") visible))
            then streamed visible (get_body_stream stream_chunk_bytes object_key s)
            else if not (nonempty object_key)
            then whole visible []
            else elim (get object_key s.objects) [
              | none ↦ file_not_found
              | some body ↦ whole visible body
            ]
      ]
