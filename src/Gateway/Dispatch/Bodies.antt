-- ===== src/Gateway/Dispatch/Bodies.antt =====
-- What a call of a read tool gives away of a document that was stored.
use sync_ai_final.Base.{
  ltb, if◌then◌else◌, Bool-cases, nat_eq, list_eqb, list_eq, option_eq, pair_eq, length, contains,
  Text, codes, nonempty, get, insert, get-insert, ℕ, ◌≡◌, refl, ◌∙◌, inl, inr, Bool, true, false,
  Option, none, some, List, [], ◌∷◌, arith,
}
use sync_ai_final.Acl.Terms.{Claim}
use sync_ai_final.Reader.{
  Bytes, MetaDict, mapping, or_empty, text_value, Metadata, DocumentStore, NewDocument, metadata_of,
  upsert, redact_fields,
}
use sync_ai_final.Reader.Redacted.{is_hidden, get-redact_fields}
use sync_ai_final.Reader.Body.{get_metadata-upsert, read_document_stored}
use sync_ai_final.Search.Federated.{Floats, doc_id}
use sync_ai_final.Search.Federated.Endpoint.{Backend}
use sync_ai_final.Gateway.{Arguments}
use sync_ai_final.Gateway.Dispatch.{
  Number, search_tools, read_tools, get_structured_metadata, build_document_payload, doc_id_of,
  document_payload, returned, dispatch_tool,
}

get-structured :
    (tenant_id doc_id : Text) (d : NewDocument)
    → get (codes "structured_metadata") (metadata_of tenant_id doc_id d)
      ≡ some (mapping (or_empty d.structured_metadata))
unfolding metadata_of get list_eqb
get-structured tenant_id doc_id d = refl

-- The keys that the payload sets whatever the reader may see.
abbrev pub set_keys : List Text
set_keys = codes "structured_metadata" ∷ codes "body" ∷ codes "tenant_id" ∷ codes "document_id" ∷ []

get_structured_metadata-upsert :
    (tenant_id doc_id : Text) (d : NewDocument) (s : DocumentStore)
    → get_structured_metadata tenant_id doc_id (upsert tenant_id doc_id d s)
      ≡ some (or_empty d.structured_metadata)
unfolding get_structured_metadata
get_structured_metadata-upsert tenant_id doc_id d s =
    rw (get_metadata-upsert tenant_id doc_id d s, get_structured_metadata)
      (rw (get-structured tenant_id doc_id d) refl)

get-body :
    (doc_id tenant_id body : Text) (visible : Metadata) (structured : MetaDict)
    → (get (codes "body") (build_document_payload doc_id tenant_id visible body (some structured))
        ≡ some (text_value body))
      × (get
            (codes "structured_metadata")
            (build_document_payload doc_id tenant_id visible body (some structured))
          ≡ some (mapping structured))
unfolding build_document_payload list_eqb
get-body doc_id tenant_id body visible structured =
    let v0 = insert (codes "document_id") (text_value doc_id) visible in
    let v1 = insert (codes "tenant_id") (text_value tenant_id) v0 in
    let v2 = insert (codes "body") (text_value body) v1 in
    (
      get-insert (codes "structured_metadata") (codes "body") (mapping structured) v2
          ∙ get-insert (codes "body") (codes "body") (text_value body) v1,
      get-insert (codes "structured_metadata") (codes "structured_metadata") (mapping structured)
          v2,
    )

get-ids :
    (doc_id tenant_id body : Text) (visible : Metadata) (structured : Option MetaDict)
    → (get (codes "tenant_id") (build_document_payload doc_id tenant_id visible body structured)
        ≡ some (text_value tenant_id))
      × (get (codes "document_id") (build_document_payload doc_id tenant_id visible body structured)
          ≡ some (text_value doc_id))
unfolding build_document_payload list_eqb
get-ids doc_id tenant_id body visible structured =
    let v0 = insert (codes "document_id") (text_value doc_id) visible in
    let v1 = insert (codes "tenant_id") (text_value tenant_id) v0 in
    let v2 = insert (codes "body") (text_value body) v1 in
    (
      get-insert (codes "structured_metadata") (codes "tenant_id") (mapping (or_empty structured))
            v2
          ∙ get-insert (codes "body") (codes "tenant_id") (text_value body) v1
          ∙ get-insert (codes "tenant_id") (codes "tenant_id") (text_value tenant_id) v0,
      get-insert (codes "structured_metadata") (codes "document_id") (mapping (or_empty structured))
            v2
          ∙ get-insert (codes "body") (codes "document_id") (text_value body) v1
          ∙ get-insert (codes "tenant_id") (codes "document_id") (text_value tenant_id) v0
          ∙ get-insert (codes "document_id") (codes "document_id") (text_value doc_id) visible,
    )

get-build_document_payload :
    (doc_id tenant_id body k : Text) (visible : Metadata) (structured : Option MetaDict)
    → contains set_keys k ≡ false
    → get k (build_document_payload doc_id tenant_id visible body structured) ≡ get k visible
unfolding build_document_payload
get-build_document_payload doc_id tenant_id body k visible structured h =
    let v0 = insert (codes "document_id") (text_value doc_id) visible in
    let v1 = insert (codes "tenant_id") (text_value tenant_id) v0 in
    let v2 = insert (codes "body") (text_value body) v1 in
    ground (
      arith,
      h,
      get-insert (codes "structured_metadata") k (mapping (or_empty structured)) v2,
      get-insert (codes "body") k (text_value body) v1,
      get-insert (codes "tenant_id") k (text_value tenant_id) v0,
      get-insert (codes "document_id") k (text_value doc_id) visible,
    )

module _ (fl : Floats) (lower : Text → Text) (indexed lexical vector : Backend fl)
    (to_int : Claim → Option Number) (decode : Bytes → Text)
    (is_allowed : Text → Text → Text → Bool) (stream_chunk_bytes threshold : ℕ) where
  -- A read tool returns a document that is stored to a caller whom the checker allows and who owns it,
  -- or from whom its fields hide neither its size nor its object's key. The payload has the whole body
  -- up to the threshold, and an empty body above it; the structured metadata as they were stored, the
  -- tenant and the document's id, also where these are hidden fields; and of the other keys those that
  -- are not hidden from the caller, with the stored values.
  pub dispatch_tool-upsert :
      (tool_name tenant_id principal_id : Text) (arguments : Arguments) (d : NewDocument)
      (s : DocumentStore)
      → contains search_tools tool_name ≡ false
      → contains read_tools tool_name ≡ true
      → nonempty (doc_id_of arguments) ≡ true
      → is_allowed tenant_id principal_id (doc_id_of arguments) ≡ true
      → is_hidden lower
          (metadata_of tenant_id (doc_id_of arguments) d)
          principal_id
          (codes "body_size")
        ≡ false
      → is_hidden lower
          (metadata_of tenant_id (doc_id_of arguments) d)
          principal_id
          (codes "object_key")
        ≡ false
      → let m = metadata_of tenant_id (doc_id_of arguments) d in
        (payload : Metadata) × (dispatch_tool fl lower indexed lexical vector to_int decode
            is_allowed stream_chunk_bytes threshold
            (upsert tenant_id (doc_id_of arguments) d s)
            tool_name
            arguments
            tenant_id
            principal_id
          ≡ returned (document_payload payload))
        × (get (codes "body") payload
            ≡ some (text_value (decode (if ltb threshold (length d.body) then [] else d.body))))
        × (get (codes "structured_metadata") payload
            ≡ some (mapping (or_empty d.structured_metadata)))
        × (get (codes "tenant_id") payload ≡ some (text_value tenant_id))
        × (get (codes "document_id") payload ≡ some (text_value (doc_id_of arguments)))
        × ((k : Text)
            → contains set_keys k ≡ false
            → get k payload ≡ (if is_hidden lower m principal_id k then none else get k m))
  unfolding dispatch_tool
  dispatch_tool-upsert tool_name tenant_id principal_id arguments d s is_search reads given_id
        allowed size_shown key_shown =
      let doc_id = doc_id_of arguments in
      let m = metadata_of tenant_id doc_id d in
      let visible = redact_fields lower m principal_id in
      let body = decode (if ltb threshold (length d.body) then [] else d.body) in
      let stored =
        read_document_stored lower is_allowed stream_chunk_bytes tenant_id doc_id principal_id
          threshold d s allowed size_shown key_shown in
      (
        build_document_payload doc_id tenant_id visible body
            (some (or_empty d.structured_metadata)),
        rw (is_search, dispatch_tool)
            (rw (reads, given_id)
              (rw stored (elim (Bool-cases (ltb threshold (length d.body))) [
                | inl long ↦ rw long (rw (get_structured_metadata-upsert tenant_id doc_id d s) refl)
                | inr short ↦
                    rw short (rw (get_structured_metadata-upsert tenant_id doc_id d s) refl)
              ]))),
        (get-body doc_id tenant_id body visible (or_empty d.structured_metadata)).0,
        (get-body doc_id tenant_id body visible (or_empty d.structured_metadata)).1,
        (get-ids doc_id tenant_id body visible (some (or_empty d.structured_metadata))).0,
        (get-ids doc_id tenant_id body visible (some (or_empty d.structured_metadata))).1,
        λ k h.
            get-build_document_payload doc_id tenant_id body k visible
              (some (or_empty d.structured_metadata)) h
            ∙ get-redact_fields lower m principal_id k,
      )
