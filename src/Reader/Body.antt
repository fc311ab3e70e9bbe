-- ===== src/Reader/Body.antt =====
-- What a reader gets of the body.
use sync_ai_final.Base.{
  ltb, if◌then◌else◌, Bool-cases, nat_eq, list_eqb, list_eq, option_eq, pair_eq, eqb_refl, length,
  take, drop, is_empty, Text, codes, nonempty, get, insert, get-insert, ℕ, zero, suc, ◌≤◌, ◌<◌, ◌≡◌,
  refl, ap, ◌∙◌, ◌↔◌, inl, inr, Bool, true, false, Option, none, some, List, [], ◌∷◌, ◌++◌, arith,
}
use sync_ai_final.Reader.Redacted.{is_hidden, get-redact_fields}
use sync_ai_final.Reader.{
  Bytes, text_value, number, Metadata, DocumentStore, NewDocument, key_for, metadata_of, upsert,
  get_metadata, slices, get_body_stream, redact_fields, Reading, http_exception, file_not_found,
  whole, streamed, read_document,
}

abbrev pub concat : List Bytes → Bytes
concat [] = []
concat (b ∷ bs) = b ++ concat bs

take-append-drop : (n : ℕ) (xs : Bytes) → take n xs ++ drop n xs ≡ xs
take-append-drop zero xs = refl
take-append-drop (suc n) [] = refl
take-append-drop (suc n) (x ∷ xs) = ap (◌∷◌ x) (take-append-drop n xs)

length-drop-le : (n : ℕ) (xs : Bytes) → length (drop n xs) ≤ length xs
length-drop-le zero xs = omega arith
length-drop-le (suc n) [] = omega arith
length-drop-le (suc n) (x ∷ xs) = omega (arith, length-drop-le n xs)

concat-slices :
    (fuel chunk : ℕ) (b : Bytes) → 0 < chunk → length b ≤ fuel → concat (slices fuel chunk b) ≡ b
unfolding slices
concat-slices zero chunk [] h q = refl
concat-slices zero chunk (x ∷ b) h q = absurd (omega arith)
concat-slices (suc fuel) chunk [] h q = refl
concat-slices (suc fuel) zero (x ∷ b) h q = absurd (omega arith)
concat-slices (suc fuel) (suc c) (x ∷ b) h q =
    ap (λ rest. take (suc c) (x ∷ b) ++ rest)
      (concat-slices fuel (suc c) (drop c b) h (omega (arith, length-drop-le c b)))
    ∙ take-append-drop (suc c) (x ∷ b)

module _ (tenant_id doc_id : Text) (d : NewDocument) where
  get-body_size :
      get (codes "body_size") (metadata_of tenant_id doc_id d) ≡ some (number (length d.body))
  unfolding metadata_of get list_eqb
  get-body_size = refl

  get-object_key :
      get (codes "object_key") (metadata_of tenant_id doc_id d)
      ≡ some (text_value (key_for tenant_id doc_id d.object_key))
  unfolding metadata_of get list_eqb
  get-object_key = refl

  is_empty-metadata_of : is_empty (metadata_of tenant_id doc_id d) ≡ false
  unfolding metadata_of
  is_empty-metadata_of = refl

  module _ (s : DocumentStore) where
    pub get_metadata-upsert :
        get_metadata tenant_id doc_id (upsert tenant_id doc_id d s)
        ≡ some (metadata_of tenant_id doc_id d)
    unfolding get_metadata upsert
    get_metadata-upsert =
        let k : Text × Text = (tenant_id, doc_id) in
        let stored : get k (insert k (metadata_of tenant_id doc_id d) s.docs)
            ≡ some (metadata_of tenant_id doc_id d) =
          get-insert k k (metadata_of tenant_id doc_id d) s.docs ∙ rw (eqb_refl k) refl in
        rw (stored, get_metadata) (rw is_empty-metadata_of refl)

    objects-upsert :
        get (key_for tenant_id doc_id d.object_key) (upsert tenant_id doc_id d s).objects
        ≡ some d.body
    unfolding upsert
    objects-upsert =
        let k = key_for tenant_id doc_id d.object_key in
        get-insert k k d.body s.objects ∙ rw (eqb_refl k) refl

    get_body_stream-upsert :
        (chunk : ℕ)
        → get_body_stream chunk
            (key_for tenant_id doc_id d.object_key)
            (upsert tenant_id doc_id d s)
          ≡ some (slices (length d.body) chunk d.body)
    unfolding get_body_stream
    get_body_stream-upsert chunk = rw (objects-upsert, get_body_stream) refl

module _ (lower : Text → Text) where
  -- The body of a reading, whole or in pieces.
  abbrev pub body_of : Reading lower → Option Bytes
  body_of (http_exception status) = none
  body_of file_not_found = none
  body_of (whole m b) = some b
  body_of (streamed m none) = none
  body_of (streamed m (some pieces)) = some (concat pieces)

  nonempty-key_for :
      (tenant_id document_id : Text) (given : Option Text)
      → nonempty (key_for tenant_id document_id given) ≡ true
  unfolding key_for
  nonempty-key_for [] document_id none = refl
  nonempty-key_for (c ∷ t) document_id none = refl
  nonempty-key_for [] document_id (some []) = refl
  nonempty-key_for (c ∷ t) document_id (some []) = refl
  nonempty-key_for tenant_id document_id (some (k ∷ ks)) = refl

  shown :
      (m : Metadata) (principal_id k : Text)
      → is_hidden lower m principal_id k ≡ false
      → get k (redact_fields lower m principal_id) ≡ get k m
  shown m principal_id k h = get-redact_fields lower m principal_id k ∙ ground (arith, h)

  module _ (is_allowed : Text → Text → Text → Bool) (chunk : ℕ)
      (tenant_id doc_id principal_id : Text) (threshold : ℕ) where
    -- A caller whom the checker refuses gets a 403, whatever is stored; and no one else does.
    pub read_document_forbidden :
        (s : DocumentStore)
        → (read_document lower is_allowed chunk s tenant_id doc_id principal_id threshold
            ≡ http_exception 403)
          ↔ (is_allowed tenant_id principal_id doc_id ≡ false)
    unfolding read_document
    read_document_forbidden s = ground arith

    -- What a reader of a stored document gets, of a body up to the threshold and of a longer one.
    pub read_document_stored :
        (d : NewDocument) (s : DocumentStore)
        → is_allowed tenant_id principal_id doc_id ≡ true
        → is_hidden lower (metadata_of tenant_id doc_id d) principal_id (codes "body_size") ≡ false
        → is_hidden lower (metadata_of tenant_id doc_id d) principal_id (codes "object_key") ≡ false
        → read_document lower is_allowed chunk
            (upsert tenant_id doc_id d s)
            tenant_id
            doc_id
            principal_id
            threshold
          ≡ (let visible = redact_fields lower (metadata_of tenant_id doc_id d) principal_id in
              if ltb threshold (length d.body)
              then streamed visible (
                  get_body_stream chunk
                    (key_for tenant_id doc_id d.object_key)
                    (upsert tenant_id doc_id d s))
              else whole visible d.body)
    unfolding read_document
    read_document_stored d s allowed size_shown key_shown =
        let m = metadata_of tenant_id doc_id d in
        let found = get_metadata-upsert tenant_id doc_id d s in
        let size =
          shown m principal_id (codes "body_size") size_shown ∙ get-body_size tenant_id doc_id d in
        let key =
          shown m principal_id (codes "object_key") key_shown ∙ get-object_key tenant_id doc_id d in
        let named = nonempty-key_for tenant_id doc_id d.object_key in
        let stored = objects-upsert tenant_id doc_id d s in
        rw allowed (
          rw (found, read_document)
            (rw (size, key)
              (elim (Bool-cases (ltb threshold (length d.body))) [
                | inl long ↦ rw long refl
                | inr short ↦ rw short (rw named (rw (stored, read_document) refl))
              ])))

    -- After a document is stored, a caller whom the checker allows and who owns it, or from whom its
    -- fields hide neither its size nor its object's key, gets its whole body, in one piece or in a
    -- stream of pieces of a positive size.
    pub read_document-upsert :
        (d : NewDocument) (s : DocumentStore)
        → is_allowed tenant_id principal_id doc_id ≡ true
        → 0 < chunk
        → is_hidden lower (metadata_of tenant_id doc_id d) principal_id (codes "body_size") ≡ false
        → is_hidden lower (metadata_of tenant_id doc_id d) principal_id (codes "object_key") ≡ false
        → body_of (
            read_document lower is_allowed chunk
              (upsert tenant_id doc_id d s)
              tenant_id
              doc_id
              principal_id
              threshold)
          ≡ some d.body
    read_document-upsert d s allowed positive size_shown key_shown =
        rw (read_document_stored d s allowed size_shown key_shown)
          (elim (Bool-cases (ltb threshold (length d.body))) [
            | inl long ↦ rw long (
                rw (get_body_stream-upsert tenant_id doc_id d s chunk)
                  (ap some (concat-slices (length d.body) chunk d.body positive (omega arith))))
            | inr short ↦ rw short refl
          ])
