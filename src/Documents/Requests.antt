-- ===== src/Documents/Requests.antt =====
-- documents.py: the errors of the document service and the responses they become, the requests, and
-- what is checked of a file name and of a stored object. `str.lower`, `str.isprintable` and the hash
-- of a request are arguments.
use docta.Prelude.{
  ℕ, ◌-◌, Bool, not, ◌&&◌, ◌||◌, Option, none, some, [], ◌∷◌, map, String, Result, ok, err, ◌>>◌,
  raise_if, if◌then◌else◌, leb, ltb, nat_beq, length, take, drop, is_empty, is_none, all, filter,
  ◌==◌, ◌!=◌, nat_eq, list_eq,
}
use docta.Models.{Uuid, DocumentVersion}
use docta.Text.{Text, codes, strip, is_blank}

-- The exceptions that the operations raise; `SQLAlchemyError` and the storage's are among them.
pub data DocumentError : Type 0 where
  document_resource_not_found stored_object_not_found : DocumentError
  idempotency_key_missing idempotency_key_reused : DocumentError
  upload_not_ready corpus_not_ready publication_conflict : DocumentError
  upload_validation_failure : (code : Text) (status_code : ℕ) → DocumentError
  object_storage_unavailable sqlalchemy_error : DocumentError
  runtime_error : String → DocumentError

pub record ApiError : Type 0 where
  pub status_code : ℕ
  pub code : Text
  pub message : String

abbrev pub api_error : ℕ → Text → String → Option ApiError
api_error status_code code message =
    some (record { status_code = status_code; code = code; message = message })

-- `UploadCreateRequest.filename`, `.size_bytes`
abbrev pub upload_fields : (filename : Text) (size_bytes : ℕ) → Bool
upload_fields filename size_bytes =
    leb 1 (length filename) && leb (length filename) 255 && ltb 0 size_bytes

-- the class `[0-9a-f]`
abbrev pub is_hex : ℕ → Bool
is_hex c = (leb b'0' c && leb c b'9') || (leb b'a' c && leb c b'f')

-- `text.replace("\\", "/")`
abbrev pub slashed : Text → Text
slashed t = map (λ c. if nat_beq c 92 then b'/' else c) t

-- `text.rsplit("/", 1)[-1]`: what follows the last slash
unfoldable pub after_slash : Text → Text
after_slash [] = []
after_slash (c ∷ t) =
    let rest = after_slash t in
    if nat_beq c b'/' || not (nat_beq (length rest) (length t)) then rest else c ∷ t

-- `text.endswith(suffix)`
abbrev pub ends_with : Text → Text → Bool
ends_with text suffix =
    leb (length suffix) (length text) && drop (length text - length suffix) text == suffix

-- What `_request_hash` is given.
pub data Payload : Type 0 where
  upload : (filename : Text) (size_bytes : ℕ) (sha256 media_type : String) → Payload
  confirmation : (course_id document_id version_id : Uuid) → Payload

-- `_validated_idempotency_key`
unfoldable pub validated_idempotency_key : Option Text → Result DocumentError Text
validated_idempotency_key none = err idempotency_key_missing
validated_idempotency_key (some value) = do
  raise_if (is_blank value) idempotency_key_missing
  raise_if (ltb 255 (length (strip value))) idempotency_key_missing
  ok (strip value)

-- `_document_title`
unfoldable pub document_title : Text → Text
document_title filename =
    let title = strip (take (length filename - 4) filename) in
    if is_empty title then codes "Untitled document" else title

-- What `inspect` tells of a stored object; of its metadata the entry `sha256`.
pub record StoredObjectMetadata : Type 0 where
  pub size_bytes : ℕ
  pub media_type : Option Text
  pub sha256 : Option Text
  pub version_id : Option String

-- `text.split(";", 1)[0]`
unfoldable pub before_semicolon : Text → Text
before_semicolon [] = []
before_semicolon (c ∷ t) = let rest = before_semicolon t in if nat_beq c b';' then [] else c ∷ rest

-- `value or ""`
abbrev pub or_empty : Option Text → Text
or_empty none = []
or_empty (some t) = t

module _ (lower : Text → Text) where
  -- `UploadCreateRequest.validate_sha256`; none is the `ValueError`
  unfoldable pub validate_sha256 : Text → Option Text
  validate_sha256 value =
      let normalized = lower value in
      if nat_beq (length value) 64 && (nat_beq (length normalized) 64 && all is_hex normalized)
      then some normalized
      else none

  -- `_sanitize_filename`
  unfoldable pub sanitize_filename : (is_printable : ℕ → Bool) → Text → Result DocumentError Text
  sanitize_filename is_printable filename =
      let safe = strip (filter is_printable (after_slash (slashed filename))) in
      do
        raise_if
            (is_empty safe || ltb 255 (length safe) || not (ends_with (lower safe) (codes ".pdf")))
            (upload_validation_failure (codes "DOCUMENT_INVALID_FILENAME") 422)
        ok safe

  -- `DocumentService._validate_stored_object`
  unfoldable pub validate_stored_object :
      (max_document_bytes : ℕ) → StoredObjectMetadata → DocumentVersion → Result DocumentError Unit
  validate_stored_object max_document_bytes m v = do
    raise_if (ltb max_document_bytes m.size_bytes)
        (upload_validation_failure (codes "DOCUMENT_TOO_LARGE") 413)
    raise_if (m.size_bytes != v.expected_size_bytes)
        (upload_validation_failure (codes "DOCUMENT_SIZE_MISMATCH") 422)
    raise_if (lower (strip (before_semicolon (or_empty m.media_type))) != codes "application/pdf")
        (upload_validation_failure (codes "DOCUMENT_INVALID_CONTENT_TYPE") 422)
    raise_if (lower (or_empty m.sha256) != codes v.expected_sha256)
        (upload_validation_failure (codes "DOCUMENT_CHECKSUM_METADATA_MISMATCH") 422)
    raise_if (is_none m.version_id)
        (upload_validation_failure (codes "OBJECT_STORAGE_VERSIONING_REQUIRED") 503)

  -- `_raise_document_api_error`: the response, or none where the error is raised again
  unfoldable pub document_api_error : DocumentError → Option ApiError
  document_api_error idempotency_key_missing =
      api_error 400 (codes "idempotency_key_required") "An Idempotency-Key is required."
  document_api_error idempotency_key_reused =
      api_error 409 (codes "idempotency_key_reused")
        "The Idempotency-Key was already used for a different request."
  document_api_error document_resource_not_found =
      api_error 404 (codes "resource_not_found") "The requested resource was not found."
  document_api_error stored_object_not_found =
      api_error 404 (codes "resource_not_found") "The requested resource was not found."
  document_api_error upload_not_ready =
      api_error 409 (codes "upload_not_ready") "The upload cannot be changed in its current state."
  document_api_error (upload_validation_failure code status_code) =
      api_error status_code (lower code) "The uploaded document is invalid."
  document_api_error corpus_not_ready =
      api_error 409 (codes "corpus_not_ready") "Only a ready corpus can be activated."
  document_api_error publication_conflict =
      api_error 409 (codes "publication_conflict") "The course changed before publication."
  document_api_error object_storage_unavailable =
      api_error 503 (codes "object_storage_unavailable") "Object storage is unavailable."
  document_api_error sqlalchemy_error =
      api_error 503 (codes "persistence_unavailable") "Persistence is unavailable."
  document_api_error (runtime_error message) = none
