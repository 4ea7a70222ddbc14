-- ===== src/Documents/Endpoints.antt =====
-- documents.py: `create_upload` and `confirm_upload`, each more than one transaction.
use docta.Prelude.{ℕ, Bool, Option, String, Result, ok, ◌>>=◌, ◌>>◌, raise_if, if◌then◌else◌, ltb}
use docta.Models.{Uuid, Time, DocumentVersion}
use docta.Text.{Text, codes}
use docta.Identity.{AuthenticatedIdentity}
use docta.Store.{Store, settle, and_then}
use docta.Documents.Requests.{
  DocumentError, upload_validation_failure, Payload, upload, confirmation, StoredObjectMetadata,
  validated_idempotency_key, sanitize_filename, validate_stored_object,
}
use docta.Documents.Service.{DocumentSettings, UploadRecord, VersionView, new_version}
use docta.Documents.Operations.{
  upload_transaction, existing_confirmation, load_upload, confirm_transaction, get_version,
}

-- What the service asks of the object storage.
pub record ObjectStorage : Type 1 where
  pub UploadAuthorization : Type 0
  pub create_upload_authorization :
      (storage_key media_type sha256 : String) → Result DocumentError UploadAuthorization
  pub inspect : (storage_key : String) → Result DocumentError StoredObjectMetadata

-- What the service takes from libraries.
pub record Texts : Type 0 where
  pub lower : Text → Text
  pub is_printable : ℕ → Bool
  pub str_uuid : Uuid → String
  pub request_hash : Payload → String

module _ (texts : Texts) (settings : DocumentSettings) (storage : ObjectStorage) where
  -- `create_upload` up to its transaction: the version that a new upload would get
  unfoldable pub requested_version :
      (document_id version_id : Uuid) (now : Time) (course_id : Uuid) (filename : Text)
      (size_bytes : ℕ) (expected_sha256 media_type : String) (header : Option Text)
      → Result DocumentError DocumentVersion
  requested_version document_id version_id now course_id filename size_bytes expected_sha256
        media_type header =
      do
        key ← validated_idempotency_key header
        raise_if (ltb settings.max_document_bytes size_bytes)
            (upload_validation_failure (codes "DOCUMENT_TOO_LARGE") 413)
        safe_filename ← sanitize_filename texts.lower texts.is_printable filename
        let hash = texts.request_hash (upload safe_filename size_bytes expected_sha256 media_type)
        ok (
            new_version texts.str_uuid settings document_id version_id now course_id safe_filename
              size_bytes expected_sha256 media_type key hash)

  -- `DocumentService.create_upload`. The upload is authorised after the commit: where that fails, the
  -- rows stay.
  unfoldable pub create_upload :
      (document_id version_id : Uuid) (now : Time)
      → AuthenticatedIdentity
      → (course_id : Uuid) (filename : Text) (size_bytes : ℕ) (expected_sha256 media_type : String)
        (header : Option Text)
      → Store
      → Result DocumentError (UploadRecord × storage.UploadAuthorization) × Store
  create_upload document_id version_id now who course_id filename size_bytes expected_sha256
        media_type header s =
      and_then
        (
          requested_version document_id version_id now course_id filename size_bytes expected_sha256
              media_type header,
          s,
        )
        (λ new s₁. and_then (settle s₁ (upload_transaction who new s₁)) (λ r s₂. (
          storage.create_upload_authorization r.storage_key media_type expected_sha256 >>= λ a.
              ok (r, a),
          s₂,
        )))

  module _ (who : AuthenticatedIdentity) (course_id document_id version_id : Uuid)
      (meanwhile : ℕ → Store → Store) where
    -- `self.get_version(…)` at the end of `confirm_upload`
    abbrev pub then_view : Store → Result DocumentError VersionView × Store
    then_view s = (get_version who course_id document_id version_id s, s)

    -- from `_load_upload` on
    unfoldable pub confirm_first :
        (job_id event_id : Uuid) (now : Time) (key : Text) (hash correlation_id : String)
        → Store
        → Result DocumentError VersionView × Store
    confirm_first job_id event_id now key hash correlation_id s =
        and_then
          (
            do
              v ← load_upload who course_id document_id version_id s
              m ← storage.inspect v.storage_key
              validate_stored_object texts.lower settings.max_document_bytes m v
              ok m,
            s,
          )
          (λ m s₁.
            let s₂ = meanwhile 1 s₁ in
            and_then
              (settle s₂ (
                confirm_transaction job_id event_id now who course_id document_id version_id key
                  hash correlation_id m s₂))
              (λ _ s₃. then_view (meanwhile 2 s₃)))

    -- `DocumentService.confirm_upload`; `meanwhile i` is what others commit before its transaction
    -- i + 1, or the last one
    unfoldable pub confirm_upload :
        (job_id event_id : Uuid) (now : Time) (header : Option Text) (correlation_id : String)
        → Store
        → Result DocumentError VersionView × Store
    confirm_upload job_id event_id now header correlation_id s =
        let hash = texts.request_hash (confirmation course_id document_id version_id) in
        and_then (validated_idempotency_key header, s)
          (λ key s₀.
            and_then (existing_confirmation who course_id document_id version_id key hash s₀, s₀)
              (λ confirmed s₁.
                let s₂ = meanwhile 0 s₁ in
                let first = confirm_first job_id event_id now key hash correlation_id s₂ in
                if confirmed then then_view s₂ else first))
