-- ===== src/Documents/Service.antt =====
-- documents.py: `DocumentService`. The object storage, the hash of a request, `str(uuid)` and
-- `str.lower` are arguments, like the ids that are drawn and the clock's readings.
use Prim.Native.String.{◌++◌ as ◌<>◌}
use docta.Prelude.{
  ℕ, Bool, not, ◌&&◌, Option, none, [], ◌∷◌, ◌++◌, String, Result, ok, ◌>>=◌, ◌>>◌, raise_if,
  or_raise, any, find, ◌==◌, ◌!=◌, nat_eq, string_eq, option_eq, list_eq,
}
use docta.Models.{
  Uuid, Time, User, CourseMembership, DocumentVersion, DocumentVersionState, awaiting_upload,
  IngestionJob, IngestionJobState, version_state_beq, is_teacher,
}
use docta.Text.{Text}
use docta.Identity.{AuthenticatedIdentity, is_identity}
use docta.Store.{Store}
use docta.Documents.Requests.{
  DocumentError, document_resource_not_found, idempotency_key_reused, upload_not_ready,
  document_title,
}

-- What the service is made with.
pub record DocumentSettings : Type 0 where
  pub environment : String
  pub max_document_bytes : ℕ
  pub pipeline_version : String

pub record UploadRecord : Type 0 where
  pub document_id : Uuid
  pub version_id : Uuid
  pub storage_key : String
  pub state : DocumentVersionState

pub record VersionView : Type 0 where
  pub document_id : Uuid
  pub version_id : Uuid
  pub state : DocumentVersionState
  pub failure_code : Option String
  pub page_count : Option ℕ
  pub chunk_count : Option ℕ
  pub corpus_version_id : Option Uuid
  pub job_id : Option Uuid
  pub job_state : Option IngestionJobState

pub record ActivationView : Type 0 where
  pub course_id : Uuid
  pub active_corpus_version_id : Uuid
  pub course_version : ℕ

abbrev pub teaches : Store → Uuid → User → Bool
teaches s course_id u =
    any
      (λ (m : CourseMembership). m.user_id == u.id && m.course_id == course_id && is_teacher m.role)
      s.memberships

-- `_authorized_teacher_user_id`
unfoldable pub authorized_teacher : Store → AuthenticatedIdentity → Uuid → Result DocumentError Uuid
authorized_teacher s who course_id = do
  u ←
      or_raise (find (λ u. is_identity who u && teaches s course_id u) s.users)
        document_resource_not_found
  ok u.id

abbrev pub has_upload_key : Uuid → Text → DocumentVersion → Bool
has_upload_key course_id key v = v.course_id == course_id && v.upload_idempotency_key == key

-- A version by its id, in its document and course.
abbrev pub is_version : (course_id document_id version_id : Uuid) → DocumentVersion → Bool
is_version course_id document_id version_id v =
    v.course_id == course_id && v.document_id == document_id && v.id == version_id

abbrev pub is_job_of : Uuid → IngestionJob → Bool
is_job_of version_id j = j.document_version_id == version_id

-- `existing` under the key: it is this upload, and it still waits
unfoldable pub upload_again : (hash : String) → DocumentVersion → Result DocumentError UploadRecord
upload_again hash v = do
  raise_if (v.upload_request_hash != hash) idempotency_key_reused
  raise_if (not (version_state_beq v.state awaiting_upload)) upload_not_ready
  ok (record {
    document_id = v.document_id;
    version_id = v.id;
    storage_key = v.storage_key;
    state = v.state;
  })

-- the rows of a new upload
unfoldable pub add_upload : DocumentVersion → (user_id : Uuid) → Store → UploadRecord × Store
add_upload v user_id s = (
  record {
    document_id = v.document_id;
    version_id = v.id;
    storage_key = v.storage_key;
    state = awaiting_upload;
  },
  record s {
    documents =
        s.documents
        ++ record {
          id = v.document_id;
          course_id = v.course_id;
          title = document_title v.original_filename;
          created_by_user_id = user_id;
        }
          ∷ [];
    versions = s.versions ++ v ∷ [];
  },
)

module _ (str_uuid : Uuid → String) (settings : DocumentSettings) where
  abbrev pub storage_key_of : (course_id document_id version_id : Uuid) → String
  storage_key_of course_id document_id version_id =
      settings.environment
      <> "/courses/"
      <> str_uuid course_id
      <> "/documents/"
      <> str_uuid document_id
      <> "/versions/"
      <> str_uuid version_id
      <> "/source.pdf"

  -- the version of a new upload
  unfoldable pub new_version :
      (document_id version_id : Uuid) (now : Time) (course_id : Uuid) (filename : Text)
      (size_bytes : ℕ) (expected_sha256 media_type : String) (key : Text) (hash : String)
      → DocumentVersion
  new_version document_id version_id now course_id filename size_bytes expected_sha256 media_type
        key hash =
      record {
        id = version_id;
        course_id = course_id;
        document_id = document_id;
        storage_key = storage_key_of course_id document_id version_id;
        storage_version_id = none;
        original_filename = filename;
        expected_size_bytes = size_bytes;
        expected_sha256 = expected_sha256;
        media_type = media_type;
        state = awaiting_upload;
        pipeline_version = settings.pipeline_version;
        parser_version = none;
        upload_idempotency_key = key;
        upload_request_hash = hash;
        confirmation_idempotency_key = none;
        confirmation_request_hash = none;
        object_size_bytes = none;
        object_sha256 = none;
        page_count = none;
        chunk_count = none;
        failure_code = none;
        updated_at = now;
      }
