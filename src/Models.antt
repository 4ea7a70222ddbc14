-- ===== src/Models.antt =====
-- apps/api/src/docta_api/models.py: the rows of the relational model. An identifier (UUID) is a
-- number, a `datetime` is a count of microseconds.
use docta.Prelude.{ℕ, ◌*◌, Bool, true, false, Option, String, List}
use docta.Text.{Text}

abbrev pub Uuid : Type 0
Uuid = ℕ

abbrev pub Time : Type 0
Time = ℕ

-- `timedelta(seconds=n)`
abbrev pub seconds : ℕ → Time
seconds n = n * 1000000

pub data MembershipRole : Type 0 where
  teacher student : MembershipRole

pub data DocumentVersionState : Type 0 where
  awaiting_upload queued processing indexed failed rejected ocr_required : DocumentVersionState

pub data CorpusVersionState : Type 0 where
  building ready failed retired : CorpusVersionState

pub data IngestionJobState : Type 0 where
  pending running succeeded failed : IngestionJobState

-- the values that `ck_outbox_kind` allows
pub data OutboxKind : Type 0 where
  ingestion dead : OutboxKind

pub record User : Type 0 where
  pub id : Uuid
  pub oidc_issuer : String
  pub oidc_subject : String

pub record Course : Type 0 where
  pub id : Uuid
  pub title : Text
  pub version : ℕ
  pub active_corpus_version_id : Option Uuid
  pub updated_at : Time

pub record CourseMembership : Type 0 where
  pub course_id : Uuid
  pub user_id : Uuid
  pub role : MembershipRole

pub record Document : Type 0 where
  pub id : Uuid
  pub course_id : Uuid
  pub title : Text
  pub created_by_user_id : Uuid

pub record DocumentVersion : Type 0 where
  pub id : Uuid
  pub course_id : Uuid
  pub document_id : Uuid
  pub storage_key : String
  pub storage_version_id : Option String
  pub original_filename : Text
  pub expected_size_bytes : ℕ
  pub expected_sha256 : String
  pub media_type : String
  pub state : DocumentVersionState
  pub pipeline_version : String
  pub parser_version : Option String
  pub upload_idempotency_key : Text
  pub upload_request_hash : String
  pub confirmation_idempotency_key : Option Text
  pub confirmation_request_hash : Option String
  pub object_size_bytes : Option ℕ
  pub object_sha256 : Option String
  pub page_count : Option ℕ
  pub chunk_count : Option ℕ
  pub failure_code : Option String
  pub updated_at : Time

pub record CorpusVersion : Type 0 where
  pub id : Uuid
  pub course_id : Uuid
  pub state : CorpusVersionState
  pub pipeline_version : String
  pub page_count : ℕ
  pub chunk_count : ℕ
  pub ready_at : Option Time

pub record CorpusVersionDocument : Type 0 where
  pub corpus_version_id : Uuid
  pub document_version_id : Uuid
  pub course_id : Uuid

-- `search_vector` is computed by the database from `content` and is never null.
pub record Chunk : Type 0 where
  pub id : Uuid
  pub course_id : Uuid
  pub corpus_version_id : Uuid
  pub document_version_id : Uuid
  pub page_start : ℕ
  pub page_end : ℕ
  pub ordinal : ℕ
  pub content : Text
  pub content_hash : String

pub record IngestionJob : Type 0 where
  pub id : Uuid
  pub course_id : Uuid
  pub document_version_id : Uuid
  pub job_type : String
  pub pipeline_version : String
  pub state : IngestionJobState
  pub attempt : ℕ
  pub fencing_token : ℕ
  pub correlation_id : String
  pub failure_code : Option String
  pub updated_at : Time
  pub completed_at : Option Time
  pub lease_expires_at : Option Time
  pub next_attempt_at : Time

pub record OutboxEvent : Type 0 where
  pub id : Uuid
  pub course_id : Uuid
  pub job_id : Uuid
  pub kind : OutboxKind
  pub available_at : Time
  pub created_at : Time
  pub published_at : Option Time
  pub publish_token : Option Uuid
  pub publish_lease_until : Option Time

-- A double is its 64 bits.
abbrev pub Float : Type 0
Float = ℕ

pub record ChunkEmbedding : Type 0 where
  pub chunk_id : Uuid
  pub embedding_version : Text
  pub course_id : Uuid
  pub corpus_version_id : Uuid
  pub dims : ℕ
  pub embedding : List Float

-- Equality of states, as the program's `==` and `in` test it.
abbrev pub version_state_beq : DocumentVersionState → DocumentVersionState → Bool
version_state_beq awaiting_upload awaiting_upload = true
version_state_beq queued queued = true
version_state_beq processing processing = true
version_state_beq indexed indexed = true
version_state_beq DocumentVersionState.failed DocumentVersionState.failed = true
version_state_beq rejected rejected = true
version_state_beq ocr_required ocr_required = true
version_state_beq _ _ = false

abbrev pub is_pending : IngestionJobState → Bool
is_pending pending = true
is_pending _ = false

abbrev pub is_running : IngestionJobState → Bool
is_running running = true
is_running _ = false

-- `in {"SUCCEEDED", "FAILED"}`
abbrev pub is_finished : IngestionJobState → Bool
is_finished succeeded = true
is_finished IngestionJobState.failed = true
is_finished _ = false

abbrev pub is_ready : CorpusVersionState → Bool
is_ready ready = true
is_ready _ = false

abbrev pub is_ingestion : OutboxKind → Bool
is_ingestion ingestion = true
is_ingestion dead = false

abbrev pub is_teacher : MembershipRole → Bool
is_teacher teacher = true
is_teacher student = false
