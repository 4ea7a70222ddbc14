-- ===== src/Documents/Operations.antt =====
-- documents.py: the transactions of `DocumentService` and the operations made of them. Between two
-- transactions of one operation others may commit: what they do to the store is an argument.
use docta.Prelude.{
  ℕ, ◌+◌, Bool, true, false, not, ◌&&◌, Option, none, some, List, [], ◌∷◌, ◌++◌, String, Result, ok,
  ◌>>=◌, ◌>>◌, raise_if, or_raise, ltb, is_none, find, update_where, count_where, ◌==◌, nat_eq,
  string_eq, option_eq, list_eq,
}
use docta.Models.{
  Uuid, Time, Course, DocumentVersion, awaiting_upload, queued, CorpusVersion,
  CorpusVersionDocument, IngestionJob, IngestionJobState, version_state_beq, is_ready,
}
use docta.Text.{Text}
use docta.Identity.{AuthenticatedIdentity}
use docta.Store.{Store}
use docta.Jobs.{dispatch}
use docta.Documents.Requests.{
  DocumentError, document_resource_not_found, idempotency_key_reused, upload_not_ready,
  corpus_not_ready, publication_conflict, runtime_error, sqlalchemy_error, StoredObjectMetadata,
}
use docta.Documents.Service.{
  UploadRecord, VersionView, ActivationView, authorized_teacher, has_upload_key, is_version,
  is_job_of, upload_again, add_upload,
}

-- The transaction of `create_upload`; the new rows are made of the version `new`.
unfoldable pub upload_transaction :
    AuthenticatedIdentity
    → (new : DocumentVersion) → Store
    → Result DocumentError (UploadRecord × Store)
upload_transaction who new s = do
  user_id ← authorized_teacher s who new.course_id
  elim (find (has_upload_key new.course_id new.upload_idempotency_key) s.versions) [
    | some existing ↦ upload_again new.upload_request_hash existing >>= λ r. ok (r, s)
    | none ↦ ok (add_upload new user_id s)
  ]

-- `one_or_none` of a join with the jobs of a version: more than one row is an error
abbrev pub one_job : Uuid → List IngestionJob → Result DocumentError (Option IngestionJob)
one_job version_id jobs =
    raise_if (ltb 1 (count_where (is_job_of version_id) jobs)) sqlalchemy_error >>= λ _.
    ok (find (is_job_of version_id) jobs)

abbrev pub confirmed_with : Text → String → DocumentVersion → Bool
confirmed_with key hash v =
    v.confirmation_idempotency_key == some key && v.confirmation_request_hash == some hash

-- `_existing_confirmation`: whether the version is confirmed by this request
unfoldable pub existing_confirmation :
    AuthenticatedIdentity
    → (course_id document_id version_id : Uuid) (key : Text) (hash : String) → Store
    → Result DocumentError Bool
existing_confirmation who course_id document_id version_id key hash s = do
  user_id ← authorized_teacher s who course_id
  v ←
      or_raise (find (is_version course_id document_id version_id) s.versions)
        document_resource_not_found
  job ← one_job v.id s.jobs
  elim v.confirmation_idempotency_key [
    | none ↦ ok false
    | some other ↦ do
      raise_if (not (confirmed_with key hash v)) idempotency_key_reused
      raise_if (is_none job) (runtime_error "confirmed document has no ingestion job")
      ok true
  ]

-- `_load_upload`
unfoldable pub load_upload :
    AuthenticatedIdentity
    → (course_id document_id version_id : Uuid) → Store
    → Result DocumentError DocumentVersion
load_upload who course_id document_id version_id s = do
  user_id ← authorized_teacher s who course_id
  or_raise (find (is_version course_id document_id version_id) s.versions)
      document_resource_not_found

abbrev pub confirmed_version :
    (now : Time) (key : Text) (hash : String)
    → StoredObjectMetadata
    → DocumentVersion
    → DocumentVersion
confirmed_version now key hash m v = record v {
  confirmation_idempotency_key = some key;
  confirmation_request_hash = some hash;
  object_size_bytes = some m.size_bytes;
  storage_version_id = m.version_id;
  state = queued;
  updated_at = now;
}

abbrev pub new_job :
    (id : Uuid) (now : Time) (correlation_id : String) → DocumentVersion → IngestionJob
new_job id now correlation_id v = record {
  id = id;
  course_id = v.course_id;
  document_version_id = v.id;
  job_type = "ingestion";
  pipeline_version = v.pipeline_version;
  state = IngestionJobState.pending;
  attempt = 0;
  fencing_token = 0;
  correlation_id = correlation_id;
  failure_code = none;
  updated_at = now;
  completed_at = none;
  lease_expires_at = none;
  next_attempt_at = now;
}

-- the branch of `confirm_upload` that queues the job
unfoldable pub queue_job :
    (job_id event_id : Uuid) (now : Time) (key : Text) (hash correlation_id : String)
    → StoredObjectMetadata
    → DocumentVersion
    → Store
    → Store
queue_job job_id event_id now key hash correlation_id m v s =
    let job = new_job job_id now correlation_id v in
    record s {
      versions =
          update_where (is_version v.course_id v.document_id v.id)
            (confirmed_version now key hash m) s.versions;
      jobs = s.jobs ++ job ∷ [];
      events = dispatch event_id now job s.events;
    }

-- the second transaction of `confirm_upload`
unfoldable pub confirm_transaction :
    (job_id event_id : Uuid) (now : Time)
    → AuthenticatedIdentity
    → (course_id document_id version_id : Uuid) (key : Text) (hash correlation_id : String)
    → StoredObjectMetadata
    → Store
    → Result DocumentError (Unit × Store)
confirm_transaction job_id event_id now who course_id document_id version_id key hash correlation_id
      m s =
    do
      user_id ← authorized_teacher s who course_id
      v ←
          or_raise (find (is_version course_id document_id version_id) s.versions)
            document_resource_not_found
      elim v.confirmation_idempotency_key [
        | some other ↦ do
          raise_if (not (confirmed_with key hash v)) idempotency_key_reused
          raise_if (is_none (find (is_job_of v.id) s.jobs))
              (runtime_error "confirmed document has no ingestion job")
          ok (tt, s)
        | none ↦ do
          raise_if (not (version_state_beq v.state awaiting_upload)) upload_not_ready
          ok (tt, queue_job job_id event_id now key hash correlation_id m v s)
      ]

-- the corpus versions of a document version
abbrev pub has_version : Uuid → CorpusVersionDocument → Bool
has_version version_id d = d.document_version_id == version_id

-- `DocumentService.get_version`
unfoldable pub get_version :
    AuthenticatedIdentity
    → (course_id document_id version_id : Uuid) → Store
    → Result DocumentError VersionView
get_version who course_id document_id version_id s = do
  user_id ← authorized_teacher s who course_id
  v ←
      or_raise (find (is_version course_id document_id version_id) s.versions)
        document_resource_not_found
  job ← one_job v.id s.jobs
  raise_if (ltb 1 (count_where (has_version v.id) s.corpus_documents)) sqlalchemy_error
  ok (record {
    document_id = v.document_id;
    version_id = v.id;
    state = v.state;
    failure_code = v.failure_code;
    page_count = v.page_count;
    chunk_count = v.chunk_count;
    corpus_version_id = elim (find (has_version v.id) s.corpus_documents) [
      | some d ↦ some d.corpus_version_id
      | none ↦ none
    ];
    job_id = elim job [ some j ↦ some j.id | none ↦ none ];
    job_state = elim job [ some j ↦ some j.state | none ↦ none ];
  })

abbrev pub is_course : Uuid → ℕ → Course → Bool
is_course course_id version c = c.id == course_id && c.version == version

abbrev pub published : (now : Time) → Uuid → Course → Course
published now corpus_version_id c = record c {
  active_corpus_version_id = some corpus_version_id;
  version = c.version + 1;
  updated_at = now;
}

-- `DocumentService.activate_corpus`
unfoldable pub activate_corpus :
    (now : Time)
    → AuthenticatedIdentity
    → (course_id corpus_version_id : Uuid) (expected_course_version : ℕ) → Store
    → Result DocumentError (ActivationView × Store)
activate_corpus now who course_id corpus_version_id expected_course_version s = do
  user_id ← authorized_teacher s who course_id
  corpus ←
      or_raise
        (find (λ (c : CorpusVersion). c.id == corpus_version_id && c.course_id == course_id)
          s.corpora)
        document_resource_not_found
  raise_if (not (is_ready corpus.state)) corpus_not_ready
  course ←
      or_raise (find (is_course course_id expected_course_version) s.courses) publication_conflict
  ok (
    record {
      course_id = course_id;
      active_corpus_version_id = corpus_version_id;
      course_version = course.version + 1;
    },
    record s {
      courses =
          update_where (is_course course_id expected_course_version)
            (published now corpus_version_id) s.courses;
    },
  )
