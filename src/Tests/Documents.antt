-- ===== src/Tests/Documents.antt =====
-- documents.py on one course: an upload, its confirmation, and a publication.
use docta.Prelude.{◌≡◌, ◌≢◌, refl, true, none, some, [], ◌∷◌, ok, err, String, ◌⊎◌}
use docta.Models.{Uuid, DocumentVersion, awaiting_upload, teacher, Course, CorpusVersion, ready}
use docta.Text.{codes, strip, lstrip, rstrip, is_space}
use docta.Identity.{AuthenticatedIdentity}
use docta.Store.{Store}
use docta.Ingestion.{Settings}
use docta.Documents.{
  DocumentError, document_resource_not_found, idempotency_key_missing, runtime_error,
  StoredObjectMetadata, DocumentSettings, UploadRecord, ObjectStorage, Texts, new_version,
  add_upload, authorized_teacher, upload_transaction, queue_job, existing_confirmation,
  confirm_transaction, create_upload, confirm_upload, get_version, activate_corpus,
  sanitize_filename, after_slash, HasUniqueIds, IsOnlyRow, IsConsistent, confirmed_has_job, uploads,
  confirms, Reach, here, next, IsRepeated, upload-IsRepeated, MayPublish, Swaps,
  activate_corpus-Swaps, IsSafe, sanitize_filename-ok, IsOutsider, outsider_denied,
}

abbrev worker : Settings
worker = record {
  max_document_bytes = 100;
  chunk_size_characters = 4;
  chunk_overlap_characters = 1;
  lease_seconds = 5;
  max_attempts = 3;
  retry_base = 2000000;
}

abbrev settings : DocumentSettings
settings = record { environment = "test"; max_document_bytes = 100; pipeline_version = "v" }

abbrev str_uuid : Uuid → String
str_uuid u = "u"

abbrev texts : Texts
texts = record {
  lower = λ t. t;
  is_printable = λ c. true;
  str_uuid = str_uuid;
  request_hash = λ p. "h";
}

abbrev metadata : StoredObjectMetadata
metadata = record {
  size_bytes = 3;
  media_type = some (codes "application/pdf");
  sha256 = some (codes "s");
  version_id = some "sv";
}

abbrev storage : ObjectStorage
storage = record {
  UploadAuthorization = String;
  create_upload_authorization = λ key media sha. ok key;
  inspect = λ key. ok metadata;
}

abbrev who : AuthenticatedIdentity
who = record { issuer = "i"; subject = "s" }

abbrev nobody : AuthenticatedIdentity
nobody = record { issuer = "i"; subject = "other" }

abbrev course : Course
course = record {
  id = 2;
  title = codes "c";
  version = 4;
  active_corpus_version_id = none;
  updated_at = 0;
}

abbrev corpus : CorpusVersion
corpus = record {
  id = 7;
  course_id = 2;
  state = ready;
  pipeline_version = "v";
  page_count = 1;
  chunk_count = 1;
  ready_at = some 1;
}

abbrev start : Store
start = record {
  users = record { id = 8; oidc_issuer = "i"; oidc_subject = "s" } ∷ [];
  courses = course ∷ [];
  memberships = record { course_id = 2; user_id = 8; role = teacher } ∷ [];
  documents = [];
  versions = [];
  corpora = corpus ∷ [];
  corpus_documents = [];
  chunks = [];
  embeddings = [];
  jobs = [];
  events = [];
}

abbrev version : DocumentVersion
version =
    new_version str_uuid settings 9 3 0 2 (codes "a.pdf") 3 "s" "application/pdf" (codes "k") "h"

abbrev uploaded_record : UploadRecord
uploaded_record = record {
  document_id = 9;
  version_id = 3;
  storage_key = "test/courses/u/documents/u/versions/u/source.pdf";
  state = awaiting_upload;
}

abbrev uploaded : Store
uploaded = (add_upload version 8 start).1

abbrev confirmed_store : Store
confirmed_store = queue_job 1 4 5 (codes "k2") "h2" "c" metadata version uploaded

upload_run : upload_transaction who version start ≡ ok (uploaded_record, uploaded)
unfolding upload_transaction authorized_teacher add_upload new_version
upload_run = refl

confirm_run :
    confirm_transaction 1 4 5 who 2 9 3 (codes "k2") "h2" "c" metadata uploaded
    ≡ ok (tt, confirmed_store)
unfolding confirm_transaction authorized_teacher add_upload new_version queue_job
confirm_run = refl

two_steps : Reach str_uuid settings worker start confirmed_store
unfolding add_upload
two_steps =
    next
      (next here (
        uploads who 9 3 0 2 (codes "a.pdf") 3 "s" "application/pdf" (codes "k") "h" uploaded_record
          upload_run))
      (confirms 1 4 5 who 2 9 3 (codes "k2") "h2" "c" metadata (λ j m. elim m [ ]) confirm_run)

start-IsConsistent : IsConsistent start
unfolding HasUniqueIds
start-IsConsistent = record { unique = λ j k m. elim m [ ]; queued = tt }

confirmed_has_job_example :
    (existing_confirmation who 2 9 3 (codes "k2") "h2" confirmed_store
      ≢ err (runtime_error "confirmed document has no ingestion job"))
    × (confirm_transaction 6 7 8 who 2 9 3 (codes "k2") "h2" "c" metadata confirmed_store
        ≢ err (runtime_error "confirmed document has no ingestion job"))
confirmed_has_job_example =
    confirmed_has_job str_uuid settings worker start-IsConsistent two_steps 6 7 8 who 2 9 3
      (codes "k2") "h2" "c" metadata "confirmed document has no ingestion job"

upload-IsRepeated_example :
    IsRepeated who 2 "h" "h" uploaded_record confirmed_store
      (upload_transaction who version confirmed_store)
unfolding new_version add_upload
upload-IsRepeated_example =
    upload-IsRepeated str_uuid settings worker who who version version start refl upload_run
      (next here
        (confirms 1 4 5 who 2 9 3 (codes "k2") "h2" "c" metadata (λ j m. elim m [ ]) confirm_run))
      refl refl

may_publish : MayPublish who 2 7 start
unfolding authorized_teacher
may_publish = record {
  teacher = 8;
  authorized = refl;
  corpus = corpus;
  found = refl;
  is_ready = refl;
}

activate_corpus-Swaps_example : Swaps 4 7 course start (activate_corpus 6 who 2 7 4 start)
unfolding IsOnlyRow
activate_corpus-Swaps_example =
    activate_corpus-Swaps 6 who 7 4 course start may_publish refl ((λ e. refl), tt)

safe_name : sanitize_filename (λ t. t) (λ c. true) (codes "../etc/a.pdf") ≡ ok (codes "a.pdf")
unfolding sanitize_filename after_slash strip lstrip rstrip is_space
safe_name = refl

sanitize_filename-ok_example : IsSafe (λ t. t) (λ c. true) (codes "a.pdf")
sanitize_filename-ok_example =
    sanitize_filename-ok (λ t. t) (λ c. true) (codes "../etc/a.pdf") safe_name

outsider_denied_example :
    ((e : DocumentError) × (create_upload texts settings storage 9 3 0 nobody 2
          (codes "a.pdf")
          3
          "s"
          "application/pdf"
          (some (codes "k"))
          start
        ≡ (err e, start)))
    × ((confirm_upload texts settings storage nobody 2 9 3
            (λ i s. s)
            1
            4
            0
            (some (codes "k"))
            "c"
            start
          ≡ (err document_resource_not_found, start))
        ⊎ (confirm_upload texts settings storage nobody 2 9 3
              (λ i s. s)
              1
              4
              0
              (some (codes "k"))
              "c"
              start
            ≡ (err idempotency_key_missing, start)))
    × (get_version nobody 2 9 3 start ≡ err document_resource_not_found)
    × (activate_corpus 0 nobody 2 7 4 start ≡ err document_resource_not_found)
unfolding IsOutsider
outsider_denied_example =
    outsider_denied texts settings storage 9 3 0 nobody 2 (codes "a.pdf") 3 "s" "application/pdf"
      (some (codes "k")) (λ i s. s) 1 4 "c" 7 4 start refl
