-- ===== src/Documents/Runs.antt =====
-- Runs of the document service beside the ingestion worker, in any order and by any identities.
use docta.Prelude.{ℕ, ◌≡◌, ◌≢◌, nat_eq, ok, String}
use mathlib.Core.List.{Memᴰ}
use docta.Models.{Uuid, Time, IngestionJob}
use docta.Text.{Text}
use docta.Identity.{AuthenticatedIdentity}
use docta.Store.{Store}
use docta.Ingestion as Ingestion
use docta.Ingestion.{
  Settings, VersionsChange, rows_updated, same_rows, Step-VersionsChange, Step-JobsChange,
}
use docta.Documents.Requests.{StoredObjectMetadata}
use docta.Documents.Service.{DocumentSettings, UploadRecord, ActivationView, new_version}
use docta.Documents.Operations.{upload_transaction, confirm_transaction, activate_corpus}

module _ (str_uuid : Uuid → String) (settings : DocumentSettings) (worker : Settings) where
  -- One transaction that commits. The id of a new job is one that no job has (`uuid4`).
  pub data Step (s s' : Store) : Type 0 where
    uploads :
        (who : AuthenticatedIdentity) (document_id version_id : Uuid) (now : Time)
        (course_id : Uuid) (filename : Text) (size_bytes : ℕ) (expected_sha256 media_type : String)
        (key : Text) (hash : String) (r : UploadRecord)
        → upload_transaction who
            (new_version str_uuid settings document_id version_id now course_id filename size_bytes
              expected_sha256 media_type key hash)
            s
          ≡ ok (r, s')
        → Step s s'
    confirms :
        (job_id event_id : Uuid) (now : Time) (who : AuthenticatedIdentity)
        (course_id document_id version_id : Uuid) (key : Text) (hash correlation_id : String)
        (m : StoredObjectMetadata)
        → ((j : IngestionJob) → Memᴰ j s.jobs → j.id ≢ job_id)
        → confirm_transaction job_id event_id now who course_id document_id version_id key hash
            correlation_id m s
          ≡ ok (tt, s')
        → Step s s'
    activates :
        (now : Time) (who : AuthenticatedIdentity) (course_id corpus_id : Uuid) (expected : ℕ)
        (r : ActivationView)
        → activate_corpus now who course_id corpus_id expected s ≡ ok (r, s')
        → Step s s'
    works : Ingestion.Step worker s s' → Step s s'

  pub data Reach (s : Store) : Store → Type 0 where
    here : Reach s s
    next : {t u : Store} → Reach s t → Step t u → Reach s u
