-- ===== src/Documents/Changes.antt =====
-- What one transaction of the service or of the worker does to the versions, jobs and courses.
use docta.Prelude.{
  ℕ, ◌≡◌, ◌≢◌, refl, none, [], ◌∷◌, ◌++◌, find, update_where, inl, inr, Option-cases, arith, nat_eq,
  ok, or_raise, >>=-eq-ok, String,
}
use mathlib.Core.List.{Memᴰ}
use docta.Models.{Uuid, Time, DocumentVersion, IngestionJob}
use docta.Text.{Text}
use docta.Identity.{AuthenticatedIdentity}
use docta.Store.{Store}
use docta.Ingestion as Ingestion
use docta.Ingestion.{
  Settings, VersionsChange, rows_updated, same_rows, Step-VersionsChange, Step-JobsChange,
  Step-courses,
}
use docta.Documents.Requests.{document_resource_not_found, StoredObjectMetadata}
use docta.Documents.Service.{
  DocumentSettings, UploadRecord, ActivationView, authorized_teacher, has_upload_key, is_version,
  new_version, add_upload,
}
use docta.Documents.Operations.{
  upload_transaction, confirm_transaction, activate_corpus, queue_job, confirmed_version, new_job,
}
use docta.Documents.Runs.{Step, uploads, confirms, activates, works}
use docta.Documents.Operations.{is_course, published}

pub data Change (worker : Settings) (s s' : Store) : Type 0 where
  untouched :
      s'.versions ≡ s.versions → s'.jobs ≡ s.jobs → s'.courses ≡ s.courses → Change worker s s'
  uploaded :
      (new : DocumentVersion)
      → new.confirmation_idempotency_key ≡ none
      → s'.versions ≡ s.versions ++ new ∷ []
      → s'.jobs ≡ s.jobs
      → s'.courses ≡ s.courses
      → Change worker s s'
  confirmed :
      (v : DocumentVersion) (job : IngestionJob) (now : Time) (key : Text) (hash : String)
      (m : StoredObjectMetadata)
      → job.document_version_id ≡ v.id
      → ((j : IngestionJob) → Memᴰ j s.jobs → j.id ≢ job.id)
      → s'.versions
        ≡ update_where
            (is_version v.course_id v.document_id v.id)
            (confirmed_version now key hash m)
            s.versions
      → s'.jobs ≡ s.jobs ++ job ∷ []
      → s'.courses ≡ s.courses
      → Change worker s s'
  activated :
      (now : Time) (course_id corpus_id : Uuid) (expected : ℕ)
      → s'.versions ≡ s.versions
      → s'.jobs ≡ s.jobs
      → s'.courses ≡ update_where (is_course course_id expected) (published now corpus_id) s.courses
      → Change worker s s'
  worked :
      VersionsChange s.versions s'.versions
      → Ingestion.JobsChange worker s.jobs s'.jobs
      → s'.courses ≡ s.courses
      → Change worker s s'

module _ (worker : Settings) where
  upload_transaction-Change :
      (who : AuthenticatedIdentity) (new : DocumentVersion) (s : Store) {r : UploadRecord}
      {s' : Store}
      → new.confirmation_idempotency_key ≡ none
      → upload_transaction who new s ≡ ok (r, s')
      → Change worker s s'
  unfolding upload_transaction add_upload
  upload_transaction-Change who new s {r} {s'} unconfirmed h =
      let (user_id, _, h₁) = >>=-eq-ok (authorized_teacher s who new.course_id) _ h in
      elim (Option-cases
        (find (has_upload_key new.course_id new.upload_idempotency_key) s.versions)) [
          | inl fresh ↦
              let h₂ = rw fresh at h₁ in
              uploaded new unconfirmed (ground arith) (ground arith) (ground arith)
          | inr (old, e) ↦
              let h₂ = rw e at h₁ in untouched (ground arith) (ground arith) (ground arith)
        ]

  confirm_transaction-Change :
      (job_id event_id : Uuid) (now : Time) (who : AuthenticatedIdentity)
      (course_id document_id version_id : Uuid) (key : Text) (hash correlation_id : String)
      (m : StoredObjectMetadata) (s : Store) {s' : Store}
      → ((j : IngestionJob) → Memᴰ j s.jobs → j.id ≢ job_id)
      → confirm_transaction job_id event_id now who course_id document_id version_id key hash
          correlation_id m s
        ≡ ok (tt, s')
      → Change worker s s'
  unfolding confirm_transaction queue_job
  confirm_transaction-Change job_id event_id now who course_id document_id version_id key hash
        correlation_id m s {s'} fresh h =
      let (user_id, _, h₁) = >>=-eq-ok (authorized_teacher s who course_id) _ h in
      let (v, _, h₂) =
        >>=-eq-ok
          (or_raise (find (is_version course_id document_id version_id) s.versions)
            document_resource_not_found)
          _ h₁ in
      elim (Option-cases (v.confirmation_idempotency_key)) [
        | inl first ↦
            let h₃ = rw first at h₂ in
            confirmed v (new_job job_id now correlation_id v) now key hash m refl fresh
              (ground arith) (ground arith) (ground arith)
        | inr (other, e) ↦
            let h₃ = rw e at h₂ in untouched (ground arith) (ground arith) (ground arith)
      ]

  activate_corpus-Change :
      (now : Time) (who : AuthenticatedIdentity) (course_id corpus_id : Uuid) (expected : ℕ)
      (s : Store) {r : ActivationView} {s' : Store}
      → activate_corpus now who course_id corpus_id expected s ≡ ok (r, s')
      → Change worker s s'
  unfolding activate_corpus
  activate_corpus-Change now who course_id corpus_id expected s h =
      activated now course_id corpus_id expected (ground arith) (ground arith) (ground arith)

  work-Change : {s s' : Store} → Ingestion.Step worker s s' → Change worker s s'
  work-Change step =
      worked (Step-VersionsChange worker step) (Step-JobsChange worker step)
        (Step-courses worker step)

  pub Step-Change :
      (str_uuid : Uuid → String) (settings : DocumentSettings) {s s' : Store}
      → Step str_uuid settings worker s s'
      → Change worker s s'
  unfolding new_version
  Step-Change str_uuid settings {s}
        (uploads who document_id version_id now course_id filename size_bytes sha256 media_type key
          hash r h) =
      upload_transaction-Change who
        (new_version str_uuid settings document_id version_id now course_id filename size_bytes
          sha256 media_type key hash)
        s refl h
  Step-Change str_uuid settings {s}
        (confirms job_id event_id now who course_id document_id version_id key hash correlation_id m
          fresh h) =
      confirm_transaction-Change job_id event_id now who course_id document_id version_id key hash
        correlation_id m s fresh h
  Step-Change str_uuid settings {s} (activates now who course_id corpus_id expected r h) =
      activate_corpus-Change now who course_id corpus_id expected s h
  Step-Change str_uuid settings (works step) = work-Change step
