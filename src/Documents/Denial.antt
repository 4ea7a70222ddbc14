-- ===== src/Documents/Denial.antt =====
-- Who does not teach a course learns nothing of its documents and changes nothing.
use docta.Prelude.{
  Result-cases, ℕ, ◌≡◌, refl, ◌&&◌, Option, none, some, find, inl, inr, ◌⊎◌, arith, ok, err,
  raise_if, String, ltb, >>=-eq-ok, Bool-cases, length,
}
use docta.Models.{Uuid, Time, DocumentVersion}
use docta.Text.{Text, codes, is_blank, strip}
use docta.Identity.{AuthenticatedIdentity, is_identity}
use docta.Store.{Store}
use docta.Documents.Requests.{
  DocumentError, document_resource_not_found, idempotency_key_missing, validated_idempotency_key,
  sanitize_filename, upload_validation_failure,
}
use docta.Documents.Service.{DocumentSettings, teaches, authorized_teacher, new_version}
use docta.Documents.Operations.{
  upload_transaction, existing_confirmation, get_version, activate_corpus,
}
use docta.Documents.Endpoints.{
  ObjectStorage, Texts, requested_version, create_upload, confirm_upload,
}

-- Nobody with the identity teaches the course.
unfoldable pub IsOutsider : Store → AuthenticatedIdentity → Uuid → Type 0
IsOutsider s who course_id = find (λ u. is_identity who u && teaches s course_id u) s.users ≡ none

denied :
    (s : Store) (who : AuthenticatedIdentity) (course_id : Uuid)
    → IsOutsider s who course_id
    → authorized_teacher s who course_id ≡ err document_resource_not_found
unfolding IsOutsider authorized_teacher
denied s who course_id nobody = rw nobody refl

validated_idempotency_key-err :
    (header : Option Text) {e : DocumentError}
    → validated_idempotency_key header ≡ err e
    → e ≡ idempotency_key_missing
unfolding validated_idempotency_key
validated_idempotency_key-err none h = ground arith
validated_idempotency_key-err (some value) h = elim (Bool-cases (is_blank value)) [
  | inl blank ↦ (ground arith)
  | inr visible ↦ elim (Bool-cases (ltb 255 (length (strip value)))) [
    | inl long ↦ (ground arith)
    | inr fits ↦ (ground arith)
  ]
]

module _ (texts : Texts) (settings : DocumentSettings) (storage : ObjectStorage) where
  requested_version-course :
      (document_id version_id : Uuid) (now : Time) (course_id : Uuid) (filename : Text)
      (size_bytes : ℕ) (expected_sha256 media_type : String) (header : Option Text)
      {new : DocumentVersion}
      → requested_version texts settings storage document_id version_id now course_id filename
          size_bytes expected_sha256 media_type header
        ≡ ok new
      → new.course_id ≡ course_id
  unfolding requested_version new_version
  requested_version-course document_id version_id now course_id filename size_bytes expected_sha256
        media_type header h =
      let (key, _, h₁) = >>=-eq-ok (validated_idempotency_key header) _ h in
      let (_, _, h₂) =
        >>=-eq-ok
          (raise_if (ltb settings.max_document_bytes size_bytes)
            (upload_validation_failure (codes "DOCUMENT_TOO_LARGE") 413))
          _ h₁ in
      let (_, _, h₃) = >>=-eq-ok (sanitize_filename texts.lower texts.is_printable filename) _ h₂ in
      ground arith

  create_upload-denied :
      (document_id version_id : Uuid) (now : Time) (who : AuthenticatedIdentity) (course_id : Uuid)
      (filename : Text) (size_bytes : ℕ) (expected_sha256 media_type : String)
      (header : Option Text) (s : Store)
      → IsOutsider s who course_id
      → (e : DocumentError) × (create_upload texts settings storage document_id version_id now who
            course_id filename size_bytes expected_sha256 media_type header s
          ≡ (err e, s))
  unfolding create_upload upload_transaction
  create_upload-denied document_id version_id now who course_id filename size_bytes expected_sha256
        media_type header s outsider =
      elim (Result-cases (
        requested_version texts settings storage document_id version_id now course_id filename
          size_bytes expected_sha256 media_type header)) [
            | inl (e, raised) ↦ (e, rw raised refl)
            | inr (new, valid) ↦
                let course =
                  requested_version-course document_id version_id now course_id filename size_bytes
                    expected_sha256 media_type header valid in
                (
                  document_resource_not_found,
                  rw (valid, course, denied s who course_id outsider) refl,
                )
          ]

  confirm_upload-denied :
      (who : AuthenticatedIdentity) (course_id document_id version_id : Uuid)
      (meanwhile : ℕ → Store → Store) (job_id event_id : Uuid) (now : Time) (header : Option Text)
      (correlation_id : String) (s : Store)
      → IsOutsider s who course_id
      → (confirm_upload texts settings storage who course_id document_id version_id meanwhile job_id
            event_id now header correlation_id s
          ≡ (err document_resource_not_found, s))
        ⊎ (confirm_upload texts settings storage who course_id document_id version_id meanwhile
              job_id event_id now header correlation_id s
            ≡ (err idempotency_key_missing, s))
  unfolding confirm_upload existing_confirmation
  confirm_upload-denied who course_id document_id version_id meanwhile job_id event_id now header
        correlation_id s outsider =
      elim (Result-cases (validated_idempotency_key header)) [
        | inl (e, raised) ↦ inr (rw (raised, validated_idempotency_key-err header raised) refl)
        | inr (key, valid) ↦ inl (rw (valid, denied s who course_id outsider) refl)
      ]

  -- To an identity that does not teach the course, an upload is refused with some error and a
  -- confirmation, unless it lacks its key, as not found, both with no change of the store; a version is
  -- not found, whether it exists or not, and neither is a corpus.
  pub outsider_denied :
      (document_id version_id : Uuid) (now : Time) (who : AuthenticatedIdentity) (course_id : Uuid)
      (filename : Text) (size_bytes : ℕ) (expected_sha256 media_type : String)
      (header : Option Text) (meanwhile : ℕ → Store → Store) (job_id event_id : Uuid)
      (correlation_id : String) (corpus_id : Uuid) (expected : ℕ) (s : Store)
      → IsOutsider s who course_id
      → ((e : DocumentError) × (create_upload texts settings storage document_id version_id now who
              course_id filename size_bytes expected_sha256 media_type header s
            ≡ (err e, s)))
        × ((confirm_upload texts settings storage who course_id document_id version_id meanwhile
                job_id event_id now header correlation_id s
              ≡ (err document_resource_not_found, s))
            ⊎ (confirm_upload texts settings storage who course_id document_id version_id meanwhile
                  job_id event_id now header correlation_id s
                ≡ (err idempotency_key_missing, s)))
        × (get_version who course_id document_id version_id s ≡ err document_resource_not_found)
        × (activate_corpus now who course_id corpus_id expected s ≡ err document_resource_not_found)
  unfolding get_version activate_corpus
  outsider_denied document_id version_id now who course_id filename size_bytes expected_sha256
        media_type header meanwhile job_id event_id correlation_id corpus_id expected s outsider =
      let refused = denied s who course_id outsider in
      (
        create_upload-denied document_id version_id now who course_id filename size_bytes
            expected_sha256 media_type header s outsider,
        confirm_upload-denied who course_id document_id version_id meanwhile job_id event_id now
            header correlation_id s outsider,
        rw refused refl,
        rw refused refl,
      )
