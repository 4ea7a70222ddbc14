-- ===== src/Ingestion/Versions.antt =====
-- What the worker's transactions leave of a document version: its identity, its object, and the
-- requests that made it.
use docta.Prelude.{
  ℕ, ◌≡◌, refl, sym, ap, ◌∙◌, Bool, ◌&&◌, ◌||◌, Option, some, List, ok, leb, ltb, >>=-eq-ok,
  or_raise, update_where, inl, inr, Bool-cases, Option-cases, arith, String, nat_eq,
}
use mathlib.Core.Path.{subst}
use docta.Models.{
  Uuid, Time, DocumentVersion, DocumentVersionState, IngestionJob, is_finished, is_pending,
  is_running, processing,
}
use docta.Store.{Store}
use docta.Jobs.{JobEnvelope, lease_event, mark_published, reconcile}
use docta.Ingestion.Claim.{
  invalid_job_envelope, runtime_error, ClaimedJob, Settings, claim, claim_found, exhaust,
  start_attempt, leased, check_event, event_by, job_by, is_version_of, may_process,
}
use docta.Ingestion.Success.{
  Built, active_job, persist_success, build_corpus, is_processing_version, index_version,
}
use docta.Ingestion.Failure.{persist_failure, fail_active, retries, fail_version}
use docta.Ingestion.Fencing.{Step, claims, succeeds, fails, leases, publishes, reconciles}

-- The columns of a version that the worker never writes.
pub record IsSameVersion (v v' : DocumentVersion) : Type 0 where
  pub id : v'.id ≡ v.id
  pub course : v'.course_id ≡ v.course_id
  pub document : v'.document_id ≡ v.document_id
  pub storage_key : v'.storage_key ≡ v.storage_key
  pub upload_key : v'.upload_idempotency_key ≡ v.upload_idempotency_key
  pub upload_hash : v'.upload_request_hash ≡ v.upload_request_hash
  pub confirmation_key : v'.confirmation_idempotency_key ≡ v.confirmation_idempotency_key
  pub confirmation_hash : v'.confirmation_request_hash ≡ v.confirmation_request_hash

-- The table of versions after a transaction of the worker.
pub data VersionsChange (xs ys : List DocumentVersion) : Type 0 where
  same_rows : ys ≡ xs → VersionsChange xs ys
  rows_updated :
      (p : DocumentVersion → Bool) (f : DocumentVersion → DocumentVersion)
      → ((v : DocumentVersion) → IsSameVersion v (f v))
      → ys ≡ update_where p f xs
      → VersionsChange xs ys

module _ (settings : Settings) where
  start_attempt-versions :
      (now : Time) (job : IngestionJob) (s : Store) {r : Option ClaimedJob} {s' : Store}
      → start_attempt settings now job s ≡ ok (r, s')
      → s'.versions
        ≡ update_where
            (may_process job)
            (λ v. record v { state = processing; updated_at = now })
            s.versions
  unfolding start_attempt
  start_attempt-versions now job s h = ground arith

  claim_found-versions :
      (dead_id : Uuid) (now : Time) (job : IngestionJob) (s : Store) {r : Option ClaimedJob}
      {s' : Store}
      → claim_found settings dead_id now job s ≡ ok (r, s')
      → VersionsChange s.versions s'.versions
  unfolding claim_found exhaust
  claim_found-versions dead_id now job s {r} {s'} h = elim (Bool-cases (is_finished job.state)) [
    | inl e ↦ same_rows (ground arith)
    | inr unfinished ↦
        elim (Bool-cases (
          (is_pending job.state && ltb now job.next_attempt_at)
          || (is_running job.state && leased job.lease_expires_at now))) [
            | inl e ↦ same_rows (ground arith)
            | inr free ↦ elim (Bool-cases (leb settings.max_attempts job.attempt)) [
              | inl e ↦
                  rows_updated (is_version_of job)
                    (λ v. record v {
                      state = DocumentVersionState.failed;
                      failure_code = some "INGESTION_ATTEMPTS_EXHAUSTED";
                      updated_at = now;
                    })
                    (λ v. ground arith) (ground arith)
              | inr e ↦
                  rows_updated (may_process job)
                    (λ v. record v { state = processing; updated_at = now }) (λ v. ground arith)
                    (start_attempt-versions now job s {r = r} {s' = s'} (ground arith))
            ]
          ]
  ]

  claim-versions :
      (isoformat : Time → String) (dead_id : Uuid) (now : Time) (envelope : JobEnvelope) (s : Store)
      {r : Option ClaimedJob} {s' : Store}
      → claim settings isoformat dead_id now envelope s ≡ ok (r, s')
      → VersionsChange s.versions s'.versions
  unfolding claim
  claim-versions isoformat dead_id now envelope s h =
      let (job, _, h₁) =
        >>=-eq-ok (or_raise (job_by envelope.job_id s.jobs) invalid_job_envelope) _ h in
      let (_, _, h₂) =
        >>=-eq-ok (check_event isoformat envelope job (event_by envelope.event_id s.events)) _ h₁ in
      claim_found-versions dead_id now job s h₂

  build_corpus-versions :
      (uuid4 : ℕ → Uuid) (now : Time) (claimed : ClaimedJob) (built : Built) (job : IngestionJob)
      (s : Store) {s' : Store}
      → build_corpus uuid4 now claimed built job s ≡ ok (tt, s')
      → s'.versions
        ≡ update_where (is_processing_version claimed) (index_version now built) s.versions
  unfolding build_corpus
  build_corpus-versions uuid4 now claimed built job s h = ground arith

  persist_failure-versions :
      (uniform : (low high : Time) → Time) (dead_id : Uuid) (now : Time) (claimed : ClaimedJob)
      (code : String) (state : DocumentVersionState) (transient : Bool) (s : Store)
      → VersionsChange s.versions
          (persist_failure settings uniform dead_id now claimed code state transient s).versions
  unfolding persist_failure fail_active
  persist_failure-versions uniform dead_id now claimed code state transient s =
      elim (Option-cases (active_job now claimed s)) [
        | inl e ↦ same_rows (rw (e, persist_failure) refl)
        | inr (job, found) ↦ elim (Bool-cases (retries settings transient job)) [
          | inl e ↦
              rows_updated (is_processing_version claimed)
                (fail_version now code DocumentVersionState.queued) (λ v. ground arith)
                (rw (found, persist_failure, e) refl)
          | inr e ↦
              rows_updated (is_processing_version claimed) (fail_version now code state)
                (λ v. ground arith) (rw (found, persist_failure, e) refl)
        ]
      ]

  pub Step-VersionsChange :
      {s s' : Store} → Step settings s s' → VersionsChange s.versions s'.versions
  unfolding lease_event mark_published reconcile persist_success
  Step-VersionsChange {s} (claims isoformat dead_id now envelope r e) =
      claim-versions isoformat dead_id now envelope s e
  Step-VersionsChange {s} (succeeds uuid4 now claimed built e) =
      let (job, _, h) =
        >>=-eq-ok
          (or_raise (active_job now claimed s) (runtime_error "stale ingestion fencing token")) _
          e in
      rows_updated (is_processing_version claimed) (index_version now built) (λ v. ground arith)
        (build_corpus-versions uuid4 now claimed built job s h)
  Step-VersionsChange {s} (fails uniform dead_id now claimed code state transient e) =
      subst (λ (t : Store). VersionsChange s.versions t.versions) (sym e)
        (persist_failure-versions uniform dead_id now claimed code state transient s)
  Step-VersionsChange (leases str_uuid str_int isoformat token now e) = same_rows (ground arith)
  Step-VersionsChange (publishes token event_id now e) =
      same_rows (ap (λ (t : Store). t.versions) e)
  Step-VersionsChange (reconciles stale_seconds now e) =
      same_rows (ap (λ (t : Store). t.versions) e)

  start_attempt-courses :
      (now : Time) (job : IngestionJob) (s : Store) {r : Option ClaimedJob} {s' : Store}
      → start_attempt settings now job s ≡ ok (r, s')
      → s'.courses ≡ s.courses
  unfolding start_attempt
  start_attempt-courses now job s h = ground arith

  claim-courses :
      (isoformat : Time → String) (dead_id : Uuid) (now : Time) (envelope : JobEnvelope) (s : Store)
      {r : Option ClaimedJob} {s' : Store}
      → claim settings isoformat dead_id now envelope s ≡ ok (r, s')
      → s'.courses ≡ s.courses
  unfolding claim claim_found exhaust
  claim-courses isoformat dead_id now envelope s {r} {s'} h =
      let (job, _, h₁) =
        >>=-eq-ok (or_raise (job_by envelope.job_id s.jobs) invalid_job_envelope) _ h in
      let (_, _, h₂) =
        >>=-eq-ok (check_event isoformat envelope job (event_by envelope.event_id s.events)) _ h₁ in
      let started = start_attempt-courses now job s {r = r} {s' = s'} in ground arith

  persist_failure-courses :
      (uniform : (low high : Time) → Time) (dead_id : Uuid) (now : Time) (claimed : ClaimedJob)
      (code : String) (state : DocumentVersionState) (transient : Bool) (s : Store)
      → (persist_failure settings uniform dead_id now claimed code state transient s).courses
        ≡ s.courses
  unfolding persist_failure fail_active
  persist_failure-courses uniform dead_id now claimed code state transient s = ground arith

  -- The worker does not touch the courses.
  pub Step-courses : {s s' : Store} → Step settings s s' → s'.courses ≡ s.courses
  unfolding lease_event mark_published reconcile persist_success build_corpus
  Step-courses {s} (claims isoformat dead_id now envelope r e) =
      claim-courses isoformat dead_id now envelope s e
  Step-courses {s} (succeeds uuid4 now claimed built e) = ground arith
  Step-courses {s} (fails uniform dead_id now claimed code state transient e) =
      ap (λ (t : Store). t.courses) e
      ∙ persist_failure-courses uniform dead_id now claimed code state transient s
  Step-courses (leases str_uuid str_int isoformat token now e) = ground arith
  Step-courses (publishes token event_id now e) = ap (λ (t : Store). t.courses) e
  Step-courses (reconciles stale_seconds now e) = ap (λ (t : Store). t.courses) e
