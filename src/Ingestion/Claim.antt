-- ===== src/Ingestion/Claim.antt =====
-- ingestion.py: `ClaimedJob`, the worker's settings, and `IngestionWorker._claim`.
use docta.Prelude.{
  ℕ, ◌+◌, Bool, false, not, ◌&&◌, ◌||◌, Option, none, some, List, String, Result, ok, err, ◌>>=◌,
  ◌>>◌, raise_if, or_raise, if◌then◌else◌, leb, ltb, update_where, count_where, find_by, ◌==◌,
  nat_eq, nat_beq,
}
use docta.Models.{
  Uuid, Time, seconds, IngestionJob, OutboxEvent, DocumentVersion, DocumentVersionState, queued,
  processing, running, IngestionJobState, is_pending, is_running, is_finished, is_ingestion,
  version_state_beq,
}
use docta.Store.{Store}
use docta.Jobs.{JobEnvelope, envelope_for, envelope_beq, record_dead_letter}

pub record ClaimedJob : Type 0 where
  pub id : Uuid
  pub course_id : Uuid
  pub document_version_id : Uuid
  pub storage_key : String
  pub storage_version_id : String
  pub expected_size_bytes : ℕ
  pub expected_sha256 : String
  pub pipeline_version : String
  pub fencing_token : ℕ

-- The numbers that the worker is made with; the base of the retry delay is in microseconds.
pub record Settings : Type 0 where
  pub max_document_bytes : ℕ
  pub chunk_size_characters : ℕ
  pub chunk_overlap_characters : ℕ
  pub lease_seconds : ℕ
  pub max_attempts : ℕ
  pub retry_base : ℕ

-- What the transactions of the worker raise.
pub data WorkerError : Type 0 where
  invalid_job_envelope : WorkerError
  runtime_error : String → WorkerError

abbrev pub job_by : Uuid → List IngestionJob → Option IngestionJob
job_by = find_by (λ (j : IngestionJob). j.id)

abbrev pub event_by : Uuid → List OutboxEvent → Option OutboxEvent
event_by = find_by (λ (e : OutboxEvent). e.id)

abbrev pub version_by : Uuid → List DocumentVersion → Option DocumentVersion
version_by = find_by (λ (v : DocumentVersion). v.id)

-- The flush of the one job that a transaction has loaded and changed.
abbrev pub save_job : IngestionJob → List IngestionJob → List IngestionJob
save_job job = update_where (λ j. j.id == job.id) (λ _. job)

-- `lease_expires_at is not None and lease_expires_at > now`
abbrev pub leased : Option Time → Time → Bool
leased none now = false
leased (some until) now = ltb now until

-- the version of the job, by id and course
abbrev pub is_version_of : IngestionJob → DocumentVersion → Bool
is_version_of job v = v.id == job.document_version_id && v.course_id == job.course_id

abbrev pub may_process : IngestionJob → DocumentVersion → Bool
may_process job v =
    is_version_of job v
    && (version_state_beq v.state queued || version_state_beq v.state processing)

-- the test of the envelope against the rows
unfoldable pub check_event :
    (isoformat : Time → String)
    → JobEnvelope
    → IngestionJob
    → Option OutboxEvent
    → Result WorkerError Unit
check_event isoformat envelope job none = err invalid_job_envelope
check_event isoformat envelope job (some event) =
    raise_if
      (not (is_ingestion event.kind)
        || not (event.job_id == job.id)
        || not (envelope_beq (envelope_for isoformat event job) envelope))
      invalid_job_envelope

module _ (settings : Settings) where
  -- `if job.attempt >= self._max_attempts`
  unfoldable pub exhaust : (dead_id : Uuid) (now : Time) → IngestionJob → Store → Store
  exhaust dead_id now job s =
      let done : IngestionJob = record job {
        state = IngestionJobState.failed;
        failure_code = some "INGESTION_ATTEMPTS_EXHAUSTED";
        completed_at = some now;
        updated_at = now;
        lease_expires_at = none;
        fencing_token = job.fencing_token + 1;
      } in
      record s {
        jobs = save_job done s.jobs;
        versions =
            update_where (is_version_of job)
              (λ v. record v {
                state = DocumentVersionState.failed;
                failure_code = done.failure_code;
                updated_at = now;
              })
              s.versions;
        events = record_dead_letter dead_id now done s.events;
      }

  unfoldable pub claimed_job : IngestionJob → DocumentVersion → Result WorkerError ClaimedJob
  claimed_job job v = do
    storage_version_id ←
        or_raise v.storage_version_id
          (runtime_error "document version has no immutable storage version")
    ok (record {
      id = job.id;
      course_id = job.course_id;
      document_version_id = job.document_version_id;
      storage_key = v.storage_key;
      storage_version_id = storage_version_id;
      expected_size_bytes = v.expected_size_bytes;
      expected_sha256 = v.expected_sha256;
      pipeline_version = job.pipeline_version;
      fencing_token = job.fencing_token;
    })

  abbrev pub started_job : (now : Time) → IngestionJob → IngestionJob
  started_job now job = record job {
    state = running;
    attempt = job.attempt + 1;
    fencing_token = job.fencing_token + 1;
    lease_expires_at = some (now + seconds settings.lease_seconds);
    updated_at = now;
  }

  -- from `job.state = "RUNNING"` on
  unfoldable pub start_attempt :
      (now : Time) → IngestionJob → Store → Result WorkerError (Option ClaimedJob × Store)
  start_attempt now job s =
      let started = started_job now job in
      let versions =
        update_where (may_process job) (λ v. record v { state = processing; updated_at = now })
          s.versions in
      do
        raise_if (not (nat_beq (count_where (may_process job) s.versions) 1))
            (runtime_error "document version could not enter PROCESSING")
        version ←
            or_raise (version_by job.document_version_id versions)
              (runtime_error "no row was found")
        claimed ← claimed_job started version
        ok (some claimed, record s { jobs = save_job started s.jobs; versions = versions })

  -- `_claim` for a job that has been found and matches the envelope
  unfoldable pub claim_found :
      (dead_id : Uuid) (now : Time)
      → IngestionJob
      → Store
      → Result WorkerError (Option ClaimedJob × Store)
  claim_found dead_id now job s =
      if is_finished job.state
      then ok (none, s)
      else if (is_pending job.state && ltb now job.next_attempt_at)
          || (is_running job.state && leased job.lease_expires_at now)
      then ok (none, s)
      else if leb settings.max_attempts job.attempt
      then ok (none, exhaust dead_id now job s)
      else start_attempt now job s

  -- `IngestionWorker._claim`, one transaction. `dead_id` is the id that a dead letter would get.
  unfoldable pub claim :
      (isoformat : Time → String) (dead_id : Uuid) (now : Time)
      → JobEnvelope
      → Store
      → Result WorkerError (Option ClaimedJob × Store)
  claim isoformat dead_id now envelope s = do
    job ← or_raise (job_by envelope.job_id s.jobs) invalid_job_envelope
    check_event isoformat envelope job (event_by envelope.event_id s.events)
    claim_found dead_id now job s
