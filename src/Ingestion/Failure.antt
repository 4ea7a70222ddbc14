-- ===== src/Ingestion/Failure.antt =====
-- ingestion.py: `IngestionWorker._persist_failure`, one transaction, and `_acknowledgeable`. The
-- random part of the delay before a retry is an argument, in microseconds.
use docta.Prelude.{
  ℕ, ◌+◌, ◌-◌, ◌*◌, ◌^◌, ◌/◌, min, Bool, false, ◌&&◌, ◌||◌, none, some, String, if◌then◌else◌, ltb,
  update_where,
}
use docta.Models.{
  Uuid, Time, seconds, IngestionJob, DocumentVersion, DocumentVersionState, queued, pending,
  IngestionJobState, is_pending, is_finished,
}
use docta.Store.{Store}
use docta.Jobs.{record_dead_letter, schedule_retry}
use docta.Ingestion.Claim.{ClaimedJob, Settings, save_job, job_by}
use docta.Ingestion.Success.{active_job, is_processing_version}

-- `min(60, self._retry_base_seconds * 2 ** (attempt - 1))`
unfoldable pub retry_delay : Settings → (attempt : ℕ) → Time
retry_delay settings attempt = min (seconds 60) (settings.retry_base * 2 ^ (attempt - 1))

abbrev pub fail_job : (now : Time) (code : String) → IngestionJob → IngestionJob
fail_job now code job = record job {
  state = IngestionJobState.failed;
  failure_code = some code;
  updated_at = now;
  lease_expires_at = none;
  completed_at = some now;
}

-- `transient and active_job.attempt < self._max_attempts`
abbrev pub retries : Settings → (transient : Bool) → IngestionJob → Bool
retries settings transient job = transient && ltb job.attempt settings.max_attempts

abbrev pub fail_version :
    (now : Time) (code : String) → DocumentVersionState → DocumentVersion → DocumentVersion
fail_version now code state v = record v {
  state = state;
  failure_code = some code;
  updated_at = now;
}

module _ (settings : Settings) (uniform : (low high : Time) → Time) where
  abbrev pub retry_job : (now : Time) (code : String) → IngestionJob → IngestionJob
  retry_job now code job =
      let delay = retry_delay settings job.attempt in
      record job {
        state = pending;
        failure_code = some code;
        updated_at = now;
        lease_expires_at = none;
        next_attempt_at = now + uniform (delay / 2) delay;
      }

  -- `_persist_failure` for the job that it has locked
  unfoldable pub fail_active :
      (dead_id : Uuid) (now : Time)
      → ClaimedJob
      → (code : String) → DocumentVersionState
      → (transient : Bool) → IngestionJob
      → Store
      → Store
  fail_active dead_id now claimed code state transient job s =
      if retries settings transient job
      then (let job' = retry_job now code job in
          record s {
            jobs = save_job job' s.jobs;
            events = schedule_retry job' job'.next_attempt_at s.events;
            versions =
                update_where (is_processing_version claimed) (fail_version now code queued)
                  s.versions;
          })
      else (let job' = fail_job now code job in
          record s {
            jobs = save_job job' s.jobs;
            events = record_dead_letter dead_id now job' s.events;
            versions =
                update_where (is_processing_version claimed) (fail_version now code state)
                  s.versions;
          })

  unfoldable pub persist_failure :
      (dead_id : Uuid) (now : Time)
      → ClaimedJob
      → (code : String) → DocumentVersionState
      → (transient : Bool) → Store
      → Store
  persist_failure dead_id now claimed code state transient s = elim (active_job now claimed s) [
    | none ↦ s
    | some job ↦ fail_active dead_id now claimed code state transient job s
  ]

-- `IngestionWorker._acknowledgeable`
unfoldable pub acknowledgeable : Uuid → Store → Bool
acknowledgeable job_id s = elim (job_by job_id s.jobs) [
  | none ↦ false
  | some job ↦ is_finished job.state || is_pending job.state
]
