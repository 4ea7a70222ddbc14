-- ===== src/Ingestion/Lifecycle.antt =====
-- The life of one job, as the worker's transactions change its row.
use docta.Prelude.{ℕ, ◌+◌, ◌≤◌, ◌<◌, ◌≡◌, true, false, none, some, is_some, ◌&&◌, arith, String}
use docta.Models.{Time, IngestionJob, IngestionJobState, is_running, is_finished}
use docta.Ingestion.Claim.{Settings, leased, started_job}
use docta.Ingestion.Success.{succeed}
use docta.Ingestion.Failure.{retry_job, fail_job}

module _ (settings : Settings) where
  -- One change of a job's row.
  pub data RowStep (job : IngestionJob) : IngestionJob → Type 0 where
    starts :
        (now : Time)
        → is_finished job.state ≡ false
        → (is_running job.state && leased job.lease_expires_at now) ≡ false
        → job.attempt < settings.max_attempts
        → RowStep job (started_job settings now job)
    gives_up :
        (now : Time)
        → is_finished job.state ≡ false
        → settings.max_attempts ≤ job.attempt
        → RowStep job (record job {
          state = IngestionJobState.failed;
          failure_code = some "INGESTION_ATTEMPTS_EXHAUSTED";
          completed_at = some now;
          updated_at = now;
          lease_expires_at = none;
          fencing_token = job.fencing_token + 1;
        })
    completes :
        (now : Time)
        → is_running job.state ≡ true
        → leased job.lease_expires_at now ≡ true
        → RowStep job (succeed now job)
    backs_off :
        (uniform : (low high : Time) → Time) (now : Time) (code : String)
        → is_running job.state ≡ true
        → leased job.lease_expires_at now ≡ true
        → job.attempt < settings.max_attempts
        → RowStep job (retry_job settings uniform now code job)
    ends :
        (now : Time) (code : String)
        → is_running job.state ≡ true
        → leased job.lease_expires_at now ≡ true
        → RowStep job (fail_job now code job)

-- A job's row between two transactions.
pub record IsValidJob (max_attempts : ℕ) (job : IngestionJob) : Type 0 where
  pub attempts : job.attempt ≤ max_attempts
  pub fenced : job.attempt ≤ job.fencing_token
  pub leased_iff : is_some job.lease_expires_at ≡ is_running job.state
  pub completed_iff : is_some job.completed_at ≡ is_finished job.state

pub RowStep-IsValidJob :
    (settings : Settings) {job job' : IngestionJob}
    → RowStep settings job job'
    → IsValidJob settings.max_attempts job
    → IsValidJob settings.max_attempts job'
RowStep-IsValidJob settings (starts now f l a) v = ground arith
RowStep-IsValidJob settings (gives_up now f a) v = ground arith
RowStep-IsValidJob settings (completes now r l) v = ground arith
RowStep-IsValidJob settings (backs_off u now c r l a) v = ground arith
RowStep-IsValidJob settings (ends now c r l) v = ground arith

-- A finished job is never changed again.
pub RowStep-unfinished :
    (settings : Settings) {job job' : IngestionJob}
    → RowStep settings job job'
    → is_finished job.state ≡ false
RowStep-unfinished settings (starts now f l a) = f
RowStep-unfinished settings (gives_up now f a) = f
RowStep-unfinished settings (completes now r l) = ground arith
RowStep-unfinished settings (backs_off u now c r l a) = ground arith
RowStep-unfinished settings (ends now c r l) = ground arith

-- The fencing token never falls, and the job stays the same job.
pub RowStep-token :
    (settings : Settings) {job job' : IngestionJob}
    → RowStep settings job job'
    → (job'.id ≡ job.id) × (job.fencing_token ≤ job'.fencing_token)
RowStep-token settings (starts now f l a) = omega arith
RowStep-token settings (gives_up now f a) = omega arith
RowStep-token settings (completes now r l) = omega arith
RowStep-token settings (backs_off u now c r l a) = omega arith
RowStep-token settings (ends now c r l) = omega arith
