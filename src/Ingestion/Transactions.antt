-- ===== src/Ingestion/Transactions.antt =====
-- Each transaction of the worker changes at most one job, and by a step of its life.
use docta.Prelude.{
  ℕ, ◌+◌, ◌≤◌, ◌<◌, ◌≡◌, refl, sym, Bool, true, false, not, Option, some, ◌&&◌, ◌||◌, arith, String,
  leb, ltb, List, ok, >>=-eq-ok, raise_if->>-ok, or_raise, or_raise-ok, All, All-find,
  All-update_where, find, find_holds, nat_beq, leb→le, Bool-cases, Option-cases, inl, inr,
  count_where, nat_eq,
}
use mathlib.Core.Path.{subst}
use docta.Models.{
  Uuid, Time, IngestionJob, DocumentVersion, DocumentVersionState, is_pending, is_running,
  is_finished,
}
use docta.Store.{Store}
use docta.Jobs.{JobEnvelope}
use docta.Ingestion.Claim.{
  ClaimedJob, Settings, runtime_error, save_job, leased, job_by, event_by, version_by, may_process,
  check_event, exhaust, claimed_job, started_job, start_attempt, claim_found, claim,
}
use docta.Ingestion.Success.{Built, owns, active_job, build_corpus, persist_success, succeed}
use docta.Ingestion.Failure.{fail_active, persist_failure, retries}
use docta.Ingestion.Lifecycle.{RowStep, starts, gives_up, completes, backs_off, ends}

-- The table of jobs after a transaction: unchanged, or one job has taken a step.
pub data JobsChange (settings : Settings) (xs ys : List IngestionJob) : Type 0 where
  same : ys ≡ xs → JobsChange settings xs ys
  saved :
      (p : IngestionJob → Bool) (job job' : IngestionJob)
      → find p xs ≡ some job
      → RowStep settings job job'
      → ys ≡ save_job job' xs
      → JobsChange settings xs ys

-- What is true of every job and kept by the steps stays true of every job.
pub JobsChange-All :
    (P : IngestionJob → Type 0) (settings : Settings) {xs ys : List IngestionJob}
    → ((j j' : IngestionJob) → RowStep settings j j' → P j → P j')
    → JobsChange settings xs ys
    → All P xs
    → All P ys
JobsChange-All P settings step (same e) h = subst (All P) (sym e) h
JobsChange-All P settings {xs} step (saved p job job' found r e) h =
    subst (All P) (sym e)
      (All-update_where P _ _ xs (λ _ _ _. step job job' r (All-find P p xs found h)) h)

module _ (settings : Settings) where
  start_attempt-change :
      (now : Time) (job : IngestionJob) (s : Store) {r : Option ClaimedJob} {s' : Store}
      → start_attempt settings now job s ≡ ok (r, s')
      → s'.jobs ≡ save_job (started_job settings now job) s.jobs
  unfolding start_attempt
  start_attempt-change now job s h = ground arith

  claim_found-change :
      (dead_id : Uuid) (now : Time) (id : Uuid) (job : IngestionJob) (s : Store)
      {r : Option ClaimedJob} {s' : Store}
      → job_by id s.jobs ≡ some job
      → claim_found settings dead_id now job s ≡ ok (r, s')
      → JobsChange settings s.jobs s'.jobs
  unfolding claim_found exhaust
  claim_found-change dead_id now id job s {r} {s'} found h =
      elim (Bool-cases (is_finished job.state)) [
        | inl e ↦ same (ground arith)
        | inr unfinished ↦
            elim (Bool-cases (
              (is_pending job.state && ltb now job.next_attempt_at)
              || (is_running job.state && leased job.lease_expires_at now))) [
                | inl e ↦ same (ground arith)
                | inr free ↦ elim (Bool-cases (leb settings.max_attempts job.attempt)) [
                  | inl e ↦
                      saved _ job _ found (gives_up now unfinished (leb→le _ _ e)) (ground arith)
                  | inr e ↦
                      saved _ job _ found (starts now unfinished (ground arith) (ground arith))
                        (start_attempt-change now job s {r = r} {s' = s'} (ground arith))
                ]
              ]
      ]

  -- A claim leaves the jobs as they are, or starts an attempt, or gives the job up.
  pub claim-change :
      (isoformat : Time → String) (dead_id : Uuid) (now : Time) (envelope : JobEnvelope) (s : Store)
      {r : Option ClaimedJob} {s' : Store}
      → claim settings isoformat dead_id now envelope s ≡ ok (r, s')
      → JobsChange settings s.jobs s'.jobs
  unfolding claim
  claim-change isoformat dead_id now envelope s h =
      let (job, found, h₁) = >>=-eq-ok _ _ h in
      let (_, _, h₂) =
        >>=-eq-ok (check_event isoformat envelope job (event_by envelope.event_id s.events)) _ h₁ in
      claim_found-change dead_id now envelope.job_id job s (or_raise-ok _ _ found) h₂

  build_corpus-change :
      (uuid4 : ℕ → Uuid) (now : Time) (claimed : ClaimedJob) (built : Built) (job : IngestionJob)
      (s : Store) {s' : Store}
      → build_corpus uuid4 now claimed built job s ≡ ok (tt, s')
      → s'.jobs ≡ save_job (succeed now job) s.jobs
  unfolding build_corpus
  build_corpus-change uuid4 now claimed built job s h = ground arith

  pub persist_success-change :
      (uuid4 : ℕ → Uuid) (now : Time) (claimed : ClaimedJob) (built : Built) (s : Store)
      {s' : Store}
      → persist_success uuid4 now claimed built s ≡ ok (tt, s')
      → JobsChange settings s.jobs s'.jobs
  unfolding persist_success
  persist_success-change uuid4 now claimed built s h =
      let (job, p, h₁) = >>=-eq-ok _ _ h in
      let found = or_raise-ok _ _ p in
      let mine = find_holds (owns now claimed) s.jobs found in
      saved (owns now claimed) job (succeed now job) found
        (completes now (ground arith) (ground arith))
        (build_corpus-change uuid4 now claimed built job s h₁)

  pub persist_failure-change :
      (uniform : (low high : Time) → Time) (dead_id : Uuid) (now : Time) (claimed : ClaimedJob)
      (code : String) (state : DocumentVersionState) (transient : Bool) (s : Store)
      → JobsChange settings s.jobs
          (persist_failure settings uniform dead_id now claimed code state transient s).jobs
  unfolding persist_failure fail_active
  persist_failure-change uniform dead_id now claimed code state transient s =
      elim (Option-cases (active_job now claimed s)) [
        | inl e ↦ same (rw (e, persist_failure) refl)
        | inr (job, found) ↦
            let mine = find_holds (owns now claimed) s.jobs found in
            elim (Bool-cases (retries settings transient job)) [
              | inl e ↦
                  saved (owns now claimed) job _ found
                    (backs_off uniform now code (ground arith) (ground arith) (ground arith))
                    (rw (found, persist_failure, e) refl)
              | inr e ↦
                  saved (owns now claimed) job _ found (ends now code (ground arith) (ground arith))
                    (rw (found, persist_failure, e) refl)
            ]
      ]

-- What a claim that hands out a job has found and written.
pub record Claimed (settings : Settings) (now : Time) (envelope : JobEnvelope) (c : ClaimedJob)
    (s s' : Store) : Type 0 where
  pub job : IngestionJob
  pub found : job_by envelope.job_id s.jobs ≡ some job
  pub unfinished : is_finished job.state ≡ false
  pub due : is_pending job.state ≡ true → job.next_attempt_at ≤ now
  pub unleased : is_running job.state ≡ true → leased job.lease_expires_at now ≡ false
  pub attempts : job.attempt < settings.max_attempts
  pub same_job : c.id ≡ job.id
  pub fenced : c.fencing_token ≡ job.fencing_token + 1
  pub written : s'.jobs ≡ save_job (started_job settings now job) s.jobs

module _ (settings : Settings) where
  claimed_job-ok :
      (job : IngestionJob) (v : DocumentVersion) {c : ClaimedJob}
      → claimed_job settings job v ≡ ok c
      → (c.id ≡ job.id) × (c.fencing_token ≡ job.fencing_token)
  unfolding claimed_job
  claimed_job-ok job v h = ground arith

  start_attempt-some :
      (now : Time) (job : IngestionJob) (s : Store) {c : ClaimedJob} {s' : Store}
      → start_attempt settings now job s ≡ ok (some c, s')
      → (c.id ≡ job.id) × (c.fencing_token ≡ job.fencing_token + 1)
  unfolding start_attempt
  start_attempt-some now job s {c} {s'} h =
      let (_, h₁) =
        raise_if->>-ok (not (nat_beq (count_where (may_process job) s.versions) 1))
          (runtime_error "document version could not enter PROCESSING") _ h in
      let (v, _, h₂) =
        >>=-eq-ok
          (or_raise (version_by job.document_version_id _) (runtime_error "no row was found")) _
          h₁ in
      let (c', p, h₃) = >>=-eq-ok (claimed_job settings (started_job settings now job) v) _ h₂ in
      let made : c' ≡ c = ground arith in
      subst (λ (c : ClaimedJob). (c.id ≡ job.id) × (c.fencing_token ≡ job.fencing_token + 1)) made
        (claimed_job-ok (started_job settings now job) v p)

  -- A job is handed out only if it is due or its lease has lapsed, and attempts are left; it then
  -- runs, with one attempt more, under a fencing token that is one higher and that the claim carries.
  pub claim-Claimed :
      (isoformat : Time → String) (dead_id : Uuid) (now : Time) (envelope : JobEnvelope) (s : Store)
      {c : ClaimedJob} {s' : Store}
      → claim settings isoformat dead_id now envelope s ≡ ok (some c, s')
      → Claimed settings now envelope c s s'
  unfolding claim claim_found
  claim-Claimed isoformat dead_id now envelope s {c} {s'} h =
      let (job, found, h₁) = >>=-eq-ok _ _ h in
      let (_, _, h₂) =
        >>=-eq-ok (check_event isoformat envelope job (event_by envelope.event_id s.events)) _ h₁ in
      let attempted : start_attempt settings now job s ≡ ok (some c, s') = ground arith in
      let (same_job, fenced) = start_attempt-some now job s attempted in
      record {
        job = job;
        found = or_raise-ok _ _ found;
        unfinished = ground arith;
        due = λ e. ground arith;
        unleased = λ e. ground arith;
        attempts = ground arith;
        same_job = same_job;
        fenced = fenced;
        written = start_attempt-change settings now job s attempted;
      }
