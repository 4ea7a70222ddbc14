-- ===== src/Ingestion/Claims.antt =====
-- What a claim that hands a job out has found and leaves behind, in the columns of the rows.
use docta.Prelude.{
  ◌+◌, ◌*◌, ◌≤◌, ◌<◌, ◌≡◌, ◌≢◌, ◌⊎◌, refl, sym, ◌∙◌, ap, true, false, not, Option, none, some,
  arith, String, List, [], ◌∷◌, ok, >>=-eq-ok, raise_if->>-ok, or_raise, or_raise-ok, find_holds,
  find_by-key, find-mem, update_where, update_where-mem, count_where-one, nat_beq, Bool-cases,
  Option-cases, inl, inr, count_where, nat_eq, if◌then◌else◌,
}
use mathlib.Core.List.{Memᴰ}
use mathlib.Core.Path.{subst}
use mathlib.Core.Option.{some-injective}
use docta.Models.{
  Uuid, Time, IngestionJob, IngestionJobState, pending, running, OutboxEvent, ingestion,
  DocumentVersion, queued, processing, version_state_beq, is_finished,
}
use docta.Store.{Store}
use docta.Jobs.{JobEnvelope}
use docta.Ingestion.Claim.{
  ClaimedJob, Settings, invalid_job_envelope, runtime_error, save_job, job_by, event_by, version_by,
  may_process, check_event, claimed_job, started_job, start_attempt, claim_found, claim,
}
use docta.Ingestion.Transactions.{Claimed, claim-Claimed}

-- When a job may start: it is pending and due, or it runs without a lease, or with one that is over.
pub data MayStart (now : Time) (job : IngestionJob) : Type 0 where
  due : job.state ≡ pending → job.next_attempt_at ≤ now → MayStart now job
  unleased : job.state ≡ running → job.lease_expires_at ≡ none → MayStart now job
  lapsed :
      (until : Time)
      → job.state ≡ running
      → job.lease_expires_at ≡ some until
      → until ≤ now
      → MayStart now job

-- An attempt at the job `job` has been started: what `after` shows of it.
pub record IsStarted (settings : Settings) (now : Time) (job after : IngestionJob) : Type 0 where
  pub id : after.id ≡ job.id
  pub course : after.course_id ≡ job.course_id
  pub version : after.document_version_id ≡ job.document_version_id
  pub pipeline : after.pipeline_version ≡ job.pipeline_version
  pub state : after.state ≡ running
  pub attempt : after.attempt ≡ job.attempt + 1
  pub token : after.fencing_token ≡ job.fencing_token + 1
  pub lease : after.lease_expires_at ≡ some (now + settings.lease_seconds * 1000000)

-- The version of the job: it was queued or in processing, and is in processing now.
pub record IsEntered (job : IngestionJob) (s s' : Store) : Type 0 where
  pub before : DocumentVersion
  pub after : DocumentVersion
  pub was_stored : Memᴰ before s.versions
  pub is_stored : Memᴰ after s'.versions
  pub was_version : before.id ≡ job.document_version_id
  pub was_course : before.course_id ≡ job.course_id
  pub waited : (before.state ≡ queued) ⊎ (before.state ≡ processing)
  pub is_version : after.id ≡ job.document_version_id
  pub entered : after.state ≡ processing

pub record IsHandedOut (settings : Settings) (now : Time) (envelope : JobEnvelope) (c : ClaimedJob)
    (s s' : Store) : Type 0 where
  pub job : IngestionJob
  pub found : job_by envelope.job_id s.jobs ≡ some job
  pub event : OutboxEvent
  pub announced : event_by envelope.event_id s.events ≡ some event
  pub kind : event.kind ≡ ingestion
  pub of_job : event.job_id ≡ envelope.job_id
  pub may_start : MayStart now job
  pub attempts : job.attempt < settings.max_attempts
  pub after : IngestionJob
  pub stored : job_by envelope.job_id s'.jobs ≡ some after
  pub started : IsStarted settings now job after
  pub others : (id : Uuid) → id ≢ envelope.job_id → job_by id s'.jobs ≡ job_by id s.jobs
  pub version : IsEntered job s s'
  pub same_job : c.id ≡ envelope.job_id
  pub same_version : c.document_version_id ≡ job.document_version_id
  pub fenced : c.fencing_token ≡ after.fencing_token

save_job-found :
    (j : IngestionJob) (xs : List IngestionJob) {x : IngestionJob}
    → job_by j.id xs ≡ some x
    → job_by j.id (save_job j xs) ≡ some j
save_job-found j [] h = cc
save_job-found j (x ∷ xs) h = elim (Bool-cases (nat_beq x.id j.id)) [
  | inl e ↦ rw e (ground arith)
  | inr e ↦ rw (e, e) (save_job-found j xs (rw e at h))
]

save_job-other :
    (j : IngestionJob) (id : Uuid) (xs : List IngestionJob)
    → id ≢ j.id
    → job_by id (save_job j xs) ≡ job_by id xs
save_job-other j id [] h = refl
save_job-other j id (x ∷ xs) h = ground (arith, save_job-other j id xs)

unfinished-cases :
    (st : IngestionJobState) → is_finished st ≡ false → (st ≡ pending) ⊎ (st ≡ running)
unfinished-cases IngestionJobState.pending h = inl refl
unfinished-cases IngestionJobState.running h = inr refl
unfinished-cases IngestionJobState.succeeded h = cc
unfinished-cases IngestionJobState.failed h = cc

Claimed-MayStart :
    {settings : Settings} {now : Time} {envelope : JobEnvelope} {c : ClaimedJob} {s s' : Store}
    (k : Claimed settings now envelope c s s')
    → MayStart now k.job
Claimed-MayStart {settings} {now} k = elim (unfinished-cases k.job.state k.unfinished) [
  | inl e ↦ due e (k.due (rw e refl))
  | inr e ↦
      let free = k.unleased (rw e refl) in
      elim (Option-cases k.job.lease_expires_at) [
        | inl none_left ↦ unleased e none_left
        | inr (until, own) ↦ lapsed until e own (ground arith)
      ]
]

check_event-ok :
    (isoformat : Time → String) (envelope : JobEnvelope) (job : IngestionJob)
    (event : Option OutboxEvent)
    → check_event isoformat envelope job event ≡ ok tt
    → (e : OutboxEvent) × (event ≡ some e) × (e.kind ≡ ingestion) × (e.job_id ≡ job.id)
unfolding check_event
check_event-ok isoformat envelope job none h = cc
check_event-ok isoformat envelope job (some e) h = (e, refl, ground arith, ground arith)

may_process-state :
    (job : IngestionJob) (v : DocumentVersion)
    → may_process job v ≡ true
    → (v.id ≡ job.document_version_id)
      × (v.course_id ≡ job.course_id)
      × ((v.state ≡ queued) ⊎ (v.state ≡ processing))
may_process-state job v h = elim (Bool-cases (version_state_beq v.state queued)) [
  | inl e ↦ (ground arith, ground arith, inl (ground arith))
  | inr e ↦ (ground arith, ground arith, inr (ground arith))
]

enter_version : Time → DocumentVersion → DocumentVersion
enter_version now v = record v { state = processing; updated_at = now }

entered-IsEntered :
    (now : Time) (job : IngestionJob) (s s' : Store)
    → count_where (may_process job) s.versions ≡ 1
    → s'.versions ≡ update_where (may_process job) (enter_version now) s.versions
    → IsEntered job s s'
unfolding enter_version
entered-IsEntered now job s s' one rows =
    let (v, found) = count_where-one (may_process job) s.versions one in
    let mine = find_holds (may_process job) s.versions found in
    let (is_version, is_course, waited) = may_process-state job v mine in
    let stored = find-mem (may_process job) s.versions found in
    let changed = update_where-mem (may_process job) (enter_version now) s.versions stored in
    record {
      before = v;
      after = enter_version now v;
      was_stored = stored;
      is_stored = subst (Memᴰ (enter_version now v)) (sym rows) (
          subst
            (λ b.
              Memᴰ (if b then enter_version now v else v)
                (update_where (may_process job) (enter_version now) s.versions))
            mine changed);
      was_version = is_version;
      was_course = is_course;
      waited = waited;
      is_version = is_version;
      entered = refl;
    }

module _ (settings : Settings) where
  start_attempt-IsEntered :
      (now : Time) (job : IngestionJob) (s : Store) {c : ClaimedJob} {s' : Store}
      → start_attempt settings now job s ≡ ok (some c, s')
      → IsEntered job s s'
  unfolding start_attempt enter_version
  start_attempt-IsEntered now job s {c} {s'} h =
      let (one, h₁) =
        raise_if->>-ok (not (nat_beq (count_where (may_process job) s.versions) 1))
          (runtime_error "document version could not enter PROCESSING") _ h in
      entered-IsEntered now job s s' (ground arith) (ground arith)

  claimed_job-version :
      (job : IngestionJob) (v : DocumentVersion) {c : ClaimedJob}
      → claimed_job settings job v ≡ ok c
      → c.document_version_id ≡ job.document_version_id
  unfolding claimed_job
  claimed_job-version job v h = ground arith

  start_attempt-version :
      (now : Time) (job : IngestionJob) (s : Store) {c : ClaimedJob} {s' : Store}
      → start_attempt settings now job s ≡ ok (some c, s')
      → c.document_version_id ≡ job.document_version_id
  unfolding start_attempt
  start_attempt-version now job s {c} {s'} h =
      let (_, h₁) =
        raise_if->>-ok (not (nat_beq (count_where (may_process job) s.versions) 1))
          (runtime_error "document version could not enter PROCESSING") _ h in
      let (v, _, h₂) =
        >>=-eq-ok
          (or_raise (version_by job.document_version_id _) (runtime_error "no row was found")) _
          h₁ in
      let (c', p, h₃) = >>=-eq-ok (claimed_job settings (started_job settings now job) v) _ h₂ in
      let made : c' ≡ c = ground arith in
      subst (λ (c : ClaimedJob). c.document_version_id ≡ job.document_version_id) made
        (claimed_job-version (started_job settings now job) v p)

  start_attempt-IsHandedOut :
      (now : Time) (envelope : JobEnvelope) (s : Store) {c : ClaimedJob} {s' : Store}
      (k : Claimed settings now envelope c s s') (event : OutboxEvent)
      → event_by envelope.event_id s.events ≡ some event
      → event.kind ≡ ingestion
      → event.job_id ≡ k.job.id
      → start_attempt settings now k.job s ≡ ok (some c, s')
      → IsHandedOut settings now envelope c s s'
  start_attempt-IsHandedOut now envelope s {c} {s'} k event announced kind of_job attempted =
      let key : k.job.id ≡ envelope.job_id =
        find_by-key (λ (j : IngestionJob). j.id) envelope.job_id s.jobs k.found in
      let started = started_job settings now k.job in
      record {
        job = k.job;
        found = k.found;
        event = event;
        announced = announced;
        kind = kind;
        of_job = of_job ∙ key;
        may_start = Claimed-MayStart k;
        attempts = k.attempts;
        after = started;
        stored =
            ap (job_by envelope.job_id) k.written
            ∙ subst (λ i. job_by i (save_job started s.jobs) ≡ some started) key
                (save_job-found started s.jobs (ap (λ i. job_by i s.jobs) key ∙ k.found));
        started = record {
          id = refl;
          course = refl;
          version = refl;
          pipeline = refl;
          state = refl;
          attempt = refl;
          token = refl;
          lease = refl;
        };
        others = λ id differs.
            ap (job_by id) k.written ∙ save_job-other started id s.jobs (λ e. differs (e ∙ key));
        version = start_attempt-IsEntered now k.job s attempted;
        same_job = k.same_job ∙ key;
        same_version = start_attempt-version now k.job s attempted;
        fenced = k.fenced;
      }

  -- A claim that hands out a job finds the envelope's job and its ingestion event; the job is pending
  -- and due, or runs without a lease or with one that is over, and has attempts left. Afterwards that
  -- job runs with one attempt more, under a token one higher, which the claim carries, and a lease of
  -- the set length; no other job has changed, and its version, which was queued or in processing, is
  -- in processing.
  pub claim-IsHandedOut :
      (isoformat : Time → String) (dead_id : Uuid) (now : Time) (envelope : JobEnvelope) (s : Store)
      {c : ClaimedJob} {s' : Store}
      → claim settings isoformat dead_id now envelope s ≡ ok (some c, s')
      → IsHandedOut settings now envelope c s s'
  unfolding claim claim_found
  claim-IsHandedOut isoformat dead_id now envelope s {c} {s'} h =
      let k = claim-Claimed settings isoformat dead_id now envelope s h in
      let (job, p, h₁) =
        >>=-eq-ok (or_raise (job_by envelope.job_id s.jobs) invalid_job_envelope) _ h in
      let (_, checked, h₂) =
        >>=-eq-ok (check_event isoformat envelope job (event_by envelope.event_id s.events)) _ h₁ in
      let (event, announced, kind, of_job) =
        check_event-ok isoformat envelope job (event_by envelope.event_id s.events) checked in
      let found = or_raise-ok (job_by envelope.job_id s.jobs) invalid_job_envelope p in
      let same : job ≡ k.job = some-injective job k.job (sym found ∙ k.found) in
      let attempted : start_attempt settings now job s ≡ ok (some c, s') = ground arith in
      start_attempt-IsHandedOut now envelope s k event announced kind
        (of_job ∙ ap (λ (j : IngestionJob). j.id) same)
        (subst (λ j. start_attempt settings now j s ≡ ok (some c, s')) same attempted)
