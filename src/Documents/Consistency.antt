-- ===== src/Documents/Consistency.antt =====
-- A version that was confirmed has a job, in all runs of the service beside the worker; so the
-- service never misses one.
use docta.Prelude.{
  ◌≡◌, ◌≢◌, refl, sym, ◌∙◌, true, some, is_some, List, [], ◌∷◌, ◌++◌, find, inl, inr, Option-cases,
  arith, nat_eq, nat_beq_iff, mem_left, mem_right, mem-find, err, All, All-append, All-weaken,
  All-find, All-update_where, String,
}
use mathlib.Core.Path.{subst}
use mathlib.Core.List.{Memᴰ}
use docta.Models.{Uuid, Time, DocumentVersion, IngestionJob}
use docta.Text.{Text}
use docta.Identity.{AuthenticatedIdentity}
use docta.Store.{Store}
use docta.Ingestion.{Settings, VersionsChange, rows_updated, same_rows}
use docta.Documents.Requests.{runtime_error, StoredObjectMetadata}
use docta.Documents.Service.{DocumentSettings, is_version, is_job_of, authorized_teacher}
use docta.Documents.Operations.{confirmed_version, existing_confirmation, confirm_transaction}
use docta.Documents.Jobs.{
  HasUniqueIds, HasJob, JobsChange-HasJob, JobsChange-HasUniqueIds, HasUniqueIds-append,
}
use docta.Documents.Runs.{Reach, here, next}
use docta.Documents.Changes.{Change, untouched, uploaded, confirmed, activated, worked, Step-Change}

unfoldable pub IsQueued : List IngestionJob → DocumentVersion → Type 0
IsQueued jobs v = is_some v.confirmation_idempotency_key ≡ true → HasJob v.id jobs

pub record IsConsistent (s : Store) : Type 0 where
  pub unique : HasUniqueIds s.jobs
  pub queued : All (IsQueued s.jobs) s.versions

HasJob-append : (v : Uuid) (jobs more : List IngestionJob) → HasJob v jobs → HasJob v (jobs ++ more)
HasJob-append v jobs more h = record {
  job = h.job;
  here = mem_left jobs more h.here;
  version = h.version;
}

new-HasJob :
    (v : Uuid) (jobs : List IngestionJob) (job : IngestionJob)
    → job.document_version_id ≡ v
    → HasJob v (jobs ++ job ∷ [])
new-HasJob v jobs job e = record {
  job = job;
  here = mem_right jobs (job ∷ []) (Memᴰ.head refl);
  version = e;
}

IsQueued-append :
    (jobs more : List IngestionJob) (v : DocumentVersion)
    → IsQueued jobs v
    → IsQueued (jobs ++ more) v
unfolding IsQueued
IsQueued-append jobs more v h = λ e. HasJob-append v.id jobs more (h e)

VersionsChange-IsQueued :
    (jobs : List IngestionJob) {xs ys : List DocumentVersion}
    → VersionsChange xs ys
    → All (IsQueued jobs) xs
    → All (IsQueued jobs) ys
unfolding IsQueued
VersionsChange-IsQueued jobs (same_rows e) h = subst (All (IsQueued jobs)) (sym e) h
VersionsChange-IsQueued jobs {xs} (rows_updated p f same e) h =
    subst (All (IsQueued jobs)) (sym e) (
      All-update_where (IsQueued jobs) p f xs
        (λ v _ q.
          let kept = same v in
          λ yes_confirmed.
            subst (λ i. HasJob i jobs) (sym kept.id)
              (q (rw (kept.confirmation_key) at yes_confirmed)))
        h)

is_version-id :
    (v x : DocumentVersion) → is_version v.course_id v.document_id v.id x ≡ true → x.id ≡ v.id
is_version-id v x e = ground arith

Change-IsConsistent :
    (worker : Settings) {s s' : Store} → Change worker s s' → IsConsistent s → IsConsistent s'
unfolding IsQueued
Change-IsConsistent worker (untouched ev ej ec) c = record {
  unique = rw ej (c.unique);
  queued = rw (ev, ej) (c.queued);
}
Change-IsConsistent worker {s} (uploaded new none_yet ev ej ec) c = record {
  unique = rw ej (c.unique);
  queued =
      rw (ev, ej)
        (All-append (IsQueued s.jobs) s.versions (new ∷ []) c.queued
          ((λ e. let e' = rw none_yet at e in cc), tt));
}
Change-IsConsistent worker {s} (confirmed v job now key hash m version fresh ev ej ec) c = record {
  unique = rw ej (HasUniqueIds-append s.jobs job fresh c.unique);
  queued =
      rw (ev, ej)
        (All-update_where (IsQueued (s.jobs ++ job ∷ []))
          (is_version v.course_id v.document_id v.id) (confirmed_version now key hash m) s.versions
          (λ x e _. λ _. new-HasJob x.id s.jobs job (version ∙ sym (is_version-id v x e)))
          (All-weaken (IsQueued s.jobs) (IsQueued (s.jobs ++ job ∷ []))
            (IsQueued-append s.jobs (job ∷ [])) s.versions c.queued));
}
Change-IsConsistent worker (activated now course_id corpus_id expected ev ej ec) c = record {
  unique = rw ej (c.unique);
  queued = rw (ev, ej) (c.queued);
}
Change-IsConsistent worker {s} {s'} (worked dv dj ec) c = record {
  unique = JobsChange-HasUniqueIds worker dj c.unique;
  queued = VersionsChange-IsQueued s'.jobs dv (
      All-weaken (IsQueued s.jobs) (IsQueued s'.jobs)
        (λ v q. λ e. JobsChange-HasJob worker dj c.unique v.id (q e)) s.versions c.queued);
}

module _ (str_uuid : Uuid → String) (settings : DocumentSettings) (worker : Settings) where
  pub Reach-IsConsistent :
      {s s' : Store} → IsConsistent s → Reach str_uuid settings worker s s' → IsConsistent s'
  Reach-IsConsistent c here = c
  Reach-IsConsistent c (next before step) =
      Change-IsConsistent worker (Step-Change worker str_uuid settings step)
        (Reach-IsConsistent c before)

-- The search for the job of a confirmed version succeeds.
confirmed-job :
    (s : Store) (course_id document_id version_id : Uuid) {v : DocumentVersion} {other : Text}
    → IsConsistent s
    → find (is_version course_id document_id version_id) s.versions ≡ some v
    → v.confirmation_idempotency_key ≡ some other
    → (j : IngestionJob) × (find (is_job_of v.id) s.jobs ≡ some j)
unfolding IsQueued
confirmed-job s course_id document_id version_id {v} c found e =
    let queued = All-find (IsQueued s.jobs) _ s.versions found c.queued in
    let h = queued (rw e refl) in
    mem-find (is_job_of v.id) s.jobs h.here ((nat_beq_iff _ _).1 h.version)

existing_confirmation-job :
    (who : AuthenticatedIdentity) (course_id document_id version_id : Uuid) (key : Text)
    (hash : String) (s : Store) (message : String)
    → IsConsistent s
    → existing_confirmation who course_id document_id version_id key hash s
      ≢ err (runtime_error message)
unfolding existing_confirmation authorized_teacher
existing_confirmation-job who course_id document_id version_id key hash s message c = λ h.
    elim (Option-cases (find (is_version course_id document_id version_id) s.versions)) [
      | inl e ↦ ground arith
      | inr (v, found) ↦ elim (Option-cases v.confirmation_idempotency_key) [
        | inl e ↦ ground arith
        | inr (other, e) ↦
            let (j, has) = confirmed-job s course_id document_id version_id c found e in
            ground arith
      ]
    ]

confirm_transaction-job :
    (job_id event_id : Uuid) (now : Time) (who : AuthenticatedIdentity)
    (course_id document_id version_id : Uuid) (key : Text) (hash correlation_id : String)
    (m : StoredObjectMetadata) (s : Store) (message : String)
    → IsConsistent s
    → confirm_transaction job_id event_id now who course_id document_id version_id key hash
        correlation_id m s
      ≢ err (runtime_error message)
unfolding confirm_transaction authorized_teacher
confirm_transaction-job job_id event_id now who course_id document_id version_id key hash
      correlation_id m s message c =
    λ h. elim (Option-cases (find (is_version course_id document_id version_id) s.versions)) [
      | inl e ↦ ground arith
      | inr (v, found) ↦ elim (Option-cases v.confirmation_idempotency_key) [
        | inl e ↦ ground arith
        | inr (other, e) ↦
            let (j, has) = confirmed-job s course_id document_id version_id c found e in
            ground arith
      ]
    ]

-- In all runs of the service and the worker from a consistent store, such as an empty one, with new
-- ids for new jobs, neither the check for an existing confirmation nor the confirmation itself ever
-- ends in the error of a confirmed document without a job, or in any other RuntimeError.
pub confirmed_has_job :
    (str_uuid : Uuid → String) (settings : DocumentSettings) (worker : Settings) {s s' : Store}
    → IsConsistent s
    → Reach str_uuid settings worker s s'
    → (job_id event_id : Uuid) (now : Time) (who : AuthenticatedIdentity)
      (course_id document_id version_id : Uuid) (key : Text) (hash correlation_id : String)
      (m : StoredObjectMetadata) (message : String)
    → (existing_confirmation who course_id document_id version_id key hash s'
        ≢ err (runtime_error message))
      × (confirm_transaction job_id event_id now who course_id document_id version_id key hash
            correlation_id m s'
          ≢ err (runtime_error message))
confirmed_has_job str_uuid settings worker {s} {s'} c run job_id event_id now who course_id
      document_id version_id key hash correlation_id m message =
    let c' = Reach-IsConsistent str_uuid settings worker c run in
    (
      existing_confirmation-job who course_id document_id version_id key hash s' message c',
      confirm_transaction-job job_id event_id now who course_id document_id version_id key hash
          correlation_id m s' message c',
    )
