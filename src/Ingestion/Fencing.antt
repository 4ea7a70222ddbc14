-- ===== src/Ingestion/Fencing.antt =====
-- Runs of the worker's transactions and of the outbox, in any order and by any number of workers,
-- and what the fencing token gives: a worker whose job was claimed again writes nothing.
use mathlib.Core.Path.{subst}
use docta.Prelude.{
  ℕ, suc, ◌≤◌, ◌≡◌, refl, sym, ◌∙◌, ap, Bool, true, Option, none, some, arith, String, List, [],
  ◌∷◌, ok, err, All, All-find, All-weaken, find, Bool-cases, inl, inr, nat_beq,
}
use docta.Models.{Uuid, Time, IngestionJob, DocumentVersionState, is_finished}
use docta.Store.{Store}
use docta.Jobs.{JobEnvelope, lease_event, mark_published, reconcile}
use docta.Ingestion.Claim.{ClaimedJob, Settings, runtime_error, claim, save_job, started_job}
use docta.Ingestion.Success.{Built, owns, active_job, persist_success}
use docta.Ingestion.Failure.{persist_failure}
use docta.Ingestion.Lifecycle.{
  RowStep, IsValidJob, RowStep-IsValidJob, RowStep-unfinished, RowStep-token,
}
use docta.Ingestion.Transactions.{
  JobsChange, JobsChange-All, same, Claimed, claim-Claimed, claim-change, persist_success-change,
  persist_failure-change,
}

-- One transaction that commits.
pub data Step (settings : Settings) (s s' : Store) : Type 0 where
  claims :
      (isoformat : Time → String) (dead_id : Uuid) (now : Time) (envelope : JobEnvelope)
      (r : Option ClaimedJob)
      → claim settings isoformat dead_id now envelope s ≡ ok (r, s')
      → Step settings s s'
  succeeds :
      (uuid4 : ℕ → Uuid) (now : Time) (claimed : ClaimedJob) (built : Built)
      → persist_success uuid4 now claimed built s ≡ ok (tt, s')
      → Step settings s s'
  fails :
      (uniform : (low high : Time) → Time) (dead_id : Uuid) (now : Time) (claimed : ClaimedJob)
      (code : String) (state : DocumentVersionState) (transient : Bool)
      → s' ≡ persist_failure settings uniform dead_id now claimed code state transient s
      → Step settings s s'
  leases :
      (str_uuid : Uuid → String) (str_int : ℕ → String) (isoformat : Time → String) (token : Uuid)
      (now : Time)
      → s' ≡ (lease_event str_uuid str_int isoformat token now s).1
      → Step settings s s'
  publishes :
      (token event_id : Uuid) (now : Time)
      → s' ≡ mark_published token event_id now s
      → Step settings s s'
  reconciles :
      (stale_seconds : ℕ) (now : Time) → s' ≡ (reconcile stale_seconds now s).1 → Step settings s s'

pub data Reach (settings : Settings) (s : Store) : Store → Type 0 where
  here : Reach settings s s
  next : {t u : Store} → Reach settings s t → Step settings t u → Reach settings s u

module _ (settings : Settings) where
  pub Step-JobsChange : {s s' : Store} → Step settings s s' → JobsChange settings s.jobs s'.jobs
  unfolding lease_event mark_published reconcile
  Step-JobsChange (claims isoformat dead_id now envelope r e) =
      claim-change settings isoformat dead_id now envelope _ e
  Step-JobsChange (succeeds uuid4 now claimed built e) =
      persist_success-change settings uuid4 now claimed built _ e
  Step-JobsChange {s} (fails uniform dead_id now claimed code state transient e) =
      subst (λ (t : Store). JobsChange settings s.jobs t.jobs) (sym e)
        (persist_failure-change settings uniform dead_id now claimed code state transient s)
  Step-JobsChange (leases str_uuid str_int isoformat token now e) = same (ground arith)
  Step-JobsChange (publishes token event_id now e) = same (ap (λ (t : Store). t.jobs) e)
  Step-JobsChange (reconciles stale_seconds now e) = same (ap (λ (t : Store). t.jobs) e)

  module _ (P : IngestionJob → Type 0)
      (step : (j j' : IngestionJob) → RowStep settings j j' → P j → P j') where
    pub Reach-All : {s t : Store} → All P s.jobs → Reach settings s t → All P t.jobs
    Reach-All h here = h
    Reach-All h (next r st) = JobsChange-All P settings step (Step-JobsChange st) (Reach-All h r)

  -- Every job of a store that is reached from valid jobs is valid: its attempts are at most the
  -- maximum and at most its fencing token, it has a lease exactly while it runs, and a completion
  -- time exactly when it has finished.
  pub Reach-IsValidJob :
      {s t : Store}
      → All (IsValidJob settings.max_attempts) s.jobs
      → Reach settings s t
      → All (IsValidJob settings.max_attempts) t.jobs
  Reach-IsValidJob =
      Reach-All (IsValidJob settings.max_attempts) (λ j j' r. RowStep-IsValidJob settings r)

  -- The jobs with this id have at least this fencing token.
  abbrev pub TokenFrom : Uuid → ℕ → IngestionJob → Type 0
  TokenFrom id token j = j.id ≡ id → token ≤ j.fencing_token

  pub Reach-TokenFrom :
      (id : Uuid) (token : ℕ) {s t : Store}
      → All (TokenFrom id token) s.jobs
      → Reach settings s t
      → All (TokenFrom id token) t.jobs
  Reach-TokenFrom id token = Reach-All (TokenFrom id token) (λ j j' r h e.
      let (same_id, grows) = RowStep-token settings r in omega (arith, h (sym same_id ∙ e)))

  -- Once the jobs with an id have finished they stay as they are.
  abbrev pub Finished : Uuid → IngestionJob → Type 0
  Finished id j = j.id ≡ id → is_finished j.state ≡ true

  pub Reach-Finished :
      (id : Uuid) {s t : Store}
      → All (Finished id) s.jobs
      → Reach settings s t
      → All (Finished id) t.jobs
  Reach-Finished id = Reach-All (Finished id) (λ j j' r h e.
      let (same_id, _) = RowStep-token settings r in
      cc (h (sym same_id ∙ e), RowStep-unfinished settings r))

-- A token that every job with the id exceeds finds no active job.
superseded :
    (now : Time) (claimed : ClaimedJob) (jobs : List IngestionJob)
    → All
        (λ (j : IngestionJob). j.id ≡ claimed.id → suc claimed.fencing_token ≤ j.fencing_token)
        jobs
    → find (owns now claimed) jobs ≡ none
superseded now claimed [] h = refl
superseded now claimed (j ∷ jobs) h = ground (arith, h.0, superseded now claimed jobs h.1)

module _ (settings : Settings) where
  -- After a claim every row of the job has the token of the claim.
  Claimed-tokens :
      (now : Time) (envelope : JobEnvelope) (c : ClaimedJob) (s s' : Store)
      → Claimed settings now envelope c s s'
      → All (TokenFrom settings c.id c.fencing_token) s'.jobs
  Claimed-tokens now envelope c s s' k =
      subst (All (TokenFrom settings c.id c.fencing_token)) (sym k.written) (rows s.jobs)
    where
      rows :
          (jobs : List IngestionJob)
          → All
              (TokenFrom settings c.id c.fencing_token)
              (save_job (started_job settings now k.job) jobs)
      rows [] = tt
      rows (j ∷ jobs) = elim (Bool-cases (nat_beq j.id k.job.id)) [
        | inl e ↦ rw e ((λ _. omega (arith, k.fenced)), rows jobs)
        | inr e ↦ rw e ((λ f. absurd (ground (arith, k.same_job))), rows jobs)
      ]

  -- A claim of a job raises the tokens that it finds.
  token_raised :
      (now : Time) (envelope : JobEnvelope) (c : ClaimedJob) (s s' : Store) (token : ℕ)
      → Claimed settings now envelope c s s'
      → All (TokenFrom settings c.id token) s.jobs
      → suc token ≤ c.fencing_token
  token_raised now envelope c s s' token k h = omega (
    arith,
    All-find (TokenFrom settings c.id token) _ s.jobs k.found h (sym k.same_job),
    k.fenced,
  )

  module _ (isoformat : Time → String) (dead_id₁ dead_id₂ : Uuid) (time₁ time₂ now : Time)
      (envelope₁ envelope₂ : JobEnvelope) (c₁ c₂ : ClaimedJob) (s₀ s₁ s₂ s₃ s₄ : Store)
      (first : claim settings isoformat dead_id₁ time₁ envelope₁ s₀ ≡ ok (some c₁, s₁))
      (between : Reach settings s₁ s₂)
      (second : claim settings isoformat dead_id₂ time₂ envelope₂ s₂ ≡ ok (some c₂, s₃))
      (same_job : c₂.id ≡ c₁.id) (after : Reach settings s₃ s₄) where
    no_active_job : active_job now c₁ s₄ ≡ none
    no_active_job =
        let k₁ = claim-Claimed settings isoformat dead_id₁ time₁ envelope₁ s₀ first in
        let k₂ = claim-Claimed settings isoformat dead_id₂ time₂ envelope₂ s₂ second in
        let low =
          Reach-TokenFrom settings c₁.id c₁.fencing_token
            (Claimed-tokens time₁ envelope₁ c₁ s₀ s₁ k₁) between in
        let raised =
          token_raised time₂ envelope₂ c₂ s₂ s₃ c₁.fencing_token k₂ (
            subst (λ id. All (TokenFrom settings id c₁.fencing_token) s₂.jobs) (sym same_job)
              low) in
        let high =
          Reach-TokenFrom settings c₂.id c₂.fencing_token
            (Claimed-tokens time₂ envelope₂ c₂ s₂ s₃ k₂) after in
        superseded now c₁ s₄.jobs (
          All-weaken (TokenFrom settings c₂.id c₂.fencing_token) _
            (λ j h e. omega (arith, h (e ∙ sym same_job), raised)) s₄.jobs high)

    -- If a worker claims a job, and after any steps another claim hands the same job out, then after
    -- any further steps the first worker can record nothing: its success raises, with the error of a
    -- stale token, and its failure leaves the store as it is.
    pub stale_worker :
        (uuid4 : ℕ → Uuid) (built : Built) (uniform : (low high : Time) → Time) (dead_id : Uuid)
        (code : String) (state : DocumentVersionState) (transient : Bool)
        → (persist_success uuid4 now c₁ built s₄
            ≡ err (runtime_error "stale ingestion fencing token"))
          × (persist_failure settings uniform dead_id now c₁ code state transient s₄ ≡ s₄)
    unfolding persist_success persist_failure
    stale_worker uuid4 built uniform dead_id code state transient =
        (rw no_active_job refl, rw (no_active_job, persist_failure) refl)
