-- ===== src/Documents/Jobs.antt =====
-- The jobs of confirmed versions: they are never lost, whatever the worker does to them.
use docta.Prelude.{
  ◌≡◌, refl, sym, ◌∙◌, ap, List, [], ◌∷◌, ◌++◌, inl, inr, Bool-cases, arith, ◌==◌, nat_eq,
  mem-update_where, update_where-mem, find-mem, mem-append, ◌≢◌,
}
use mathlib.Core.Path.{subst}
use mathlib.Core.List.{Memᴰ}
use docta.Models.{Uuid, IngestionJob}
use docta.Ingestion.{
  Settings, RowStep, starts, gives_up, completes, backs_off, ends, JobsChange, saved, same,
}

-- `IngestionJob.id` is the primary key.
unfoldable pub HasUniqueIds : List IngestionJob → Type 0
HasUniqueIds jobs = (j k : IngestionJob) → Memᴰ j jobs → Memᴰ k jobs → j.id ≡ k.id → j ≡ k

-- A document version has a job.
pub record HasJob (version_id : Uuid) (jobs : List IngestionJob) : Type 0 where
  pub job : IngestionJob
  pub here : Memᴰ job jobs
  pub version : job.document_version_id ≡ version_id

RowStep-version :
    (settings : Settings) {job job' : IngestionJob}
    → RowStep settings job job'
    → (job'.id ≡ job.id) × (job'.document_version_id ≡ job.document_version_id)
RowStep-version settings (starts now f l a) = (refl, refl)
RowStep-version settings (gives_up now f a) = (refl, refl)
RowStep-version settings (completes now r l) = (refl, refl)
RowStep-version settings (backs_off u now c r l a) = (refl, refl)
RowStep-version settings (ends now c r l) = (refl, refl)

-- A job after a transaction of the worker is the job before, but for the columns it may write.
JobsChange-row :
    (settings : Settings) {xs ys : List IngestionJob}
    → JobsChange settings xs ys
    → HasUniqueIds xs
    → (j : IngestionJob) → Memᴰ j xs
    → (k : IngestionJob) × Memᴰ k ys
      × (k.id ≡ j.id)
      × (k.document_version_id ≡ j.document_version_id)
unfolding HasUniqueIds
JobsChange-row settings (same e) unique j m = (j, subst (Memᴰ j) (sym e) m, refl, refl)
JobsChange-row settings {xs} (saved p job job' found step e) unique j m =
    let (same_id, same_version) = RowStep-version settings step in
    let there = update_where-mem (λ k. k.id == job'.id) (λ _. job') xs m in
    elim (Bool-cases (j.id == job'.id)) [
      | inl changed ↦
          let row : j ≡ job = unique j job m (find-mem p xs found) (ground arith) in
          (
            job',
            subst (Memᴰ job') (sym e) (rw changed at there),
            same_id ∙ sym (ap (λ (k : IngestionJob). k.id) row),
            same_version ∙ sym (ap (λ (k : IngestionJob). k.document_version_id) row),
          )
      | inr kept ↦ (j, subst (Memᴰ j) (sym e) (rw kept at there), refl, refl)
    ]

pub JobsChange-HasJob :
    (settings : Settings) {xs ys : List IngestionJob}
    → JobsChange settings xs ys
    → HasUniqueIds xs
    → (v : Uuid) → HasJob v xs
    → HasJob v ys
JobsChange-HasJob settings change unique v h =
    let (k, m, _, e) = JobsChange-row settings change unique h.job h.here in
    record { job = k; here = m; version = e ∙ h.version }

pub JobsChange-HasUniqueIds :
    (settings : Settings) {xs ys : List IngestionJob}
    → JobsChange settings xs ys
    → HasUniqueIds xs
    → HasUniqueIds ys
unfolding HasUniqueIds
JobsChange-HasUniqueIds settings (same e) unique = subst HasUniqueIds (sym e) unique
JobsChange-HasUniqueIds settings {xs} (saved p job job' found step e) unique =
    subst HasUniqueIds (sym e) (λ j k mj mk same.
      let (a, ma, ea) = mem-update_where (λ i. i.id == job'.id) (λ _. job') xs mj in
      let (b, mb, eb) = mem-update_where (λ i. i.id == job'.id) (λ _. job') xs mk in
      elim (Bool-cases (a.id == job'.id)) [
        | inl ca ↦ elim (Bool-cases (b.id == job'.id)) [
          | inl cb ↦ let ja = rw ca at ea in let kb = rw cb at eb in ja ∙ sym kb
          | inr cb ↦
              let ja = rw ca at ea in
              let kb = rw cb at eb in
              let ida = ap (λ (i : IngestionJob). i.id) ja in
              let idb = ap (λ (i : IngestionJob). i.id) kb in ground arith
        ]
        | inr ca ↦ elim (Bool-cases (b.id == job'.id)) [
          | inl cb ↦
              let ja = rw ca at ea in
              let kb = rw cb at eb in
              let ida = ap (λ (i : IngestionJob). i.id) ja in
              let idb = ap (λ (i : IngestionJob). i.id) kb in ground arith
          | inr cb ↦
              let ja = rw ca at ea in
              let kb = rw cb at eb in
              ja
              ∙ unique a b ma mb (
                  sym (ap (λ (i : IngestionJob). i.id) ja)
                  ∙ same
                  ∙ ap (λ (i : IngestionJob). i.id) kb)
              ∙ sym kb
        ]
      ])

only : (new : IngestionJob) {j : IngestionJob} → Memᴰ j (new ∷ []) → j ≡ new
only new (Memᴰ.head e) = e
only new (Memᴰ.tail m) = elim m [ ]

-- A job with a new id.
pub HasUniqueIds-append :
    (jobs : List IngestionJob) (new : IngestionJob)
    → ((j : IngestionJob) → Memᴰ j jobs → j.id ≢ new.id)
    → HasUniqueIds jobs
    → HasUniqueIds (jobs ++ new ∷ [])
unfolding HasUniqueIds
HasUniqueIds-append jobs new fresh unique = λ j k mj mk same. elim (mem-append jobs (new ∷ []) mj) [
  | inl oj ↦ elim (mem-append jobs (new ∷ []) mk) [
    | inl ok_ ↦ unique j k oj ok_ same
    | inr nk ↦ let ek = only new nk in absurd (fresh j oj (rw⁻¹ ek same))
  ]
  | inr nj ↦ elim (mem-append jobs (new ∷ []) mk) [
    | inl ok_ ↦ let ej = only new nj in absurd (fresh k ok_ (sym (rw⁻¹ ej same)))
    | inr nk ↦ only new nj ∙ sym (only new nk)
  ]
]
