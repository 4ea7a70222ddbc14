-- ===== src/Documents/Publication.antt =====
-- The publication of a corpus is a compare-and-swap on the course's version.
use docta.Prelude.{
  ℕ, ◌+◌, ◌≡◌, refl, ap, true, false, ◌&&◌, Option, none, some, List, [], ◌∷◌, find, find_by,
  find_by-update_where, update_where, inl, inr, Bool-cases, arith, if◌then◌else◌, ◌==◌, nat_beq,
  nat_eq, eq_self, ok, err, All, Result,
}
use docta.Models.{Uuid, Time, Course, CorpusVersion, is_ready}
use docta.Identity.{AuthenticatedIdentity}
use docta.Store.{Store}
use docta.Documents.Requests.{DocumentError, publication_conflict}
use docta.Documents.Service.{ActivationView, authorized_teacher}
use docta.Documents.Operations.{is_course, published, activate_corpus}

-- What a course publishes: a version, and the corpus that answers rest on.
pub record Register : Type 0 where
  pub version : ℕ
  pub active : Option Uuid

-- The specification: the corpus is swapped in if nobody has published since.
pub compare_and_swap : (expected : ℕ) (corpus_id : Uuid) → Register → Option Register
compare_and_swap expected corpus_id r =
    if nat_beq r.version expected
    then some (record { version = r.version + 1; active = some corpus_id })
    else none

abbrev pub register_of : Course → Register
register_of c = record { version = c.version; active = c.active_corpus_version_id }

abbrev pub course_by : Uuid → List Course → Option Course
course_by = find_by (λ (c : Course). c.id)

-- `Course.id` is the primary key: `c` is the only row with its id.
unfoldable pub IsOnlyRow : Course → List Course → Type 0
IsOnlyRow c cs = All (λ d. d.id ≡ c.id → d ≡ c) cs

find-other :
    (version : ℕ) (c : Course) (cs : List Course)
    → All (λ d. d.id ≡ c.id → d ≡ c) cs
    → nat_beq c.version version ≡ false
    → find (is_course c.id version) cs ≡ none
find-other version c [] one other = refl
find-other version c (d ∷ cs) (same, rest) other = elim (Bool-cases (d.id == c.id)) [
  | inl e ↦
      let row : d ≡ c = same (ground arith) in
      let differs : nat_beq d.version version ≡ false = rw row other in
      rw (e, differs) (find-other version c cs rest other)
  | inr e ↦ rw e (find-other version c cs rest other)
]

find-is_course :
    (version : ℕ) (c : Course) (cs : List Course)
    → course_by c.id cs ≡ some c
    → All (λ d. d.id ≡ c.id → d ≡ c) cs
    → nat_beq c.version version ≡ true
    → find (is_course c.id version) cs ≡ some c
find-is_course version c [] h one fits = cc
find-is_course version c (d ∷ cs) h (same, rest) fits = elim (Bool-cases (d.id == c.id)) [
  | inl e ↦
      let row : d ≡ c = same (ground arith) in
      let fits_d : nat_beq d.version version ≡ true = rw row fits in rw (e, fits_d) (ap some row)
  | inr e ↦ rw e (find-is_course version c cs (rw e at h) rest fits)
]

-- What is checked before the swap.
pub record MayPublish (who : AuthenticatedIdentity) (course_id corpus_id : Uuid) (s : Store)
    : Type 0 where
  pub teacher : Uuid
  pub authorized : authorized_teacher s who course_id ≡ ok teacher
  pub corpus : CorpusVersion
  pub found :
      find (λ (c : CorpusVersion). c.id == corpus_id && c.course_id == course_id) s.corpora
      ≡ some corpus
  pub is_ready : is_ready corpus.state ≡ true

-- The outcome `x` of a publication against the specification.
pub data Swaps (expected : ℕ) (corpus_id : Uuid) (c : Course) (s : Store)
    (x : Result DocumentError (ActivationView × Store)) : Type 0 where
  swapped :
      (r : ActivationView) (s' : Store) (c' : Course)
      → x ≡ ok (r, s')
      → course_by c.id s'.courses ≡ some c'
      → compare_and_swap expected corpus_id (register_of c) ≡ some (register_of c')
      → r.course_version ≡ c'.version
      → s'.versions ≡ s.versions
      → Swaps expected corpus_id c s x
  refused :
      compare_and_swap expected corpus_id (register_of c) ≡ none
      → x ≡ err publication_conflict
      → Swaps expected corpus_id c s x

-- To a teacher of the course and a ready corpus of it, `activate_corpus` refines the compare-and-swap
-- on what the course publishes: it succeeds exactly if the expected version is the course's, and then
-- the course publishes what the specification says and the view shows its version; else it fails as a
-- conflict.
pub activate_corpus-Swaps :
    (now : Time) (who : AuthenticatedIdentity) (corpus_id : Uuid) (expected : ℕ) (c : Course)
    (s : Store)
    → MayPublish who c.id corpus_id s
    → course_by c.id s.courses ≡ some c
    → IsOnlyRow c s.courses
    → Swaps expected corpus_id c s (activate_corpus now who c.id corpus_id expected s)
unfolding IsOnlyRow activate_corpus compare_and_swap
activate_corpus-Swaps now who corpus_id expected c s may found one =
    let authorized = may.authorized in
    let corpus = may.found in
    let ready = may.is_ready in
    elim (Bool-cases (nat_beq c.version expected)) [
      | inl fits ↦
          let row = find-is_course expected c s.courses found one fits in
          swapped
            (record {
              course_id = c.id;
              active_corpus_version_id = corpus_id;
              course_version = c.version + 1;
            })
            (record s {
              courses = update_where (is_course c.id expected) (published now corpus_id) s.courses;
            })
            (published now corpus_id c) (rw (authorized, corpus, ready, row, activate_corpus) refl)
            (rw
              (
                find_by-update_where (λ (d : Course). d.id) c.id (is_course c.id expected)
                    (published now corpus_id) s.courses (λ d. refl),
                found,
                eq_self c.id,
                fits,
              )
              refl)
            (rw fits refl) refl refl
      | inr other ↦ refused (rw other refl) (
          rw (authorized, corpus, ready, find-other expected c s.courses one other, activate_corpus)
            refl)
    ]
