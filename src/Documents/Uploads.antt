-- ===== src/Documents/Uploads.antt =====
-- An upload that is repeated under its idempotency key finds the version it made.
use docta.Prelude.{
  ◌≡◌, ◌≢◌, refl, sym, ◌∙◌, ap, Bool, true, ◌&&◌, Result, none, some, List, [], ◌∷◌, ◌++◌, find,
  update_where, inl, inr, Bool-cases, Option-cases, arith, if◌then◌else◌, ◌==◌, eq_self, nat_eq,
  string_eq, list_eq, ok, err, >>=-eq-ok, String, find-update_where, find-append, find-mem,
}
use mathlib.Core.List.{Memᴰ}
use mathlib.Core.Path.{subst}
use docta.Documents.Teachers.{IsTeacher, found-IsTeacher, nobody-IsTeacher}
use docta.Models.{Uuid, DocumentVersion, awaiting_upload, version_state_beq}
use docta.Text.{Text}
use docta.Identity.{is_identity, AuthenticatedIdentity}
use docta.Store.{Store}
use docta.Ingestion.{Settings, rows_updated, same_rows}
use docta.Documents.Requests.{
  DocumentError, idempotency_key_reused, upload_not_ready, document_resource_not_found,
}
use docta.Documents.Service.{
  teaches, DocumentSettings, UploadRecord, authorized_teacher, has_upload_key, is_version,
  upload_again, add_upload,
}
use docta.Documents.Operations.{upload_transaction, confirmed_version}
use docta.Documents.Runs.{Reach, here, next}
use docta.Documents.Changes.{Change, untouched, uploaded, confirmed, activated, worked, Step-Change}

-- The columns of a version that its upload wrote.
pub record IsSameUpload (v v' : DocumentVersion) : Type 0 where
  pub id : v'.id ≡ v.id
  pub document : v'.document_id ≡ v.document_id
  pub storage_key : v'.storage_key ≡ v.storage_key
  pub hash : v'.upload_request_hash ≡ v.upload_request_hash

-- The version that a key finds after a transaction.
IsKept : Uuid → Text → DocumentVersion → List DocumentVersion → Type 0
IsKept course_id key v ys =
    (v' : DocumentVersion) × (find (has_upload_key course_id key) ys ≡ some v') × IsSameUpload v v'

same-upload : (v : DocumentVersion) → IsSameUpload v v
same-upload v = record { id = refl; document = refl; storage_key = refl; hash = refl }

updated-IsKept :
    (course_id : Uuid) (key : Text) (p : DocumentVersion → Bool)
    (f : DocumentVersion → DocumentVersion) (xs : List DocumentVersion) (v : DocumentVersion)
    → ((x : DocumentVersion) → has_upload_key course_id key (f x) ≡ has_upload_key course_id key x)
    → IsSameUpload v (f v)
    → find (has_upload_key course_id key) xs ≡ some v
    → IsKept course_id key v (update_where p f xs)
unfolding IsKept
updated-IsKept course_id key p f xs v h same e = (
  if p v then f v else v,
  find-update_where (has_upload_key course_id key) p f xs h e,
  elim (Bool-cases (p v)) [ inl b ↦ rw b same | inr b ↦ rw b (same-upload v) ],
)

Change-IsKept :
    (worker : Settings) {s s' : Store}
    → Change worker s s'
    → (course_id : Uuid) (key : Text) (v : DocumentVersion)
    → find (has_upload_key course_id key) s.versions ≡ some v
    → IsKept course_id key v s'.versions
unfolding IsKept
Change-IsKept worker (untouched ev ej ec) course_id key v e = (v, rw ev e, same-upload v)
Change-IsKept worker {s} (uploaded new u ev ej ec) course_id key v e =
    (v, rw ev (find-append (has_upload_key course_id key) s.versions (new ∷ []) e), same-upload v)
Change-IsKept worker {s} (confirmed w job now k hash m version fresh ev ej ec) course_id key v e =
    rw ev (
      updated-IsKept course_id key (is_version w.course_id w.document_id w.id)
        (confirmed_version now k hash m) s.versions v (λ x. refl)
        (record { id = refl; document = refl; storage_key = refl; hash = refl }) e)
Change-IsKept worker (activated now c corpus_id expected ev ej ec) course_id key v e =
    (v, rw ev e, same-upload v)
Change-IsKept worker (worked (same_rows ev) dj ec) course_id key v e = (v, rw ev e, same-upload v)
Change-IsKept worker {s} (worked (rows_updated p f same ev) dj ec) course_id key v e = rw ev (
    updated-IsKept course_id key p f s.versions v
      (λ x. let k = same x in rw (k.course, k.upload_key) refl)
      (let k = same v in
        record {
          id = k.id;
          document = k.document;
          storage_key = k.storage_key;
          hash = k.upload_hash;
        })
      e)

IsSameUpload-trans :
    {u v w : DocumentVersion} → IsSameUpload u v → IsSameUpload v w → IsSameUpload u w
IsSameUpload-trans a b = record {
  id = b.id ∙ a.id;
  document = b.document ∙ a.document;
  storage_key = b.storage_key ∙ a.storage_key;
  hash = b.hash ∙ a.hash;
}

upload_transaction-state :
    (who : AuthenticatedIdentity) (new : DocumentVersion) (s : Store) {r : UploadRecord}
    {s' : Store}
    → new.state ≡ awaiting_upload
    → upload_transaction who new s ≡ ok (r, s')
    → r.state ≡ awaiting_upload
unfolding upload_transaction add_upload upload_again
upload_transaction-state who new s {r} {s'} waits h =
    let (user_id, _, h₁) = >>=-eq-ok (authorized_teacher s who new.course_id) _ h in
    elim (Option-cases
      (find (has_upload_key new.course_id new.upload_idempotency_key) s.versions)) [
        | inl fresh ↦ let h₂ = rw fresh at h₁ in ground arith
        | inr (old, e) ↦ let h₂ = rw e at h₁ in ground arith
      ]

find-new :
    (q : DocumentVersion → Bool) (xs : List DocumentVersion) (v : DocumentVersion)
    → find q xs ≡ none
    → q v ≡ true
    → find q (xs ++ v ∷ []) ≡ some v
find-new q [] v e h = rw h refl
find-new q (x ∷ xs) v e h = ground (arith, find-new q xs v)

-- What a transaction that returned a record left under its key.
upload_transaction-found :
    (who : AuthenticatedIdentity) (new : DocumentVersion) (s : Store) {r : UploadRecord}
    {s' : Store}
    → version_state_beq new.state awaiting_upload ≡ true
    → upload_transaction who new s ≡ ok (r, s')
    → (v : DocumentVersion) × (find
          (has_upload_key new.course_id new.upload_idempotency_key)
          s'.versions
        ≡ some v)
      × (v.upload_request_hash ≡ new.upload_request_hash)
      × (r.version_id ≡ v.id)
      × (r.document_id ≡ v.document_id)
      × (r.storage_key ≡ v.storage_key)
unfolding upload_transaction add_upload upload_again
upload_transaction-found who new s {r} {s'} waits h =
    let (user_id, _, h₁) = >>=-eq-ok (authorized_teacher s who new.course_id) _ h in
    elim (Option-cases
      (find (has_upload_key new.course_id new.upload_idempotency_key) s.versions)) [
        | inl fresh ↦
            let h₂ = rw fresh at h₁ in
            let versions : s'.versions ≡ s.versions ++ new ∷ [] = ground arith in
            (
              new,
              rw versions (
                  find-new _ s.versions new fresh
                    (rw (eq_self new.course_id, eq_self new.upload_idempotency_key) refl)),
              refl,
              ground arith,
              ground arith,
              ground arith,
            )
        | inr (old, e) ↦
            let h₂ = rw e at h₁ in
            let same_hash : (old.upload_request_hash == new.upload_request_hash) ≡ true =
              ground arith in
            let versions : s'.versions ≡ s.versions = ground arith in
            (
              old,
              rw versions e,
              (string_eq.same_iff _ _).0 same_hash,
              ground arith,
              ground arith,
              ground arith,
            )
      ]

Reach-IsKept :
    (str_uuid : Uuid → String) (settings : DocumentSettings) (worker : Settings) {s s' : Store}
    → Reach str_uuid settings worker s s'
    → (course_id : Uuid) (key : Text) (v : DocumentVersion)
    → find (has_upload_key course_id key) s.versions ≡ some v
    → IsKept course_id key v s'.versions
unfolding IsKept
Reach-IsKept str_uuid settings worker here course_id key v e = (v, e, same-upload v)
Reach-IsKept str_uuid settings worker (next before step) course_id key v e =
    let (u, found, a) = Reach-IsKept str_uuid settings worker before course_id key v e in
    let (w, found', b) =
      Change-IsKept worker (Step-Change worker str_uuid settings step) course_id key u found in
    (w, found', IsSameUpload-trans a b)

awaits :
    (v : DocumentVersion)
    → version_state_beq v.state awaiting_upload ≡ true
    → v.state ≡ awaiting_upload
awaits v h = ground arith

waits_for :
    (v : DocumentVersion)
    → v.state ≡ awaiting_upload
    → version_state_beq v.state awaiting_upload ≡ true
waits_for v e = rw e refl

-- The outcome `x` of a request by `who` under a key that an upload has, with the version that the
-- upload made: the identity does not teach the course, or it is another request's key, or the version
-- waits no more, or the record that was made is returned, with nothing written.
pub data IsRepeated (who : AuthenticatedIdentity) (course_id : Uuid) (hash hash' : String)
    (r : UploadRecord) (s : Store) (x : Result DocumentError (UploadRecord × Store)) : Type 0 where
  denied :
      ¬ IsTeacher s who course_id
      → x ≡ err document_resource_not_found
      → IsRepeated who course_id hash hash' r s x
  reused :
      IsTeacher s who course_id
      → hash' ≢ hash
      → x ≡ err idempotency_key_reused
      → IsRepeated who course_id hash hash' r s x
  too_late :
      IsTeacher s who course_id
      → hash' ≡ hash
      → (v : DocumentVersion) → Memᴰ v s.versions
      → v.id ≡ r.version_id
      → v.state ≢ awaiting_upload
      → x ≡ err upload_not_ready
      → IsRepeated who course_id hash hash' r s x
  again :
      IsTeacher s who course_id
      → hash' ≡ hash
      → (v : DocumentVersion) → Memᴰ v s.versions
      → v.id ≡ r.version_id
      → v.state ≡ awaiting_upload
      → x ≡ ok (r, s)
      → IsRepeated who course_id hash hash' r s x

abbrev record_of : DocumentVersion → UploadRecord
record_of v = record {
  document_id = v.document_id;
  version_id = v.id;
  storage_key = v.storage_key;
  state = v.state;
}

found-IsRepeated :
    (who : AuthenticatedIdentity) (hash : String) (r : UploadRecord) (new : DocumentVersion)
    (s : Store) {v : DocumentVersion}
    → find (has_upload_key new.course_id new.upload_idempotency_key) s.versions ≡ some v
    → v.upload_request_hash ≡ hash
    → r.version_id ≡ v.id
    → r.document_id ≡ v.document_id
    → r.storage_key ≡ v.storage_key
    → r.state ≡ awaiting_upload
    → IsRepeated who new.course_id hash new.upload_request_hash r s (upload_transaction who new s)
unfolding upload_transaction authorized_teacher upload_again
found-IsRepeated who hash r new s {v} found own i d k st =
    let stored =
      find-mem (has_upload_key new.course_id new.upload_idempotency_key) s.versions found in
    elim (Option-cases (find (λ u. is_identity who u && teaches s new.course_id u) s.users)) [
      | inl nobody ↦
          denied (nobody-IsTeacher s who new.course_id nobody)
            (rw (nobody, upload_transaction) refl)
      | inr (u, teacher) ↦ elim (Bool-cases (v.upload_request_hash == new.upload_request_hash)) [
        | inr other ↦
            reused (found-IsTeacher s who new.course_id teacher)
              (λ e.
                let same =
                  (string_eq.same_iff v.upload_request_hash new.upload_request_hash).1
                    (own ∙ sym e) in
                cc)
              (rw (teacher, found, other, upload_transaction) refl)
        | inl equal ↦
            let same = (string_eq.same_iff v.upload_request_hash new.upload_request_hash).0 equal in
            elim (Bool-cases (version_state_beq v.state awaiting_upload)) [
              | inr over ↦
                  too_late (found-IsTeacher s who new.course_id teacher) (sym same ∙ own) v stored
                    (sym i) (λ e. let still = waits_for v e in cc)
                    (rw (teacher, found, equal, over, upload_transaction) refl)
              | inl waits ↦
                  let state = awaits v waits in
                  let row : record_of v ≡ r = cc (i, d, k, st, state) in
                  again (found-IsTeacher s who new.course_id teacher) (sym same ∙ own) v stored
                    (sym i) state
                    (rw (teacher, found, equal, waits, upload_transaction)
                      (ap (λ x. ok (x, s)) row))
            ]
      ]
    ]

-- After an upload was recorded under a key, and after any further run of the service beside the
-- worker, a request for the course under the same key ends in one of four ways, and writes nothing:
-- it is not found, and its identity does not teach the course; or its identity does, and the key is
-- reused by a request with another hash, or the hash is the same and the version of the upload waits
-- no more, or it waits and the request gets the same record.
pub upload-IsRepeated :
    (str_uuid : Uuid → String) (settings : DocumentSettings) (worker : Settings)
    (who who' : AuthenticatedIdentity) (new new' : DocumentVersion) (s : Store) {s' s'' : Store}
    {r : UploadRecord}
    → new.state ≡ awaiting_upload
    → upload_transaction who new s ≡ ok (r, s')
    → Reach str_uuid settings worker s' s''
    → new'.course_id ≡ new.course_id
    → new'.upload_idempotency_key ≡ new.upload_idempotency_key
    → IsRepeated who' new.course_id new.upload_request_hash new'.upload_request_hash r s''
        (upload_transaction who' new' s'')
unfolding IsKept
upload-IsRepeated str_uuid settings worker who who' new new' s {s'} {s''} {r} waits h run course
      key =
    let (v, found, hash, i, d, k) = upload_transaction-found who new s (rw waits refl) h in
    let (w, found', same) =
      Reach-IsKept str_uuid settings worker run new.course_id new.upload_idempotency_key v found in
    let found'' : find (has_upload_key new'.course_id new'.upload_idempotency_key) s''.versions
        ≡ some w =
      rw (course, key) found' in
    subst
      (λ c.
        IsRepeated who' c new.upload_request_hash new'.upload_request_hash r s''
          (upload_transaction who' new' s''))
      course
      (found-IsRepeated who' new.upload_request_hash r new' s'' found'' (same.hash ∙ hash)
        (i ∙ sym same.id) (d ∙ sym same.document) (k ∙ sym same.storage_key)
        (upload_transaction-state who new s waits h))
