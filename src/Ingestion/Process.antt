-- ===== src/Ingestion/Process.antt =====
-- ingestion.py: `IngestionWorker.process`. Storage, the parser, the embedder and the hash are
-- arguments, and so is what other processes commit while the attempt runs.
use docta.Prelude.{
  ℕ, Bool, true, false, not, Option, none, some, List, String, Result, ok, err, ◌>>=◌, ◌>>◌,
  raise_if, length, nat_beq, ◌!=◌, nat_eq, string_eq,
}
use docta.Prelude.Int.{ℤ}
use docta.Models.{Uuid, Time, Float, DocumentVersionState, rejected}
use docta.Text.{Text}
use docta.Store.{Store, settle}
use docta.Chunks.{ParsedDocument, DocumentProcessingFailure, build_chunks}
use docta.Jobs.{JobEnvelope}
use docta.Ingestion.Claim.{ClaimedJob, Settings, WorkerError, claim}
use docta.Ingestion.Success.{Built, persist_success}
use docta.Ingestion.Failure.{persist_failure, acknowledgeable}
use docta.Ingestion.Embed.{
  AttemptError, processing_failure, stored_object_too_large, stored_object_not_found,
  object_storage_unavailable, embedding_unavailable, database_error, other_error, Embedder, embed,
}

-- What `process` uses of the rest of the world.
pub record World : Type 0 where
  -- `object_storage.read(key, version_id=…, max_bytes=…)`
  pub read : (key version_id : String) (max_bytes : ℕ) → Result AttemptError (List ℕ)
  -- the hash of bytes, and of a text in UTF-8
  pub sha256 : List ℕ → String
  pub sha256_text : Text → String
  pub parse : List ℕ → Result AttemptError ParsedDocument
  pub parse_int : Text → Option ℤ
  pub embedder : Option Embedder
  -- before each call of the embedder: has the deadline passed?
  pub late : ℕ → Bool
  pub isoformat : Time → String
  pub uuid4 : ℕ → Uuid
  pub dead_id : Uuid
  pub uniform : (low high : Time) → Time
  -- the clock at the claim and at the outcome
  pub claim_time : Time
  pub outcome_time : Time
  -- what others commit in between
  pub meanwhile : Store → Store

abbrev pub processing :
    {A : Type 0} → Option (Result DocumentProcessingFailure A) → Result AttemptError A
processing none = err other_error
processing (some (ok a)) = ok a
processing (some (err f)) = err (processing_failure f)

abbrev pub rejection : String → AttemptError
rejection code = processing_failure (record { code = code; state = rejected })

abbrev pub with_version :
    Option Embedder → Option (List (List Float)) → Option (List (List Float) × Text)
with_version (some embedder) (some vectors) = some (vectors, embedder.version)
with_version _ _ = none

-- What an error of the attempt writes: the code, the state of the version, whether it is transient.
-- An outage of the database is raised again.
unfoldable pub outcome_of : AttemptError → Option (String × DocumentVersionState × Bool)
outcome_of (processing_failure f) = some (f.code, f.state, false)
outcome_of stored_object_too_large = some ("DOCUMENT_TOO_LARGE", rejected, false)
outcome_of stored_object_not_found = some ("UPLOAD_NOT_FOUND", DocumentVersionState.failed, false)
outcome_of object_storage_unavailable =
    some ("OBJECT_STORAGE_UNAVAILABLE", DocumentVersionState.failed, true)
outcome_of embedding_unavailable = some ("EMBEDDING_UNAVAILABLE", DocumentVersionState.failed, true)
outcome_of database_error = none
outcome_of other_error = some ("DOCUMENT_PROCESSING_FAILED", DocumentVersionState.failed, false)

-- What `process` raises to the consumer.
pub data ProcessError : Type 0 where
  worker_error : WorkerError → ProcessError
  database_outage : ProcessError

module _ (settings : Settings) (w : World) where
  -- the `try` block of `process`, up to `_persist_success`
  unfoldable pub attempt : ClaimedJob → Result AttemptError Built
  attempt claimed = do
    content ← w.read claimed.storage_key claimed.storage_version_id settings.max_document_bytes
    raise_if (not (nat_beq (length content) claimed.expected_size_bytes))
        (rejection "DOCUMENT_SIZE_MISMATCH")
    let actual_sha256 = w.sha256 content
    raise_if (actual_sha256 != claimed.expected_sha256) (rejection "DOCUMENT_CHECKSUM_MISMATCH")
    parsed ← w.parse content
    chunks ← processing (
        build_chunks w.sha256_text settings.chunk_size_characters settings.chunk_overlap_characters
          parsed)
    embeddings ← embed w.parse_int w.embedder w.late chunks
    ok (record {
      sha256 = actual_sha256;
      size_bytes = length content;
      page_count = length parsed.pages;
      chunks = chunks;
      parser_version = parsed.parser_version;
      embeddings = with_version w.embedder embeddings;
    })

  abbrev pub record_failure :
      ClaimedJob
      → Store
      → Option (String × DocumentVersionState × Bool)
      → Result ProcessError Unit × Store
  record_failure claimed s none = (err database_outage, s)
  record_failure claimed s (some (code, state, transient)) = (
    ok tt,
    persist_failure settings w.uniform w.dead_id w.outcome_time claimed code state transient s,
  )

  -- A `RuntimeError` of `_persist_success`, rolled back, is one of the other exceptions.
  abbrev pub after_success :
      ClaimedJob → Store → Result WorkerError (Unit × Store) → Result ProcessError Unit × Store
  after_success claimed s (ok (_, s')) = (ok tt, s')
  after_success claimed s (err e) = record_failure claimed s (outcome_of other_error)

  -- the `try` block and its handlers
  unfoldable pub finish_attempt :
      ClaimedJob → Store → Result AttemptError Built → Result ProcessError Unit × Store
  finish_attempt claimed s (ok built) =
      after_success claimed s (persist_success w.uuid4 w.outcome_time claimed built s)
  finish_attempt claimed s (err e) = record_failure claimed s (outcome_of e)

  abbrev pub acknowledge :
      Uuid → Result ProcessError Unit × Store → Result ProcessError Bool × Store
  acknowledge id (ok _, s) = (ok (acknowledgeable id s), s)
  acknowledge id (err e, s) = (err e, s)

  -- what follows `_claim`
  unfoldable pub after_claim :
      JobEnvelope
      → Result WorkerError (Option ClaimedJob) × Store
      → Result ProcessError Bool × Store
  after_claim envelope (err e, s) = (err (worker_error e), s)
  after_claim envelope (ok none, s) = (ok (acknowledgeable envelope.job_id s), s)
  after_claim envelope (ok (some claimed), s) =
      acknowledge envelope.job_id (finish_attempt claimed (w.meanwhile s) (attempt claimed))

  -- `IngestionWorker.process`: whether the message can be acknowledged
  unfoldable pub process : JobEnvelope → Store → Result ProcessError Bool × Store
  process envelope s =
      after_claim envelope (settle s (claim settings w.isoformat w.dead_id w.claim_time envelope s))
