-- ===== src/Tests/Ingestion.antt =====
-- jobs.py and ingestion.py on one job.
use docta.Prelude.{ℕ, ◌+◌, ◌≡◌, refl, true, some, none, [], ◌∷◌, ok, err, All, String, arith}
use docta.Models.{
  Time, seconds, IngestionJob, pending, running, OutboxEvent, ingestion, DocumentVersion, queued,
  processing, DocumentVersionState,
}
use docta.Text.{codes}
use docta.Store.{Store}
use docta.Jobs.{JobEnvelope, envelope_for, envelope_beq}
use docta.Ingestion.{
  ClaimedJob, Settings, runtime_error, claim, claim_found, check_event, start_attempt, claimed_job,
  Built, persist_success, persist_failure, IsValidJob, IsHandedOut, claim-IsHandedOut, Reach, here,
  next, claims, Reach-IsValidJob, stale_worker,
}

abbrev isoformat : Time → String
isoformat t = "t"

abbrev settings : Settings
settings = record {
  max_document_bytes = 100;
  chunk_size_characters = 4;
  chunk_overlap_characters = 1;
  lease_seconds = 5;
  max_attempts = 3;
  retry_base = 2000000;
}

abbrev job : IngestionJob
job = record {
  id = 1;
  course_id = 2;
  document_version_id = 3;
  job_type = "ingestion";
  pipeline_version = "v";
  state = pending;
  attempt = 0;
  fencing_token = 0;
  correlation_id = "c";
  failure_code = none;
  updated_at = 0;
  completed_at = none;
  lease_expires_at = none;
  next_attempt_at = 0;
}

abbrev event : OutboxEvent
event = record {
  id = 4;
  course_id = 2;
  job_id = 1;
  kind = ingestion;
  available_at = 0;
  created_at = 0;
  published_at = none;
  publish_token = none;
  publish_lease_until = none;
}

abbrev version : DocumentVersionState → Time → DocumentVersion
version state now = record {
  id = 3;
  course_id = 2;
  document_id = 9;
  storage_key = "k";
  storage_version_id = some "sv";
  original_filename = codes "a.pdf";
  expected_size_bytes = 3;
  expected_sha256 = "s";
  media_type = "application/pdf";
  state = state;
  pipeline_version = "v";
  parser_version = none;
  upload_idempotency_key = codes "u";
  upload_request_hash = "h";
  confirmation_idempotency_key = none;
  confirmation_request_hash = none;
  object_size_bytes = none;
  object_sha256 = none;
  page_count = none;
  chunk_count = none;
  failure_code = none;
  updated_at = now;
}

abbrev store : IngestionJob → DocumentVersion → Store
store j v = record {
  users = [];
  courses = [];
  memberships = [];
  documents = [];
  versions = v ∷ [];
  corpora = [];
  corpus_documents = [];
  chunks = [];
  embeddings = [];
  jobs = j ∷ [];
  events = event ∷ [];
}

abbrev running_job : (attempt : ℕ) (now : Time) → IngestionJob
running_job attempt now = record job {
  state = running;
  attempt = attempt;
  fencing_token = attempt;
  lease_expires_at = some (now + seconds 5);
  updated_at = now;
}

abbrev claimed : (token : ℕ) → ClaimedJob
claimed token = record {
  id = 1;
  course_id = 2;
  document_version_id = 3;
  storage_key = "k";
  storage_version_id = "sv";
  expected_size_bytes = 3;
  expected_sha256 = "s";
  pipeline_version = "v";
  fencing_token = token;
}

abbrev envelope : JobEnvelope
envelope = record {
  event_id = 4;
  job_id = 1;
  course_id = 2;
  document_version_id = 3;
  pipeline_version = "v";
  correlation_id = "c";
  created_at = "t";
}

abbrev start_store : Store
start_store = store job (version queued 0)

abbrev claimed_store : Store
claimed_store = store (running_job 1 10) (version processing 10)

abbrev reclaimed_store : Store
reclaimed_store = store (running_job 2 9000000) (version processing 9000000)

first_claim :
    claim settings isoformat 50 10 envelope start_store ≡ ok (some (claimed 1), claimed_store)
unfolding claim claim_found check_event start_attempt claimed_job envelope_for envelope_beq
first_claim = refl

second_claim :
    claim settings isoformat 50 9000000 envelope claimed_store
    ≡ ok (some (claimed 2), reclaimed_store)
unfolding claim claim_found check_event start_attempt claimed_job envelope_for envelope_beq
second_claim = refl

claim-IsHandedOut_example : IsHandedOut settings 10 envelope (claimed 1) start_store claimed_store
claim-IsHandedOut_example =
    claim-IsHandedOut settings isoformat 50 10 envelope start_store first_claim

abbrev built : Built
built = record {
  sha256 = "s";
  size_bytes = 3;
  page_count = 1;
  chunks = record { page = 1; ordinal = 0; content = codes "ab"; content_hash = "h" } ∷ [];
  parser_version = "p";
  embeddings = none;
}

stale_worker_example :
    (persist_success (λ n. 60 + n) 9000001 (claimed 1) built reclaimed_store
      ≡ err (runtime_error "stale ingestion fencing token"))
    × (persist_failure settings
          (λ a b. b)
          51
          9000001
          (claimed 1)
          "X"
          processing
          true
          reclaimed_store
        ≡ reclaimed_store)
stale_worker_example =
    stale_worker settings isoformat 50 50 10 9000000 9000001 envelope envelope (claimed 1)
      (claimed 2) start_store claimed_store claimed_store reclaimed_store reclaimed_store
      first_claim here second_claim refl here (λ n. 60 + n) built (λ a b. b) 51 "X" processing true

two_claims : Reach settings start_store reclaimed_store
two_claims =
    next (next here (claims isoformat 50 10 envelope (some (claimed 1)) first_claim))
      (claims isoformat 50 9000000 envelope (some (claimed 2)) second_claim)

Reach-IsValidJob_example : All (IsValidJob 3) reclaimed_store.jobs
Reach-IsValidJob_example = Reach-IsValidJob settings (ground arith) two_claims
