-- ===== src/Ingestion/Success.antt =====
-- ingestion.py: `IngestionWorker._persist_success`, one transaction. `uuid4` gives the ids that it
-- draws, in order: the corpus first.
use docta.Prelude.{
  ℕ, suc, Bool, not, ◌&&◌, Option, none, some, List, [], ◌∷◌, ◌++◌, String, Result, ok, ◌>>=◌, ◌>>◌,
  raise_if, or_raise, length, find, update_where, count_where, ◌==◌, nat_eq, list_eq, nat_beq,
}
use docta.Models.{
  Uuid, Time, Float, IngestionJob, DocumentVersion, processing, indexed, CorpusVersion, ready,
  Chunk, ChunkEmbedding, succeeded, is_running, version_state_beq,
}
use docta.Text.{Text}
use docta.Store.{Store}
use docta.Chunks.{ParsedChunk}
use docta.Ingestion.Claim.{ClaimedJob, WorkerError, runtime_error, save_job, leased}

-- The job is still this worker's: it runs under the claim's fencing token and its lease holds.
abbrev pub owns : (now : Time) → ClaimedJob → IngestionJob → Bool
owns now claimed j =
    j.id == claimed.id
    && is_running j.state
    && j.fencing_token == claimed.fencing_token
    && leased j.lease_expires_at now

abbrev pub active_job : (now : Time) → ClaimedJob → Store → Option IngestionJob
active_job now claimed s = find (owns now claimed) s.jobs

-- What an attempt has made outside any transaction.
pub record Built : Type 0 where
  pub sha256 : String
  pub size_bytes : ℕ
  pub page_count : ℕ
  pub chunks : List ParsedChunk
  pub parser_version : String
  -- the vectors and the version of the embedder, if there is one
  pub embeddings : Option (List (List Float) × Text)

module _ (claimed : ClaimedJob) (corpus_id : Uuid) (uuid4 : ℕ → Uuid) where
  abbrev pub chunk_row : (id : Uuid) → ParsedChunk → Chunk
  chunk_row id c = record {
    id = id;
    course_id = claimed.course_id;
    corpus_version_id = corpus_id;
    document_version_id = claimed.document_version_id;
    page_start = c.page;
    page_end = c.page;
    ordinal = c.ordinal;
    content = c.content;
    content_hash = c.content_hash;
  }

  -- `for chunk_id, parsed_chunk in zip(…)`; the ids are drawn from the number `i` on
  unfoldable pub chunk_rows : (i : ℕ) → List ParsedChunk → List Chunk
  chunk_rows i [] = []
  chunk_rows i (c ∷ cs) = chunk_row (uuid4 i) c ∷ chunk_rows (suc i) cs

  abbrev pub embedding_row : Text → (id : Uuid) → List Float → ChunkEmbedding
  embedding_row version id vector = record {
    chunk_id = id;
    embedding_version = version;
    course_id = claimed.course_id;
    corpus_version_id = corpus_id;
    dims = length vector;
    embedding = vector;
  }

  unfoldable pub embedding_rows : Text → (i : ℕ) → List (List Float) → List ChunkEmbedding
  embedding_rows version i [] = []
  embedding_rows version i (v ∷ vs) =
      embedding_row version (uuid4 i) v ∷ embedding_rows version (suc i) vs

  abbrev pub is_chunk_of : Chunk → Bool
  is_chunk_of c = c.corpus_version_id == corpus_id

  abbrev pub is_embedding_of : Text → ChunkEmbedding → Bool
  is_embedding_of version e = e.corpus_version_id == corpus_id && e.embedding_version == version

  -- `if embeddings is not None and embedding_version is not None`
  unfoldable pub add_embeddings :
      (chunk_count : ℕ)
      → Option (List (List Float) × Text)
      → List ChunkEmbedding
      → Result WorkerError (List ChunkEmbedding)
  add_embeddings chunk_count none rows = ok rows
  add_embeddings chunk_count (some (vectors, version)) rows = do
    raise_if (not (nat_beq (length vectors) chunk_count)) (runtime_error "embedding count mismatch")
    let rows' = rows ++ embedding_rows version 1 vectors
    raise_if (not (nat_beq (count_where (is_embedding_of version) rows') chunk_count))
        (runtime_error "corpus embedding verification failed")
    ok rows'

abbrev pub is_processing_version : ClaimedJob → DocumentVersion → Bool
is_processing_version claimed v =
    v.id == claimed.document_version_id
    && v.course_id == claimed.course_id
    && version_state_beq v.state processing

-- A corpus as it is first added: it is made READY at the end of the same transaction.
abbrev pub ready_corpus : ClaimedJob → (id : Uuid) (now : Time) → Built → CorpusVersion
ready_corpus claimed id now built = record {
  id = id;
  course_id = claimed.course_id;
  state = ready;
  pipeline_version = claimed.pipeline_version;
  page_count = built.page_count;
  chunk_count = length built.chunks;
  ready_at = some now;
}

abbrev pub succeed : (now : Time) → IngestionJob → IngestionJob
succeed now job = record job {
  state = succeeded;
  failure_code = none;
  updated_at = now;
  completed_at = some now;
  lease_expires_at = none;
}

abbrev pub index_version : (now : Time) → Built → DocumentVersion → DocumentVersion
index_version now built v = record v {
  state = indexed;
  object_size_bytes = some built.size_bytes;
  object_sha256 = some built.sha256;
  page_count = some built.page_count;
  chunk_count = some (length built.chunks);
  parser_version = some built.parser_version;
  failure_code = none;
  updated_at = now;
}

-- `_persist_success` from the corpus on, for the job that it has locked
unfoldable pub build_corpus :
    (uuid4 : ℕ → Uuid) (now : Time)
    → ClaimedJob
    → Built
    → IngestionJob
    → Store
    → Result WorkerError (Unit × Store)
build_corpus uuid4 now claimed built job s =
    let corpus_id = uuid4 0 in
    let chunks = s.chunks ++ chunk_rows claimed corpus_id uuid4 1 built.chunks in
    let count = length built.chunks in
    do
      raise_if (not (nat_beq (count_where (is_chunk_of claimed corpus_id uuid4) chunks) count))
          (runtime_error "corpus build verification failed")
      embeddings ← add_embeddings claimed corpus_id uuid4 count built.embeddings s.embeddings
      raise_if (not (nat_beq (count_where (is_processing_version claimed) s.versions) 1))
          (runtime_error "document version could not enter INDEXED")
      ok (
        tt,
        record s {
          corpora = s.corpora ++ ready_corpus claimed corpus_id now built ∷ [];
          corpus_documents =
              s.corpus_documents
              ++ record {
                corpus_version_id = corpus_id;
                document_version_id = claimed.document_version_id;
                course_id = claimed.course_id;
              }
                ∷ [];
          chunks = chunks;
          embeddings = embeddings;
          versions =
              update_where (is_processing_version claimed) (index_version now built) s.versions;
          jobs = save_job (succeed now job) s.jobs;
        },
      )

unfoldable pub persist_success :
    (uuid4 : ℕ → Uuid) (now : Time) → ClaimedJob → Built → Store → Result WorkerError (Unit × Store)
persist_success uuid4 now claimed built s = do
  job ← or_raise (active_job now claimed s) (runtime_error "stale ingestion fencing token")
  build_corpus uuid4 now claimed built job s
