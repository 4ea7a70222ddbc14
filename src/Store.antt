-- ===== src/Store.antt =====
-- The database that the services share (database.py): its tables, and a transaction, which commits
-- what it wrote if it returns and writes nothing if it raises.
use docta.Prelude.{List, Result, ok, err}
use docta.Models.{
  Course, CourseMembership, User, Document, DocumentVersion, CorpusVersion, CorpusVersionDocument,
  Chunk, ChunkEmbedding, IngestionJob, OutboxEvent,
}

pub record Store : Type 0 where
  pub users : List User
  pub courses : List Course
  pub memberships : List CourseMembership
  pub documents : List Document
  pub versions : List DocumentVersion
  pub corpora : List CorpusVersion
  pub corpus_documents : List CorpusVersionDocument
  pub chunks : List Chunk
  pub embeddings : List ChunkEmbedding
  pub jobs : List IngestionJob
  pub events : List OutboxEvent

-- The end of a transaction on the state `s`: commit, or roll back.
abbrev pub settle {ℓ} : {S E A : Type ℓ} → S → Result E (A × S) → Result E A × S
settle s (ok (a, s')) = (ok a, s')
settle s (err e) = (err e, s)

-- the steps of an operation that runs more than one transaction
abbrev pub and_then {ℓ} :
    {S E A B : Type ℓ} → Result E A × S → (A → S → Result E B × S) → Result E B × S
and_then (ok a, s) rest = rest a s
and_then (err e, s) rest = (err e, s)

-- `with database.session() as session: …`
abbrev pub commit {ℓ} : {S E A : Type ℓ} → (S → Result E (A × S)) → S → Result E A × S
commit transaction s = settle s (transaction s)
