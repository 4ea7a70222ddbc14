-- ===== src/Retrieval/Search.antt =====
-- retrieval_auth.py and `PostgresRetriever.retrieve`. The full-text functions of the database are
-- arguments. `validate_scope` lets every scope of UUIDs pass.
use docta.Prelude.{
  ℕ, ◌*◌, Bool, true, false, not, ◌&&◌, Option, none, some, List, [], ◌∷◌, map, Result, ok, ◌>>◌,
  raise_if, if◌then◌else◌, leb, ltb, any, find, filter, sort_by, take, length, is_empty, String,
  ◌==◌, nat_eq, option_eq, list_eq, ◌++◌,
}
use docta.Models.{
  Time, Chunk, Document, DocumentVersion, CourseMembership, CorpusVersion, is_ready, indexed,
  version_state_beq,
}
use docta.Text.{Text, codes, show_nat}
use docta.Rag.{RetrievalScope, Evidence}
use docta.Store.{Store}
use docta.Conversations.{ConversationStore, Conversation, Message, is_pending}
use docta.Runtime.{RunError, rag_failure}
use docta.Retrieval.Lexemes.{query_lexemes, or_tsquery_text}

-- `func.coalesce(Message.retrieval_query, Message.question)`
abbrev pub asked_text : Message → Text
asked_text m = elim m.retrieval_query [ some q ↦ q | none ↦ m.question ]

-- the WHERE clause on the message
abbrev pub is_asked : Time → RetrievalScope → Text → Message → Bool
is_asked now scope query m =
    m.id == scope.message_id
    && m.course_id == scope.course_id
    && m.corpus_version_id == some scope.corpus_version_id
    && m.conversation_id == scope.conversation_id
    && is_pending m.state
    && asked_text m == query
    && ltb now m.deadline_at

-- the conversation of the message, with its owner a member of its course
abbrev pub is_owned : Store → RetrievalScope → Message → Conversation → Bool
is_owned s scope m c =
    c.id == m.conversation_id
    && c.owner_user_id == scope.principal_user_id
    && any (λ (p : CourseMembership). p.course_id == c.course_id && p.user_id == c.owner_user_id)
        s.memberships

abbrev pub is_corpus_of : Message → CorpusVersion → Bool
is_corpus_of m v =
    some v.id == m.corpus_version_id && v.course_id == m.course_id && is_ready v.state

abbrev pub is_authorized : Time → RetrievalScope → Text → ConversationStore → Message → Bool
is_authorized now scope query s m =
    is_asked now scope query m
    && any (is_owned s.base scope m) s.conversations
    && any (is_corpus_of m) s.base.corpora

-- `authorize_retrieval`
unfoldable pub authorize_retrieval :
    Time → RetrievalScope → (query : Text) → ConversationStore → Result RunError Unit
authorize_retrieval now scope query s =
    raise_if (not (any (is_authorized now scope query s) s.messages))
      (rag_failure "RETRIEVAL_SCOPE_INVALID")

-- What the database's full-text search computes.
pub record FullText : Type 0 where
  -- `plainto_tsquery("spanish", question)` as text
  pub plainto_tsquery : Text → Option Text
  -- the number of the lexemes in the chunk's `search_vector`
  pub matched : List Text → Chunk → ℕ
  -- `search_vector @@ query`
  pub matches : (query : Text) → Chunk → Bool
  -- whether `ts_rank_cd` of the first chunk is greater
  pub ranks_above : (query : Text) → Chunk → Chunk → Bool

-- a row of the join
pub record Row : Type 0 where
  pub chunk : Chunk
  pub document : Document
  pub version : DocumentVersion

abbrev pub rows_of : Store → List Chunk → List Row
rows_of s [] = []
rows_of s (k ∷ ks) =
    let rest = rows_of s ks in
    elim (find
      (λ (v : DocumentVersion). v.id == k.document_version_id && v.course_id == k.course_id)
      s.versions) [
        | none ↦ rest
        | some v ↦
            elim (find (λ (d : Document). d.id == v.document_id && d.course_id == k.course_id)
              s.documents) [
                | none ↦ rest
                | some d ↦ record { chunk = k; document = d; version = v } ∷ rest
              ]
      ]

-- `None` only before the version is indexed
abbrev pub checksum_of : DocumentVersion → String
checksum_of v = elim v.object_sha256 [ some h ↦ h | none ↦ "" ]

abbrev pub evidence_of : Row → Evidence
evidence_of r = record {
  chunk_id = r.chunk.id;
  course_id = r.chunk.course_id;
  corpus_version_id = r.chunk.corpus_version_id;
  document_version_id = r.chunk.document_version_id;
  document_title = r.document.title;
  document_sha256 = checksum_of r.version;
  page_start = r.chunk.page_start;
  page_end = r.chunk.page_end;
  fragment = codes "chunk-" ++ show_nat r.chunk.ordinal;
  content = r.chunk.content;
  content_hash = r.chunk.content_hash;
}

module _ (db : FullText) where
  -- the WHERE clause on a row
  abbrev pub is_covered : RetrievalScope → List Text → Row → Bool
  is_covered scope lexemes r =
      r.chunk.course_id == scope.course_id
      && r.chunk.corpus_version_id == scope.corpus_version_id
      && version_state_beq r.version.state indexed
      && db.matches (or_tsquery_text lexemes) r.chunk
      && leb (length lexemes * 2) (db.matched lexemes r.chunk * 3)

  -- the ORDER BY clause
  abbrev pub stands_before : List Text → Row → Row → Bool
  stands_before lexemes a b =
      if ltb (db.matched lexemes b.chunk) (db.matched lexemes a.chunk)
      then true
      else if ltb (db.matched lexemes a.chunk) (db.matched lexemes b.chunk)
      then false
      else if db.ranks_above (or_tsquery_text lexemes) a.chunk b.chunk
      then true
      else if db.ranks_above (or_tsquery_text lexemes) b.chunk a.chunk
      then false
      else leb a.chunk.ordinal b.chunk.ordinal

  abbrev pub lexemes_of : Text → List Text
  lexemes_of question = elim (db.plainto_tsquery question) [
    | some t ↦ query_lexemes t
    | none ↦ query_lexemes []
  ]

  abbrev pub found_rows : RetrievalScope → List Text → Store → List Row
  found_rows scope lexemes s =
      take 5
        (sort_by (stands_before lexemes) (filter (is_covered scope lexemes) (rows_of s s.chunks)))

  -- `PostgresRetriever.retrieve`
  unfoldable pub retrieve :
      Time
      → RetrievalScope
      → (question : Text) → ConversationStore
      → Result RunError (List Evidence)
  retrieve now scope question s =
      let lexemes = lexemes_of question in
      authorize_retrieval now scope question s
      >> ok (if is_empty lexemes then [] else map evidence_of (found_rows scope lexemes s.base))
