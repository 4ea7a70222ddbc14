-- ===== src/Conversations/Outcomes.antt =====
-- conversations.py: what the runtime records of an answer: `_pending`, `save_evidence`, `complete`,
-- `fail` and `expire`.
use docta.Prelude.{
  ℕ, suc, Bool, not, ◌&&◌, ◌||◌, Option, none, some, List, [], ◌∷◌, ◌++◌, map, String, Result, ok,
  ◌>>=◌, ◌>>◌, raise_if, or_raise, ltb, any, all, find, update_where, length, distinct, ◌==◌, ◌!=◌,
  nat_eq, string_eq, option_eq, list_eq,
}
use docta.Models.{Uuid, Time, Chunk, DocumentVersion, Document}
use docta.Text.{codes, show_nat}
use docta.Contract.{TutorIntervention, help_level}
use docta.Rag.{Evidence, TutorDraft, DraftCitation}
use docta.Store.{Store}
use docta.Conversations.Rows.{
  completed, Message, RetrievedEvidence, Citation, ConversationStore, is_pending,
}
use docta.Conversations.Requests.{ServiceError, rag_failure, integrity_error}
use docta.Conversations.Access.{expire_in, failed_message}
use docta.Conversations.Accept.{AcceptedMessage}

-- the WHERE clause of `_pending`
abbrev pub is_open : Time → Uuid → Message → Bool
is_open now id m = m.id == id && is_pending m.state && ltb now m.deadline_at

-- `_pending`
unfoldable pub open_message : Time → Uuid → List Message → Result ServiceError Message
open_message now id messages =
    or_raise (find (is_open now id) messages) (rag_failure "PROCESSING_INTERRUPTED")

abbrev pub invalid_scope : ServiceError
invalid_scope = rag_failure "RETRIEVAL_SCOPE_INVALID"

abbrev pub is_chunk_of : Message → Evidence → Chunk → Bool
is_chunk_of m e k =
    k.id == e.chunk_id
    && k.course_id == m.course_id
    && some k.corpus_version_id == m.corpus_version_id

-- the row of the join of a chunk with its version and document
unfoldable pub stored_source :
    Store → Message → Evidence → Option (Chunk × DocumentVersion × Document)
stored_source s m e = elim (find (is_chunk_of m e) s.chunks) [
  | none ↦ none
  | some k ↦
      elim (find
        (λ (v : DocumentVersion). v.id == k.document_version_id && v.course_id == k.course_id)
        s.versions) [
          | none ↦ none
          | some v ↦
              elim (find (λ (d : Document). d.id == v.document_id && d.course_id == k.course_id)
                s.documents) [ none ↦ none | some d ↦ some (k, v, d) ]
        ]
]

-- The evidence is what the database stores.
abbrev pub matches : Evidence → Chunk × DocumentVersion × Document → Bool
matches e (k, v, d) =
    e.document_version_id == v.id
    && e.document_title == d.title
    && some e.document_sha256 == v.object_sha256
    && e.content == k.content
    && e.content_hash == k.content_hash
    && e.page_start == k.page_start
    && e.page_end == k.page_end
    && e.fragment == codes "chunk-" ++ show_nat k.ordinal

abbrev pub evidence_row : Message → Evidence → RetrievedEvidence
evidence_row m e = record {
  message_id = m.id;
  chunk_id = e.chunk_id;
  course_id = e.course_id;
  corpus_version_id = e.corpus_version_id;
  document_version_id = e.document_version_id;
  document_title = e.document_title;
  document_sha256 = e.document_sha256;
  page_start = e.page_start;
  page_end = e.page_end;
  fragment = e.fragment;
  content = e.content;
  content_hash = e.content_hash;
}

-- the body of the loop over the evidence
unfoldable pub check_item : Store → Message → Evidence → Result ServiceError Unit
check_item s m e = do
  raise_if (e.course_id != m.course_id || some e.corpus_version_id != m.corpus_version_id)
      invalid_scope
  source ← or_raise (stored_source s m e) invalid_scope
  raise_if (not (matches e source)) invalid_scope

unfoldable pub check_items : Store → Message → List Evidence → Result ServiceError Unit
check_items s m [] = ok tt
check_items s m (e ∷ es) = check_item s m e >> check_items s m es

-- a row of the primary key (message, chunk)
abbrev pub is_row : Uuid → Uuid → RetrievedEvidence → Bool
is_row message_id chunk_id r = r.message_id == message_id && r.chunk_id == chunk_id

-- `ConversationService.save_evidence`; its rows are written at the end of the transaction
unfoldable pub save_evidence :
    (now : Time)
    → AcceptedMessage
    → List Evidence
    → ConversationStore
    → Result ServiceError (Unit × ConversationStore)
save_evidence now accepted evidence s = do
  m ← open_message now accepted.message.id s.messages
  raise_if (ltb 5 (length evidence) || not (distinct (map (λ (e : Evidence). e.chunk_id) evidence)))
      invalid_scope
  check_items s.base m evidence
  raise_if (any (λ (e : Evidence). any (is_row m.id e.chunk_id) s.evidence) evidence)
      integrity_error
  ok (tt, record s { evidence = s.evidence ++ map (evidence_row m) evidence })

unfoldable pub citation_rows : Message → (index : ℕ) → List DraftCitation → List Citation
citation_rows m index [] = []
citation_rows m index (c ∷ cs) =
    record {
      message_id = m.id;
      chunk_id = c.chunk_id;
      course_id = m.course_id;
      ordinal = index;
      quote = c.quote;
    }
    ∷ citation_rows m (suc index) cs

-- `fk_citations_evidence`: the chunk was retrieved for the message in its course
abbrev pub was_retrieved : List RetrievedEvidence → Message → DraftCitation → Bool
was_retrieved evidence m c =
    any (λ r. is_row m.id c.chunk_id r && r.course_id == m.course_id) evidence

-- a citation that a new one would collide with, by its chunk or its ordinal
abbrev pub collides : Message → List DraftCitation → Citation → Bool
collides m cs old =
    old.message_id == m.id
    && (any (λ (c : DraftCitation). c.chunk_id == old.chunk_id) cs || ltb old.ordinal (length cs))

-- The constraints of the citations that are written: the foreign key, and the two unique ones.
abbrev pub citations_fit : ConversationStore → Message → List DraftCitation → Bool
citations_fit s m cs =
    all (was_retrieved s.evidence m) cs
    && distinct (map (λ (c : DraftCitation). c.chunk_id) cs)
    && not (any (collides m cs) s.citations)

abbrev pub answered : (now : Time) → TutorDraft → Message → Message
answered now draft m = record m {
  answer = some draft.answer;
  mode = some draft.mode;
  grounded = some draft.grounded;
  state = completed;
  completed_at = some now;
}

-- the columns of a draft's intervention
abbrev pub with_intervention : Option TutorIntervention → Message → Message
with_intervention none m = m
with_intervention (some v) m = record m {
  intervention = some v;
  contract_version = some v.version;
  situation = some v.situation;
  help_level = some (help_level v);
}

-- `ConversationService.complete`
unfoldable pub complete :
    (now : Time)
    → Uuid
    → TutorDraft
    → ConversationStore
    → Result ServiceError (Unit × ConversationStore)
complete now message_id draft s = do
  m ← open_message now message_id s.messages
  raise_if (not (citations_fit s m draft.citations)) integrity_error
  ok (
    tt,
    record s {
      citations = s.citations ++ citation_rows m 0 draft.citations;
      messages =
          update_where (is_open now message_id)
            (λ x. with_intervention draft.intervention (answered now draft x)) s.messages;
    },
  )

-- `ConversationService.fail`
unfoldable pub fail : (now : Time) → Uuid → String → ConversationStore → ConversationStore
fail now message_id code s = record s {
  messages =
      update_where (λ m. m.id == message_id && is_pending m.state) (failed_message now code)
        s.messages;
}

-- `ConversationService.expire`
unfoldable pub expire : Time → ConversationStore → ConversationStore
expire now s = expire_in now none s
