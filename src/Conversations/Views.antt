-- ===== src/Conversations/Views.antt =====
-- conversations.py: the views that the service returns, and `ConversationService._view`.
use docta.Prelude.{
  ℕ, Bool, ◌&&◌, Option, none, some, List, [], ◌∷◌, String, Result, ok, ◌>>=◌, or_raise,
  if◌then◌else◌, leb, find, filter, sort_by, ◌==◌, nat_eq, string_eq,
}
use docta.Models.{Uuid, Time}
use docta.Text.{Text}
use docta.Contract.{Mode, TutorIntervention}
use docta.Rag.{TurnKind, Intent}
use docta.Conversations.Rows.{
  MessageState, Message, RetrievedEvidence, Citation, ConversationStore, is_completed,
}
use docta.Conversations.Requests.{ServiceError, validation_error}

pub record CitationView : Type 0 where
  pub chunk_id : Uuid
  pub document_version_id : Uuid
  pub document_title : Text
  pub document_sha256 : String
  pub page : ℕ
  pub page_end : ℕ
  pub fragment : Text
  pub content_hash : String
  pub quote : Text

pub record AnswerView : Type 0 where
  pub mode : Mode
  pub answer : Text
  pub grounded : Bool
  pub citations : List CitationView
  pub intervention : Option TutorIntervention

pub record MessageView : Type 0 where
  pub id : Uuid
  pub course_id : Uuid
  pub conversation_id : Uuid
  pub corpus_version_id : Option Uuid
  pub sequence : ℕ
  pub question : Text
  pub state : MessageState
  pub response : Option AnswerView
  pub failure_code : Option String
  pub failure_message : Option String
  pub created_at : Time
  pub completed_at : Option Time
  pub kind : TurnKind
  pub intent : Option Intent
  pub parent_message_id : Option Uuid

abbrev pub citation_view : Citation → RetrievedEvidence → CitationView
citation_view c e = record {
  chunk_id = e.chunk_id;
  document_version_id = e.document_version_id;
  document_title = e.document_title;
  document_sha256 = e.document_sha256;
  page = e.page_start;
  page_end = e.page_end;
  fragment = e.fragment;
  content_hash = e.content_hash;
  quote = c.quote;
}

abbrev pub is_source : Citation → RetrievedEvidence → Bool
is_source c e =
    e.message_id == c.message_id && e.chunk_id == c.chunk_id && e.course_id == c.course_id

-- the join of citations with their evidence; a citation has one source at most, by its key
unfoldable pub cited : List RetrievedEvidence → List Citation → List CitationView
cited evidence [] = []
cited evidence (c ∷ cs) =
    let rest = cited evidence cs in
    elim (find (is_source c) evidence) [ some e ↦ citation_view c e ∷ rest | none ↦ rest ]

unfoldable pub citations_of : ConversationStore → Message → List CitationView
citations_of s m = cited s.evidence (
    sort_by (λ a b. leb a.ordinal b.ordinal)
      (filter (λ (c : Citation). c.message_id == m.id) s.citations))

-- `AnswerView(…)` refuses a missing field.
unfoldable pub answer_view : ConversationStore → Message → Result ServiceError AnswerView
answer_view s m = do
  mode ← or_raise m.mode validation_error
  answer ← or_raise m.answer validation_error
  grounded ← or_raise m.grounded validation_error
  ok (record {
    mode = mode;
    answer = answer;
    grounded = grounded;
    citations = citations_of s m;
    intervention = m.intervention;
  })

unfoldable pub response_of : ConversationStore → Message → Result ServiceError (Option AnswerView)
response_of s m = if is_completed m.state then (do v ← answer_view s m; ok (some v)) else ok none

abbrev pub failure_message : Option String → Option String
failure_message none = none
failure_message (some code) =
    if code == ""
    then none
    else some "No se pudo completar la respuesta. La pregunta está guardada."

abbrev pub message_view : Message → Option AnswerView → MessageView
message_view m response = record {
  id = m.id;
  course_id = m.course_id;
  conversation_id = m.conversation_id;
  corpus_version_id = m.corpus_version_id;
  sequence = m.sequence;
  question = m.question;
  state = m.state;
  response = response;
  failure_code = m.failure_code;
  failure_message = failure_message m.failure_code;
  created_at = m.created_at;
  completed_at = m.completed_at;
  kind = m.kind;
  intent = m.intent;
  parent_message_id = m.parent_message_id;
}

-- `ConversationService._view`
unfoldable pub view : ConversationStore → Message → Result ServiceError MessageView
view s m = do response ← response_of s m; ok (message_view m response)
