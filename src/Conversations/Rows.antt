-- ===== src/Conversations/Rows.antt =====
-- conversation_models.py: a conversation, its messages, and the evidence and citations of an answer.
use docta.Prelude.{ℕ, Bool, true, false, Option, ◌&&◌, ◌||◌, List, String, is_none, is_some}
use docta.Models.{Uuid, Time}
use docta.Text.{Text}
use docta.Contract.{Mode, Situation, ContractVersion, TutorIntervention}
use docta.Rag.{TurnKind, Intent}
use docta.Store.{Store}

pub data MessageState : Type 0 where
  pending completed failed : MessageState

pub record Conversation : Type 0 where
  pub id : Uuid
  pub course_id : Uuid
  pub owner_user_id : Uuid
  pub idempotency_key : Text
  pub next_sequence : ℕ
  pub created_at : Time

pub record Message : Type 0 where
  pub id : Uuid
  pub course_id : Uuid
  pub conversation_id : Uuid
  pub corpus_version_id : Option Uuid
  pub sequence : ℕ
  pub idempotency_key : Text
  pub question : Text
  pub state : MessageState
  pub answer : Option Text
  pub mode : Option Mode
  pub grounded : Option Bool
  pub failure_code : Option String
  pub correlation_id : String
  pub prompt_version : String
  pub retrieval_config_version : String
  pub model_version : String
  pub kind : TurnKind
  pub intent : Option Intent
  pub parent_message_id : Option Uuid
  pub retrieval_query : Option Text
  pub query_version : Option String
  pub intervention : Option TutorIntervention
  pub contract_version : Option ContractVersion
  pub situation : Option Situation
  pub help_level : Option ℕ
  pub created_at : Time
  pub deadline_at : Time
  pub completed_at : Option Time

pub record RetrievedEvidence : Type 0 where
  pub message_id : Uuid
  pub chunk_id : Uuid
  pub course_id : Uuid
  pub corpus_version_id : Uuid
  pub document_version_id : Uuid
  pub document_title : Text
  pub document_sha256 : String
  pub page_start : ℕ
  pub page_end : ℕ
  pub fragment : Text
  pub content : Text
  pub content_hash : String

pub record Citation : Type 0 where
  pub message_id : Uuid
  pub chunk_id : Uuid
  pub course_id : Uuid
  pub ordinal : ℕ
  pub quote : Text

-- The tables of the conversations beside those of the other services.
pub record ConversationStore : Type 0 where
  pub base : Store
  pub conversations : List Conversation
  pub messages : List Message
  pub evidence : List RetrievedEvidence
  pub citations : List Citation

-- Equality of states, as the program's `==` tests it.
abbrev pub is_pending : MessageState → Bool
is_pending pending = true
is_pending _ = false

abbrev pub is_completed : MessageState → Bool
is_completed completed = true
is_completed _ = false

abbrev pub is_failed : MessageState → Bool
is_failed failed = true
is_failed _ = false

-- the constraint `ck_messages_terminal_payload`
unfoldable pub terminal_payload : Message → Bool
terminal_payload m =
    (is_pending m.state
      && is_none m.answer
      && is_none m.mode
      && is_none m.grounded
      && is_none m.failure_code
      && is_none m.completed_at)
    || (is_failed m.state
        && is_none m.answer
        && is_none m.mode
        && is_none m.grounded
        && is_some m.failure_code
        && is_some m.completed_at)
    || (is_completed m.state
        && is_some m.answer
        && is_some m.mode
        && is_some m.grounded
        && is_none m.failure_code
        && is_some m.completed_at)
