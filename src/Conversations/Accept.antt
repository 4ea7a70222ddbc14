-- ===== src/Conversations/Accept.antt =====
-- conversations.py: `ConversationService.accept`.
use docta.Prelude.{
  ℕ, ◌+◌, Bool, true, false, not, ◌&&◌, Option, none, some, [], ◌∷◌, ◌++◌, String, Result, ok,
  ◌>>=◌, ◌>>◌, raise_if, if◌then◌else◌, any, find, update_where, is_empty, is_none, ◌==◌, ◌!=◌,
  nat_eq, string_eq, option_eq, list_eq,
}
use docta.Identity.{AuthenticatedIdentity}
use docta.Models.{Uuid, Time, seconds}
use docta.Text.{Text}
use docta.Contract.{sized}
use docta.Rag.{TurnKind, Intent, prompt_version}
use docta.Conversations.Rows.{pending, Conversation, Message, ConversationStore, is_pending}
use docta.Conversations.Requests.{
  ServiceError, api_error, integrity_error, is_action, idempotency_key,
}
use docta.Conversations.Views.{MessageView, view}
use docta.Conversations.Access.{owned, expire_in}
use docta.Conversations.Turns.{active_corpus, Turn, turn_of}

pub record AcceptedMessage : Type 0 where
  pub message : MessageView
  pub created : Bool
  pub owner_user_id : Uuid
  pub correlation_id : String

-- What the service is made with.
pub record ServiceSettings : Type 0 where
  pub model_version : String
  pub retrieval_version : String
  pub message_timeout_seconds : ℕ

-- PostgreSQL's `btrim`, which removes spaces alone
unfoldable pub ltrim : Text → Text
ltrim [] = []
ltrim (c ∷ t) = if c == 32 then ltrim t else c ∷ t

unfoldable pub rtrim : Text → Text
rtrim [] = []
rtrim (c ∷ t) = let rest = rtrim t in if is_empty rest && c == 32 then [] else c ∷ rest

-- the constraints `ck_messages_question` and `ck_messages_parent`
unfoldable pub row_checks : Message → Bool
row_checks m =
    sized 1 4000 (rtrim (ltrim m.question))
    && (if is_action m.kind then not (is_none m.parent_message_id) else is_none m.parent_message_id)

abbrev pub has_key : Uuid → Text → Message → Bool
has_key conversation_id key m = m.conversation_id == conversation_id && m.idempotency_key == key

abbrev pub is_open_in : Uuid → Message → Bool
is_open_in conversation_id m = m.conversation_id == conversation_id && is_pending m.state

unfoldable pub new_message :
    ServiceSettings
    → (id : Uuid) (now : Time) → Conversation
    → Option Uuid
    → (text key : Text) (correlation_id : String) → Turn
    → Option Uuid
    → Message
new_message settings id now c corpus_id text key correlation_id t parent_id = record {
  id = id;
  course_id = c.course_id;
  conversation_id = c.id;
  corpus_version_id = corpus_id;
  sequence = c.next_sequence;
  idempotency_key = key;
  question = text;
  state = pending;
  answer = none;
  mode = none;
  grounded = none;
  failure_code = none;
  correlation_id = correlation_id;
  prompt_version = prompt_version;
  retrieval_config_version = settings.retrieval_version;
  model_version = settings.model_version;
  kind = t.kind;
  intent = t.intent;
  parent_message_id = parent_id;
  retrieval_query = t.retrieval_query;
  query_version = t.query_version;
  intervention = none;
  contract_version = none;
  situation = none;
  help_level = none;
  created_at = now;
  deadline_at = now + seconds settings.message_timeout_seconds;
  completed_at = none;
}

-- `conversation.next_sequence += 1; session.add(message); session.flush()`
unfoldable pub append_message : Message → Uuid → ConversationStore → ConversationStore
append_message m conversation_id s = record s {
  conversations =
      update_where (λ c. c.id == conversation_id)
        (λ c. record c { next_sequence = c.next_sequence + 1 }) s.conversations;
  messages = s.messages ++ m ∷ [];
}

-- `if existing is not None`
unfoldable pub replay :
    Conversation
    → Message
    → (text : Text) → ConversationStore
    → Result ServiceError (AcceptedMessage × ConversationStore)
replay c existing text s = do
  raise_if (existing.question != text) (
      api_error 409 "idempotency_key_reused"
        "The key has already been used for a different question.")
  v ← view s existing
  ok (
    record {
      message = v;
      created = false;
      owner_user_id = c.owner_user_id;
      correlation_id = existing.correlation_id;
    },
    s,
  )

module _ (lower : Text → Text) (is_word : ℕ → Bool) (settings : ServiceSettings) (id : Uuid)
    (now : Time) where
  -- from `message = Message(…)` on
  unfoldable pub insert_turn :
      Conversation
      → (text key : Text) (correlation_id : String) → Option Uuid
      → ConversationStore
      → Turn
      → Result ServiceError (AcceptedMessage × ConversationStore)
  insert_turn c text key correlation_id parent_id s t =
      let m =
        new_message settings id now c (active_corpus s.base c.course_id) text key correlation_id t
          parent_id in
      let s' = append_message m c.id s in
      do
        raise_if (not (row_checks m)) integrity_error
        v ← view s' m
        ok (
          record {
            message = v;
            created = true;
            owner_user_id = c.owner_user_id;
            correlation_id = correlation_id;
          },
          s',
        )

  -- from the test for a pending message on
  unfoldable pub accept_new :
      Conversation
      → (text key : Text) (correlation_id : String) → TurnKind
      → Option Intent
      → Option Uuid
      → ConversationStore
      → Result ServiceError (AcceptedMessage × ConversationStore)
  accept_new c text key correlation_id kind intent parent_id s = do
    raise_if (any (is_open_in c.id) s.messages)
        (api_error 409 "conversation_busy" "A question is already pending.")
    t ← turn_of lower is_word c s.messages text kind intent parent_id
    insert_turn c text key correlation_id parent_id s t

  -- `accept` in a conversation whose row is locked, once overdue messages have failed
  unfoldable pub accept_in :
      Conversation
      → (text key : Text) (correlation_id : String) → TurnKind
      → Option Intent
      → Option Uuid
      → ConversationStore
      → Result ServiceError (AcceptedMessage × ConversationStore)
  accept_in c text key correlation_id kind intent parent_id s =
      elim (find (has_key c.id key) s.messages) [
        | some existing ↦ replay c existing text s
        | none ↦ accept_new c text key correlation_id kind intent parent_id s
      ]

  -- `ConversationService.accept`, one transaction
  unfoldable pub accept :
      AuthenticatedIdentity
      → (conversation_id : Uuid) (text : Text) (header : Option Text) (correlation_id : String)
      → TurnKind
      → Option Intent
      → Option Uuid
      → ConversationStore
      → Result ServiceError (AcceptedMessage × ConversationStore)
  accept who conversation_id text header correlation_id kind intent parent_id s = do
    key ← idempotency_key header
    c ← owned s who conversation_id
    accept_in c text key correlation_id kind intent parent_id
        (expire_in now (some conversation_id) s)
