-- ===== src/Conversations/Changes.antt =====
-- What a transaction does to the messages, in two elementary changes: pending messages settle, or a
-- new message is appended.
use docta.Prelude.{
  ◌≡◌, Bool, true, false, none, some, List, ◌++◌, any, find, update_where, nat_eq, list_eq,
}
use docta.Conversations.Rows.{
  Message, Conversation, ConversationStore, is_pending, terminal_payload,
}
use docta.Conversations.Access.{conversation_by}
use docta.Conversations.Accept.{is_open_in, has_key, append_message}

-- The columns that identify a message do not change.
pub record IsSame (m m' : Message) : Type 0 where
  pub id : m'.id ≡ m.id
  pub conversation : m'.conversation_id ≡ m.conversation_id
  pub sequence : m'.sequence ≡ m.sequence
  pub key : m'.idempotency_key ≡ m.idempotency_key
  pub question : m'.question ≡ m.question

-- A pending message settles: it is answered, or it fails.
pub record Settles (m m' : Message) : Type 0 where
  pub was_pending : is_pending m.state ≡ true
  pub is_settled : is_pending m'.state ≡ false
  pub payload : terminal_payload m ≡ true → terminal_payload m' ≡ true
  pub same : IsSame m m'

-- One change of the store.
pub data Change (s s' : ConversationStore) : Type 0 where
  settled :
      (p : Message → Bool) (f : Message → Message)
      → ((m : Message) → p m ≡ true → Settles m (f m))
      → s'.messages ≡ update_where p f s.messages
      → s'.conversations ≡ s.conversations
      → s'.base ≡ s.base
      → Change s s'
  appended :
      (c : Conversation) (m : Message)
      → conversation_by c.id s.conversations ≡ some c
      → find (has_key c.id m.idempotency_key) s.messages ≡ none
      → any (is_open_in c.id) s.messages ≡ false
      → m.conversation_id ≡ c.id
      → m.sequence ≡ c.next_sequence
      → terminal_payload m ≡ true
      → s' ≡ append_message m c.id s
      → Change s s'
  untouched :
      s'.messages ≡ s.messages → s'.conversations ≡ s.conversations → s'.base ≡ s.base → Change s s'
  created :
      (more : List Conversation)
      → s'.conversations ≡ s.conversations ++ more
      → s'.messages ≡ s.messages
      → s'.base ≡ s.base
      → Change s s'

-- The changes of one or more transactions.
pub data Changes (s : ConversationStore) : ConversationStore → Type 0 where
  done : Changes s s
  then_change : {t u : ConversationStore} → Changes s t → Change t u → Changes s u

pub join-Changes : {s t u : ConversationStore} → Changes s t → Changes t u → Changes s u
join-Changes before done = before
join-Changes before (then_change later c) = then_change (join-Changes before later) c
