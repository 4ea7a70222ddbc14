-- ===== src/Conversations/Access.antt =====
-- conversations.py: who may use a conversation, `create`, and `_expire`. An id that is drawn
-- (`uuid4`) and the clock's reading are arguments.
use docta.Prelude.{
  Bool, not, ◌&&◌, Option, none, some, List, [], ◌∷◌, ◌++◌, String, Result, ok, ◌>>=◌, ◌>>◌,
  raise_if, or_raise, if◌then◌else◌, leb, any, find, find_by, update_where, ◌==◌, nat_eq, string_eq,
  option_eq, list_eq,
}
use docta.Identity.{AuthenticatedIdentity, is_identity}
use docta.Models.{Uuid, Time, User, CourseMembership}
use docta.Text.{Text}
use docta.Store.{Store}
use docta.Conversations.Rows.{failed, Conversation, Message, ConversationStore, is_pending}
use docta.Conversations.Requests.{ServiceError, integrity_error, idempotency_key, not_found}

abbrev pub is_member_of : Store → Uuid → User → Bool
is_member_of s course_id u =
    any (λ (m : CourseMembership). m.user_id == u.id && m.course_id == course_id) s.memberships

-- `_member`
unfoldable pub member : Store → AuthenticatedIdentity → Uuid → Result ServiceError Uuid
member s who course_id = do
  user ← or_raise (find (λ u. is_identity who u && is_member_of s course_id u) s.users) not_found
  ok user.id

abbrev pub conversation_by : Uuid → List Conversation → Option Conversation
conversation_by = find_by (λ (c : Conversation). c.id)

abbrev pub is_owner : Store → AuthenticatedIdentity → Conversation → User → Bool
is_owner s who c u = u.id == c.owner_user_id && is_identity who u && is_member_of s c.course_id u

-- `_owned`: the row with the primary key, if the identity owns it and is a member of its course
unfoldable pub owned :
    ConversationStore → AuthenticatedIdentity → Uuid → Result ServiceError Conversation
owned s who conversation_id = do
  c ← or_raise (conversation_by conversation_id s.conversations) not_found
  raise_if (not (any (is_owner s.base who c) s.base.users)) not_found
  ok c

abbrev pub same_creation : Uuid → Uuid → Text → Conversation → Bool
same_creation course_id user_id key c =
    c.course_id == course_id && c.owner_user_id == user_id && c.idempotency_key == key

abbrev pub new_conversation : (id : Uuid) (now : Time) → Uuid → Uuid → Text → Conversation
new_conversation id now course_id user_id key = record {
  id = id;
  course_id = course_id;
  owner_user_id = user_id;
  idempotency_key = key;
  next_sequence = 1;
  created_at = now;
}

-- `on_conflict_do_nothing(constraint="uq_conversations_creation")`
unfoldable pub insert_conversation : Conversation → List Conversation → List Conversation
insert_conversation c cs =
    if any (same_creation c.course_id c.owner_user_id c.idempotency_key) cs
    then cs
    else cs ++ c ∷ []

pub record ConversationView : Type 0 where
  pub id : Uuid
  pub course_id : Uuid
  pub created_at : Time

-- `ConversationService.create`
unfoldable pub create :
    (id : Uuid) (now : Time)
    → AuthenticatedIdentity
    → Uuid
    → Option Text
    → ConversationStore
    → Result ServiceError (ConversationView × ConversationStore)
create id now who course_id header s = do
  key ← idempotency_key header
  user_id ← member s.base who course_id
  let cs = insert_conversation (new_conversation id now course_id user_id key) s.conversations
  c ← or_raise (find (same_creation course_id user_id key) cs) integrity_error
  ok (
    record { id = c.id; course_id = c.course_id; created_at = c.created_at },
    record s { conversations = cs },
  )

-- the WHERE clause of `_expire`; without a conversation it is about all of them
abbrev pub is_overdue : Time → Option Uuid → Message → Bool
is_overdue now none m = is_pending m.state && leb m.deadline_at now
is_overdue now (some id) m = is_pending m.state && leb m.deadline_at now && m.conversation_id == id

abbrev pub failed_message : (now : Time) → String → Message → Message
failed_message now code m = record m {
  state = failed;
  failure_code = some code;
  completed_at = some now;
}

-- `_expire`
unfoldable pub expire_in : Time → Option Uuid → ConversationStore → ConversationStore
expire_in now scope s = record s {
  messages =
      update_where (is_overdue now scope) (failed_message now "PROCESSING_INTERRUPTED") s.messages;
}
