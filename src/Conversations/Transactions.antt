-- ===== src/Conversations/Transactions.antt =====
-- What the service's transactions change, as elementary changes.
use docta.Prelude.{
  ℕ, ◌≡◌, refl, true, ◌&&◌, Option, none, some, List, [], ◌∷◌, ◌++◌, sym, ◌∙◌, ◌⊎◌, arith, String,
  ok, >>=-eq-ok, any, nat_eq, list_eq, inl, inr, Bool-cases, ◌==◌,
}
use mathlib.Core.Path.{subst}
use docta.Identity.{AuthenticatedIdentity}
use docta.Models.{Uuid, Time}
use docta.Text.{Text}
use docta.Contract.{TutorIntervention}
use docta.Rag.{TutorDraft, Evidence}
use docta.Conversations.Rows.{
  Message, Conversation, ConversationStore, is_pending, terminal_payload,
}
use docta.Conversations.Requests.{idempotency_key}
use docta.Conversations.Views.{MessageView}
use docta.Conversations.Reads.{HistoryView, history, read}
use docta.Conversations.Access.{
  ConversationView, member, same_creation, create, insert_conversation, is_overdue, failed_message,
  expire_in, new_conversation,
}
use docta.Conversations.Accept.{AcceptedMessage}
use docta.Conversations.Outcomes.{
  is_open, answered, with_intervention, complete, fail, save_evidence,
}
use docta.Conversations.Changes.{Settles, Change, settled, created, untouched}

failed_message-Settles :
    (now : Time) (code : String) (m : Message)
    → is_pending m.state ≡ true
    → Settles m (failed_message now code m)
unfolding terminal_payload
failed_message-Settles now code m waits = record {
  was_pending = waits;
  is_settled = refl;
  payload = λ h. ground arith;
  same = record { id = refl; conversation = refl; sequence = refl; key = refl; question = refl };
}

answered-Settles :
    (now : Time) (draft : TutorDraft) (v : Option TutorIntervention) (m : Message)
    → is_pending m.state ≡ true
    → Settles m (with_intervention v (answered now draft m))
unfolding terminal_payload
answered-Settles now draft none m waits = record {
  was_pending = waits;
  is_settled = refl;
  payload = λ h. ground arith;
  same = record { id = refl; conversation = refl; sequence = refl; key = refl; question = refl };
}
answered-Settles now draft (some v) m waits = record {
  was_pending = waits;
  is_settled = refl;
  payload = λ h. ground arith;
  same = record { id = refl; conversation = refl; sequence = refl; key = refl; question = refl };
}

overdue-pending :
    (now : Time) (scope : Option Uuid) (m : Message)
    → is_overdue now scope m ≡ true
    → is_pending m.state ≡ true
overdue-pending now none m h = ground arith
overdue-pending now (some id) m h = ground arith

-- Expiry fails the overdue messages.
pub expire_in-Change :
    (now : Time) (scope : Option Uuid) (s : ConversationStore) → Change s (expire_in now scope s)
unfolding expire_in
expire_in-Change now scope s =
    settled (is_overdue now scope) (failed_message now "PROCESSING_INTERRUPTED")
      (λ m h. failed_message-Settles now _ m (overdue-pending now scope m h)) refl refl refl

pub fail-Change :
    (now : Time) (id : Uuid) (code : String) (s : ConversationStore) → Change s (fail now id code s)
unfolding fail
fail-Change now id code s =
    settled (λ m. m.id == id && is_pending m.state) (failed_message now code)
      (λ m h. failed_message-Settles now code m (ground arith)) refl refl refl

pub complete-Change :
    (now : Time) (id : Uuid) (draft : TutorDraft) (s : ConversationStore) {r : Unit}
    {s' : ConversationStore}
    → complete now id draft s ≡ ok (r, s')
    → Change s s'
unfolding complete
complete-Change now id draft s {r} {s'} h =
    settled (is_open now id) (λ x. with_intervention draft.intervention (answered now draft x))
      (λ m waits. answered-Settles now draft draft.intervention m (ground arith)) (ground arith)
      (ground arith) (ground arith)

pub save_evidence-Change :
    (now : Time) (a : AcceptedMessage) (evidence : List Evidence) (s : ConversationStore) {r : Unit}
    {s' : ConversationStore}
    → save_evidence now a evidence s ≡ ok (r, s')
    → Change s s'
unfolding save_evidence
save_evidence-Change now a evidence s h = untouched (ground arith) (ground arith) (ground arith)

insert_conversation-cases :
    (c : Conversation) (cs : List Conversation)
    → (insert_conversation c cs ≡ cs) ⊎ (insert_conversation c cs ≡ cs ++ c ∷ [])
unfolding insert_conversation
insert_conversation-cases c cs =
    elim (Bool-cases (any (same_creation c.course_id c.owner_user_id c.idempotency_key) cs)) [
      | inl e ↦ inl (rw e refl)
      | inr e ↦ inr (rw e refl)
    ]

pub create-Change :
    (id : Uuid) (now : Time) (who : AuthenticatedIdentity) (course_id : Uuid) (header : Option Text)
    (s : ConversationStore) {r : ConversationView} {s' : ConversationStore}
    → create id now who course_id header s ≡ ok (r, s')
    → Change s s'
unfolding create
create-Change id now who course_id header s {r} {s'} h =
    let (key, _, h₁) = >>=-eq-ok (idempotency_key header) _ h in
    let (user_id, _, h₂) = >>=-eq-ok (member s.base who course_id) _ h₁ in
    let new = new_conversation id now course_id user_id key in
    let conversations : s'.conversations ≡ insert_conversation new s.conversations = ground arith in
    let messages : s'.messages ≡ s.messages = ground arith in
    let base : s'.base ≡ s.base = ground arith in
    elim (insert_conversation-cases new s.conversations) [
      | inl old ↦ untouched messages (conversations ∙ old) base
      | inr fresh ↦ created (new ∷ []) (conversations ∙ fresh) messages base
    ]

pub history-Change :
    (now : Time) (who : AuthenticatedIdentity) (conversation_id : Uuid) (after limit : ℕ)
    (s : ConversationStore) {r : HistoryView} {s' : ConversationStore}
    → history now who conversation_id after limit s ≡ ok (r, s')
    → Change s s'
unfolding history
history-Change now who conversation_id after limit s {r} {s'} h =
    let same : s' ≡ expire_in now (some conversation_id) s = ground arith in
    subst (Change s) (sym same) (expire_in-Change now (some conversation_id) s)

pub read-Change :
    (now : Time) (who : AuthenticatedIdentity) (conversation_id message_id : Uuid)
    (s : ConversationStore) {r : MessageView} {s' : ConversationStore}
    → read now who conversation_id message_id s ≡ ok (r, s')
    → Change s s'
unfolding read
read-Change now who conversation_id message_id s {r} {s'} h =
    let same : s' ≡ expire_in now (some conversation_id) s = ground arith in
    subst (Change s) (sym same) (expire_in-Change now (some conversation_id) s)
