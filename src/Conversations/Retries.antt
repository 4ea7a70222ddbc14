-- ===== src/Conversations/Retries.antt =====
-- A client that repeats a question under its idempotency key gets the message it made before.
use docta.Prelude.{
  ℕ, ◌≡◌, refl, Bool, true, false, not, Option, none, some, is_some, List, [], ◌∷◌, ◌++◌, ap, ◌∙◌,
  arith, String, ok, >>=-eq-ok, raise_if->>-ok, find, inl, inr, Bool-cases, ◌==◌, eq_self, nat_eq,
  string_eq, list_eq,
}
use docta.Models.{Uuid, Time}
use docta.Text.{Text}
use docta.Contract.{Mode}
use docta.Conversations.Rows.{
  Message, Conversation, ConversationStore, terminal_payload, is_completed,
}
use docta.Conversations.Requests.{integrity_error}
use docta.Conversations.Views.{
  MessageView, message_view, AnswerView, view, answer_view, citations_of, response_of,
}
use docta.Conversations.Turns.{Turn, active_corpus}
use docta.Conversations.Accept.{
  AcceptedMessage, ServiceSettings, has_key, new_message, append_message, row_checks, replay,
  insert_turn,
}

value_of {ℓ} : {A : Type ℓ} (o : Option A) → is_some o ≡ true → (a : A) × (o ≡ some a)
value_of none h = cc
value_of (some a) h = (a, refl)

answer_view_ok :
    (s : ConversationStore) (m : Message) {mode : Mode} {answer : Text} {grounded : Bool}
    → m.mode ≡ some mode
    → m.answer ≡ some answer
    → m.grounded ≡ some grounded
    → (v : AnswerView) × (answer_view s m ≡ ok v)
unfolding answer_view
answer_view_ok s m {mode} {answer} {grounded} em ea eg = (
  record {
    mode = mode;
    answer = answer;
    grounded = grounded;
    citations = citations_of s m;
    intervention = m.intervention;
  },
  rw (em, ea, eg) refl,
)

response_of_ok :
    (s : ConversationStore) (m : Message)
    → terminal_payload m ≡ true
    → (r : Option AnswerView) × (response_of s m ≡ ok r)
unfolding response_of terminal_payload
response_of_ok s m h = elim (Bool-cases (is_completed m.state)) [
  | inr e ↦ (none, rw e refl)
  | inl e ↦
      let (mode, has_mode) = value_of m.mode (ground arith) in
      let (answer, has_answer) = value_of m.answer (ground arith) in
      let (grounded, has_grounded) = value_of m.grounded (ground arith) in
      let (v, shown) = answer_view_ok s m has_mode has_answer has_grounded in
      (some v, rw (e, shown) refl)
]

-- A message with the columns of its state can be shown.
pub view_ok :
    (s : ConversationStore) (m : Message)
    → terminal_payload m ≡ true
    → (v : MessageView) × (view s m ≡ ok v)
unfolding view
view_ok s m h = let (r, e) = response_of_ok s m h in (message_view m r, rw e refl)

pub view_fields :
    (s : ConversationStore) (m : Message) {v : MessageView}
    → view s m ≡ ok v
    → (v.id ≡ m.id) × (v.sequence ≡ m.sequence)
unfolding view
view_fields s m h = ground arith

find-snoc :
    (q : Message → Bool) (ms : List Message) (m : Message)
    → find q ms ≡ none
    → q m ≡ true
    → find q (ms ++ m ∷ []) ≡ some m
find-snoc q [] m e h = rw h refl
find-snoc q (n ∷ ms) m e h = ground (arith, find-snoc q ms m)

-- What stands in the store after a question was accepted.
pub record IsAccepted (c : Conversation) (key text : Text) (r : AcceptedMessage)
    (s : ConversationStore) : Type 0 where
  pub row : Message
  pub found : find (has_key c.id key) s.messages ≡ some row
  pub question : row.question ≡ text
  pub id : r.message.id ≡ row.id
  pub sequence : r.message.sequence ≡ row.sequence

abbrev pub replayed : Conversation → Message → MessageView → AcceptedMessage
replayed c m v = record {
  message = v;
  created = false;
  owner_user_id = c.owner_user_id;
  correlation_id = m.correlation_id;
}

pub replay_ok :
    (c : Conversation) (m : Message) (text : Text) (s : ConversationStore) {v : MessageView}
    → m.question ≡ text
    → view s m ≡ ok v
    → replay c m text s ≡ ok (replayed c m v, s)
unfolding replay
replay_ok c m text s same shown =
    let equal : (m.question == text) ≡ true = (list_eq.same_iff m.question text).1 same in
    rw (equal, shown) refl

pub replay-IsAccepted :
    (c : Conversation) (m : Message) (key text : Text) (s : ConversationStore) {r : AcceptedMessage}
    {s' : ConversationStore}
    → find (has_key c.id key) s.messages ≡ some m
    → replay c m text s ≡ ok (r, s')
    → IsAccepted c key text r s'
unfolding replay
replay-IsAccepted c m key text s {r} {s'} found h = elim (Bool-cases (m.question == text)) [
  | inr other ↦ let h' = rw other at h in ground arith
  | inl equal ↦
      let (v, shown, h₁) = >>=-eq-ok (view s m) _ (rw equal at h) in
      let store : s' ≡ s = ground arith in
      let (id, sequence) = view_fields s m shown in
      let message : r.message ≡ v = ground arith in
      record {
        row = m;
        found = rw store found;
        question = (list_eq.same_iff m.question text).0 equal;
        id = ap (λ (x : MessageView). x.id) message ∙ id;
        sequence = ap (λ (x : MessageView). x.sequence) message ∙ sequence;
      }
]

pub insert_turn-IsAccepted :
    (lower : Text → Text) (is_word : ℕ → Bool) (settings : ServiceSettings) (id : Uuid) (now : Time)
    (c : Conversation) (text key : Text) (correlation_id : String) (parent_id : Option Uuid)
    (s : ConversationStore) (t : Turn) {r : AcceptedMessage} {s' : ConversationStore}
    → find (has_key c.id key) s.messages ≡ none
    → insert_turn lower is_word settings id now c text key correlation_id parent_id s t ≡ ok (r, s')
    → IsAccepted c key text r s'
unfolding insert_turn new_message append_message
insert_turn-IsAccepted lower is_word settings id now c text key correlation_id parent_id s t {r}
      {s'} fresh h =
    let m =
      new_message settings id now c (active_corpus s.base c.course_id) text key correlation_id t
        parent_id in
    let t' = append_message m c.id s in
    let (_, h₁) = raise_if->>-ok (not (row_checks m)) integrity_error _ h in
    let (v, shown, h₂) = >>=-eq-ok (view t' m) _ h₁ in
    let store : s' ≡ t' = ground arith in
    let (same_id, same_sequence) = view_fields t' m shown in
    let message : r.message ≡ v = ground arith in
    record {
      row = m;
      found =
          rw store
            (find-snoc (has_key c.id key) s.messages m fresh (rw (eq_self c.id, eq_self key) refl));
      question = refl;
      id = ap (λ (x : MessageView). x.id) message ∙ same_id;
      sequence = ap (λ (x : MessageView). x.sequence) message ∙ same_sequence;
    }
