-- ===== src/Conversations/Reads.antt =====
-- conversations.py: `history`, `read`, and `request`, which builds what the tutor model is asked.
use docta.Prelude.{
  ℕ, ◌+◌, ◌-◌, ◌&&◌, Option, none, some, List, [], ◌∷◌, ◌++◌, Result, ok, ◌>>=◌, or_raise,
  if◌then◌else◌, leb, ltb, find, find_by, filter, sort_by, length, take, get_elem?, is_none, ◌==◌,
  nat_eq, string_eq, option_eq, list_eq,
}
use mathlib.Core.Option
use docta.Identity.{AuthenticatedIdentity}
use docta.Models.{Uuid, Time}
use docta.Text.{Text}
use docta.Rag.{Evidence, HistoryTurn, TutorRequest}
use docta.Conversations.Rows.{Message, ConversationStore}
use docta.Conversations.Requests.{ServiceError, rag_failure, not_found}
use docta.Conversations.Views.{MessageView, view}
use docta.Conversations.Access.{owned, expire_in}
use docta.Conversations.Turns.{completed_before, is_followup}
use docta.Conversations.Accept.{AcceptedMessage}

pub record HistoryView : Type 0 where
  pub id : Uuid
  pub course_id : Uuid
  pub created_at : Time
  pub messages : List MessageView
  pub next_after_sequence : Option ℕ

unfoldable pub views : ConversationStore → List Message → Result ServiceError (List MessageView)
views s [] = ok []
views s (m ∷ ms) = do v ← view s m; vs ← views s ms; ok (v ∷ vs)

-- the page's rows: at most `limit + 1` messages after a sequence number, in order
unfoldable pub rows_after : Uuid → (after limit : ℕ) → List Message → List Message
rows_after conversation_id after limit messages = take (limit + 1) (
    sort_by (λ a b. leb a.sequence b.sequence)
      (filter (λ (m : Message). m.conversation_id == conversation_id && ltb after m.sequence)
        messages))

-- `messages[limit - 1].sequence if len(messages) > limit else None`; for a limit of 0 Python's index
-- -1 is the one row's, as 0 is
unfoldable pub next_after : (limit : ℕ) → List Message → Option ℕ
next_after limit rows =
    if ltb limit (length rows)
    then Option.map (λ (m : Message). m.sequence) (get_elem? rows (limit - 1))
    else none

-- `ConversationService.history`
unfoldable pub history :
    (now : Time)
    → AuthenticatedIdentity
    → Uuid
    → (after limit : ℕ) → ConversationStore
    → Result ServiceError (HistoryView × ConversationStore)
history now who conversation_id after limit s₀ = do
  c ← owned s₀ who conversation_id
  let s = expire_in now (some conversation_id) s₀
  let rows = rows_after conversation_id after limit s.messages
  shown ← views s (take limit rows)
  ok (
    record {
      id = c.id;
      course_id = c.course_id;
      created_at = c.created_at;
      messages = shown;
      next_after_sequence = next_after limit rows;
    },
    s,
  )

-- `ConversationService.read`
unfoldable pub read :
    (now : Time)
    → AuthenticatedIdentity
    → (conversation_id message_id : Uuid) → ConversationStore
    → Result ServiceError (MessageView × ConversationStore)
read now who conversation_id message_id s₀ = do
  c ← owned s₀ who conversation_id
  let s = expire_in now (some conversation_id) s₀
  m ←
      or_raise
        (find (λ (m : Message). m.id == message_id && m.conversation_id == conversation_id)
          s.messages)
        not_found
  v ← view s m
  ok (v, s)

abbrev pub answer_of : Message → Text
answer_of m = elim m.answer [ some t ↦ t | none ↦ [] ]

abbrev pub history_turn : Message → HistoryTurn
history_turn m = record {
  question = m.question;
  answer = answer_of m;
  situation = m.situation;
  help_level = elim m.help_level [ some n ↦ n | none ↦ 0 ];
}

-- The loop of `request`: the turns that are built, the latest first, while their text fits.
unfoldable pub turns_within : (remaining : ℕ) → List Message → List HistoryTurn
turns_within remaining [] = []
turns_within remaining (m ∷ ms) =
    let size = length m.question + length (answer_of m) in
    let rest = turns_within (remaining - size) ms in
    if ltb remaining size then [] else history_turn m ∷ rest

unfoldable pub reversed : List HistoryTurn → List HistoryTurn
reversed [] = []
reversed (t ∷ ts) = reversed ts ++ t ∷ []

-- `ConversationService.request`
unfoldable pub request :
    AcceptedMessage → List Evidence → ConversationStore → Result ServiceError TutorRequest
request accepted evidence s = do
  corpus_id ← or_raise accepted.message.corpus_version_id (rag_failure "COURSE_CORPUS_NOT_READY")
  m ←
      or_raise (find_by (λ (m : Message). m.id) accepted.message.id s.messages)
        (rag_failure "PROCESSING_INTERRUPTED")
  ok (record {
    scope = record {
      course_id = accepted.message.course_id;
      corpus_version_id = corpus_id;
      principal_user_id = accepted.owner_user_id;
      conversation_id = accepted.message.conversation_id;
      message_id = accepted.message.id;
      correlation_id = accepted.correlation_id;
    };
    question = accepted.message.question;
    evidence = evidence;
    history = reversed (
        turns_within 12000 (
          take 6 (
            completed_before accepted.message.conversation_id accepted.message.sequence
              s.messages)));
    turn_kind = m.kind;
    turn_intent = m.intent;
    retrieval_query = m.retrieval_query;
    needs_antecedent = is_followup m.kind && is_none m.retrieval_query;
  })
