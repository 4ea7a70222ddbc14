-- ===== src/Conversations/Turns.antt =====
-- conversations.py: what `accept` captures of the course and derives of a turn from earlier messages.
use docta.Prelude.{
  ℕ, Bool, true, false, ◌&&◌, Option, none, some, List, [], ◌∷◌, String, Result, ok, ◌>>=◌,
  or_raise, if◌then◌else◌, leb, ltb, any, find, filter, sort_by, is_empty, ◌==◌, nat_eq, string_eq,
  option_eq, list_eq,
}
use docta.Models.{Uuid, Course, CorpusVersion, is_ready}
use docta.Text.{Text}
use docta.Contract.{Mode, abstain, clarify}
use docta.Rag.{TurnKind, Intent}
use docta.Store.{Store}
use docta.Conversations.Rows.{Conversation, Message, is_completed}
use docta.Conversations.Requests.{ServiceError, api_error, detect_intent}

-- the active corpus of the course, if it is ready
abbrev pub is_active : Uuid → List Course → CorpusVersion → Bool
is_active course_id courses v =
    is_ready v.state
    && any
        (λ (c : Course).
          c.active_corpus_version_id == some v.id && c.id == v.course_id && c.id == course_id)
        courses

unfoldable pub active_corpus : Store → Uuid → Option Uuid
active_corpus s course_id = elim (find (is_active course_id s.courses) s.corpora) [
  | some v ↦ some v.id
  | none ↦ none
]

-- `value or other`: an empty text counts as none
abbrev pub or_text : Option Text → Text → Text
or_text none other = other
or_text (some value) other = if is_empty value then other else value

-- `mode in ("abstain", "clarify")`
abbrev pub teaches_nothing : Option Mode → Bool
teaches_nothing (some abstain) = true
teaches_nothing (some clarify) = true
teaches_nothing _ = false

abbrev pub is_parent : Uuid → Conversation → Message → Bool
is_parent id c m =
    m.id == id && m.conversation_id == c.id && m.course_id == c.course_id && is_completed m.state

-- the completed messages of a conversation before a sequence number, the latest first
unfoldable pub completed_before : Uuid → ℕ → List Message → List Message
completed_before conversation_id sequence messages =
    sort_by (λ a b. leb b.sequence a.sequence)
      (filter
        (λ (m : Message).
          m.conversation_id == conversation_id && ltb m.sequence sequence && is_completed m.state)
        messages)

-- `retrieval_query` and `query_version` that a turn takes from an earlier message
abbrev pub query_of : Message → Option Text × Option String
query_of m = (some (or_text m.retrieval_query m.question), some "antecedent-v1")

unfoldable pub antecedent_query : List Message → Option Text × Option String
antecedent_query [] = (none, none)
antecedent_query (m ∷ ms) = if teaches_nothing m.mode then (none, none) else query_of m

-- What `accept` derives of a turn.
pub record Turn : Type 0 where
  pub kind : TurnKind
  pub intent : Option Intent
  pub retrieval_query : Option Text
  pub query_version : Option String

abbrev pub turn : TurnKind → Option Intent → Option Text × Option String → Turn
turn kind intent (query, version) = record {
  kind = kind;
  intent = intent;
  retrieval_query = query;
  query_version = version;
}

abbrev pub is_followup : TurnKind → Bool
is_followup TurnKind.followup = true
is_followup _ = false

module _ (lower : Text → Text) (is_word : ℕ → Bool) where
  -- the three branches of `accept` on the kind of the turn
  unfoldable pub turn_of :
      Conversation
      → List Message
      → (text : Text) → TurnKind
      → Option Intent
      → (parent_id : Option Uuid) → Result ServiceError Turn
  turn_of c messages text TurnKind.action intent parent_id = do
    id ←
        or_raise parent_id
          (api_error 400 "invalid_parent_message" "Action turns require a parent message.")
    parent ←
        or_raise (find (is_parent id c) messages)
          (api_error 400 "invalid_parent_message" "Parent message is invalid or not completed.")
    ok (turn TurnKind.action intent (query_of parent))
  turn_of c messages text TurnKind.followup intent parent_id = ok (
      turn TurnKind.followup intent
        (antecedent_query (completed_before c.id c.next_sequence messages)))
  turn_of c messages text TurnKind.question intent parent_id =
      let (detected_kind, detected) = detect_intent lower is_word text in
      if is_followup detected_kind
      then ok (
          turn TurnKind.followup detected
            (antecedent_query (completed_before c.id c.next_sequence messages)))
      else ok (turn TurnKind.question intent (none, none))
