-- ===== src/Runtime/Routes.antt =====
-- conversation_routes.py: how a question and an action start an execution, and what the stream of
-- events sends while it runs.
use docta.Prelude.{
  ℕ, ◌+◌, ◌%◌, Bool, true, Option, none, some, List, [], ◌∷◌, ◌++◌, map, String, Result, ok, err,
  if◌then◌else◌, is_empty, drop, nat_beq,
}
use docta.Identity.{AuthenticatedIdentity}
use docta.Models.{Uuid, Time}
use docta.Text.{Text, codes}
use docta.Contract.{sized}
use docta.Rag.{TurnKind, Intent}
use docta.Store.{commit, and_then}
use docta.Conversations.{
  ServiceError, api_error, integrity_error, ServiceSettings, AcceptedMessage, MessageView,
  QuestionRequest, validate_question, is_pending, accept,
}
use docta.Runtime.Tasks.{RuntimeState, start}

pub data Action : Type 0 where
  another_hint explain : Action

pub record ActionRequest : Type 0 where
  pub action : Action
  pub parent_message_id : Uuid
  pub question : Option Text

-- the constraint of its field `question`
abbrev pub action_fields : ActionRequest → Bool
action_fields a = elim a.question [ none ↦ true | some q ↦ sized 0 4000 q ]

abbrev pub intent_of : Action → Intent
intent_of another_hint = Intent.another_hint
intent_of explain = Intent.explain

abbrev pub default_question : Action → Text
default_question another_hint = codes "Otra pista"
default_question explain = codes "Explícame eso"

-- `payload.question or …`
unfoldable pub action_question : ActionRequest → Text
action_question a = elim a.question [
  | none ↦ default_question a.action
  | some q ↦ if is_empty q then default_question a.action else q
]

-- `question_payload` of `perform_action`
unfoldable pub question_payload : ActionRequest → QuestionRequest
question_payload a = record {
  question = action_question a;
  kind = TurnKind.action;
  intent = some (intent_of a.action);
  parent_message_id = some a.parent_message_id;
}

-- `_database_call`: what it makes of an error
abbrev pub database_call : {A : Type 0} → Result ServiceError A → Result ServiceError A
database_call (ok a) = ok a
database_call (err integrity_error) =
    err (api_error 503 "persistence_unavailable" "Conversation storage is temporarily unavailable.")
database_call (err e) = err e

module _ (lower : Text → Text) (is_word : ℕ → Bool) (settings : ServiceSettings) (id : Uuid)
    (now : Time) (who : AuthenticatedIdentity) (conversation_id : Uuid) where
  -- `ask_question`, up to the stream
  unfoldable pub ask_question :
      QuestionRequest
      → (header : Option Text) (request_id : String) → RuntimeState
      → Result ServiceError AcceptedMessage × RuntimeState
  ask_question payload header request_id r =
      let (x, s) =
        commit
          (accept lower is_word settings id now who conversation_id payload.question header
            request_id payload.kind payload.intent payload.parent_message_id)
          r.database in
      and_then (database_call x, record r { database = s })
        (λ accepted r₁. (ok accepted, start accepted r₁))

  -- `perform_action`; an invalid `QuestionRequest` is an error that no handler answers
  unfoldable pub perform_action :
      ActionRequest
      → (header : Option Text) (request_id : String) → RuntimeState
      → Result ServiceError AcceptedMessage × RuntimeState
  perform_action a header request_id r =
      and_then (validate_question (question_payload a), r)
        (λ _ r₁. ask_question (question_payload a) header request_id r₁)

pub data Event : Type 0 where
  accepted_event heartbeat : Event
  phase_event : String → Event
  terminal_event : MessageView → Event

-- What one round of the loop in `events` sees: the message that is read, `progress` when it is sliced,
-- and its length when it is counted, after the slice was sent.
pub record Round : Type 0 where
  pub current : Result ServiceError MessageView
  pub progress : List String
  pub counted : ℕ

abbrev pub beat : (heartbeat_count : ℕ) → List Event
beat n = if nat_beq (n % 50) 0 then heartbeat ∷ [] else []

-- the loop of `events`, round by round, as long as the client reads
unfoldable pub rounds : List Round → (seen heartbeat_count : ℕ) → List Event
rounds [] seen n = []
rounds (o ∷ os) seen n =
    let rest = rounds os o.counted (n + 1) in
    elim o.current [
      | err e ↦ []
      | ok m ↦
          map phase_event (drop seen o.progress)
          ++ (if is_pending m.state then beat (n + 1) ++ rest else terminal_event m ∷ [])
    ]

-- the events of the stream
unfoldable pub stream : List Round → List Event
stream os = accepted_event ∷ rounds os 0 0
