-- ===== src/Runtime/Tasks.antt =====
-- conversation_runtime.py: what the runtime keeps in memory, how an execution can fail, and the codes
-- that a student may see.
use docta.Prelude.{
  not, none, some, List, [], ◌∷◌, ◌++◌, String, Result, ok, err, if◌then◌else◌, find_by,
  update_where, filter, contains, ◌==◌, nat_eq, string_eq,
}
use Prim.Native.String.{◌++◌ as ◌<>◌}
use docta.Models.{Uuid}
use docta.Rag as Rag
use docta.Rag.{Failure}
use docta.Conversations.{ServiceError, ConversationStore, AcceptedMessage}
use docta.Conversations as Conversations

-- The exceptions that `_run` tells apart.
pub data RunError : Type 0 where
  rag_failure : String → RunError
  sqlalchemy_error cancelled timeout other_error : RunError

abbrev pub service_error : ServiceError → RunError
service_error (Conversations.rag_failure code) = rag_failure code
service_error Conversations.integrity_error = sqlalchemy_error
service_error (Conversations.api_error status code message) = other_error
service_error Conversations.validation_error = other_error

abbrev pub draft_error : Failure → RunError
draft_error (Rag.rag_failure code) = rag_failure code
draft_error (Rag.contract_error e) = other_error

abbrev pub raises : {E A : Type 0} → (E → RunError) → Result E A → Result RunError A
raises name (ok a) = ok a
raises name (err e) = err (name e)

abbrev pub safe_failures : List String
safe_failures =
    "COURSE_CORPUS_NOT_READY" ∷ "MODEL_NOT_CONFIGURED" ∷ "MODEL_UNAVAILABLE"
    ∷ "MODEL_OUTPUT_INVALID" ∷ "RETRIEVAL_SCOPE_INVALID" ∷ "RETRIEVAL_UNAVAILABLE"
    ∷ "RETRIEVAL_INDEX_MISSING" ∷ "PROCESSING_INTERRUPTED" ∷ "PERSISTENCE_UNAVAILABLE" ∷ []

-- the code that the `except` clauses of `_run` record
unfoldable pub failure_code : RunError → String
failure_code cancelled = "PROCESSING_INTERRUPTED"
failure_code timeout = "PROCESSING_INTERRUPTED"
failure_code (rag_failure code) = if contains safe_failures code then code else "INTERNAL_ERROR"
failure_code sqlalchemy_error = "PERSISTENCE_UNAVAILABLE"
failure_code other_error = "INTERNAL_ERROR"

-- an entry of the dictionary `progress`
pub record Progress : Type 0 where
  pub message_id : Uuid
  pub events : List String

-- `progress` and the keys of `tasks`, beside the database
pub record RuntimeState : Type 0 where
  pub database : ConversationStore
  pub progress : List Progress
  pub tasks : List Uuid

abbrev pub without : Uuid → List Progress → List Progress
without id ps = filter (λ p. not (p.message_id == id)) ps

-- `ConversationRuntime.start`, up to the execution of the task
unfoldable pub start : AcceptedMessage → RuntimeState → RuntimeState
start accepted r =
    if accepted.created
    then record r {
      progress =
          without accepted.message.id r.progress
          ++ record { message_id = accepted.message.id; events = [] } ∷ [];
      tasks = filter (λ t. not (t == accepted.message.id)) r.tasks ++ accepted.message.id ∷ [];
    }
    else r

-- the callback of a task that is done
unfoldable pub task_done : Uuid → RuntimeState → RuntimeState
task_done id r = record r { tasks = filter (λ t. not (t == id)) r.tasks }

-- `_phase`; a message without an entry is a `KeyError`
unfoldable pub phase :
    Uuid → (event outcome : String) → RuntimeState → Result RunError Unit × RuntimeState
phase id event outcome r = elim (find_by (λ (p : Progress). p.message_id) id r.progress) [
  | none ↦ (err other_error, r)
  | some _ ↦ (
    ok tt,
    record r {
      progress =
          update_where (λ p. p.message_id == id)
            (λ p. record p { events = p.events ++ (event <> "." <> outcome) ∷ [] }) r.progress;
    },
  )
]
