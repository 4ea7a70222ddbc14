-- ===== src/Runtime/Pipeline.antt =====
-- conversation_runtime.py: `_pipeline`, `_run` and `_fail`. The retriever, the tutor model, the clock
-- and what happens while the task awaits are arguments.
use docta.Prelude.{
  ℕ, Bool, none, some, List, [], String, Result, ok, err, ◌>>=◌, if◌then◌else◌, is_empty,
}
use docta.Models.{Uuid, Time}
use docta.Text.{Text}
use docta.Rag.{
  RetrievalScope, Evidence, TutorRequest, TutorDraft, abstention, clarification, validate,
}
use docta.Store.{and_then, commit}
use docta.Conversations.{ConversationStore, AcceptedMessage, request, save_evidence, complete, fail}
use docta.Runtime.Tasks.{
  RunError, service_error, draft_error, raises, failure_code, RuntimeState, without, phase,
}

-- What the runtime asks of a retriever and a tutor model.
pub record Tutor : Type 0 where
  pub retrieve : RetrievalScope → Text → Result RunError (List Evidence)
  pub generate : TutorRequest → Result RunError TutorDraft

-- What becomes of a call that the task awaits: it goes through, or the task is stopped, or the call
-- fails for an outer reason, before the call's effect or after it.
pub data Fate : Type 0 where
  goes : Fate
  stops_before stops_after : RunError → Fate

-- What surrounds an execution. `meanwhile i` is what others commit before the awaited call `i`: 0 is
-- `request`, 1 `retrieve`, 2 `save_evidence`, 3 `generate`, 4 `complete`, 5 `fail`.
pub record World : Type 0 where
  pub tutor : Tutor
  pub fate : ℕ → Fate
  pub meanwhile : ℕ → ConversationStore → ConversationStore
  pub clock : ℕ → Time
  -- whether the database takes the failure
  pub available : Bool

-- `retrieval_query or question`
abbrev pub query_of : TutorRequest → Text
query_of r = elim r.retrieval_query [
  | some q ↦ if is_empty q then r.question else q
  | none ↦ r.question
]

-- An awaited call that would end in `done` from the database `s`.
abbrev pub under :
    {A : Type 0}
    → Fate
    → RuntimeState
    → ConversationStore
    → Result RunError A × ConversationStore
    → Result RunError A × RuntimeState
under goes r s done = (done.0, record r { database = done.1 })
under (stops_before e) r s done = (err e, record r { database = s })
under (stops_after e) r s done = (err e, record r { database = done.1 })

-- a call that leaves the database alone
abbrev pub reads :
    {A : Type 0} → Result RunError A → ConversationStore → Result RunError (A × ConversationStore)
reads x s = x >>= λ a. ok (a, s)

module _ (same_letter : ℕ → ℕ → Bool) (w : World) where
  -- `await to_thread.run_sync(…)`, or another awaited call
  unfoldable pub call :
      {A : Type 0}
      → ℕ
      → (ConversationStore → Result RunError (A × ConversationStore))
      → RuntimeState
      → Result RunError A × RuntimeState
  call i transaction r =
      let s = w.meanwhile i r.database in under (w.fate i) r s (commit transaction s)

  -- The branch of `_pipeline` without an antecedent.
  unfoldable pub clarify_turn :
      Uuid
      → TutorRequest
      → RuntimeState
      → Result RunError (TutorDraft × TutorRequest) × RuntimeState
  clarify_turn id req r₀ =
      and_then (phase id "clarification" "started" r₀)
        (λ _ r. (raises draft_error clarification >>= λ d. ok (d, req), r))

  -- `if evidence: …`
  unfoldable pub draft_turn :
      Uuid
      → TutorRequest
      → RuntimeState
      → Result RunError (TutorDraft × TutorRequest) × RuntimeState
  draft_turn id req r₀ =
      if is_empty req.evidence
      then (ok (abstention, req), r₀)
      else and_then (phase id "generation" "started" r₀)
          (λ _ r₁. and_then (call 3 (reads (w.tutor.generate req)) r₁) (λ d r₂. (ok (d, req), r₂)))

  -- The other branch of `_pipeline`.
  unfoldable pub retrieve_turn :
      AcceptedMessage
      → TutorRequest
      → RuntimeState
      → Result RunError (TutorDraft × TutorRequest) × RuntimeState
  retrieve_turn accepted req r₀ =
      let id = accepted.message.id in
      and_then (phase id "retrieval" "started" r₀) (λ _ r₁.
        and_then (call 1 (reads (w.tutor.retrieve req.scope (query_of req))) r₁) (λ evidence r₂.
          and_then
            (call 2 (λ s. raises service_error (save_evidence (w.clock 2) accepted evidence s)) r₂)
            (λ _ r₃.
              and_then (phase id "retrieval" "completed" r₃)
                (λ _ r₄. draft_turn id (record req { evidence = evidence }) r₄))))

  -- from `_phase(accepted, "validation")` on
  unfoldable pub finish_turn :
      Uuid → TutorDraft → TutorRequest → RuntimeState → Result RunError Unit × RuntimeState
  finish_turn id draft req r₀ = and_then (phase id "validation" "started" r₀) (λ _ r₁.
      and_then (raises draft_error (validate same_letter draft req), r₁)
        (λ valid r₂. call 4 (λ s. raises service_error (complete (w.clock 4) id valid s)) r₂))

  -- `ConversationRuntime._pipeline`
  unfoldable pub pipeline : AcceptedMessage → RuntimeState → Result RunError Unit × RuntimeState
  pipeline accepted r₀ =
      let id = accepted.message.id in
      and_then (call 0 (λ s. raises service_error (request accepted [] s) >>= λ q. ok (q, s)) r₀)
        (λ req r₁.
          and_then
            (if req.needs_antecedent then clarify_turn id req r₁ else retrieve_turn accepted req r₁)
            (λ (draft, q) r₂. finish_turn id draft q r₂))

  -- `ConversationRuntime._fail`
  unfoldable pub fail_message : Uuid → (code : String) → RuntimeState → RuntimeState
  fail_message id code r =
      let s = w.meanwhile 5 r.database in
      record r { database = if w.available then fail (w.clock 5) id code s else s }

  -- the `except` clauses of `_run`
  unfoldable pub handled : Uuid → Result RunError Unit → RuntimeState → RuntimeState
  handled id (ok _) r = r
  handled id (err e) r = fail_message id (failure_code e) r

  -- `ConversationRuntime._run`
  unfoldable pub run : AcceptedMessage → RuntimeState → RuntimeState
  run accepted r₀ =
      let id = accepted.message.id in
      let (x, r₁) = pipeline accepted r₀ in
      let r₂ = handled id x r₁ in record r₂ { progress = without id r₂.progress }
