-- ===== src/Runtime/Outcomes.antt =====
-- How an execution ends.
use docta.Prelude.{
  ℕ, ◌≡◌, refl, ap, Bool, true, false, ◌⊎◌, inl, inr, ◌∷◌, String, Result, ok, err, if◌then◌else◌,
  arith, contains, string_eq, Bool-cases,
}
use mathlib.Core.List.{List}
use docta.Text.{Text}
use docta.Rag.{
  Evidence, TutorRequest, TutorDraft, abstention, validate, IsClarification, IsGrounded,
  validate_sound,
}
use docta.Conversations.{
  ConversationStore, AcceptedMessage, ServiceSettings, save_evidence, complete, fail, Reach, here,
  next, saves, completes, join-Reach,
}
use docta.Runtime.Tasks.{
  RunError, rag_failure, sqlalchemy_error, cancelled, timeout, other_error, safe_failures,
  failure_code, RuntimeState,
}
use docta.Runtime.Pipeline.{World, pipeline, fail_message, handled, run}
use docta.Runtime.Keeps.{pipeline-keeps}
use docta.Runtime.Answers.{Answered, pipeline-Answered}

-- What a student may see as the code of a failure.
abbrev pub public_codes : List String
public_codes = "INTERNAL_ERROR" ∷ safe_failures

chosen-public :
    (other : String) (codes : List String) (code : String)
    → contains (other ∷ codes) (if contains codes code then code else other) ≡ true
chosen-public other codes code = elim (Bool-cases (contains codes code)) [
  | inl e ↦ rw (e, e) (ground arith)
  | inr e ↦ rw e (ground (arith, string_eq.same_iff other other))
]

failure_code-public : (e : RunError) → contains public_codes (failure_code e) ≡ true
unfolding failure_code
failure_code-public cancelled = refl
failure_code-public timeout = refl
failure_code-public sqlalchemy_error = refl
failure_code-public other_error = refl
failure_code-public (rag_failure code) = chosen-public "INTERNAL_ERROR" safe_failures code

module _ (lower : Text → Text) (is_word : ℕ → Bool) (settings : ServiceSettings)
    (same_letter : ℕ → ℕ → Bool) (w : World)
    (others : (i : ℕ) (s : ConversationStore) → Reach lower is_word settings s (w.meanwhile i s))
    (accepted : AcceptedMessage) where
  -- The ends of an execution from the database `start`.
  pub data Outcome (start after : ConversationStore) : Type 0 where
    recorded :
        (draft valid : TutorDraft) (request : TutorRequest) (before : ConversationStore)
        → validate same_letter draft request ≡ ok valid
        → (valid ≡ abstention)
          ⊎ (((valid ≡ draft) × IsClarification valid) ⊎ IsGrounded request valid)
        → Reach lower is_word settings start before
        → complete (w.clock 4) accepted.message.id valid before ≡ ok (tt, after)
        → Outcome start after
    failed :
        (code : String) (before : ConversationStore)
        → contains public_codes code ≡ true
        → Reach lower is_word settings start before
        → after ≡ fail (w.clock 5) accepted.message.id code before
        → Outcome start after
    unrecorded :
        w.available ≡ false → Reach lower is_word settings start after → Outcome start after

  Since : ConversationStore → ConversationStore → Type 0
  Since = Reach lower is_word settings

  others-Since :
      (start : ConversationStore) (i : ℕ) (s : ConversationStore)
      → Since start s
      → Since start (w.meanwhile i s)
  unfolding Since
  others-Since start i s before = join-Reach lower is_word settings before (others i s)

  saves-Since :
      (start : ConversationStore) (evidence : List Evidence) (s s' : ConversationStore)
      → save_evidence (w.clock 2) accepted evidence s ≡ ok (tt, s')
      → Since start s
      → Since start s'
  unfolding Since
  saves-Since start evidence s s' h before = next before (saves (w.clock 2) accepted evidence h)

  completes-Since :
      (start : ConversationStore) (d : TutorDraft) (s s' : ConversationStore)
      → complete (w.clock 4) accepted.message.id d s ≡ ok (tt, s')
      → Since start s
      → Since start s'
  unfolding Since
  completes-Since start d s s' h before =
      next before (completes (w.clock 4) accepted.message.id d h)

  handled-Outcome :
      (start : ConversationStore) (x : Result RunError Unit) (r : RuntimeState)
      → Since start r.database
      → (x ≡ ok tt → Answered same_letter w (Since start) accepted.message.id r.database)
      → Outcome start (handled same_letter w accepted.message.id x r).database
  unfolding handled fail_message Since
  handled-Outcome start (ok u) r before done =
      let a = done refl in
      recorded a.draft a.valid a.request a.before a.validated
        (validate_sound same_letter a.draft a.request a.validated) a.holds a.recorded
  handled-Outcome start (err e) r before done = elim (Bool-cases w.available) [
    | inl up ↦
        failed (failure_code e) (w.meanwhile 5 r.database) (failure_code-public e)
          (others-Since start 5 r.database before) (rw up refl)
    | inr down ↦ unrecorded down (rw down (others-Since start 5 r.database before))
  ]

  -- While others run the service's transactions, an execution ends in one of three ways: the database
  -- took a draft that the validator let through, which is the abstention, one uncited question or
  -- grounded in the evidence of its request; or it took a failure, with one of the public codes; or it
  -- was not available for the failure.
  pub run-Outcome : (r : RuntimeState) → Outcome r.database (run same_letter w accepted r).database
  unfolding run Since
  run-Outcome r =
      let start = r.database in
      let end = pipeline same_letter w accepted r in
      handled-Outcome start end.0 end.1
        (pipeline-keeps (Since start) same_letter w (others-Since start) accepted
          (saves-Since start) (completes-Since start) r here)
        (λ done.
          pipeline-Answered same_letter w (Since start) (others-Since start) accepted
            (saves-Since start) r {r' = end.1} here (ap (λ x. (x, end.1)) done))
