-- ===== src/Runtime/Answers.antt =====
-- What has happened when an execution ends without an error: the validator let a draft through, and
-- the database took it.
use docta.Prelude.{ℕ, ◌≡◌, refl, ◌∙◌, ap, Bool, [], Result, ok, err, ◌>>=◌, if◌then◌else◌, arith}
use mathlib.Core.Path.{subst}
use mathlib.Core.List.{List}
use docta.Models.{Uuid}
use docta.Rag.{Evidence, TutorRequest, TutorDraft, validate}
use docta.Store.{settle, commit, and_then}
use docta.Conversations.{ConversationStore, AcceptedMessage, request, save_evidence, complete}
use docta.Runtime.Tasks.{RunError, service_error, draft_error, raises, RuntimeState, phase}
use docta.Runtime.Pipeline.{
  Fate, goes, stops_before, stops_after, World, under, call, clarify_turn, retrieve_turn,
  finish_turn, pipeline,
}
use docta.Runtime.Keeps.{
  phase-keeps, branch-keeps, reads-keeps, raises-ok, call-keeps, clarify_turn-keeps,
  retrieve_turn-keeps,
}

and_then-ok :
    {A B : Type 0} (x : Result RunError A × RuntimeState)
    (rest : A → RuntimeState → Result RunError B × RuntimeState) {b : B} {r' : RuntimeState}
    → and_then x rest ≡ (ok b, r')
    → (a : A) × (r : RuntimeState) × (x ≡ (ok a, r)) × (rest a r ≡ (ok b, r'))
and_then-ok (ok a, r) rest h = (a, r, refl, h)
and_then-ok (err e, r) rest h = cc

settle-ok :
    {A : Type 0} (s : ConversationStore) (x : Result RunError (A × ConversationStore)) {a : A}
    → (settle s x).0 ≡ ok a
    → x ≡ ok (a, (settle s x).1)
settle-ok s (ok (b, s')) {a} h = let same : b ≡ a = ground arith in rw same refl
settle-ok s (err e) h = cc

under-ok :
    {A : Type 0} (f : Fate) (r : RuntimeState) (s : ConversationStore)
    (done : Result RunError A × ConversationStore) {a : A} {r' : RuntimeState}
    → under f r s done ≡ (ok a, r')
    → (done.0 ≡ ok a) × (done.1 ≡ r'.database)
under-ok goes r s done h = (ap (λ p. p.0) h, ap (λ p. p.1.database) h)
under-ok (stops_before e) r s done h = cc
under-ok (stops_after e) r s done h = cc

module _ (same_letter : ℕ → ℕ → Bool) (w : World) where
  call-ok :
      {A : Type 0} (i : ℕ) (t : ConversationStore → Result RunError (A × ConversationStore))
      (r : RuntimeState) {a : A} {r' : RuntimeState}
      → call same_letter w i t r ≡ (ok a, r')
      → t (w.meanwhile i r.database) ≡ ok (a, r'.database)
  unfolding call
  call-ok i t r {a} h =
      let s = w.meanwhile i r.database in
      let (value, after) = under-ok (w.fate i) r s (commit t s) h in
      settle-ok s (t s) value ∙ ap (λ s'. ok (a, s')) after

  -- The end of an execution that answers the message: the draft that the validator was given, the one
  -- that it let through, and the database that took it, of which `P` holds.
  pub record Answered (P : ConversationStore → Type 0) (id : Uuid) (after : ConversationStore)
      : Type 0 where
    pub draft : TutorDraft
    pub request : TutorRequest
    pub valid : TutorDraft
    pub before : ConversationStore
    pub validated : validate same_letter draft request ≡ ok valid
    pub holds : P before
    pub recorded : complete (w.clock 4) id valid before ≡ ok (tt, after)

  module _ (P : ConversationStore → Type 0)
      (others : (i : ℕ) (s : ConversationStore) → P s → P (w.meanwhile i s)) where
    finish_turn-ok :
        (id : Uuid) (d : TutorDraft) (req : TutorRequest) (r : RuntimeState) {r' : RuntimeState}
        → P r.database
        → finish_turn same_letter w id d req r ≡ (ok tt, r')
        → Answered P id r'.database
    unfolding finish_turn
    finish_turn-ok id d req r p h =
        let (_, r₁, e₁, h₁) = and_then-ok (phase id "validation" "started" r) _ h in
        let (valid, r₂, e₂, h₂) =
          and_then-ok (raises draft_error (validate same_letter d req), r₁) _ h₁ in
        let p₁ : P r₁.database =
          subst (λ x. P x.1.database) e₁ (phase-keeps P id "validation" "started" r p) in
        let p₂ : P r₂.database = subst (λ x. P x.1.database) e₂ p₁ in
        record {
          draft = d;
          request = req;
          valid = valid;
          before = w.meanwhile 4 r₂.database;
          validated = raises-ok P draft_error _ (ap (λ x. x.0) e₂);
          holds = others 4 r₂.database p₂;
          recorded = raises-ok P service_error _ (call-ok 4 _ r₂ h₂);
        }

    pub pipeline-Answered :
        (accepted : AcceptedMessage)
        (saves : (evidence : List Evidence) (s s' : ConversationStore)
          → save_evidence (w.clock 2) accepted evidence s ≡ ok (tt, s')
          → P s
          → P s')
        (r : RuntimeState) {r' : RuntimeState}
        → P r.database
        → pipeline same_letter w accepted r ≡ (ok tt, r')
        → Answered P accepted.message.id r'.database
    unfolding pipeline
    pipeline-Answered accepted saves r p h =
        let id = accepted.message.id in
        let asked : ConversationStore → Result RunError (TutorRequest × ConversationStore) =
          λ s. raises service_error (request accepted [] s) >>= λ q. ok (q, s) in
        let (req, r₁, e₁, h₁) = and_then-ok (call same_letter w 0 asked r) _ h in
        let p₁ : P r₁.database =
          subst (λ x. P x.1.database) e₁
            (call-keeps P same_letter w others 0 asked r (λ s a s' k q. reads-keeps P _ s q a s' k)
              p) in
        let clarified = clarify_turn same_letter w id req r₁ in
        let retrieved = retrieve_turn same_letter w accepted req r₁ in
        let ((d, q), r₂, e₂, h₂) =
          and_then-ok (if req.needs_antecedent then clarified else retrieved) _ h₁ in
        let p₂ : P r₂.database =
          subst (λ x. P x.1.database) e₂
            (branch-keeps P req.needs_antecedent clarified retrieved
              (clarify_turn-keeps P same_letter w others id req r₁ p₁)
              (retrieve_turn-keeps P same_letter w others accepted saves req r₁ p₁)) in
        finish_turn-ok id d q r₂ p₂ h₂
