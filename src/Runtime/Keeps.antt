-- ===== src/Runtime/Keeps.antt =====
-- What an execution keeps: any property of the database that the transactions of others keep, and that
-- the execution's own transactions keep.
use docta.Prelude.{
  ℕ, ◌≡◌, refl, Bool, true, false, String, Result, ok, err, ◌>>=◌, >>=-eq-ok, sym, if◌then◌else◌,
  Option-cases, inl, inr, find_by, arith, is_empty, [],
}
use mathlib.Core.Path.{subst}
use docta.Models.{Uuid}
use docta.Rag.{Evidence, TutorRequest, TutorDraft, abstention, validate}
use docta.Store.{settle, commit, and_then}
use mathlib.Core.List.{List}
use docta.Conversations.{ConversationStore, AcceptedMessage, request, save_evidence, complete}
use docta.Runtime.Tasks.{
  RunError, service_error, draft_error, raises, RuntimeState, Progress, phase,
}
use docta.Runtime.Pipeline.{
  Fate, goes, stops_before, stops_after, World, under, call, reads, query_of, clarify_turn,
  draft_turn, retrieve_turn, finish_turn, pipeline,
}

module _ (P : ConversationStore → Type 0) where
  settle-keeps :
      {A : Type 0} (s : ConversationStore) (x : Result RunError (A × ConversationStore))
      → P s
      → ((a : A) (s' : ConversationStore) → x ≡ ok (a, s') → P s')
      → P (settle s x).1
  settle-keeps s (ok (a, s')) p k = k a s' refl
  settle-keeps s (err e) p k = p

  under-keeps :
      {A : Type 0} (f : Fate) (r : RuntimeState) (s : ConversationStore)
      (done : Result RunError A × ConversationStore)
      → P s
      → P done.1
      → P (under f r s done).1.database
  under-keeps goes r s done p q = q
  under-keeps (stops_before e) r s done p q = p
  under-keeps (stops_after e) r s done p q = q

  pub and_then-keeps :
      {A B : Type 0} (x : Result RunError A × RuntimeState)
      (rest : A → RuntimeState → Result RunError B × RuntimeState)
      → P x.1.database
      → ((a : A) (r : RuntimeState) → P r.database → P (rest a r).1.database)
      → P (and_then x rest).1.database
  and_then-keeps (ok a, r) rest p k = k a r p
  and_then-keeps (err e, r) rest p k = p

  pub branch-keeps :
      {A : Type 0} (b : Bool) (x y : Result RunError A × RuntimeState)
      → P x.1.database
      → P y.1.database
      → P (if b then x else y).1.database
  branch-keeps true x y p q = p
  branch-keeps false x y p q = q

  pub phase-keeps :
      (id : Uuid) (event outcome : String) (r : RuntimeState)
      → P r.database
      → P (phase id event outcome r).1.database
  unfolding phase
  phase-keeps id event outcome r p =
      elim (Option-cases (find_by (λ (q : Progress). q.message_id) id r.progress)) [
        | inl e ↦ rw (e, phase) p
        | inr (_, e) ↦ rw (e, phase) p
      ]

  pub reads-keeps :
      {A : Type 0} (x : Result RunError A) (s : ConversationStore)
      → P s
      → (a : A) (s' : ConversationStore) → reads x s ≡ ok (a, s')
      → P s'
  reads-keeps x s p a s' h =
      let (_, _, h₁) = >>=-eq-ok x (λ a. ok (a, s)) h in
      let same : s' ≡ s = ground arith in subst P (sym same) p

  pub raises-ok :
      {E A : Type 0} (name : E → RunError) (x : Result E A) {a : A}
      → raises name x ≡ ok a
      → x ≡ ok a
  raises-ok name (ok b) h = cc
  raises-ok name (err e) h = cc

  module _ (same_letter : ℕ → ℕ → Bool) (w : World)
      (others : (i : ℕ) (s : ConversationStore) → P s → P (w.meanwhile i s)) where
    pub call-keeps :
        {A : Type 0} (i : ℕ) (t : ConversationStore → Result RunError (A × ConversationStore))
        (r : RuntimeState)
        → ((s : ConversationStore) (a : A) (s' : ConversationStore) → t s ≡ ok (a, s') → P s → P s')
        → P r.database
        → P (call same_letter w i t r).1.database
    unfolding call
    call-keeps i t r k p =
        let s = w.meanwhile i r.database in
        let q = others i r.database p in
        under-keeps (w.fate i) r s (commit t s) q (settle-keeps s (t s) q (λ a s' h. k s a s' h q))

    pub clarify_turn-keeps :
        (id : Uuid) (req : TutorRequest) (r : RuntimeState)
        → P r.database
        → P (clarify_turn same_letter w id req r).1.database
    unfolding clarify_turn
    clarify_turn-keeps id req r p =
        and_then-keeps (phase id "clarification" "started" r) _
          (phase-keeps id "clarification" "started" r p) (λ _ r' q. q)

    draft_turn-keeps :
        (id : Uuid) (req : TutorRequest) (r : RuntimeState)
        → P r.database
        → P (draft_turn same_letter w id req r).1.database
    unfolding draft_turn
    draft_turn-keeps id req r p =
        branch-keeps (is_empty req.evidence) (ok (abstention, req), r) _ p
          (and_then-keeps (phase id "generation" "started" r) _
            (phase-keeps id "generation" "started" r p)
            (λ _ r₁ q.
              and_then-keeps (call same_letter w 3 (reads (w.tutor.generate req)) r₁) _
                (call-keeps 3 (reads (w.tutor.generate req)) r₁
                  (λ s a s' h k. reads-keeps (w.tutor.generate req) s k a s' h) q)
                (λ d r₂ k. k)))

    module _ (accepted : AcceptedMessage)
        (saves : (evidence : List Evidence) (s s' : ConversationStore)
          → save_evidence (w.clock 2) accepted evidence s ≡ ok (tt, s')
          → P s
          → P s') where
      pub retrieve_turn-keeps :
          (req : TutorRequest) (r : RuntimeState)
          → P r.database
          → P (retrieve_turn same_letter w accepted req r).1.database
      unfolding retrieve_turn
      retrieve_turn-keeps req r p =
          let id = accepted.message.id in
          let found = w.tutor.retrieve req.scope (query_of req) in
          and_then-keeps (phase id "retrieval" "started" r) _
            (phase-keeps id "retrieval" "started" r p)
            (λ _ r₁ p₁.
              and_then-keeps (call same_letter w 1 (reads found) r₁) _
                (call-keeps 1 (reads found) r₁ (λ s a s' h k. reads-keeps found s k a s' h) p₁)
                (λ evidence r₂ p₂.
                  and_then-keeps
                    (call same_letter w 2
                      (λ s. raises service_error (save_evidence (w.clock 2) accepted evidence s))
                      r₂)
                    _
                    (call-keeps 2 _ r₂
                      (λ s a s' h k. saves evidence s s' (raises-ok service_error _ h) k) p₂)
                    (λ _ r₃ p₃.
                      and_then-keeps (phase id "retrieval" "completed" r₃) _
                        (phase-keeps id "retrieval" "completed" r₃ p₃)
                        (λ _ r₄ p₄.
                          draft_turn-keeps id (record req { evidence = evidence }) r₄ p₄))))

      module _
          (completes : (d : TutorDraft) (s s' : ConversationStore)
            → complete (w.clock 4) accepted.message.id d s ≡ ok (tt, s')
            → P s
            → P s') where
        finish_turn-keeps :
            (d : TutorDraft) (req : TutorRequest) (r : RuntimeState)
            → P r.database
            → P (finish_turn same_letter w accepted.message.id d req r).1.database
        unfolding finish_turn
        finish_turn-keeps d req r p =
            let id = accepted.message.id in
            and_then-keeps (phase id "validation" "started" r) _
              (phase-keeps id "validation" "started" r p)
              (λ _ r₁ p₁.
                and_then-keeps (raises draft_error (validate same_letter d req), r₁) _ p₁
                  (λ valid r₂ p₂.
                    call-keeps 4 _ r₂
                      (λ s a s' h k. completes valid s s' (raises-ok service_error _ h) k) p₂))

        pub pipeline-keeps :
            (r : RuntimeState) → P r.database → P (pipeline same_letter w accepted r).1.database
        unfolding pipeline
        pipeline-keeps r p =
            let id = accepted.message.id in
            and_then-keeps
              (call same_letter w 0
                (λ s. raises service_error (request accepted [] s) >>= λ q. ok (q, s)) r)
              _ (call-keeps 0 _ r (λ s a s' h k. reads-keeps _ s k a s' h) p)
              (λ req r₁ p₁.
                and_then-keeps
                  (if req.needs_antecedent
                    then clarify_turn same_letter w id req r₁
                    else retrieve_turn same_letter w accepted req r₁)
                  _
                  (branch-keeps req.needs_antecedent (clarify_turn same_letter w id req r₁)
                    (retrieve_turn same_letter w accepted req r₁) (clarify_turn-keeps id req r₁ p₁)
                    (retrieve_turn-keeps req r₁ p₁))
                  (λ (d, q) r₂ p₂. finish_turn-keeps d q r₂ p₂))
