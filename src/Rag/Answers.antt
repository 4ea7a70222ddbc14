-- ===== src/Rag/Answers.antt =====
-- `EvidenceResponseValidator.validate` as a whole: an answer that it returns is the canonical
-- abstention, one uncited question, or rests on evidence of the course.
use mathlib.Core.Path.{subst}
use docta.Prelude.{
  ℕ, ◌≡◌, refl, sym, ◌∙◌, ap, Bool, true, false, not, ◌||◌, Option, some, none, List, [], ◌∷◌, map,
  Result, ok, err, >>=-eq-ok, raise_if->>-ok, is_empty, any, All, distinct, nat_eq, list_eq,
  list_beq_iff, arith, Bool-cases, inl, inr, ◌⊎◌,
}
use docta.Text.{is_blank}
use docta.Contract.{
  ambiguous, abstain, Block, ContractError, QuestionBlock, TutorIntervention, IntentCitation,
  equivalent_text, model_validate, mode_for, IsCoherent, model_validate-IsCoherent,
}
use docta.Rag.Drafts.{
  RetrievalScope, Evidence, TutorRequest, DraftCitation, TutorDraft, output_invalid, draft_fields,
  abstention, draft_citation, intent_citation, draft_from_intervention, lift,
}
use docta.Rag.Validator.{
  or_invalid, repair, validate_factual, validate_evidence, validate_derived, validate, check_scope,
  out_of_scope, consistent, revalidate, revalidate_intervention, mode_beq, bool_beq, same_citations,
  is_ambiguous,
}
use docta.Rag.Soundness.{IsVerbatim, ids, verify_all-ok}

-- The evidence is of the course and the corpus version of the question.
abbrev pub InScope : RetrievalScope → Evidence → Type 0
InScope scope e = (e.course_id ≡ scope.course_id) × (e.corpus_version_id ≡ scope.corpus_version_id)

pub record IsGrounded (request : TutorRequest) (d : TutorDraft) : Type 0 where
  pub grounded : d.grounded ≡ true
  pub cited : is_empty d.citations ≡ false
  pub verbatim : All (IsVerbatim request.evidence) d.citations
  pub once : distinct (ids d.citations) ≡ true
  pub scoped : All (InScope request.scope) request.evidence

pub record IsClarification (d : TutorDraft) : Type 0 where
  pub intervention : TutorIntervention
  pub carried : d.intervention ≡ some intervention
  pub asks : intervention.situation ≡ ambiguous
  pub ungrounded : d.grounded ≡ false
  pub uncited : d.citations ≡ []
  pub question : QuestionBlock
  pub alone : intervention.blocks ≡ Block.question question ∷ []

citations_round : (cs : List DraftCitation) → map draft_citation (map intent_citation cs) ≡ cs
citations_round [] = refl
citations_round (c ∷ cs) = ap (λ r. c ∷ r) (citations_round cs)

all-InScope :
    (scope : RetrievalScope) (es : List Evidence)
    → any (out_of_scope scope) es ≡ false
    → All (InScope scope) es
all-InScope scope [] h = tt
all-InScope scope (e ∷ es) h = (ground arith, all-InScope scope es (ground arith))

check_scope-ok :
    (request : TutorRequest)
    → check_scope request ≡ ok tt
    → All (InScope request.scope) request.evidence
unfolding check_scope
check_scope-ok request h = all-InScope request.scope request.evidence (ground arith)

bool_beq_iff : (a b : Bool) → bool_beq a b ≡ true → a ≡ b
bool_beq_iff true b h = sym h
bool_beq_iff false true h = cc
bool_beq_iff false false h = refl

uncited : (cs : List DraftCitation) → same_citations cs [] ≡ true → cs ≡ []
unfolding same_citations
uncited [] h = refl
uncited (c ∷ cs) h = cc

-- What `consistent` establishes.
pub record IsDerived (d : TutorDraft) (v : TutorIntervention) : Type 0 where
  pub text : equivalent_text v ≡ ok d.answer
  pub grounded : d.grounded ≡ v.grounded
  pub citations : same_citations d.citations v.citations ≡ true
  pub once : distinct (map (λ (c : IntentCitation). c.chunk_id) v.citations) ≡ true

lift-ok : {A : Type 0} (r : Result ContractError A) {a : A} → lift r ≡ ok a → r ≡ ok a
lift-ok (ok a) h = cc
lift-ok (err e) h = cc

pub consistent-ok :
    (d : TutorDraft) (v : TutorIntervention) → consistent d v ≡ ok tt → IsDerived d v
unfolding consistent
consistent-ok d v h =
    let (text, p, h₁) = >>=-eq-ok _ _ h in
    let same : d.answer ≡ text = ground (arith, list_beq_iff d.answer text) in
    record {
      text = lift-ok _ p ∙ ap ok (sym same);
      grounded = bool_beq_iff _ _ (ground arith);
      citations = ground arith;
      once = ground arith;
    }

-- The stored fields of the draft that `draft_from_intervention` returns.
pub draft_from_intervention-ok :
    (v : TutorIntervention) {d : TutorDraft}
    → draft_from_intervention v ≡ ok d
    → (equivalent_text v ≡ ok d.answer)
      × (d.mode ≡ mode_for v)
      × (d.citations ≡ map draft_citation v.citations)
      × (d.grounded ≡ v.grounded)
      × (d.intervention ≡ some v)
unfolding draft_from_intervention
draft_from_intervention-ok v {d} h =
    let (text, p, h₁) = >>=-eq-ok _ _ h in
    let answers : text ≡ d.answer = ground arith in
    (lift-ok _ p ∙ ap ok answers, ground arith, ground arith, ground arith, ground arith)

or_invalid-ok : {A : Type 0} (r : Result ContractError A) {a : A} → or_invalid r ≡ ok a → r ≡ ok a
or_invalid-ok (ok a) h = cc
or_invalid-ok (err e) h = cc

clarifies :
    (d : TutorDraft) (v : TutorIntervention)
    → d.intervention ≡ some v
    → IsDerived d v
    → IsCoherent v
    → v.situation ≡ ambiguous
    → IsClarification d
clarifies d v own derived coherent asks =
    let (none_true, none_cited) = coherent.uncited (rw asks refl) in
    let (q, alone) = coherent.clarifies asks in
    record {
      intervention = v;
      carried = own;
      asks = asks;
      ungrounded = derived.grounded ∙ none_true;
      uncited = uncited d.citations (rw none_cited at derived.citations);
      question = q;
      alone = alone;
    }

own_grounded :
    (d : TutorDraft) (v w : TutorIntervention)
    → d.intervention ≡ some v
    → IsDerived d v
    → d.intervention ≡ some w
    → w.grounded ≡ d.grounded
own_grounded d v w own derived f =
    let same : v ≡ w = cc in
    ap (λ (v : TutorIntervention). v.grounded) (sym same) ∙ sym derived.grounded

module _ (same_letter : ℕ → ℕ → Bool) where
  repair-ok :
      (d : TutorDraft) (o : Option TutorIntervention) (cs : List DraftCitation) {r : TutorDraft}
      → d.grounded ≡ true
      → ((v : TutorIntervention) → o ≡ some v → v.grounded ≡ true)
      → repair same_letter d o cs ≡ ok r
      → (r.citations ≡ cs) × (r.grounded ≡ true)
  unfolding repair
  repair-ok d none cs g k h = ground arith
  repair-ok d (some v) cs g k h =
      let (text, mode, citations, grounded, own) =
        draft_from_intervention-ok (record v { citations = map intent_citation cs }) h in
      (citations ∙ citations_round cs, grounded ∙ k v refl)

  module _ (d : TutorDraft) (request : TutorRequest) where
    validate_factual-ok :
        {r : TutorDraft}
        → ((v : TutorIntervention) → d.intervention ≡ some v → v.grounded ≡ d.grounded)
        → check_scope request ≡ ok tt
        → validate_factual same_letter d request ≡ ok r
        → IsGrounded request r
    unfolding validate_factual
    validate_factual-ok k s h =
        let (factual, h₁) =
          raise_if->>-ok (is_empty request.evidence || not d.grounded || is_empty d.citations)
            output_invalid _ h in
        let (_, h₂) = raise_if->>-ok (is_blank d.answer) output_invalid _ h₁ in
        let (cs, p, h₃) = >>=-eq-ok _ (λ cs. repair same_letter d d.intervention cs) h₂ in
        let kept = verify_all-ok same_letter request.evidence d.citations [] p in
        let ground_true : d.grounded ≡ true = ground arith in
        let (same, grounded) =
          repair-ok d d.intervention cs ground_true (λ v e. k v e ∙ ground_true) h₃ in
        record {
          grounded = grounded;
          cited = ap is_empty same ∙ kept.some_left (ground arith) refl;
          verbatim = subst (All (IsVerbatim request.evidence)) (sym same) kept.verbatim;
          once = ap (λ cs. distinct (ids cs)) same ∙ kept.once;
          scoped = check_scope-ok request s;
        }

    validate_evidence-ok :
        {r : TutorDraft}
        → ((v : TutorIntervention) → d.intervention ≡ some v → v.grounded ≡ d.grounded)
        → validate_evidence same_letter d request ≡ ok r
        → (r ≡ abstention) ⊎ IsGrounded request r
    unfolding validate_evidence
    validate_evidence-ok {r} k h =
        let (_, s, h₁) = >>=-eq-ok (check_scope request) _ h in
        elim (Bool-cases (mode_beq d.mode abstain)) [
          | inl e ↦
              let (_, same) =
                raise_if->>-ok (d.grounded || not (is_empty d.citations)) output_invalid
                  (ok abstention) (rw e at h₁) in
              inl (cc same)
          | inr e ↦ inr (validate_factual-ok k s (rw e at h₁))
        ]

    validate_derived-ok :
        (o : Option TutorIntervention) {r : TutorDraft}
        → d.intervention ≡ o
        → revalidate_intervention o ≡ ok tt
        → validate_derived same_letter d o request ≡ ok r
        → (r ≡ abstention) ⊎ (((r ≡ d) × IsClarification r) ⊎ IsGrounded request r)
    unfolding validate_derived revalidate_intervention
    validate_derived-ok none own valid h = elim (validate_evidence-ok (λ v e. cc) h) [
      | inl a ↦ inl a
      | inr g ↦ inr (inr g)
    ]
    validate_derived-ok (some v) {r} own valid h =
        let (_, c, h₁) = >>=-eq-ok (consistent d v) _ h in
        let derived = consistent-ok d v c in
        elim (Bool-cases (is_ambiguous v.situation)) [
          | inl e ↦
              let (w, accepted, _) = >>=-eq-ok (or_invalid (model_validate v)) (λ _. ok tt) valid in
              let coherent = (model_validate-IsCoherent v (or_invalid-ok _ accepted)).1 in
              let same : r ≡ d = ground arith in
              let asks : v.situation ≡ ambiguous = ground arith in
              inr (
                inl (
                  same,
                  subst IsClarification (sym same) (clarifies d v own derived coherent asks),
                ))
          | inr e ↦
              elim (validate_evidence-ok (λ v' f. own_grounded d v v' own derived f) (rw e at h₁)) [
                | inl a ↦ inl a
                | inr g ↦ inr (inr g)
              ]
        ]

  -- An answer that the validator returns is the canonical abstention, or the draft itself, which asks
  -- one uncited question, or it is grounded: all the evidence of the request is of its course and
  -- corpus version, and there are citations, of distinct chunks of it, whose quotes stand in it.
  pub validate_sound :
      (d : TutorDraft) (request : TutorRequest) {r : TutorDraft}
      → validate same_letter d request ≡ ok r
      → (r ≡ abstention) ⊎ (((r ≡ d) × IsClarification r) ⊎ IsGrounded request r)
  unfolding validate revalidate
  validate_sound d request h =
      let (_, p, h₁) =
        >>=-eq-ok (revalidate d) (λ _. validate_derived same_letter d d.intervention request) h in
      let (_, q) = raise_if->>-ok (not (draft_fields d)) output_invalid _ p in
      validate_derived-ok d request d.intervention refl q h₁
