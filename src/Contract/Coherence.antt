-- ===== src/Contract/Coherence.antt =====
-- What an intervention that passes the validation satisfies.
use docta.Prelude.{
  ℕ, ◌≤◌, ◌<◌, ◌≡◌, ◌≢◌, refl, Bool, true, false, not, ◌||◌, List, [], ◌∷◌, ok, length, any, All,
  count_where, arith, ◌↔◌,
}
use docta.Prelude.Int.{ℤ, pos, negsuc, ge_ℕ}
use docta.Contract.Blocks.{
  Situation, ambiguous, insufficient_evidence, TutorIntervention, Block, question, sources,
  is_question, is_explanation, is_activity, QuestionBlock, abstain, clarify, Action, view_source,
  another_hint, explain, grounded, activity,
}
use docta.Contract.Validation.{
  coherent, coherent_situation, misses_citation, model_validate, is_v1, is_single_question,
}
use docta.Contract.Derived.{allowed_actions, mode_for, mode_of_situation, mode_of_blocks}

-- The situations in which the tutor teaches, and so needs evidence.
abbrev pub is_factual : Situation → Bool
is_factual insufficient_evidence = false
is_factual ambiguous = false
is_factual _ = true

-- A source that is no negative number is the index of a citation.
abbrev pub InRange : ℕ → ℤ → Type 0
InRange n (pos i) = i < n
InRange n (negsuc i) = Unit

abbrev pub SourcesInRange : ℕ → Block → Type 0
SourcesInRange n (sources b) = All (InRange n) b.citation_indexes
SourcesInRange n _ = Unit

-- What `coherent` is to establish, without its order of tests.
pub record IsCoherent (v : TutorIntervention) : Type 0 where
  pub one_question : count_where (λ b. is_question b || is_activity b) v.blocks ≤ 1
  pub versioned : is_v1 v.version ≡ true → any is_activity v.blocks ≡ false
  pub in_range : All (SourcesInRange (length v.citations)) v.blocks
  pub cited : is_factual v.situation ≡ true → (v.grounded ≡ true) × (0 < length v.citations)
  pub uncited : is_factual v.situation ≡ false → (v.grounded ≡ false) × (v.citations ≡ [])
  pub clarifies : v.situation ≡ ambiguous → (q : QuestionBlock) × (v.blocks ≡ question q ∷ [])
  pub abstains :
      v.situation ≡ insufficient_evidence
      → any (λ b. not (is_question b || is_explanation b)) v.blocks ≡ false

indexes-InRange : (n : ℕ) (is : List ℤ) → any (λ i. ge_ℕ i n) is ≡ false → All (InRange n) is
indexes-InRange n [] h = tt
indexes-InRange n (pos i ∷ is) h = (ground arith, indexes-InRange n is (ground arith))
indexes-InRange n (negsuc i ∷ is) h = (tt, indexes-InRange n is h)

indexes_found : (n : ℕ) (is : List ℤ) → All (InRange n) is → any (λ i. ge_ℕ i n) is ≡ false
indexes_found n [] h = refl
indexes_found n (pos i ∷ is) h = ground (arith, indexes_found n is h.1)
indexes_found n (negsuc i ∷ is) h = indexes_found n is h.1

sources_in_range :
    (n : ℕ) (bs : List Block) → any (misses_citation n) bs ≡ false → All (SourcesInRange n) bs
unfolding misses_citation
sources_in_range n [] h = tt
sources_in_range n (sources b ∷ bs) h =
    (indexes-InRange n b.citation_indexes (ground arith), sources_in_range n bs (ground arith))
sources_in_range n (_ ∷ bs) h = (tt, sources_in_range n bs h)

sources_found :
    (n : ℕ) (bs : List Block) → All (SourcesInRange n) bs → any (misses_citation n) bs ≡ false
unfolding misses_citation
sources_found n [] h = refl
sources_found n (sources b ∷ bs) h =
    ground (arith, indexes_found n b.citation_indexes h.0, sources_found n bs h.1)
sources_found n (_ ∷ bs) h = sources_found n bs h.1

single_question :
    (bs : List Block) → is_single_question bs ≡ true → (q : QuestionBlock) × (bs ≡ question q ∷ [])
single_question [] h = cc
single_question (question q ∷ []) h = (q, refl)
single_question (question q ∷ b ∷ bs) h = cc
single_question (_ ∷ bs) h = cc

coherent-IsCoherent : (v : TutorIntervention) → coherent v ≡ ok tt → IsCoherent v
unfolding coherent coherent_situation
coherent-IsCoherent v h = record {
  one_question = ground arith;
  versioned = λ e. ground arith;
  in_range = sources_in_range (length v.citations) v.blocks (ground arith);
  cited = λ e. ground arith;
  uncited = λ e. ground arith;
  clarifies = λ e. single_question v.blocks (ground arith);
  abstains = λ e. ground arith;
}

IsCoherent-coherent : (v : TutorIntervention) → IsCoherent v → coherent v ≡ ok tt
unfolding coherent coherent_situation
IsCoherent-coherent v h = ground (arith, sources_found (length v.citations) v.blocks h.in_range)

-- `coherent` accepts an intervention exactly if it satisfies the contract.
pub coherent_iff : (v : TutorIntervention) → (coherent v ≡ ok tt) ↔ IsCoherent v
coherent_iff v = (coherent-IsCoherent v, IsCoherent-coherent v)

-- Validation changes nothing, and what it accepts is coherent.
pub model_validate-IsCoherent :
    (v : TutorIntervention) {w : TutorIntervention}
    → model_validate v ≡ ok w
    → (w ≡ v) × IsCoherent v
unfolding model_validate
model_validate-IsCoherent v h = (ground arith, coherent-IsCoherent v (ground arith))

-- What a coherent intervention offers: nothing unless it teaches, a view of its sources whenever it
-- does, and another hint unless the answer is well founded.
abbrev pub expected_actions : Situation → List Action
expected_actions insufficient_evidence = []
expected_actions ambiguous = []
expected_actions grounded = explain ∷ view_source ∷ []
expected_actions _ = another_hint ∷ explain ∷ view_source ∷ []

-- The actions of a coherent intervention depend on its situation alone.
pub allowed_actions-IsCoherent :
    (v : TutorIntervention) → IsCoherent v → allowed_actions v ≡ expected_actions v.situation
unfolding allowed_actions
allowed_actions-IsCoherent v h = ground (arith, h.cited)

mode_of_blocks_teaches :
    (bs : List Block) → (mode_of_blocks bs ≢ abstain) × (mode_of_blocks bs ≢ clarify)
unfolding mode_of_blocks
mode_of_blocks_teaches [] = ground arith
mode_of_blocks_teaches (Block.hint b ∷ bs) = ground arith
mode_of_blocks_teaches (question b ∷ bs) = ground arith
mode_of_blocks_teaches (activity b ∷ bs) = ground arith
mode_of_blocks_teaches (b ∷ bs) = mode_of_blocks_teaches bs

-- The stored mode tells an abstention and a request for clarification from teaching.
pub mode_for_iff :
    (v : TutorIntervention)
    → ((mode_for v ≡ abstain) ↔ (v.situation ≡ insufficient_evidence))
      × ((mode_for v ≡ clarify) ↔ (v.situation ≡ ambiguous))
unfolding mode_for mode_of_situation
mode_for_iff v = ground (arith, mode_of_blocks_teaches v.blocks)
