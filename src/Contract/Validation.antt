-- ===== src/Contract/Validation.antt =====
-- tutor_contract.py: the constraints on the fields and the `model_validator` methods. All that
-- they raise reaches the caller as one pydantic `ValidationError`.
use docta.Prelude.{
  ℕ, Bool, true, false, not, ◌&&◌, ◌||◌, List, [], ◌∷◌, map, String, Result, ok, ◌>>◌, raise_if,
  ltb, leb, length, is_empty, any, all, count_where, contains, distinct, list_eq, nat_eq,
}
use docta.Prelude.Int.{ge_ℕ}
use docta.Text.{Text}
use docta.Contract.Blocks.{
  Situation, ambiguous, insufficient_evidence, ContractVersion, v1, v2, DiagramNode, DiagramEdge,
  DiagramBlock, ActivityOption, ActivityBlock, Block, question, hint, explanation, diagram,
  activity, sources, IntentCitation, TutorIntervention, is_question, is_explanation, is_activity,
}

pub data ContractError : Type 0 where
  -- a constraint of a field: a length, a range or a pattern
  field_error : ContractError
  value_error : String → ContractError
  -- `labels[…]` in `equivalent_text`
  key_error : Text → ContractError

-- `Field(min_length=…, max_length=…)` on a text or a list
abbrev pub sized {ℓ} : {A : Type ℓ} → ℕ → ℕ → List A → Bool
sized lo hi xs = leb lo (length xs) && leb (length xs) hi

abbrev pub is_lower : ℕ → Bool
is_lower c = leb b'a' c && leb c b'z'

abbrev pub is_id_char : ℕ → Bool
is_id_char c = is_lower c || (leb b'0' c && leb c b'9') || leb b'_' c && leb c b'_'

-- `^[a-z][a-z0-9_]{0,23}$`
unfoldable pub is_id : Text → Bool
is_id [] = false
is_id (c ∷ t) = is_lower c && all is_id_char t && leb (length t) 23

node_fields : DiagramNode → Bool
unfolding is_id
node_fields n = is_id n.id && sized 1 80 n.label

edge_fields : DiagramEdge → Bool
edge_fields e = sized 0 80 e.label

option_fields : ActivityOption → Bool
unfolding is_id
option_fields o = is_id o.id && sized 1 600 o.text

-- `DiagramBlock.consistent`
unfoldable pub diagram_consistent : DiagramBlock → Result ContractError Unit
diagram_consistent b =
    let ids = map (λ (n : DiagramNode). n.id) b.nodes in
    do
      raise_if (not (distinct ids)) (value_error "duplicate diagram node")
      raise_if (any (λ e. not (contains ids e.source) || not (contains ids e.target)) b.edges)
          (value_error "diagram edge references an unknown node")

-- `ActivityBlock.consistent`
unfoldable pub activity_consistent : ActivityBlock → Result ContractError Unit
activity_consistent b =
    let ids = map (λ (o : ActivityOption). o.id) b.options in
    let texts = map (λ (o : ActivityOption). o.text) b.options in
    do
      raise_if (not (distinct ids) || not (distinct texts))
          (value_error "duplicate activity option")
      raise_if (not (contains ids b.correct_option_id))
          (value_error "activity answer references an unknown option")

-- The constraints on one block, then its validator.
unfoldable pub validate_block : Block → Result ContractError Unit
unfolding node_fields edge_fields option_fields
validate_block (question b) = raise_if (not (sized 1 600 b.text)) field_error
validate_block (hint b) =
    raise_if (not (leb 1 b.level && leb b.level 3 && sized 1 600 b.text)) field_error
validate_block (explanation b) =
    raise_if (not (sized 1 120 b.title && sized 1 1500 b.text)) field_error
validate_block (diagram b) = do
  raise_if
      (not (
        sized 1 120 b.title
        && sized 2 12 b.nodes
        && all node_fields b.nodes
        && sized 1 20 b.edges
        && all edge_fields b.edges))
      field_error
  diagram_consistent b
validate_block (activity b) = do
  raise_if
      (not (
        sized 1 600 b.question
        && sized 2 4 b.options
        && all option_fields b.options
        && sized 1 600 b.hint
        && sized 1 1500 b.explanation))
      field_error
  activity_consistent b
validate_block (sources b) = raise_if (not (sized 1 5 b.citation_indexes)) field_error

unfoldable pub validate_blocks : List Block → Result ContractError Unit
validate_blocks [] = ok tt
validate_blocks (b ∷ bs) = validate_block b >> validate_blocks bs

-- `isinstance(block, SourcesBlock) and any(i >= len(citations) for i in …)`
unfoldable pub misses_citation : ℕ → Block → Bool
misses_citation n (sources b) = any (λ i. ge_ℕ i n) b.citation_indexes
misses_citation n _ = false

abbrev pub is_v1 : ContractVersion → Bool
is_v1 v1 = true
is_v1 v2 = false

abbrev pub is_single_question : List Block → Bool
is_single_question (question b ∷ []) = true
is_single_question _ = false

-- the last `if` of `coherent`, by the situation
unfoldable pub coherent_situation : Situation → TutorIntervention → Result ContractError Unit
coherent_situation insufficient_evidence v =
    raise_if
      (v.grounded
        || not (is_empty v.citations)
        || any (λ b. not (is_question b || is_explanation b)) v.blocks)
      (value_error "abstention carries no evidence")
coherent_situation ambiguous v =
    raise_if (v.grounded || not (is_empty v.citations) || not (is_single_question v.blocks))
      (value_error "clarification must be one uncited question")
coherent_situation _ v =
    raise_if (not v.grounded || is_empty v.citations)
      (value_error "factual guidance requires citations")

-- `TutorIntervention.coherent`
unfoldable pub coherent : TutorIntervention → Result ContractError Unit
coherent v = do
  raise_if (is_v1 v.version && any is_activity v.blocks)
      (value_error "activity requires tutor-intervention-v2")
  raise_if (ltb 1 (count_where (λ b. is_question b || is_activity b) v.blocks))
      (value_error "one primary question per turn")
  raise_if (any (misses_citation (length v.citations)) v.blocks)
      (value_error "sources reference a missing citation")
  coherent_situation v.situation v

-- `IntentCitation`, and `rag.DraftCitation`
abbrev pub citation_fields : IntentCitation → Bool
citation_fields c = sized 10 1600 c.quote

-- `TutorIntervention.model_validate` on data of the declared types
unfoldable pub model_validate : TutorIntervention → Result ContractError TutorIntervention
model_validate v = do
  raise_if (not (sized 1 5 v.blocks && sized 0 5 v.citations && all citation_fields v.citations))
      field_error
  validate_blocks v.blocks
  coherent v
  ok v
