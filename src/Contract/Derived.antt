-- ===== src/Contract/Derived.antt =====
-- tutor_contract.py: what the application derives from an intervention. Python's list and dict
-- comprehensions are recursions; `labels[…]` raises on a missing key.
use docta.Prelude.{
  ℕ, suc, ◌+◌, max, Bool, true, false, Option, none, some, List, [], ◌∷◌, ◌++◌, Result, ok, ◌>>=◌,
  if◌then◌else◌, is_empty, map, ◌==◌, list_eq, nat_eq, or_raise,
}
use docta.Text.{Text, codes, show_nat, show_next, join}
use docta.Contract.Blocks.{
  Situation, ambiguous, insufficient_evidence, Action, another_hint, explain, view_source,
  DiagramKind, sequence, relations, DiagramNode, DiagramEdge, ActivityOption, Mode, abstain,
  clarify, guided_question, Block, question, activity, diagram, sources, TutorIntervention,
}
use docta.Contract.Validation.{ContractError, key_error}

-- `{n.id: n.label for n in block.nodes}[id]`: the last node with the id counts
unfoldable pub label_of : List DiagramNode → Text → Option Text
label_of [] id = none
label_of (n ∷ ns) id = elim (label_of ns id) [
  | some label ↦ some label
  | none ↦ if n.id == id then some n.label else none
]

-- one of `steps`
unfoldable pub diagram_step : List DiagramNode → DiagramEdge → Result ContractError Text
diagram_step nodes e = do
  source ← or_raise (label_of nodes e.source) (key_error e.source)
  target ← or_raise (label_of nodes e.target) (key_error e.target)
  ok (
      source
      ++ codes " → "
      ++ target
      ++ (if is_empty e.label then [] else codes " (" ++ e.label ++ codes ")"))

unfoldable pub diagram_steps :
    List DiagramNode → List DiagramEdge → Result ContractError (List Text)
diagram_steps nodes [] = ok []
diagram_steps nodes (e ∷ es) = do
  step ← diagram_step nodes e
  rest ← diagram_steps nodes es
  ok (step ∷ rest)

abbrev pub kind_name : DiagramKind → Text
kind_name sequence = codes "Secuencia"
kind_name relations = codes "Relaciones"

-- `f"{chr(65 + index)}. {option.text}"` for the options from `index` on
unfoldable pub option_lines : (index : ℕ) → List ActivityOption → List Text
option_lines index [] = []
option_lines index (o ∷ os) = ((65 + index) ∷ codes ". " ++ o.text) ∷ option_lines (suc index) os

-- what a block appends to `parts`
unfoldable pub block_text : Block → Result ContractError Text
block_text (question b) = ok b.text
block_text (Block.hint b) = ok (codes "Pista " ++ show_nat b.level ++ codes ": " ++ b.text)
block_text (Block.explanation b) = ok (b.title ++ codes ". " ++ b.text)
block_text (diagram b) = do
  steps ← diagram_steps b.nodes b.edges
  ok (
      kind_name b.kind
      ++ codes ": "
      ++ b.title
      ++ codes ". "
      ++ join (codes "; ") steps
      ++ codes ".")
block_text (activity b) = ok (
    codes "Ahora te toca razonar: " ++ b.question ++ 10 ∷ join (10 ∷ []) (option_lines 0 b.options))
block_text (sources b) = ok (
    codes "Fuentes: "
    ++ join (codes " ") (map (λ i. codes "[" ++ show_next i ++ codes "]") b.citation_indexes)
    ++ codes ".")

unfoldable pub block_texts : List Block → Result ContractError (List Text)
block_texts [] = ok []
block_texts (b ∷ bs) = do part ← block_text b; rest ← block_texts bs; ok (part ∷ rest)

unfoldable pub equivalent_text : TutorIntervention → Result ContractError Text
equivalent_text v = do parts ← block_texts v.blocks; ok (join (10 ∷ 10 ∷ []) parts)

-- `allowed_actions`, by the situation
unfoldable pub actions_for : Situation → (cited : Bool) → List Action
actions_for insufficient_evidence cited = []
actions_for ambiguous cited = []
actions_for Situation.grounded cited = explain ∷ (if cited then view_source ∷ [] else [])
actions_for _ cited = another_hint ∷ explain ∷ (if cited then view_source ∷ [] else [])

unfoldable pub allowed_actions : TutorIntervention → List Action
unfolding actions_for
allowed_actions v = actions_for v.situation (if is_empty v.citations then false else true)

-- the loop of `mode_for`
unfoldable pub mode_of_blocks : List Block → Mode
mode_of_blocks [] = Mode.explanation
mode_of_blocks (Block.hint b ∷ bs) = Mode.hint
mode_of_blocks (question b ∷ bs) = guided_question
mode_of_blocks (activity b ∷ bs) = guided_question
mode_of_blocks (b ∷ bs) = mode_of_blocks bs

unfoldable pub mode_of_situation : Situation → List Block → Mode
mode_of_situation insufficient_evidence blocks = abstain
mode_of_situation ambiguous blocks = clarify
mode_of_situation _ blocks = mode_of_blocks blocks

unfoldable pub mode_for : TutorIntervention → Mode
unfolding mode_of_situation
mode_for v = mode_of_situation v.situation v.blocks

-- `max((b.level for b in blocks if isinstance(b, HintBlock)), default=0)`
unfoldable pub highest_level : List Block → ℕ
highest_level [] = 0
highest_level (Block.hint b ∷ bs) = max b.level (highest_level bs)
highest_level (b ∷ bs) = highest_level bs

unfoldable pub help_level : TutorIntervention → ℕ
unfolding highest_level
help_level v = highest_level v.blocks
