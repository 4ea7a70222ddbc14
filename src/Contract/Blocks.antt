-- ===== src/Contract/Blocks.antt =====
-- tutor_contract.py: the data that the model may emit, as parsed from JSON and before any check of
-- lengths or of coherence.
use docta.Prelude.{ℕ, Bool, true, false, List}
use docta.Prelude.Int.{ℤ}
use docta.Models.{Uuid}
use docta.Text.{Text}

pub data Situation : Type 0 where
  ambiguous entry unsupported_claim partial contrastable_error missing_concept blocked : Situation
  grounded insufficient_evidence : Situation

pub data Action : Type 0 where
  another_hint explain view_source : Action

pub data DiagramKind : Type 0 where
  sequence relations : DiagramKind

-- the accepted values of `version`
pub data ContractVersion : Type 0 where
  v1 v2 : ContractVersion

pub data Mode : Type 0 where
  hint guided_question explanation abstain clarify : Mode

pub record DiagramNode : Type 0 where
  pub id : Text
  pub label : Text

pub record DiagramEdge : Type 0 where
  pub source : Text
  pub target : Text
  pub label : Text

pub record QuestionBlock : Type 0 where
  pub text : Text

-- A negative `level` is refused as 0 is, so the levels are natural numbers.
pub record HintBlock : Type 0 where
  pub level : ℕ
  pub text : Text

pub record ExplanationBlock : Type 0 where
  pub title : Text
  pub text : Text

pub record DiagramBlock : Type 0 where
  pub kind : DiagramKind
  pub title : Text
  pub nodes : List DiagramNode
  pub edges : List DiagramEdge

pub record ActivityOption : Type 0 where
  pub id : Text
  pub text : Text

pub record ActivityBlock : Type 0 where
  pub question : Text
  pub options : List ActivityOption
  pub correct_option_id : Text
  pub hint : Text
  pub explanation : Text

pub record SourcesBlock : Type 0 where
  pub citation_indexes : List ℤ

-- `InterventionBlock`, told apart by `type`
pub data Block : Type 0 where
  question : QuestionBlock → Block
  hint : HintBlock → Block
  explanation : ExplanationBlock → Block
  diagram : DiagramBlock → Block
  activity : ActivityBlock → Block
  sources : SourcesBlock → Block

pub record IntentCitation : Type 0 where
  pub chunk_id : Uuid
  pub quote : Text

pub record TutorIntervention : Type 0 where
  pub version : ContractVersion
  pub situation : Situation
  pub blocks : List Block
  pub citations : List IntentCitation
  pub grounded : Bool

-- The `isinstance` tests on a block.
abbrev pub is_question : Block → Bool
is_question (question b) = true
is_question _ = false

abbrev pub is_hint : Block → Bool
is_hint (Block.hint b) = true
is_hint _ = false

abbrev pub is_explanation : Block → Bool
is_explanation (Block.explanation b) = true
is_explanation _ = false

abbrev pub is_activity : Block → Bool
is_activity (activity b) = true
is_activity _ = false
