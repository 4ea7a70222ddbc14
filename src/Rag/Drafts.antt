-- ===== src/Rag/Drafts.antt =====
-- rag.py: the records of the retrieval and tutor contracts, and the drafts that the application makes.
use docta.Prelude.{
  ℕ, Bool, false, not, ◌&&◌, Option, none, some, List, [], ◌∷◌, map, String, Result, ok, err, ◌>>=◌,
  ◌>>◌, raise_if, all,
}
use docta.Models.{Uuid}
use docta.Text.{Text, codes}
use docta.Contract.{
  Situation, ambiguous, v1, Mode, abstain, Block, TutorIntervention, IntentCitation, ContractError,
  sized, mode_for, equivalent_text, model_validate,
}

abbrev pub prompt_version : String
prompt_version = "socratic-tutor-v4"

pub record RetrievalScope : Type 0 where
  pub course_id : Uuid
  pub corpus_version_id : Uuid
  pub principal_user_id : Uuid
  pub conversation_id : Uuid
  pub message_id : Uuid
  pub correlation_id : String

pub record Evidence : Type 0 where
  pub chunk_id : Uuid
  pub course_id : Uuid
  pub corpus_version_id : Uuid
  pub document_version_id : Uuid
  pub document_title : Text
  pub document_sha256 : String
  pub page_start : ℕ
  pub page_end : ℕ
  pub fragment : Text
  pub content : Text
  pub content_hash : String

pub record HistoryTurn : Type 0 where
  pub question : Text
  pub answer : Text
  pub situation : Option Situation
  pub help_level : ℕ

-- `kind` and `intent` of a turn
pub data TurnKind : Type 0 where
  question followup action : TurnKind

pub data Intent : Type 0 where
  another_hint explain dont_know : Intent

pub record TutorRequest : Type 0 where
  pub scope : RetrievalScope
  pub question : Text
  pub evidence : List Evidence
  pub history : List HistoryTurn
  pub turn_kind : TurnKind
  pub turn_intent : Option Intent
  pub retrieval_query : Option Text
  pub needs_antecedent : Bool

pub record DraftCitation : Type 0 where
  pub chunk_id : Uuid
  pub quote : Text

pub record TutorDraft : Type 0 where
  pub mode : Mode
  pub answer : Text
  pub citations : List DraftCitation
  pub grounded : Bool
  pub intervention : Option TutorIntervention

-- What the functions of the module raise.
pub data Failure : Type 0 where
  rag_failure : String → Failure
  -- a pydantic `ValidationError`, or a `KeyError`
  contract_error : ContractError → Failure

abbrev pub output_invalid : Failure
output_invalid = rag_failure "MODEL_OUTPUT_INVALID"

abbrev pub scope_invalid : Failure
scope_invalid = rag_failure "RETRIEVAL_SCOPE_INVALID"

-- an error of the contract, raised through a function of this module
abbrev pub lift : {A : Type 0} → Result ContractError A → Result Failure A
lift (ok a) = ok a
lift (err e) = err (contract_error e)

abbrev pub quote_fields : DraftCitation → Bool
quote_fields c = sized 10 1600 c.quote

-- the constraints of the fields of `TutorDraft`, but for the intervention
abbrev pub draft_fields : TutorDraft → Bool
draft_fields d = sized 1 6000 d.answer && sized 0 5 d.citations && all quote_fields d.citations

abbrev pub abstention_text : Text
abstention_text =
    codes
      "No encuentro evidencia suficiente en el material activo del curso para responder. ¿Puedes precisar el concepto o indicar la sección del PDF que estás estudiando?"

abbrev pub abstention : TutorDraft
abstention = record {
  mode = abstain;
  answer = abstention_text;
  citations = [];
  grounded = false;
  intervention = none;
}

abbrev pub clarification_text : Text
clarification_text =
    codes
      "¿A qué actividad o pregunta te refieres? Escríbela o indica el fragmento del material que estás estudiando."

abbrev pub draft_citation : IntentCitation → DraftCitation
draft_citation c = record { chunk_id = c.chunk_id; quote = c.quote }

abbrev pub intent_citation : DraftCitation → IntentCitation
intent_citation c = record { chunk_id = c.chunk_id; quote = c.quote }

-- `TutorDraft(…)` checks its fields, and takes the intervention, an instance, as it is.
unfoldable pub draft_from_intervention : TutorIntervention → Result Failure TutorDraft
draft_from_intervention v = do
  answer ← lift (equivalent_text v)
  let draft : TutorDraft = record {
    mode = mode_for v;
    answer = answer;
    citations = map draft_citation v.citations;
    grounded = v.grounded;
    intervention = some v;
  }
  raise_if (not (draft_fields draft)) (contract_error ContractError.field_error)
  ok draft

abbrev pub clarification_intervention : TutorIntervention
clarification_intervention = record {
  version = v1;
  situation = ambiguous;
  blocks = Block.question (record { text = clarification_text }) ∷ [];
  citations = [];
  grounded = false;
}

unfoldable pub clarification : Result Failure TutorDraft
clarification = do v ← lift (model_validate clarification_intervention); draft_from_intervention v
