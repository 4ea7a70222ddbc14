-- ===== src/Rag/Validator.antt =====
-- rag.py: `EvidenceResponseValidator.validate`. Whether two characters are one letter up to case
-- (`re.IGNORECASE`, by Python's tables) is an argument.
use docta.Prelude.{
  ℕ, ◌+◌, Bool, true, false, not, ◌&&◌, ◌||◌, Option, none, some, List, [], ◌∷◌, map, Result, ok,
  err, ◌>>=◌, ◌>>◌, raise_if, or_raise, if◌then◌else◌, length, is_empty, any, contains, distinct,
  ◌==◌, ◌!=◌, nat_eq, list_eq,
}
use docta.Models.{Uuid}
use docta.Text.{Text, is_blank, slice, occurs, match_starts}
use docta.Contract.{
  Situation, ambiguous, Mode, hint, guided_question, explanation, abstain, clarify,
  TutorIntervention, IntentCitation, mode_for, equivalent_text, model_validate, ContractError,
}
use docta.Rag.Drafts.{
  RetrievalScope, Evidence, TutorRequest, DraftCitation, TutorDraft, Failure, output_invalid,
  scope_invalid, contract_error, lift, quote_fields, draft_fields, abstention, intent_citation,
  draft_from_intervention,
}

-- `except (ValueError, …): raise RAGFailure("MODEL_OUTPUT_INVALID")`
abbrev pub or_invalid : {A : Type 0} → Result ContractError A → Result Failure A
or_invalid (ok a) = ok a
or_invalid (err e) = err output_invalid

unfoldable pub revalidate_intervention : Option TutorIntervention → Result Failure Unit
revalidate_intervention none = ok tt
revalidate_intervention (some v) = or_invalid (model_validate v) >>= λ _. ok tt

-- `TutorDraft.model_validate_json(draft.model_dump_json())`
unfoldable pub revalidate : TutorDraft → Result Failure Unit
revalidate draft = do
  raise_if (not (draft_fields draft)) output_invalid
  revalidate_intervention draft.intervention

abbrev pub mode_beq : Mode → Mode → Bool
mode_beq hint hint = true
mode_beq guided_question guided_question = true
mode_beq explanation explanation = true
mode_beq abstain abstain = true
mode_beq clarify clarify = true
mode_beq _ _ = false

abbrev pub bool_beq : Bool → Bool → Bool
bool_beq true b = b
bool_beq false b = not b

unfoldable pub same_citations : List DraftCitation → List IntentCitation → Bool
same_citations [] [] = true
same_citations (c ∷ cs) (d ∷ ds) =
    c.chunk_id == d.chunk_id && c.quote == d.quote && same_citations cs ds
same_citations _ _ = false

-- The draft's fields are the ones that derive from its intervention.
unfoldable pub consistent : TutorDraft → TutorIntervention → Result Failure Unit
consistent draft v = do
  text ← lift (equivalent_text v)
  raise_if
      (draft.answer != text
        || not (mode_beq draft.mode (mode_for v))
        || not (bool_beq draft.grounded v.grounded)
        || not (same_citations draft.citations v.citations)
        || not (distinct (map (λ (c : IntentCitation). c.chunk_id) v.citations)))
      output_invalid

-- `{item.chunk_id: item for item in evidence}.get(id)`: the last item with the id counts
unfoldable pub source_of : List Evidence → Uuid → Option Evidence
source_of [] id = none
source_of (e ∷ es) id = elim (source_of es id) [
  | some found ↦ some found
  | none ↦ if e.chunk_id == id then some e else none
]

abbrev pub out_of_scope : RetrievalScope → Evidence → Bool
out_of_scope scope e =
    e.course_id != scope.course_id || e.corpus_version_id != scope.corpus_version_id

unfoldable pub check_scope : TutorRequest → Result Failure Unit
check_scope request =
    raise_if
      (not (distinct (map (λ (e : Evidence). e.chunk_id) request.evidence))
        || any (out_of_scope request.scope) request.evidence)
      scope_invalid

abbrev pub is_ambiguous : Situation → Bool
is_ambiguous ambiguous = true
is_ambiguous _ = false

module _ (same_letter : ℕ → ℕ → Bool) where
  -- the one match of the quote, if there is exactly one
  unfoldable pub only_match : Text → Text → List ℕ → Result Failure Text
  only_match quote content (at ∷ []) = ok (slice at (at + length quote) content)
  only_match quote content _ = err output_invalid

  -- the quote as it stands in the source
  unfoldable pub verbatim : Text → Text → Result Failure Text
  verbatim quote content =
      if occurs quote content
      then ok quote
      else only_match quote content (match_starts same_letter quote 0 0 content)

  -- the body of `for citation in draft.citations`, up to the quote that is kept
  unfoldable pub verify : List Evidence → DraftCitation → Result Failure DraftCitation
  verify evidence c = do
    source ← or_raise (source_of evidence c.chunk_id) output_invalid
    raise_if (is_blank c.quote) output_invalid
    quote ← verbatim c.quote source.content
    ok (record { chunk_id = c.chunk_id; quote = quote })

  -- The loop, with the ids that were seen. A citation is built, and its length checked, if its id is
  -- new.
  unfoldable pub verify_all :
      List Evidence → List DraftCitation → (seen : List Uuid) → Result Failure (List DraftCitation)
  verify_all evidence [] seen = ok []
  verify_all evidence (c ∷ cs) seen = do
    verified ← verify evidence c
    let old = contains seen c.chunk_id
    raise_if (not old && not (quote_fields verified)) (contract_error ContractError.field_error)
    rest ← verify_all evidence cs (if old then seen else c.chunk_id ∷ seen)
    ok (if old then rest else verified ∷ rest)

  -- the last statements: `repaired`, or the draft with its citations replaced
  unfoldable pub repair :
      TutorDraft → Option TutorIntervention → List DraftCitation → Result Failure TutorDraft
  repair draft none citations = ok (record draft { citations = citations })
  repair draft (some v) citations =
      draft_from_intervention (record v { citations = map intent_citation citations })

  -- from `if not request.evidence` on
  unfoldable pub validate_factual : TutorDraft → TutorRequest → Result Failure TutorDraft
  validate_factual draft request = do
    raise_if (is_empty request.evidence || not draft.grounded || is_empty draft.citations)
        output_invalid
    raise_if (is_blank draft.answer) output_invalid
    citations ← verify_all request.evidence draft.citations []
    repair draft draft.intervention citations

  -- from `sources = …` on
  unfoldable pub validate_evidence : TutorDraft → TutorRequest → Result Failure TutorDraft
  validate_evidence draft request = do
    check_scope request
    (if mode_beq draft.mode abstain
        then (raise_if (draft.grounded || not (is_empty draft.citations)) output_invalid
            >> ok abstention)
        else validate_factual draft request)

  -- `if intervention is not None: …`, and what follows
  unfoldable pub validate_derived :
      TutorDraft → Option TutorIntervention → TutorRequest → Result Failure TutorDraft
  validate_derived draft none request = validate_evidence draft request
  validate_derived draft (some v) request =
      consistent draft v
      >> (if is_ambiguous v.situation then ok draft else validate_evidence draft request)

  unfoldable pub validate : TutorDraft → TutorRequest → Result Failure TutorDraft
  validate draft request = do revalidate draft; validate_derived draft draft.intervention request
