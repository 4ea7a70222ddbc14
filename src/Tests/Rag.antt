-- ===== src/Tests/Rag.antt =====
-- rag.py: a draft whose quote differs from the source in one capital letter.
use docta.Prelude.{ℕ, ◌≡◌, refl, Bool, true, false, ◌||◌, ◌&&◌, none, [], ◌∷◌, ok, ◌⊎◌, nat_beq}
use docta.Text.{Text, codes, strip, is_space, occurs, match_starts}
use docta.Contract.{explanation}
use docta.Rag.{
  Evidence, TurnKind, TutorRequest, TutorDraft, abstention, validate, validate_derived,
  validate_evidence, validate_factual, verify_all, verify, verbatim, only_match, repair, revalidate,
  revalidate_intervention, check_scope, source_of, IsClarification, IsGrounded, validate_sound,
}

-- `L` and `l` are the one pair of letters that differ in case alone.
abbrev same_letter : ℕ → ℕ → Bool
same_letter c d = nat_beq c d || (nat_beq c b'L' && nat_beq d b'l')

abbrev evidence : Evidence
evidence = record {
  chunk_id = 5;
  course_id = 1;
  corpus_version_id = 2;
  document_version_id = 3;
  document_title = codes "Libro";
  document_sha256 = "s";
  page_start = 1;
  page_end = 1;
  fragment = codes "chunk-0";
  content = codes "vio la casa verde";
  content_hash = "h";
}

abbrev request : TutorRequest
request = record {
  scope = record {
    course_id = 1;
    corpus_version_id = 2;
    principal_user_id = 8;
    conversation_id = 9;
    message_id = 10;
    correlation_id = "c";
  };
  question = codes "?";
  evidence = evidence ∷ [];
  history = [];
  turn_kind = TurnKind.question;
  turn_intent = none;
  retrieval_query = none;
  needs_antecedent = false;
}

abbrev draft : Text → TutorDraft
draft quote = record {
  mode = explanation;
  answer = codes "Verde";
  citations = record { chunk_id = 5; quote = quote } ∷ [];
  grounded = true;
  intervention = none;
}

draft_repaired :
    validate same_letter (draft (codes "La casa verde")) request
    ≡ ok (draft (codes "la casa verde"))
unfolding validate validate_derived validate_evidence validate_factual verify_all verify verbatim
    only_match repair revalidate revalidate_intervention check_scope source_of strip is_space occurs
    match_starts
draft_repaired = refl

validate_sound_example :
    (draft (codes "la casa verde") ≡ abstention)
    ⊎ (((draft (codes "la casa verde") ≡ draft (codes "La casa verde"))
          × IsClarification (draft (codes "la casa verde")))
        ⊎ IsGrounded request (draft (codes "la casa verde")))
validate_sound_example =
    validate_sound same_letter (draft (codes "La casa verde")) request draft_repaired
