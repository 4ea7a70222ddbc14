-- ===== src/Tests/Contract.antt =====
-- tutor_contract.py on small interventions.
use docta.Prelude.{◌≤◌, ◌<◌, ◌≡◌, refl, true, false, List, [], ◌∷◌, ok, length, any, ◌↔◌}
use docta.Prelude.Int.{pos}
use docta.Text.{Text, codes, show_next, show_nat, join}
use docta.Contract.{
  entry, blocked, insufficient_evidence, ambiguous, v1, v2, TutorIntervention, IntentCitation,
  Block, question, sources, diagram, sequence, is_hint, abstain, clarify, another_hint, explain,
  view_source, model_validate, coherent, coherent_situation, validate_blocks, validate_block,
  diagram_consistent, misses_citation, is_id, equivalent_text, block_texts, block_text,
  diagram_steps, diagram_step, label_of, mode_for, help_level, allowed_actions, IsCoherent,
  coherent_iff, allowed_actions-IsCoherent, mode_for_iff, help_level_bounds, equivalent_text_ok,
  model_validate-IsCoherent,
}

abbrev quote : Text
quote = codes "la casa verde"

abbrev cited : List IntentCitation
cited = record { chunk_id = 5; quote = quote } ∷ []

abbrev hinting : TutorIntervention
hinting = record {
  version = v2;
  situation = blocked;
  blocks =
      Block.hint (record { level = 2; text = codes "Mira" })
      ∷ question (record { text = codes "Y?" })
      ∷ sources (record { citation_indexes = pos 0 ∷ [] })
      ∷ [];
  citations = cited;
  grounded = true;
}

pub hinting_valid : model_validate hinting ≡ ok hinting
unfolding model_validate coherent coherent_situation validate_blocks validate_block misses_citation
hinting_valid = refl

hinting_text : equivalent_text hinting ≡ ok (codes "Pista 2: Mira\n\nY?\n\nFuentes: [1].")
unfolding equivalent_text block_texts block_text join show_nat show_next
hinting_text = refl

abbrev drawing : TutorIntervention
drawing = record {
  version = v1;
  situation = entry;
  blocks =
      diagram (record {
        kind = sequence;
        title = codes "T";
        nodes =
            record { id = codes "a"; label = codes "Uno" }
            ∷ record { id = codes "b_1"; label = codes "Dos" }
            ∷ [];
        edges = record { source = codes "a"; target = codes "b_1"; label = codes "x" } ∷ [];
      })
      ∷ [];
  citations = cited;
  grounded = true;
}

drawing_valid : model_validate drawing ≡ ok drawing
unfolding model_validate coherent coherent_situation validate_blocks validate_block
    diagram_consistent misses_citation is_id
drawing_valid = refl

drawing_text : equivalent_text drawing ≡ ok (codes "Secuencia: T. Uno → Dos (x).")
unfolding equivalent_text block_texts block_text diagram_steps diagram_step label_of join
drawing_text = refl

hinting-IsCoherent : IsCoherent hinting
hinting-IsCoherent = (model_validate-IsCoherent hinting hinting_valid).1

coherent_iff_example : (coherent hinting ≡ ok tt) ↔ IsCoherent hinting
coherent_iff_example = coherent_iff hinting

allowed_actions-IsCoherent_example :
    allowed_actions hinting ≡ another_hint ∷ explain ∷ view_source ∷ []
allowed_actions-IsCoherent_example = allowed_actions-IsCoherent hinting hinting-IsCoherent

mode_for_iff_example :
    ((mode_for hinting ≡ abstain) ↔ (blocked ≡ insufficient_evidence))
    × ((mode_for hinting ≡ clarify) ↔ (blocked ≡ ambiguous))
mode_for_iff_example = mode_for_iff hinting

help_level_bounds_example :
    (help_level hinting ≤ 3) × ((help_level hinting ≡ 0) ↔ (any is_hint hinting.blocks ≡ false))
help_level_bounds_example = help_level_bounds hinting hinting_valid

equivalent_text_ok_example : (t : Text) × (equivalent_text drawing ≡ ok t) × (0 < length t)
equivalent_text_ok_example = equivalent_text_ok drawing drawing_valid
