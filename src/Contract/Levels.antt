-- ===== src/Contract/Levels.antt =====
-- The help level that is stored with a message.
use docta.Prelude.{◌≤◌, ◌≡◌, refl, false, List, [], ◌∷◌, ok, any, arith, ◌↔◌}
use docta.Contract.Blocks.{Block, TutorIntervention, is_hint}
use docta.Contract.Validation.{model_validate, validate_blocks, validate_block}
use docta.Contract.Derived.{help_level, highest_level}

level_at_most : (bs : List Block) → validate_blocks bs ≡ ok tt → highest_level bs ≤ 3
unfolding highest_level validate_blocks validate_block
level_at_most [] h = omega arith
level_at_most (Block.hint b ∷ bs) h = ground (arith, level_at_most bs)
level_at_most (b ∷ bs) h = ground (arith, level_at_most bs)

no_hint_of_level :
    (bs : List Block) → validate_blocks bs ≡ ok tt → highest_level bs ≡ 0 → any is_hint bs ≡ false
unfolding highest_level validate_blocks validate_block
no_hint_of_level [] h e = refl
no_hint_of_level (Block.hint b ∷ bs) h e = ground arith
no_hint_of_level (b ∷ bs) h e = ground (arith, no_hint_of_level bs)

level_of_no_hint : (bs : List Block) → any is_hint bs ≡ false → highest_level bs ≡ 0
unfolding highest_level
level_of_no_hint [] e = refl
level_of_no_hint (Block.hint b ∷ bs) e = ground arith
level_of_no_hint (b ∷ bs) e = level_of_no_hint bs e

-- Of a validated intervention the help level is at most 3, and it is 0 exactly if no block is a hint.
pub help_level_bounds :
    (v : TutorIntervention) {w : TutorIntervention}
    → model_validate v ≡ ok w
    → (help_level v ≤ 3) × ((help_level v ≡ 0) ↔ (any is_hint v.blocks ≡ false))
unfolding model_validate help_level
help_level_bounds v h =
    let valid : validate_blocks v.blocks ≡ ok tt = ground arith in
    (level_at_most v.blocks valid, (no_hint_of_level v.blocks valid, level_of_no_hint v.blocks))
