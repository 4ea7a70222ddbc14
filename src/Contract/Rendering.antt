-- ===== src/Contract/Rendering.antt =====
-- The text of a validated intervention: it is always produced, and it says something.
use docta.Prelude.{
  ◌≤◌, ◌<◌, ◌≡◌, refl, true, false, not, ◌||◌, some, List, [], ◌∷◌, ◌++◌, map, ok, any, All,
  contains, if◌then◌else◌, is_empty, length, length-append, arith, Bool-cases, Option-cases, inl,
  inr, ◌==◌, list_eq, nat_eq, list_beq_iff,
}
use docta.Text.{Text, codes, join}
use docta.Contract.Blocks.{
  DiagramNode, DiagramEdge, Block, question, diagram, activity, sources, TutorIntervention,
}
use docta.Contract.Validation.{model_validate, validate_blocks, validate_block, diagram_consistent}
use docta.Contract.Derived.{
  kind_name, label_of, diagram_step, diagram_steps, block_text, block_texts, equivalent_text,
}

-- Each node of a diagram has a label.
label_of-some :
    (ns : List DiagramNode) (id : Text)
    → contains (map (λ (n : DiagramNode). n.id) ns) id ≡ true
    → (l : Text) × (label_of ns id ≡ some l)
unfolding label_of
label_of-some [] id h = cc
label_of-some (n ∷ ns) id h = elim (Option-cases (label_of ns id)) [
  | inr (l, e) ↦ (l, rw (e, label_of) refl)
  | inl e ↦ elim (Bool-cases (n.id == id)) [
    | inl same ↦ (n.label, rw (e, same) refl)
    | inr other ↦
        let (l, f) =
          label_of-some ns id (ground (arith, list_beq_iff id n.id, list_beq_iff n.id id)) in
        (l, cc (e, f))
  ]
]

diagram_step_ok :
    (ns : List DiagramNode) (e : DiagramEdge) {a b : Text}
    → label_of ns e.source ≡ some a
    → label_of ns e.target ≡ some b
    → (t : Text) × (diagram_step ns e ≡ ok t)
unfolding diagram_step
diagram_step_ok ns e {a} {b} p q = (
  a ++ codes " → " ++ b ++ (if is_empty e.label then [] else codes " (" ++ e.label ++ codes ")"),
  rw (p, q) refl,
)

diagram_steps_ok :
    (ns : List DiagramNode) (es : List DiagramEdge)
    → any
        (λ (e : DiagramEdge).
          not (contains (map (λ (n : DiagramNode). n.id) ns) e.source)
          || not (contains (map (λ (n : DiagramNode). n.id) ns) e.target))
        es
      ≡ false
    → (ts : List Text) × (diagram_steps ns es ≡ ok ts)
unfolding diagram_steps
diagram_steps_ok ns [] h = ([], refl)
diagram_steps_ok ns (e ∷ es) h =
    let (a, p) = label_of-some ns e.source (ground arith) in
    let (b, q) = label_of-some ns e.target (ground arith) in
    let (t, step) = diagram_step_ok ns e p q in
    let (ts, rest) = diagram_steps_ok ns es (ground arith) in (t ∷ ts, rw (step, rest) refl)

block_text_ok :
    (b : Block) → validate_block b ≡ ok tt → (t : Text) × (block_text b ≡ ok t) × (0 < length t)
unfolding block_text validate_block diagram_consistent
block_text_ok (question b) h = (b.text, refl, ground arith)
block_text_ok (Block.hint b) h = (_, refl, omega arith)
block_text_ok (Block.explanation b) h = (
  _,
  refl,
  omega (arith, length-append (b.title ++ codes ". ") b.text, length-append b.title (codes ". ")),
)
block_text_ok (diagram b) h =
    let (ts, e) = diagram_steps_ok b.nodes b.edges (ground arith) in
    (
      kind_name b.kind ++ codes ": " ++ b.title ++ codes ". " ++ join (codes "; ") ts ++ codes ".",
      rw e refl,
      omega (arith, length-append {0} _ (codes ".")),
    )
block_text_ok (activity b) h = (_, refl, omega arith)
block_text_ok (sources b) h = (_, refl, omega arith)

block_texts_ok :
    (bs : List Block)
    → validate_blocks bs ≡ ok tt
    → (ts : List Text) × (block_texts bs ≡ ok ts)
      × (length ts ≡ length bs)
      × All (λ t. 0 < length t) ts
unfolding block_texts validate_blocks
block_texts_ok [] h = ([], refl, refl, tt)
block_texts_ok (b ∷ bs) h =
    let (t, e, p) = block_text_ok b (ground arith) in
    let (ts, f, n, q) = block_texts_ok bs (ground arith) in
    (t ∷ ts, rw (e, f) refl, omega arith, (p, q))

length-join_le : (sep t : Text) (ts : List Text) → length t ≤ length (join sep (t ∷ ts))
unfolding join
length-join_le sep t [] = omega arith
length-join_le sep t (u ∷ ts) =
    omega (arith, length-append t sep, length-append (t ++ sep) (join sep (u ∷ ts)))

-- Of a validated intervention the text is produced, without a missing label, and is not empty.
pub equivalent_text_ok :
    (v : TutorIntervention) {w : TutorIntervention}
    → model_validate v ≡ ok w
    → (t : Text) × (equivalent_text v ≡ ok t) × (0 < length t)
unfolding model_validate equivalent_text
equivalent_text_ok v h =
    let (ts, e, n, p) = block_texts_ok v.blocks (ground arith) in
    (join (10 ∷ 10 ∷ []) ts, rw e refl, join_positive ts (ground arith) p)
  where
    join_positive :
        (ts : List Text)
        → 0 < length ts
        → All (λ t. 0 < length t) ts
        → 0 < length (join (10 ∷ 10 ∷ []) ts)
    join_positive [] k q = absurd (omega arith)
    join_positive (t ∷ ts) k q = omega (arith, length-join_le (10 ∷ 10 ∷ []) t ts, q.0)
