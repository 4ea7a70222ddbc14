-- ===== src/Chunks/Ordinals.antt =====
-- The ordinals of the chunks: each is the chunk's position.
use mathlib.Core.Option.{some-injective}
use docta.Prelude.{
  ℕ, ◌<◌, ◌≡◌, refl, sym, ◌∙◌, ap, some, List, String, ok, length, get_elem?, is_empty, arith,
  Bool-cases, inl, inr, get_elem?-snoc, length-append,
}
use docta.Text.{Text, strip, slice}
use docta.Chunks.Defs.{
  ParsedPage, ParsedDocument, ParsedChunk, Building, nothing, add_chunk, build_chunks,
}
use docta.Chunks.Windows.{build_chunks-finish, finish-ok, add_pages_induction}

pub record Numbered (b : Building) : Type 0 where
  pub next : b.ordinal ≡ length b.chunks
  pub each : (i : ℕ) (c : ParsedChunk) → get_elem? b.chunks i ≡ some c → c.ordinal ≡ i

module _ (sha256 : Text → String) (size overlap : ℕ) where
  add_chunk-Numbered :
      (page : ParsedPage) (start end : ℕ) (b : Building)
      → Numbered b
      → Numbered (add_chunk sha256 size overlap page start end b)
  unfolding add_chunk
  add_chunk-Numbered page start end b n =
      elim (Bool-cases (is_empty (strip (slice start end page.text)))) [
        | inl e ↦ rw e n
        | inr e ↦ rw e (record {
          next = omega (arith, length-append b.chunks, n.next);
          each = λ i c h. elim (get_elem?-snoc b.chunks _ i c h) [
            | inl old ↦ n.each i c old
            | inr last ↦ sym (ap (λ (x : ParsedChunk). x.ordinal) last.1) ∙ n.next ∙ sym last.0
          ];
        })
      ]

  -- The chunk at position i has the ordinal i, if the size is positive.
  pub build_chunks-ordinal :
      (document : ParsedDocument) {chunks : List ParsedChunk} (i : ℕ) (c : ParsedChunk)
      → 0 < size
      → build_chunks sha256 size overlap document ≡ some (ok chunks)
      → get_elem? chunks i ≡ some c
      → c.ordinal ≡ i
  build_chunks-ordinal document i c positive h at =
      let kept =
        add_pages_induction sha256 size overlap positive Numbered document.pages
          (λ page w b _ _. add_chunk-Numbered page w.start w.end b) document.pages nothing
          (λ p m. m) (record { next = refl; each = λ i c h. cc }) in
      let same =
        finish-ok sha256 size overlap _
          (some-injective _ _ (sym (build_chunks-finish sha256 size overlap document) ∙ h)) in
      kept.each i c (ap (λ xs. get_elem? xs i) same ∙ at)
