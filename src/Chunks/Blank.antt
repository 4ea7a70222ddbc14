-- ===== src/Chunks/Blank.antt =====
-- When a document yields no chunk, which the program reports as a need for OCR.
use mathlib.Core.Option.{some-injective}
use mathlib.Core.List.{Memᴰ}
use docta.Prelude.{
  ℕ, ◌<◌, ◌≡◌, refl, sym, ◌∙◌, ap, true, some, List, [], ◌∷◌, String, ◌↔◌, err, all, All,
  All_of_mem, is_empty, arith, Bool-cases, ◌-◌, inl, inr, not_all, all-take, all-drop,
  not_mem_of_is_empty,
}
use docta.Text.{Text, is_space, slice, is_blank-all}
use docta.Models.{ocr_required}
use docta.Chunks.Defs.{
  ParsedPage, ParsedDocument, Building, nothing, DocumentProcessingFailure, add_chunk, finish,
  build_chunks,
}
use docta.Chunks.Windows.{Window, add_windows, add_pages, build_chunks-finish}
use docta.Chunks.Coverage.{add_pages_covers}

abbrev pub IsBlankPage : ParsedPage → Type 0
IsBlankPage page = all is_space page.text ≡ true

abbrev pub needs_ocr : DocumentProcessingFailure
needs_ocr = record { code = "DOCUMENT_OCR_REQUIRED"; state = ocr_required }

module _ (sha256 : Text → String) (size overlap : ℕ) where
  add_windows_blank :
      (page : ParsedPage) (ws : List Window) (b : Building)
      → IsBlankPage page
      → add_windows sha256 size overlap page ws b ≡ b
  unfolding add_windows add_chunk
  add_windows_blank page [] b h = refl
  add_windows_blank page (w ∷ ws) b h =
      rw
        (is_blank-all (slice w.start w.end page.text)
          (all-take is_space (w.end - w.start) _ (all-drop is_space w.start page.text h)))
        (add_windows_blank page ws b h)

  add_pages_blank :
      (pages : List ParsedPage) (b : Building)
      → All IsBlankPage pages
      → add_pages sha256 size overlap pages b ≡ b
  unfolding add_pages
  add_pages_blank [] b h = refl
  add_pages_blank (page ∷ pages) b h =
      rw (add_windows_blank page _ b h.0) (add_pages_blank pages b h.1)

  finish-err :
      (b : Building) {e : DocumentProcessingFailure}
      → finish sha256 size overlap b ≡ err e
      → is_empty b.chunks ≡ true
  unfolding finish
  finish-err b h = ground arith

  page_blank :
      (document : ParsedDocument)
      → 0 < size
      → is_empty (add_pages sha256 size overlap document.pages nothing).chunks ≡ true
      → (page : ParsedPage) → Memᴰ page document.pages
      → IsBlankPage page
  page_blank document positive h page m = elim (Bool-cases (all is_space page.text)) [
    | inl blank ↦ blank
    | inr other ↦
        let (i, c, at, n) = not_all is_space page.text other in
        let (chunk, found, _) =
          add_pages_covers sha256 size overlap positive document.pages page i c nothing m at n in
        absurd (not_mem_of_is_empty _ h found)
  ]

  -- With a positive size, `build_chunks` reports a need for OCR exactly if the text of every page is
  -- white space alone.
  pub build_chunks-err_iff :
      (document : ParsedDocument)
      → 0 < size
      → (build_chunks sha256 size overlap document ≡ some (err needs_ocr))
        ↔ All IsBlankPage document.pages
  build_chunks-err_iff document positive = (
    λ h. All_of_mem IsBlankPage document.pages (
        page_blank document positive (
          finish-err _
            (some-injective _ _ (sym (build_chunks-finish sha256 size overlap document) ∙ h)))),
    λ h.
        build_chunks-finish sha256 size overlap document
        ∙ ap (λ b. some (finish sha256 size overlap b)) (add_pages_blank document.pages nothing h)
        ∙ unfold finish in refl,
  )
