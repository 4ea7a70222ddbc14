-- ===== src/Chunks/Windows.antt =====
-- What the inner loop of `build_chunks` comes to: the windows that it cuts a page into.
use mathlib.Core.List.{Memᴰ}
use docta.Prelude.{
  ℕ, zero, suc, ◌+◌, ◌-◌, ◌/◌, ◌≤◌, ◌<◌, min, max, ◌≡◌, refl, some, ok, Result, List, [], ◌∷◌,
  String, ltb, leb, if◌then◌else◌, length, arith, Bool-cases, inl, inr, All, Option-cases, ltb→lt,
}
use docta.Text.{Text, rfind_bounds, rfind}
use docta.Chunks.Defs.{
  ParsedPage, Building, chunk_end, add_chunk, chunk_page, chunk_pages, ParsedChunk, ParsedDocument,
  build_chunks, finish, nothing, DocumentProcessingFailure,
}

pub record Window : Type 0 where
  pub start : ℕ
  pub end : ℕ

-- A chunk's end lies behind its start and within the page, and the chunk fits the size.
pub chunk_end_bounds :
    (size : ℕ) (text : Text) (start : ℕ)
    → 0 < size
    → start < length text
    → (start < chunk_end size text start)
      × (chunk_end size text start ≤ length text)
      × (chunk_end size text start ≤ start + size)
unfolding chunk_end
chunk_end_bounds size text start p h =
    elim (Option-cases (rfind b' ' (start + size / 2) (min (start + size) (length text)) text)) [
      | inl e ↦ rw e (ground arith)
      | inr (i, e) ↦
          let low =
            rfind_bounds b' ' (start + size / 2) (min (start + size) (length text)) text e in
          rw e (ground arith)
    ]

module _ (size overlap : ℕ) where
  unfoldable pub windows : (fuel : ℕ) → Text → (start : ℕ) → List Window
  windows zero text start = []
  windows (suc fuel) text start =
      let end = chunk_end size text start in
      let rest = windows fuel text (max (end - overlap) (start + 1)) in
      if ltb start (length text)
      then record { start = start; end = end } ∷ (if leb (length text) end then [] else rest)
      else []

module _ (sha256 : Text → String) (size overlap : ℕ) where
  unfoldable pub add_windows : ParsedPage → List Window → Building → Building
  add_windows page [] b = b
  add_windows page (w ∷ ws) b =
      add_windows page ws (add_chunk sha256 size overlap page w.start w.end b)

  -- With fuel for each character that is left, the loop ends, and adds its windows in order.
  pub chunk_page-windows :
      (fuel : ℕ) (page : ParsedPage) (start : ℕ) (b : Building)
      → length page.text < fuel + start
      → start ≤ length page.text
      → chunk_page sha256 size overlap fuel page start b
        ≡ some (add_windows page (windows size overlap fuel page.text start) b)
  unfolding chunk_page windows add_windows
  chunk_page-windows zero page start b h k = absurd (omega arith)
  chunk_page-windows (suc fuel) page start b h k =
      elim (Bool-cases (ltb start (length page.text))) [
        | inl more ↦ elim (Bool-cases (leb (length page.text) (chunk_end size page.text start))) [
          | inl last ↦ rw (more, last) refl
          | inr next ↦
              rw (more, next) (chunk_page-windows fuel page _ _ (ground arith) (ground arith))
        ]
        | inr done ↦ rw done refl
      ]

-- What each window of a page satisfies.
pub record IsWindow (size : ℕ) (text : Text) (w : Window) : Type 0 where
  pub nonempty : w.start < w.end
  pub within : w.end ≤ length text
  pub fits : w.end ≤ w.start + size

module _ (size overlap : ℕ) (positive : 0 < size) where
  pub windows-IsWindow :
      (fuel : ℕ) (text : Text) (start : ℕ)
      → All (IsWindow size text) (windows size overlap fuel text start)
  unfolding windows
  windows-IsWindow zero text start = tt
  windows-IsWindow (suc fuel) text start = elim (Bool-cases (ltb start (length text))) [
    | inl more ↦
        let (below, within, fits) =
          chunk_end_bounds size text start positive (ltb→lt start (length text) more) in
        let one : IsWindow size text (record { start = start; end = chunk_end size text start }) =
          record { nonempty = below; within = within; fits = fits } in
        elim (Bool-cases (leb (length text) (chunk_end size text start))) [
          | inl last ↦ rw (more, last) (one, tt)
          | inr next ↦ rw (more, next) (one, windows-IsWindow fuel text _)
        ]
    | inr done ↦ rw done tt
  ]

module _ (sha256 : Text → String) (size overlap : ℕ) where
  -- What the loop over the pages comes to.
  unfoldable pub add_pages : List ParsedPage → Building → Building
  add_pages [] b = b
  add_pages (page ∷ pages) b = add_pages pages (
      add_windows sha256 size overlap page
        (windows size overlap (suc (length page.text)) page.text 0) b)

  pub chunk_pages-add_pages :
      (pages : List ParsedPage) (b : Building)
      → chunk_pages sha256 size overlap pages b ≡ some (add_pages pages b)
  unfolding chunk_pages add_pages
  chunk_pages-add_pages [] b = refl
  chunk_pages-add_pages (page ∷ pages) b =
      rw
        (
          chunk_page-windows sha256 size overlap (suc (length page.text)) page 0 b (omega arith)
              (omega arith),
          chunk_pages,
        )
        (chunk_pages-add_pages pages _)

  -- `build_chunks` returns: the fuel of each page suffices.
  pub build_chunks-finish :
      (document : ParsedDocument)
      → build_chunks sha256 size overlap document
        ≡ some (finish sha256 size overlap (add_pages document.pages nothing))
  unfolding build_chunks
  build_chunks-finish document =
      rw (chunk_pages-add_pages document.pages nothing, build_chunks) refl

  pub finish-ok :
      (b : Building) {chunks : List ParsedChunk}
      → finish sha256 size overlap b ≡ ok chunks
      → b.chunks ≡ chunks
  unfolding finish
  finish-ok b h = ground arith

module _ (sha256 : Text → String) (size overlap : ℕ) (positive : 0 < size) (Q : Building → Type 0)
    (document : List ParsedPage)
    (step : (page : ParsedPage) (w : Window) (b : Building)
      → Memᴰ page document
      → IsWindow size page.text w
      → Q b
      → Q (add_chunk sha256 size overlap page w.start w.end b)) where
  pub add_windows_induction :
      (page : ParsedPage) (ws : List Window) (b : Building)
      → Memᴰ page document
      → All (IsWindow size page.text) ws
      → Q b
      → Q (add_windows sha256 size overlap page ws b)
  unfolding add_windows
  add_windows_induction page [] b m h q = q
  add_windows_induction page (w ∷ ws) b m h q =
      add_windows_induction page ws _ m h.1 (step page w b m h.0 q)

  -- What holds at the start and is kept by each chunk holds at the end.
  pub add_pages_induction :
      (pages : List ParsedPage) (b : Building)
      → ((p : ParsedPage) → Memᴰ p pages → Memᴰ p document)
      → Q b
      → Q (add_pages sha256 size overlap pages b)
  unfolding add_pages
  add_pages_induction [] b sub q = q
  add_pages_induction (page ∷ pages) b sub q =
      add_pages_induction pages _ (λ p m. sub p (Memᴰ.tail m))
        (add_windows_induction page _ b (sub page (Memᴰ.head refl))
          (windows-IsWindow size overlap positive (suc (length page.text)) page.text 0) q)

-- `build_chunks` always returns: no loop of it runs out of fuel, whatever the sizes.
pub build_chunks-total :
    (sha256 : Text → String) (size overlap : ℕ) (document : ParsedDocument)
    → (r : Result DocumentProcessingFailure (List ParsedChunk)) × (build_chunks sha256 size overlap
          document
        ≡ some r)
build_chunks-total sha256 size overlap document = (
  finish sha256 size overlap (add_pages sha256 size overlap document.pages nothing),
  build_chunks-finish sha256 size overlap document,
)
