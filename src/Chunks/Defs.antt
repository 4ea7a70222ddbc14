-- ===== src/Chunks/Defs.antt =====
-- document_parser.py: `build_chunks` and the records that it works on.
use docta.Prelude.{
  ℕ, zero, suc, ◌+◌, ◌-◌, ◌/◌, min, max, Option, some, none, List, [], ◌∷◌, ◌++◌, String, Result,
  ok, err, ltb, leb, if◌then◌else◌, length, is_empty,
}
use docta.Models.{DocumentVersionState, ocr_required}
use docta.Text.{Text, strip, slice, rfind}

pub record ParsedPage : Type 0 where
  pub number : ℕ
  pub text : Text

pub record ParsedDocument : Type 0 where
  pub pages : List ParsedPage
  pub parser_version : String

pub record ParsedChunk : Type 0 where
  pub page : ℕ
  pub ordinal : ℕ
  pub content : Text
  pub content_hash : String

pub record DocumentProcessingFailure : Type 0 where
  pub code : String
  pub state : DocumentVersionState

-- The variables that the loops of `build_chunks` change: `chunks` and `ordinal`.
pub record Building : Type 0 where
  pub chunks : List ParsedChunk
  pub ordinal : ℕ

-- `chunks = []; ordinal = 0`
abbrev pub nothing : Building
nothing = record { chunks = []; ordinal = 0 }

-- where the chunk that begins at `start` ends
unfoldable pub chunk_end : (size_characters : ℕ) → Text → (start : ℕ) → ℕ
unfolding rfind
chunk_end size_characters text start =
    let proposed_end = min (start + size_characters) (length text) in
    if ltb proposed_end (length text)
    then (elim (rfind b' ' (start + size_characters / 2) proposed_end text) [
      | none ↦ proposed_end
      | some break_at ↦ if ltb start break_at then break_at else proposed_end
    ])
    else proposed_end

module _ (sha256 : Text → String) (size_characters overlap_characters : ℕ) where
  -- `if content: chunks.append(…); ordinal += 1`
  unfoldable pub add_chunk : ParsedPage → (start end : ℕ) → Building → Building
  add_chunk page start end b =
      let content = strip (slice start end page.text) in
      if is_empty content then b else record {
        chunks =
            b.chunks
            ++ record {
              page = page.number;
              ordinal = b.ordinal;
              content = content;
              content_hash = sha256 content;
            }
              ∷ [];
        ordinal = b.ordinal + 1;
      }

  -- `while start < len(page.text)`; `none` means that the fuel ran out
  unfoldable pub chunk_page : (fuel : ℕ) → ParsedPage → (start : ℕ) → Building → Option Building
  chunk_page zero page start b = none
  chunk_page (suc fuel) page start b =
      let end = chunk_end size_characters page.text start in
      let b' = add_chunk page start end b in
      let rest = chunk_page fuel page (max (end - overlap_characters) (start + 1)) b' in
      if ltb start (length page.text)
      then if leb (length page.text) end then some b' else rest
      else some b

  -- `for page in document.pages`
  unfoldable pub chunk_pages : List ParsedPage → Building → Option Building
  chunk_pages [] b = some b
  chunk_pages (page ∷ pages) b = elim (chunk_page (suc (length page.text)) page 0 b) [
    | none ↦ none
    | some b' ↦ chunk_pages pages b'
  ]

  unfoldable pub finish : Building → Result DocumentProcessingFailure (List ParsedChunk)
  finish b =
      if is_empty b.chunks
      then err (record { code = "DOCUMENT_OCR_REQUIRED"; state = ocr_required })
      else ok b.chunks

  -- `none` means that the fuel ran out, which `build_chunks-total` excludes.
  unfoldable pub build_chunks :
      ParsedDocument → Option (Result DocumentProcessingFailure (List ParsedChunk))
  build_chunks document = elim (chunk_pages document.pages nothing) [
    | none ↦ none
    | some b ↦ some (finish b)
  ]
