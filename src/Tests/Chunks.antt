-- ===== src/Tests/Chunks.antt =====
-- document_parser.py on a small document.
use mathlib.Core.List.{Memᴰ}
use docta.Prelude.{ℕ, ◌≡◌, refl, some, List, [], ◌∷◌, String, Result, ok, err, All, ◌↔◌, arith}
use docta.Text.{Text, codes, is_space, strip, rfind}
use docta.Chunks.{
  ParsedPage, ParsedDocument, ParsedChunk, DocumentProcessingFailure, build_chunks, chunk_pages,
  chunk_page, add_chunk, chunk_end, finish, IsCut, Covers, IsBlankPage, needs_ocr,
  build_chunks-IsCut, build_chunks-ordinal, build_chunks-Covers, build_chunks-err_iff,
  build_chunks-total,
}

abbrev hash : Text → String
hash t = "h"

abbrev page : ParsedPage
page = record { number = 7; text = codes "ab cde f " }

abbrev document : ParsedDocument
document = record { pages = page ∷ []; parser_version = "p" }

abbrev chunk : ℕ → String → ParsedChunk
chunk ordinal content = record {
  page = 7;
  ordinal = ordinal;
  content = codes content;
  content_hash = "h";
}

abbrev chunks : List ParsedChunk
chunks = chunk 0 "ab" ∷ chunk 1 "b cd" ∷ chunk 2 "de" ∷ chunk 3 "e f" ∷ []

document_chunks : build_chunks hash 4 1 document ≡ some (ok chunks)
unfolding build_chunks chunk_pages chunk_page add_chunk chunk_end finish strip rfind is_space
document_chunks = refl

build_chunks-total_example :
    (r : Result DocumentProcessingFailure (List ParsedChunk)) × (build_chunks hash 0 0 document
      ≡ some r)
build_chunks-total_example = build_chunks-total hash 0 0 document

build_chunks-IsCut_example : All (IsCut hash 4 (page ∷ [])) chunks
build_chunks-IsCut_example = build_chunks-IsCut hash 4 1 document (omega arith) document_chunks

build_chunks-ordinal_example : (chunk 2 "de").ordinal ≡ 2
build_chunks-ordinal_example =
    build_chunks-ordinal hash 4 1 document 2 (chunk 2 "de") (omega arith) document_chunks refl

build_chunks-Covers_example : (c : ParsedChunk) × Memᴰ c chunks × Covers page 7 c
unfolding is_space
build_chunks-Covers_example =
    build_chunks-Covers hash 4 1 document page 7 b'f' (omega arith) document_chunks (Memᴰ.head refl)
      refl refl

abbrev blank : ParsedDocument
blank = record { pages = record { number = 1; text = codes "  " } ∷ []; parser_version = "p" }

build_chunks-err_iff_example :
    (build_chunks hash 4 1 blank ≡ some (err needs_ocr)) ↔ All IsBlankPage blank.pages
build_chunks-err_iff_example = build_chunks-err_iff hash 4 1 blank (omega arith)
