-- ===== src/Chunks/Origin.antt =====
-- Where the chunks come from: each is a slice of the text of a page, within the size.
use mathlib.Core.List.{Memᴰ}
use mathlib.Core.Path.{subst}
use mathlib.Core.Option.{some-injective}
use docta.Prelude.{
  ℕ, ◌+◌, ◌-◌, ◌≤◌, ◌<◌, ◌≡◌, refl, sym, ap, ◌∙◌, some, List, ◌++◌, String, ok, length, take, drop,
  is_empty, arith, Bool-cases, inl, inr, All, All-append, length-take, take-append-drop,
  append_nest,
}
use docta.Text.{Text, strip, slice, strip_split, length-strip_le}
use docta.Chunks.Defs.{
  ParsedPage, ParsedDocument, ParsedChunk, Building, nothing, add_chunk, build_chunks,
}
use docta.Chunks.Windows.{build_chunks-finish, finish-ok, add_pages_induction}

-- The text `mid` stands in `text`, behind `pre` and before `post`.
abbrev pub Splits : Text → (pre mid post : Text) → Type 0
Splits text pre mid post = text ≡ pre ++ (mid ++ post)

module _ (sha256 : Text → String) (size : ℕ) where
  -- A chunk is cut from a page of the document: it has the page's number and the hash of its text,
  -- which stands in the page's, is not empty and fits the size.
  pub record IsCut (pages : List ParsedPage) (c : ParsedChunk) : Type 0 where
    pub page : ParsedPage
    pub member : Memᴰ page pages
    pub numbered : c.page ≡ page.number
    pub pre : Text
    pub post : Text
    pub stands : Splits page.text pre c.content post
    pub nonempty : 0 < length c.content
    pub fits : length c.content ≤ size
    pub hashed : c.content_hash ≡ sha256 c.content

-- What stands in a slice stands in the whole text.
pub slice-stands :
    (a b : ℕ) (text pre post : Text)
    → Splits (slice a b text) pre (strip (slice a b text)) post
    → (post' : Text) × Splits text (take a text ++ pre) (strip (slice a b text)) post'
slice-stands a b text pre post p =
    let rest = drop a text in
    (
      post ++ drop (b - a) rest,
      sym (take-append-drop a text)
          ∙ ap (λ r. take a text ++ r) (sym (take-append-drop (b - a) rest))
          ∙ ap (λ r. take a text ++ (r ++ drop (b - a) rest)) p
          ∙ append_nest (take a text) pre (strip (slice a b text)) post (drop (b - a) rest),
    )

length-slice_le : (a b : ℕ) (text : Text) → length (slice a b text) ≤ b - a
length-slice_le a b text = omega (arith, length-take (b - a) (drop a text))

module _ (sha256 : Text → String) (size overlap : ℕ) (pages : List ParsedPage) where
  Origin : Building → Type 0
  Origin b = All (IsCut sha256 size pages) b.chunks

  add_chunk-Origin :
      (page : ParsedPage) (start end : ℕ) (b : Building)
      → Memᴰ page pages
      → end ≤ start + size
      → Origin b
      → Origin (add_chunk sha256 size overlap page start end b)
  unfolding add_chunk Origin
  add_chunk-Origin page start end b m fit h =
      elim (Bool-cases (is_empty (strip (slice start end page.text)))) [
        | inl e ↦ rw e h
        | inr e ↦
            let (pre, post₀, q, _, _) = strip_split (slice start end page.text) in
            let (post, p) = slice-stands start end page.text pre post₀ q in
            rw e (
              All-append _ b.chunks _ h (
                record {
                  page = page;
                  member = m;
                  numbered = refl;
                  pre = take start page.text ++ pre;
                  post = post;
                  stands = p;
                  nonempty = ground arith;
                  fits = omega (
                    arith,
                    length-strip_le (slice start end page.text),
                    length-slice_le start end page.text,
                  );
                  hashed = refl;
                },
                tt,
              ))
      ]

module _ (sha256 : Text → String) (size overlap : ℕ) where
  -- If `build_chunks` returns chunks, each of them is cut from a page of the document, is not empty,
  -- and is no longer than the size, if the size is positive.
  pub build_chunks-IsCut :
      (document : ParsedDocument) {chunks : List ParsedChunk}
      → 0 < size
      → build_chunks sha256 size overlap document ≡ some (ok chunks)
      → All (IsCut sha256 size document.pages) chunks
  unfolding Origin
  build_chunks-IsCut document {chunks} positive h =
      let kept =
        add_pages_induction sha256 size overlap positive (Origin sha256 size overlap document.pages)
          document.pages
          (λ page w b m is.
            add_chunk-Origin sha256 size overlap document.pages page w.start w.end b m is.fits)
          document.pages nothing (λ p m. m) tt in
      subst (All (IsCut sha256 size document.pages))
        (finish-ok sha256 size overlap _
          (some-injective _ _ (sym (build_chunks-finish sha256 size overlap document) ∙ h)))
        kept
