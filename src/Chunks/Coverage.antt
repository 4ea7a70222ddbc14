-- ===== src/Chunks/Coverage.antt =====
-- Nothing of a page is lost: each character that is not white space stands in a chunk, and a
-- document yields no chunk exactly if its pages are blank.
use mathlib.Core.Path.{subst}
use mathlib.Core.Option.{some-injective}
use mathlib.Core.List.{Memᴰ}
use docta.Prelude.{
  ℕ, zero, suc, ◌+◌, ◌-◌, ◌≤◌, ◌<◌, max, ◌≡◌, refl, sym, ◌∙◌, ap, true, false, some, List, [], ◌∷◌,
  ◌++◌, String, ok, length, get_elem?, take, is_empty, arith, Bool-cases, ltb, leb, inl, inr,
  mem_left, mem_right, get_elem?-take-drop, length-append, length-take, ltb→lt,
}
use docta.Text.{Text, strip, slice, is_space, strip_split, inside}
use docta.Chunks.Defs.{
  ParsedPage, ParsedDocument, ParsedChunk, Building, nothing, chunk_end, add_chunk, build_chunks,
}
use docta.Chunks.Origin.{Splits, slice-stands}
use docta.Chunks.Windows.{
  Window, windows, add_windows, add_pages, chunk_end_bounds, build_chunks-finish, finish-ok,
}

module _ (size overlap : ℕ) (positive : 0 < size) where
  -- The windows leave no gap.
  windows_cover :
      (fuel : ℕ) (text : Text) (start i : ℕ)
      → length text < fuel + start
      → start ≤ i
      → i < length text
      → (w : Window) × Memᴰ w (windows size overlap fuel text start) × (w.start ≤ i) × (i < w.end)
  unfolding windows
  windows_cover zero text start i f lo hi = absurd (omega arith)
  windows_cover (suc fuel) text start i f lo hi =
      let (below, within, fits) = chunk_end_bounds size text start positive (omega arith) in
      let more : ltb start (length text) ≡ true = ground arith in
      let e = chunk_end size text start in
      rw more (elim (Bool-cases (ltb i e)) [
        | inl here ↦ (record { start = start; end = e }, Memᴰ.head refl, lo, ltb→lt i e here)
        | inr later ↦
            let next : leb (length text) e ≡ false = ground arith in
            let (w, m, a, b) =
              windows_cover fuel text (max (e - overlap) (start + 1)) i (omega arith) (ground arith)
                hi in
            rw next (w, Memᴰ.tail m, a, b)
      ])

-- The character at position i of the page stands in the chunk's text.
pub record Covers (page : ParsedPage) (i : ℕ) (c : ParsedChunk) : Type 0 where
  pub numbered : c.page ≡ page.number
  pub pre : Text
  pub post : Text
  pub stands : Splits page.text pre c.content post
  pub from : length pre ≤ i
  pub to : i < length pre + length c.content

abbrev Covered : ParsedPage → ℕ → Building → Type 0
Covered page i b = (c : ParsedChunk) × Memᴰ c b.chunks × Covers page i c

slice_covers :
    (start end i c : ℕ) (text : Text)
    → start ≤ i
    → i < end
    → i < length text
    → get_elem? text i ≡ some c
    → is_space c ≡ false
    → (pre : Text) × (post : Text) × Splits text pre (strip (slice start end text)) post
      × (length pre ≤ i)
      × (i < length pre + length (strip (slice start end text)))
slice_covers start end i c text lo hi within at n =
    let (pre, post, p, sp, sq) = strip_split (slice start end text) in
    let found : get_elem? (slice start end text) (i - start) ≡ some c =
      get_elem?-take-drop text start (end - start) (i - start) (omega arith)
      ∙ ap (get_elem? text) (omega arith)
      ∙ at in
    let (a, b) =
      inside pre (strip (slice start end text)) post (i - start) c
        (sym (ap (λ t. get_elem? t (i - start)) p) ∙ found) n sp sq in
    let (post', whole) = slice-stands start end text pre post p in
    (
      take start text ++ pre,
      post',
      whole,
      omega (arith, length-append (take start text) pre, length-take start text),
      omega (arith, length-append (take start text) pre, length-take start text),
    )

within_of : (t : Text) (i c : ℕ) → get_elem? t i ≡ some c → i < length t
within_of [] i c h = cc
within_of (x ∷ t) zero c h = omega arith
within_of (x ∷ t) (suc i) c h = omega (arith, within_of t i c h)

module _ (sha256 : Text → String) (size overlap : ℕ) where
  add_chunk_keeps :
      (page : ParsedPage) (start end : ℕ) (b : Building) {c : ParsedChunk}
      → Memᴰ c b.chunks
      → Memᴰ c (add_chunk sha256 size overlap page start end b).chunks
  unfolding add_chunk
  add_chunk_keeps page start end b m =
      elim (Bool-cases (is_empty (strip (slice start end page.text)))) [
        | inl e ↦ rw e m
        | inr e ↦ rw e (mem_left b.chunks _ m)
      ]

  add_chunk_covers :
      (page : ParsedPage) (start end i c : ℕ) (b : Building)
      → start ≤ i
      → i < end
      → i < length page.text
      → get_elem? page.text i ≡ some c
      → is_space c ≡ false
      → Covered page i (add_chunk sha256 size overlap page start end b)
  unfolding add_chunk
  add_chunk_covers page start end i c b lo hi within at n =
      let (pre, post, p, from, to) = slice_covers start end i c page.text lo hi within at n in
      let some_text : is_empty (strip (slice start end page.text)) ≡ false = ground arith in
      rw some_text (
        _,
        mem_right b.chunks _ (Memᴰ.head refl),
        record { numbered = refl; pre = pre; post = post; stands = p; from = from; to = to },
      )

  module _ (size_positive : 0 < size) where
    add_windows_keeps :
        (page : ParsedPage) (ws : List Window) (b : Building) {c : ParsedChunk}
        → Memᴰ c b.chunks
        → Memᴰ c (add_windows sha256 size overlap page ws b).chunks
    unfolding add_windows
    add_windows_keeps page [] b m = m
    add_windows_keeps page (w ∷ ws) b m =
        add_windows_keeps page ws _ (add_chunk_keeps page w.start w.end b m)

    add_windows_covers :
        (page : ParsedPage) (ws : List Window) (i c : ℕ) (b : Building) (w : Window)
        → Memᴰ w ws
        → w.start ≤ i
        → i < w.end
        → i < length page.text
        → get_elem? page.text i ≡ some c
        → is_space c ≡ false
        → Covered page i (add_windows sha256 size overlap page ws b)
    unfolding add_windows
    add_windows_covers page [] i c b w m lo hi within at n = elim m [ ]
    add_windows_covers page (v ∷ ws) i c b w (Memᴰ.head e) lo hi within at n =
        let (found, m, covers) =
          add_chunk_covers page v.start v.end i c b (subst (λ (x : Window). x.start ≤ i) e lo)
            (subst (λ (x : Window). i < x.end) e hi) within at n in
        (found, add_windows_keeps page ws _ m, covers)
    add_windows_covers page (v ∷ ws) i c b w (Memᴰ.tail m) lo hi within at n =
        add_windows_covers page ws i c _ w m lo hi within at n

    add_pages_keeps :
        (pages : List ParsedPage) (b : Building) {c : ParsedChunk}
        → Memᴰ c b.chunks
        → Memᴰ c (add_pages sha256 size overlap pages b).chunks
    unfolding add_pages
    add_pages_keeps [] b m = m
    add_pages_keeps (page ∷ pages) b m = add_pages_keeps pages _ (add_windows_keeps page _ b m)

    pub add_pages_covers :
        (pages : List ParsedPage) (page : ParsedPage) (i c : ℕ) (b : Building)
        → Memᴰ page pages
        → get_elem? page.text i ≡ some c
        → is_space c ≡ false
        → Covered page i (add_pages sha256 size overlap pages b)
    unfolding add_pages
    add_pages_covers [] page i c b m at n = elim m [ ]
    add_pages_covers (p ∷ pages) page i c b (Memᴰ.head e) at n =
        let hi = within_of page.text i c at in
        let (w, m, from, to) =
          windows_cover size overlap size_positive (suc (length page.text)) page.text 0 i
            (omega arith) (omega arith) hi in
        let (found, k, covers) = add_windows_covers page _ i c b w m from to hi at n in
        subst
          (λ q. Covered page i (
            add_pages sha256 size overlap pages (
              add_windows sha256 size overlap q
                (windows size overlap (suc (length q.text)) q.text 0) b)))
          e (found, add_pages_keeps pages _ k, covers)
    add_pages_covers (p ∷ pages) page i c b (Memᴰ.tail m) at n =
        add_pages_covers pages page i c _ m at n

  -- If `build_chunks` returns chunks, each character of a page that is not white space stands in one
  -- of them, which has the page's number, if the size is positive.
  pub build_chunks-Covers :
      (document : ParsedDocument) {chunks : List ParsedChunk} (page : ParsedPage) (i c : ℕ)
      → 0 < size
      → build_chunks sha256 size overlap document ≡ some (ok chunks)
      → Memᴰ page document.pages
      → get_elem? page.text i ≡ some c
      → is_space c ≡ false
      → (chunk : ParsedChunk) × Memᴰ chunk chunks × Covers page i chunk
  build_chunks-Covers document page i c positive h m at n =
      subst (λ cs. (chunk : ParsedChunk) × Memᴰ chunk cs × Covers page i chunk)
        (finish-ok sha256 size overlap _
          (some-injective _ _ (sym (build_chunks-finish sha256 size overlap document) ∙ h)))
        (add_pages_covers positive document.pages page i c nothing m at n)
