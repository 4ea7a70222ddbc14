-- ===== src/Retrieval/Matches.antt =====
-- Which stored chunks a piece of evidence may come from.
use docta.Prelude.{
  ℕ, ◌*◌, ◌≤◌, ◌≡◌, refl, sym, true, ◌&&◌, some, List, [], ◌∷◌, inl, inr, find, find_holds,
  find-mem, arith, ◌==◌, nat_eq, option_eq, length, String, ◌++◌, Option-cases,
}
use mathlib.Core.List.{Memᴰ}
use mathlib.Core.Path.{subst}
use docta.Models.{
  Chunk, Document, DocumentVersion, DocumentVersionState, indexed, version_state_beq,
}
use docta.Text.{Text, codes, show_nat}
use docta.Rag.{RetrievalScope, Evidence}
use docta.Store.{Store}
use docta.Retrieval.Lexemes.{or_tsquery_text}
use docta.Retrieval.Search.{FullText, Row, rows_of, evidence_of, is_covered}

-- The chunk is stored, with its version and the document of that, in one course.
pub record IsStored (s : Store) (k : Chunk) (d : Document) (v : DocumentVersion) : Type 0 where
  pub chunk : Memᴰ k s.chunks
  pub version : Memᴰ v s.versions
  pub document : Memᴰ d s.documents
  pub of_version : v.id ≡ k.document_version_id
  pub version_course : v.course_id ≡ k.course_id
  pub of_document : d.id ≡ v.document_id
  pub document_course : d.course_id ≡ k.course_id

-- The evidence has the columns of the chunk, the document and the version.
pub record IsMadeOf (k : Chunk) (d : Document) (v : DocumentVersion) (e : Evidence) : Type 0 where
  pub chunk : e.chunk_id ≡ k.id
  pub course : e.course_id ≡ k.course_id
  pub corpus : e.corpus_version_id ≡ k.corpus_version_id
  pub version : e.document_version_id ≡ v.id
  pub title : e.document_title ≡ d.title
  pub checksum : {h : String} → v.object_sha256 ≡ some h → e.document_sha256 ≡ h
  pub page_start : e.page_start ≡ k.page_start
  pub page_end : e.page_end ≡ k.page_end
  pub fragment : e.fragment ≡ codes "chunk-" ++ show_nat k.ordinal
  pub content : e.content ≡ k.content
  pub content_hash : e.content_hash ≡ k.content_hash

-- The chunk is one of the scope, with an indexed version; it matches the query and has at least two
-- thirds of its lexemes.
pub record IsMatch (db : FullText) (scope : RetrievalScope) (lexemes : List Text) (k : Chunk)
    (v : DocumentVersion) : Type 0 where
  pub course : k.course_id ≡ scope.course_id
  pub corpus : k.corpus_version_id ≡ scope.corpus_version_id
  pub state : v.state ≡ indexed
  pub matches : db.matches (or_tsquery_text lexemes) k ≡ true
  pub two_thirds : 2 * length lexemes ≤ 3 * db.matched lexemes k

-- The evidence is made of such a chunk.
pub record IsCovered (db : FullText) (scope : RetrievalScope) (lexemes : List Text) (s : Store)
    (e : Evidence) : Type 0 where
  pub chunk : Chunk
  pub document : Document
  pub version : DocumentVersion
  pub stored : IsStored s chunk document version
  pub made : IsMadeOf chunk document version e
  pub match_ : IsMatch db scope lexemes chunk version

indexed-state : (st : DocumentVersionState) → version_state_beq st indexed ≡ true → st ≡ indexed
indexed-state indexed h = refl
indexed-state _ h = cc

is_covered-IsMatch :
    (db : FullText) (scope : RetrievalScope) (lexemes : List Text) (r : Row)
    → is_covered db scope lexemes r ≡ true
    → IsMatch db scope lexemes r.chunk r.version
is_covered-IsMatch db scope lexemes r h = record {
  course = ground arith;
  corpus = ground arith;
  state = indexed-state r.version.state (ground arith);
  matches = ground arith;
  two_thirds = ground arith;
}

-- A row of the join, in the tables.
IsJoined : Store → List Chunk → Row → Type 0
IsJoined s ks r =
    Memᴰ r.chunk ks
    × Memᴰ r.version s.versions
    × Memᴰ r.document s.documents
    × (r.version.id ≡ r.chunk.document_version_id)
    × (r.version.course_id ≡ r.chunk.course_id)
    × (r.document.id ≡ r.version.document_id)
    × (r.document.course_id ≡ r.chunk.course_id)

later :
    (s : Store) (k : Chunk) (ks : List Chunk) (r : Row) → IsJoined s ks r → IsJoined s (k ∷ ks) r
unfolding IsJoined
later s k ks r (m, a, b, c, d, e, f) = (Memᴰ.tail m, a, b, c, d, e, f)

same_columns : (a b c d : ℕ) → (a == b && c == d) ≡ true → (a ≡ b) × (c ≡ d)
same_columns a b c d h = (ground arith, ground arith)

cons-IsJoined :
    (s : Store) (k : Chunk) (ks : List Chunk) (d : Document) (v : DocumentVersion) {r : Row}
    → ((r₁ : Row) → Memᴰ r₁ (rows_of s ks) → IsJoined s ks r₁)
    → IsJoined s (k ∷ ks) (record { chunk = k; document = d; version = v })
    → Memᴰ r (record { chunk = k; document = d; version = v } ∷ rows_of s ks)
    → IsJoined s (k ∷ ks) r
cons-IsJoined s k ks d v rest first (Memᴰ.head e) = subst (IsJoined s (k ∷ ks)) (sym e) first
cons-IsJoined s k ks d v {r} rest first (Memᴰ.tail m) = later s k ks r (rest r m)

rows_of-IsJoined : (s : Store) (ks : List Chunk) {r : Row} → Memᴰ r (rows_of s ks) → IsJoined s ks r
unfolding IsJoined
rows_of-IsJoined s [] m = elim m [ ]
rows_of-IsJoined s (k ∷ ks) {r} m =
    let p = λ (v : DocumentVersion). v.id == k.document_version_id && v.course_id == k.course_id in
    elim (Option-cases (find p s.versions)) [
      | inl e ↦ later s k ks r (rows_of-IsJoined s ks (rw (e, rows_of) at m))
      | inr (v, e) ↦
          let q = λ (d : Document). d.id == v.document_id && d.course_id == k.course_id in
          let version =
            same_columns v.id k.document_version_id v.course_id k.course_id
              (find_holds p s.versions e) in
          elim (Option-cases (find q s.documents)) [
            | inl e₁ ↦ later s k ks r (rows_of-IsJoined s ks (rw (e, e₁, rows_of) at m))
            | inr (d, e₁) ↦
                let document =
                  same_columns d.id v.document_id d.course_id k.course_id
                    (find_holds q s.documents e₁) in
                cons-IsJoined s k ks d v (λ r₁ m₁. rows_of-IsJoined s ks m₁)
                  (
                    Memᴰ.head refl,
                    find-mem p s.versions e,
                    find-mem q s.documents e₁,
                    version.0,
                    version.1,
                    document.0,
                    document.1,
                  )
                  (rw (e, e₁, rows_of) at m)
          ]
    ]

pub row-IsCovered :
    (db : FullText) (scope : RetrievalScope) (lexemes : List Text) (s : Store) (r : Row)
    → Memᴰ r (rows_of s s.chunks)
    → is_covered db scope lexemes r ≡ true
    → IsCovered db scope lexemes s (evidence_of r)
unfolding IsJoined
row-IsCovered db scope lexemes s r m h =
    let (chunk, version, document, of_version, version_course, of_document, document_course) =
      rows_of-IsJoined s s.chunks m in
    record {
      chunk = r.chunk;
      document = r.document;
      version = r.version;
      stored = record {
        chunk = chunk;
        version = version;
        document = document;
        of_version = of_version;
        version_course = version_course;
        of_document = of_document;
        document_course = document_course;
      };
      made = record {
        chunk = refl;
        course = refl;
        corpus = refl;
        version = sym of_version;
        title = refl;
        checksum = λ e. rw e refl;
        page_start = refl;
        page_end = refl;
        fragment = refl;
        content = refl;
        content_hash = refl;
      };
      match_ = is_covered-IsMatch db scope lexemes r h;
    }
