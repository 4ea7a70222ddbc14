-- ===== src/Retrieval/Coverage.antt =====
-- What a retrieval returns.
use docta.Prelude.{
  ℕ, zero, suc, ◌≤◌, ◌≡◌, refl, Bool, true, List, [], ◌∷◌, map, ok, >>=-eq-ok, any, filter, sort_by,
  sort_insert, take, length, length-take, is_empty, All, All_of_mem, inl, inr, Bool-cases, arith,
}
use mathlib.Core.List.{Memᴰ}
use mathlib.Core.Path.{subst}
use docta.Models.{Time}
use docta.Text.{Text}
use docta.Rag.{RetrievalScope, Evidence}
use docta.Store.{Store}
use docta.Conversations.{ConversationStore}
use docta.Retrieval.Authorization.{IsAuthorized, is_authorized-IsAuthorized}
use docta.Retrieval.Matches.{IsCovered, row-IsCovered}
use docta.Retrieval.Search.{
  authorize_retrieval, is_authorized, FullText, Row, rows_of, evidence_of, is_covered,
  stands_before, lexemes_of, found_rows, retrieve,
}

module _ {ℓ κ} {A : Type ℓ} (P : A → Type κ) where
  All-filter : (p : A → Bool) (xs : List A) → All P xs → All (λ x. P x × (p x ≡ true)) (filter p xs)
  All-filter p [] h = tt
  All-filter p (x ∷ xs) h = elim (Bool-cases (p x)) [
    | inl e ↦ rw e ((h.0, e), All-filter p xs h.1)
    | inr e ↦ rw e (All-filter p xs h.1)
  ]

  All-sort_insert :
      (le : A → A → Bool) (a : A) (xs : List A) → P a → All P xs → All P (sort_insert le a xs)
  All-sort_insert le a [] k h = (k, tt)
  All-sort_insert le a (x ∷ xs) k h = elim (Bool-cases (le a x)) [
    | inl e ↦ rw e (k, h)
    | inr e ↦ rw e (h.0, All-sort_insert le a xs k h.1)
  ]

  All-sort_by : (le : A → A → Bool) (xs : List A) → All P xs → All P (sort_by le xs)
  All-sort_by le [] h = tt
  All-sort_by le (x ∷ xs) h = All-sort_insert le x (sort_by le xs) h.0 (All-sort_by le xs h.1)

  All-take : (n : ℕ) (xs : List A) → All P xs → All P (take n xs)
  All-take zero xs h = tt
  All-take (suc n) [] h = tt
  All-take (suc n) (x ∷ xs) h = (h.0, All-take n xs h.1)

pub record IsRetrieved (db : FullText) (now : Time) (scope : RetrievalScope) (question : Text)
    (s : ConversationStore) (es : List Evidence) : Type 0 where
  pub authorized : IsAuthorized now scope question s
  pub few : length es ≤ 5
  pub covered : All (IsCovered db scope (lexemes_of db question) s.base) es

module _ (db : FullText) (scope : RetrievalScope) (lexemes : List Text) (s : Store) where
  Found : Row → Type 0
  Found r = Memᴰ r (rows_of s s.chunks) × (is_covered db scope lexemes r ≡ true)

  All-Found : All Found (found_rows db scope lexemes s)
  unfolding Found
  All-Found =
      let rows = rows_of s s.chunks in
      let le = stands_before db lexemes in
      All-take Found 5 _ (
        All-sort_by Found le _ (
          All-filter (λ r. Memᴰ r rows) (is_covered db scope lexemes) rows
            (All_of_mem (λ r. Memᴰ r rows) rows (λ r m. m))))

  All-evidence :
      (rs : List Row) → All Found rs → All (IsCovered db scope lexemes s) (map evidence_of rs)
  unfolding Found
  All-evidence [] h = tt
  All-evidence (r ∷ rs) h = (row-IsCovered db scope lexemes s r h.0.0 h.0.1, All-evidence rs h.1)

  length-evidence : (rs : List Row) → length (map evidence_of rs) ≡ length rs
  length-evidence [] = refl
  length-evidence (r ∷ rs) = omega (arith, length-evidence rs)

-- What is retrieved: the scope is that of a message whose question this is, pending and in time, in a
-- conversation of the principal, who is a member of its course, and of a ready corpus of the course.
-- There are at most five pieces of evidence, each with the columns of a stored chunk and of its
-- document. The chunk is of the scope's course and corpus version, its document version is indexed,
-- and it matches the query and has at least two thirds of its lexemes.
pub retrieve-IsRetrieved :
    (db : FullText) (now : Time) (scope : RetrievalScope) (question : Text) (s : ConversationStore)
    {es : List Evidence}
    → retrieve db now scope question s ≡ ok es
    → IsRetrieved db now scope question s es
unfolding retrieve authorize_retrieval
retrieve-IsRetrieved db now scope question s {es} h =
    let lexemes = lexemes_of db question in
    let (_, allowed, h₁) = >>=-eq-ok (authorize_retrieval now scope question s) _ h in
    let rows = found_rows db scope lexemes s.base in
    let sorted =
      sort_by (stands_before db lexemes)
        (filter (is_covered db scope lexemes) (rows_of s.base s.base.chunks)) in
    let tested : any (is_authorized now scope question s) s.messages ≡ true = ground arith in
    let authorized = is_authorized-IsAuthorized now scope question s tested in
    elim (Bool-cases (is_empty lexemes)) [
      | inl e ↦
          let nothing : es ≡ [] = ground arith in
          rw nothing (record { authorized = authorized; few = omega arith; covered = tt })
      | inr e ↦
          let some_rows : map evidence_of rows ≡ es = ground arith in
          let size = length-evidence db scope lexemes s.base rows in
          let bound = length-take 5 sorted in
          let most : length (map evidence_of rows) ≤ 5 = omega (arith, size, bound) in
          subst (IsRetrieved db now scope question s) some_rows (record {
            authorized = authorized;
            few = most;
            covered = All-evidence db scope lexemes s.base rows (All-Found db scope lexemes s.base);
          })
    ]
