-- ===== src/Rag/Soundness.antt =====
-- What a validated answer rests on.
use mathlib.Core.Path.{subst}
use mathlib.Core.List.{Memᴰ}
use docta.Prelude.{
  ℕ, ◌≡◌, refl, sym, ◌∙◌, ap, Bool, true, false, not, ◌&&◌, some, List, [], ◌∷◌, map, ok, >>=-eq-ok,
  raise_if->>-ok, or_raise-ok, length, is_empty, All, contains, distinct, nat_eq, arith,
  if◌then◌else◌, Bool-cases, Option-cases, inl, inr,
}
use docta.Models.{Uuid}
use docta.Text.{is_blank, occurs}
use docta.Rag.Drafts.{Evidence, DraftCitation, output_invalid, quote_fields}
use docta.Rag.Validator.{source_of, verify, verify_all}
use docta.Rag.Quotes.{verbatim-ok}

-- The citation quotes an item of the evidence, letter by letter, at an admitted length.
pub record IsVerbatim (evidence : List Evidence) (c : DraftCitation) : Type 0 where
  pub source : Evidence
  pub member : Memᴰ source evidence
  pub same_chunk : source.chunk_id ≡ c.chunk_id
  pub stands : occurs c.quote source.content ≡ true
  pub fields : quote_fields c ≡ true

abbrev pub ids : List DraftCitation → List Uuid
ids = map (λ (c : DraftCitation). c.chunk_id)

source_of-some :
    (es : List Evidence) (id : Uuid) {found : Evidence}
    → source_of es id ≡ some found
    → Memᴰ found es × (found.chunk_id ≡ id)
unfolding source_of
source_of-some [] id h = cc
source_of-some (e ∷ es) id {found} h = elim (Option-cases (source_of es id)) [
  | inr (f, p) ↦
      let (m, same) = source_of-some es id p in
      let q : f ≡ found = ground arith in
      subst (λ x. Memᴰ x (e ∷ es) × (x.chunk_id ≡ id)) q (Memᴰ.tail m, same)
  | inl p ↦
      let q : (e ≡ found) × (e.chunk_id ≡ id) = ground arith in
      (Memᴰ.head (sym q.0), ap (λ (x : Evidence). x.chunk_id) (sym q.0) ∙ q.1)
]

module _ (same_letter : ℕ → ℕ → Bool) (evidence : List Evidence) where
  -- What `verify` returns cites the same chunk, by a quote of the same length that stands in it.
  verify-ok :
      (c : DraftCitation) {v : DraftCitation}
      → verify same_letter evidence c ≡ ok v
      → (v.chunk_id ≡ c.chunk_id)
        × (length v.quote ≡ length c.quote)
        × ((e : Evidence) × Memᴰ e evidence
            × (e.chunk_id ≡ v.chunk_id)
            × (occurs v.quote e.content ≡ true))
  unfolding verify
  verify-ok c {v} h =
      let (source, p, h₁) = >>=-eq-ok _ _ h in
      let (m, same) = source_of-some evidence c.chunk_id (or_raise-ok _ _ p) in
      let (_, h₂) = raise_if->>-ok (is_blank c.quote) output_invalid _ h₁ in
      let (quote, q, h₃) =
        >>=-eq-ok _ (λ quote. ok (record { chunk_id = c.chunk_id; quote = quote })) h₂ in
      let (stands, long) = verbatim-ok same_letter c.quote source.content q in
      let made : v ≡ record { chunk_id = c.chunk_id; quote = quote } = cc in
      subst
        (λ (v : DraftCitation).
          (v.chunk_id ≡ c.chunk_id)
          × (length v.quote ≡ length c.quote)
          × ((e : Evidence) × Memᴰ e evidence
              × (e.chunk_id ≡ v.chunk_id)
              × (occurs v.quote e.content ≡ true)))
        (sym made) (refl, long, (source, m, same, stands))

  -- What the loop over `cs` makes, when the ids of `seen` have been cited.
  pub record IsKept (cs : List DraftCitation) (seen : List Uuid) (out : List DraftCitation)
      : Type 0 where
    pub verbatim : All (IsVerbatim evidence) out
    pub once : distinct (ids out) ≡ true
    pub fresh : All (λ (c : DraftCitation). contains seen c.chunk_id ≡ false) out
    pub some_left : is_empty cs ≡ false → is_empty seen ≡ true → is_empty out ≡ false

  new_id :
      (id : Uuid) (seen : List Uuid) (out : List DraftCitation)
      → All (λ (c : DraftCitation). contains (id ∷ seen) c.chunk_id ≡ false) out
      → contains (ids out) id ≡ false
  new_id id seen [] h = refl
  new_id id seen (c ∷ cs) h = ground (arith, h.0, new_id id seen cs h.1)

  still_fresh :
      (id : Uuid) (seen : List Uuid) (out : List DraftCitation)
      → All (λ (c : DraftCitation). contains (id ∷ seen) c.chunk_id ≡ false) out
      → All (λ (c : DraftCitation). contains seen c.chunk_id ≡ false) out
  still_fresh id seen [] h = tt
  still_fresh id seen (c ∷ cs) h = (ground (arith, h.0), still_fresh id seen cs h.1)

  none_seen : (seen : List Uuid) (id : Uuid) → is_empty seen ≡ true → contains seen id ≡ false
  none_seen [] id h = refl
  none_seen (x ∷ seen) id h = cc

  module _ (c v : DraftCitation) (cs rest : List DraftCitation) (seen : List Uuid) where
    IsKept-old : contains seen c.chunk_id ≡ true → IsKept cs seen rest → IsKept (c ∷ cs) seen rest
    IsKept-old old k = record {
      verbatim = k.verbatim;
      once = k.once;
      fresh = k.fresh;
      some_left = λ _ e. cc (none_seen seen c.chunk_id e);
    }

    IsKept-new :
        contains seen c.chunk_id ≡ false
        → v.chunk_id ≡ c.chunk_id
        → IsVerbatim evidence v
        → IsKept cs (c.chunk_id ∷ seen) rest
        → IsKept (c ∷ cs) seen (v ∷ rest)
    IsKept-new new same is k = record {
      verbatim = (is, k.verbatim);
      once = ground (arith, k.once, new_id c.chunk_id seen rest k.fresh);
      fresh = (ground arith, still_fresh c.chunk_id seen rest k.fresh);
      some_left = λ _ _. refl;
    }

  pub verify_all-ok :
      (cs : List DraftCitation) (seen : List Uuid) {out : List DraftCitation}
      → verify_all same_letter evidence cs seen ≡ ok out
      → IsKept cs seen out
  unfolding verify_all
  verify_all-ok [] seen {out} h =
      let made : [] ≡ out = cc in
      subst (IsKept [] seen) made
        (record { verbatim = tt; once = refl; fresh = tt; some_left = λ e _. cc })
  verify_all-ok (c ∷ cs) seen {out} h =
      let (v, p, h₁) = >>=-eq-ok _ _ h in
      let (same, long, (source, m, here, stands)) = verify-ok c p in
      let (fields, h₂) =
        raise_if->>-ok (not (contains seen c.chunk_id) && not (quote_fields v)) _ _ h₁ in
      let (rest, q, h₃) =
        >>=-eq-ok _ (λ rest. ok (if contains seen c.chunk_id then rest else v ∷ rest)) h₂ in
      elim (Bool-cases (contains seen c.chunk_id)) [
        | inl old ↦
            let made : rest ≡ out = ground arith in
            subst (IsKept (c ∷ cs) seen) made
              (IsKept-old c v cs rest seen old (verify_all-ok cs seen (rw old at q)))
        | inr new ↦
            let made : v ∷ rest ≡ out = ground arith in
            let is : IsVerbatim evidence v = record {
              source = source;
              member = m;
              same_chunk = here;
              stands = stands;
              fields = ground arith;
            } in
            subst (IsKept (c ∷ cs) seen) made (
              IsKept-new c v cs rest seen new same is
                (verify_all-ok cs (c.chunk_id ∷ seen) (rw new at q)))
      ]
