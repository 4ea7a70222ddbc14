-- ===== src/Ingestion/Embed.antt =====
-- ingestion.py: `IngestionWorker._embed`. The embedder's port is an argument; so is Python's `int`,
-- and whether the deadline has passed before each call.
use docta.Prelude.{
  ℕ, zero, suc, ◌/◌, ◌%◌, ◌^◌, Bool, false, not, ◌&&◌, ◌||◌, Option, none, some, List, [], ◌∷◌,
  ◌++◌, map, Result, ok, err, ◌>>=◌, ◌>>◌, raise_if, or_raise, if◌then◌else◌, length, any, all,
  nat_beq,
}
use docta.Prelude.Int.{ℤ, pos, negsuc}
use docta.Models.{Float, DocumentVersionState}
use docta.Text.{Text}
use docta.Chunks.{ParsedChunk, DocumentProcessingFailure}

-- `math.isfinite`: the eleven bits of the exponent are not all set.
unfoldable pub is_finite : Float → Bool
is_finite x = not (nat_beq (x / 2 ^ 52 % 2048) 2047)

-- What reading, parsing, cutting and embedding may raise in `process`.
pub data AttemptError : Type 0 where
  processing_failure : DocumentProcessingFailure → AttemptError
  stored_object_too_large stored_object_not_found object_storage_unavailable : AttemptError
  embedding_unavailable database_error other_error : AttemptError

-- What the port raises.
pub data EmbedError : Type 0 where
  unavailable invalid other : EmbedError

pub record Embedder : Type 0 where
  pub version : Text
  pub embed_documents : (call : ℕ) → List Text → Result EmbedError (List (List Float))

abbrev pub embedding_invalid : AttemptError
embedding_invalid =
    processing_failure (record { code = "EMBEDDING_INVALID"; state = DocumentVersionState.failed })

-- `version.split("|")`
unfoldable pub split_bars : Text → List Text
split_bars [] = [] ∷ []
split_bars (c ∷ t) = cut (split_bars t)
  where
    cut : List Text → List Text
    cut [] = []
    cut (part ∷ parts) = if nat_beq c b'|' then [] ∷ part ∷ parts else (c ∷ part) ∷ parts

-- `version.rsplit("|", 2)[1]`, of the parts between all bars
unfoldable pub middle : List Text → Option Text
middle [] = none
middle (a ∷ []) = none
middle (a ∷ b ∷ []) = some b
middle (a ∷ b ∷ c ∷ []) = some b
middle (a ∷ b ∷ c ∷ d ∷ parts) = middle (b ∷ c ∷ d ∷ parts)

module _ {ℓ} {A : Type ℓ} where
  abbrev pub push : A → List (List A) → List (List A)
  push x [] = (x ∷ []) ∷ []
  push x (b ∷ bs) = (x ∷ b) ∷ bs

  -- `chunks[start : start + size]` for each start: `left` items more go into the first batch
  unfoldable pub batches : (size left : ℕ) → List A → List (List A)
  batches size left [] = []
  batches size zero (x ∷ xs) = push x (batches size zero xs)
  batches size (suc zero) (x ∷ xs) = (x ∷ []) ∷ batches size size xs
  batches size (suc (suc left)) (x ∷ xs) = push x (batches size (suc left) xs)

abbrev pub embed_batch_size : ℕ
embed_batch_size = 32

-- `len(vector) != expected_dims`, the other way round
abbrev pub has_dims : ℤ → List Float → Bool
has_dims (pos n) vector = nat_beq (length vector) n
has_dims (negsuc n) vector = false

abbrev pub good_vector : ℤ → List Float → Bool
good_vector dims vector = has_dims dims vector && all is_finite vector

abbrev pub port_error : {A : Type 0} → Result EmbedError A → Result AttemptError A
port_error (ok a) = ok a
port_error (err unavailable) = err embedding_unavailable
port_error (err invalid) = err embedding_invalid
port_error (err other) = err other_error

-- the loop over the batches, from the call `i` on; `late i` is the test of the deadline
unfoldable pub embed_batches :
    Embedder
    → (dims : ℤ) (late : ℕ → Bool) (i : ℕ) → List (List Text)
    → Result AttemptError (List (List Float))
embed_batches embedder dims late i [] = ok []
embed_batches embedder dims late i (batch ∷ rest) = do
  raise_if (late i) embedding_unavailable
  result ← port_error (embedder.embed_documents i batch)
  raise_if
      (not (nat_beq (length result) (length batch)) || any (λ v. not (good_vector dims v)) result)
      embedding_invalid
  vectors ← embed_batches embedder dims late (suc i) rest
  ok (result ++ vectors)

abbrev pub contents : List ParsedChunk → List Text
contents = map (λ (c : ParsedChunk). c.content)

unfoldable pub embed :
    (parse_int : Text → Option ℤ)
    → Option Embedder
    → (late : ℕ → Bool) → List ParsedChunk
    → Result AttemptError (Option (List (List Float)))
embed parse_int none late chunks = ok none
embed parse_int (some embedder) late chunks = do
  text ← or_raise (middle (split_bars embedder.version)) embedding_invalid
  dims ← or_raise (parse_int text) embedding_invalid
  vectors ←
      embed_batches embedder dims late 0
        (batches embed_batch_size embed_batch_size (contents chunks))
  ok (some vectors)
