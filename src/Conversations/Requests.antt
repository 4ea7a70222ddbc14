-- ===== src/Conversations/Requests.antt =====
-- conversations.py: what a client sends, and how a question that is a brief follow-up is recognised.
-- `\w` and `str.lower` go by Python's tables, and are arguments.
use docta.Prelude.{
  ℕ, Bool, true, false, not, ◌&&◌, ◌||◌, Option, none, some, List, [], ◌∷◌, ◌++◌, map, String,
  Result, ok, err, ◌>>◌, raise_if, if◌then◌else◌, ltb, length, is_empty, is_none, filter, contains,
  nat_eq, list_eq,
}
use docta.Models.{Uuid}
use docta.Text.{Text, codes, is_space, strip, is_blank, join}
use docta.Contract.{sized}
use docta.Rag.{TurnKind, Intent}

-- What the transactions raise: an `APIError` with its status, code and message, a `RAGFailure`, or
-- the error of a constraint of the database or of a view's fields.
pub data ServiceError : Type 0 where
  api_error : (status : ℕ) (code message : String) → ServiceError
  rag_failure : String → ServiceError
  integrity_error : ServiceError
  validation_error : ServiceError

-- the words between white space, with the word that is being read
unfoldable pub words_from : (word : Text) → Text → List Text
words_from word [] = if is_empty word then [] else word ∷ []
words_from word (c ∷ t) =
    let in_word = words_from (word ++ c ∷ []) t in
    let after = words_from [] t in
    if is_space c then (if is_empty word then after else word ∷ after) else in_word

-- `text.split()`
abbrev pub split : Text → List Text
split t = words_from [] t

abbrev pub dont_know_phrases : List Text
dont_know_phrases = map codes (
    "no se" ∷ "no sé" ∷ "no entiendo" ∷ "no comprendo" ∷ "no tengo idea" ∷ "no me sale" ∷ "ayuda"
    ∷ "estoy bloqueado" ∷ [])

abbrev pub another_hint_phrases : List Text
another_hint_phrases = map codes (
    "otra pista" ∷ "dame una pista" ∷ "dame otra pista" ∷ "mas pistas" ∷ "más pistas" ∷ "otra ayuda"
    ∷ "siguiente pista" ∷ [])

abbrev pub explain_phrases : List Text
explain_phrases = map codes (
    "explicame" ∷ "explícame" ∷ "explicamelo" ∷ "explícamelo" ∷ "explicame eso" ∷ "explícame eso"
    ∷ "no me queda claro" ∷ "puedes explicar" ∷ "puedes explicarlo" ∷ [])

module _ (lower : Text → Text) (is_word : ℕ → Bool) where
  -- `" ".join(re.sub(r"[^\w\s]", "", text.strip().lower()).split())`
  unfoldable pub phrase_of : Text → Text
  phrase_of text =
      join (codes " ") (split (filter (λ c. is_word c || is_space c) (lower (strip text))))

  -- `_detect_intent`
  unfoldable pub detect_intent : Text → TurnKind × Option Intent
  detect_intent text =
      let phrase = phrase_of text in
      if contains dont_know_phrases phrase
      then (TurnKind.followup, some Intent.dont_know)
      else if contains another_hint_phrases phrase
      then (TurnKind.followup, some Intent.another_hint)
      else if contains explain_phrases phrase
      then (TurnKind.followup, some Intent.explain)
      else (TurnKind.question, none)

pub record QuestionRequest : Type 0 where
  pub question : Text
  pub kind : TurnKind
  pub intent : Option Intent
  pub parent_message_id : Option Uuid

abbrev pub is_action : TurnKind → Bool
is_action TurnKind.action = true
is_action _ = false

-- the validators of `QuestionRequest`
unfoldable pub validate_question : QuestionRequest → Result ServiceError Unit
validate_question r = do
  raise_if (not (sized 1 4000 r.question) || is_blank r.question) validation_error
  raise_if (is_action r.kind && is_none r.parent_message_id) validation_error
  raise_if (not (is_action r.kind) && not (is_none r.parent_message_id)) validation_error

unfoldable pub idempotency_key : Option Text → Result ServiceError Text
idempotency_key none =
    err (api_error 400 "idempotency_key_required" "An Idempotency-Key is required.")
idempotency_key (some value) = do
  raise_if (is_blank value || ltb 255 (length (strip value)))
      (api_error 400 "idempotency_key_required" "An Idempotency-Key is required.")
  ok (strip value)

abbrev pub not_found : ServiceError
not_found = api_error 404 "conversation_not_found" "The conversation was not found."
