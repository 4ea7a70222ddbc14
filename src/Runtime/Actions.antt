-- ===== src/Runtime/Actions.antt =====
-- Which actions become questions.
use docta.Prelude.{
  ℕ, ◌≡◌, refl, ◌∙◌, Bool, true, false, not, ◌&&◌, ◌||◌, Option, none, some, err, if◌then◌else◌,
  is_empty, inl, inr, Bool-cases, arith, String, [], ◌∷◌, Result,
}
use docta.Models.{Uuid, Time}
use docta.Text.{Text, codes, is_blank, strip, is_space, lstrip, rstrip}
use docta.Contract.{sized}
use docta.Rag.{Intent, TurnKind}
use docta.Conversations.{
  ServiceSettings, validation_error, validate_question, QuestionRequest, ServiceError,
  AcceptedMessage,
}
use docta.Identity.{AuthenticatedIdentity}
use docta.Runtime.Tasks.{RuntimeState}
use docta.Runtime.Routes.{
  Action, another_hint, explain, ActionRequest, ask_question, perform_action, action_fields,
  default_question, action_question, question_payload, intent_of,
}

-- A question is given, of white space alone.
abbrev pub blank_given : ActionRequest → Bool
blank_given a = elim a.question [ none ↦ false | some q ↦ not (is_empty q) && is_blank q ]

default_valid :
    (a : Action) → (sized 1 4000 (default_question a) && not (is_blank (default_question a))) ≡ true
unfolding strip is_space lstrip rstrip
default_valid another_hint = refl
default_valid explain = refl

sized-nonempty : (q : Text) → sized 0 4000 q ≡ true → is_empty q ≡ false → sized 1 4000 q ≡ true
sized-nonempty [] h k = cc
sized-nonempty (c ∷ q) h k = ground arith

-- The question of an action is one that may be asked, unless it is given and blank.
action_question-valid :
    (a : ActionRequest) (question : Option Text)
    → a.question ≡ question
    → action_fields a ≡ true
    → (not (sized 1 4000 (action_question a)) || is_blank (action_question a)) ≡ blank_given a
unfolding action_question
action_question-valid a none own h = rw own (ground (arith, default_valid a.action))
action_question-valid a (some q) own h = elim (Bool-cases (is_empty q)) [
  | inl e ↦ rw (own, e) (ground (arith, default_valid a.action))
  | inr e ↦ let fits = sized-nonempty q (rw own at h) e in rw (own, e, fits) refl
]

-- What an action asks for, and what it says of itself.
pub data IntentIs : Action → Intent → Type 0 where
  hint : IntentIs another_hint Intent.another_hint
  explanation : IntentIs explain Intent.explain

pub data OwnTextIs : Action → Text → Type 0 where
  hint : OwnTextIs another_hint (codes "Otra pista")
  explanation : OwnTextIs explain (codes "Explícame eso")

pub data TextIs (action : Action) : Option Text → Text → Type 0 where
  missing : {t : Text} → OwnTextIs action t → TextIs action none t
  empty : {t : Text} → OwnTextIs action t → TextIs action (some []) t
  given : {c : ℕ} {t : Text} → TextIs action (some (c ∷ t)) (c ∷ t)

-- The question stands for the action.
pub record IsAskedAs (a : ActionRequest) (p : QuestionRequest) : Type 0 where
  pub text : TextIs a.action a.question p.question
  pub kind : p.kind ≡ TurnKind.action
  pub asks : Intent
  pub intent : p.intent ≡ some asks
  pub of_action : IntentIs a.action asks
  pub parent : p.parent_message_id ≡ some a.parent_message_id

intent_of-IntentIs : (a : Action) → IntentIs a (intent_of a)
intent_of-IntentIs another_hint = IntentIs.hint
intent_of-IntentIs explain = IntentIs.explanation

default_question-OwnTextIs : (a : Action) → OwnTextIs a (default_question a)
default_question-OwnTextIs another_hint = OwnTextIs.hint
default_question-OwnTextIs explain = OwnTextIs.explanation

chosen-TextIs :
    (action : Action) (question : Option Text)
    → TextIs action question (elim question [
      | none ↦ default_question action
      | some q ↦ if is_empty q then default_question action else q
    ])
chosen-TextIs action none = TextIs.missing (default_question-OwnTextIs action)
chosen-TextIs action (some []) = TextIs.empty (default_question-OwnTextIs action)
chosen-TextIs action (some (c ∷ q)) = TextIs.given

question_payload-IsAskedAs : (a : ActionRequest) → IsAskedAs a (question_payload a)
unfolding question_payload action_question
question_payload-IsAskedAs a = record {
  text = chosen-TextIs a.action a.question;
  kind = refl;
  asks = intent_of a.action;
  intent = refl;
  of_action = intent_of-IntentIs a.action;
  parent = refl;
}

right_false : (a b : Bool) → (a || b) ≡ false → b ≡ false
right_false true b h = cc
right_false false b h = h

blank_given-some :
    (question : Option Text)
    → elim question [ none ↦ false | some q ↦ not (is_empty q) && is_blank q ] ≡ true
    → (c : ℕ) × (q : Text) × (question ≡ some (c ∷ q)) × (is_blank (c ∷ q) ≡ true)
blank_given-some none h = cc
blank_given-some (some []) h = cc
blank_given-some (some (c ∷ q)) h = (c, q, refl, h)

module _ (lower : Text → Text) (is_word : ℕ → Bool) (settings : ServiceSettings) (id : Uuid)
    (now : Time) (who : AuthenticatedIdentity) (conversation_id : Uuid) (a : ActionRequest)
    (header : Option Text) (request_id : String) (r : RuntimeState) where
  pub data IsPerformed : Result ServiceError AcceptedMessage × RuntimeState → Type 0 where
    refused :
        {c : ℕ} {q : Text}
        → a.question ≡ some (c ∷ q)
        → is_blank (c ∷ q) ≡ true
        → IsPerformed (err validation_error, r)
    asked :
        {p : QuestionRequest}
        → IsAskedAs a p
        → is_blank p.question ≡ false
        → IsPerformed
            (ask_question lower is_word settings id now who conversation_id p header request_id r)

-- An action whose fields are valid is asked as a question of the kind "action", with the intent of
-- another hint or of an explanation, as the action says, and with its parent. The text is the given
-- one, or, where that is missing or empty, "Otra pista" or "Explícame eso", and it is not blank. But
-- if the given text is white space alone, the action ends in the error of a validator, with no change.
pub perform_action-IsPerformed :
    (lower : Text → Text) (is_word : ℕ → Bool) (settings : ServiceSettings) (id : Uuid) (now : Time)
    (who : AuthenticatedIdentity) (conversation_id : Uuid) (a : ActionRequest)
    (header : Option Text) (request_id : String) (r : RuntimeState)
    → action_fields a ≡ true
    → IsPerformed lower is_word settings id now who conversation_id a header request_id r
        (perform_action lower is_word settings id now who conversation_id a header request_id r)
unfolding perform_action validate_question question_payload
perform_action-IsPerformed lower is_word settings id now who conversation_id a header request_id r
      h =
    let valid = action_question-valid a a.question refl h in
    elim (Bool-cases (blank_given a)) [
      | inl e ↦
          let (c, q, own, blank) = blank_given-some a.question e in
          rw (valid, e) (refused own blank)
      | inr e ↦
          let text =
            right_false (not (sized 1 4000 (action_question a))) (is_blank (action_question a))
              (valid ∙ e) in
          rw (valid, e) (asked (question_payload-IsAskedAs a) text)
    ]
