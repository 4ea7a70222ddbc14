-- ===== src/Tests/Runtime.antt =====
-- conversation_runtime.py on a question whose antecedent is missing, with a tutor that never answers.
use docta.Prelude.{◌≡◌, refl, true, none, some, List, [], ◌∷◌, ok, err, nat_beq}
use docta.Text.{codes, strip, is_space, lstrip, rstrip}
use docta.Conversations.{MessageState, validation_error, validate_question, here}
use docta.Runtime.{
  rag_failure, World, goes, RuntimeState, start, run, HasOneRow, IsSettled, run-IsSettled, Outcome,
  run-Outcome, Action, ActionRequest, perform_action, IsPerformed, perform_action-IsPerformed,
  question_payload, action_question, Round, stream, IsSteady, phases, last_progress, phases-stream,
}
use docta.Tests.Conversations.{lower, is_word, settings, who, asked, two_messages}

abbrev world : World
world = record {
  tutor = record {
    retrieve = λ scope query. ok [];
    generate = λ r. err (rag_failure "MODEL_UNAVAILABLE");
  };
  fate = λ i. goes;
  meanwhile = λ i s. s;
  clock = λ i. 50;
  available = true;
}

abbrev started : RuntimeState
started = start asked (record { database = two_messages; progress = []; tasks = [] })

run-IsSettled_example : IsSettled 21 (run nat_beq world asked started)
unfolding HasOneRow start
run-IsSettled_example = run-IsSettled nat_beq world asked (λ i s one. one) refl started refl

run-Outcome_example :
    Outcome lower is_word settings nat_beq world
      (λ i s. here)
      asked
      started.database
      (run nat_beq world asked started).database
run-Outcome_example = run-Outcome lower is_word settings nat_beq world (λ i s. here) asked started

abbrev action : ActionRequest
action = record { action = Action.explain; parent_message_id = 20; question = some (codes " ") }

perform_action-IsPerformed_example :
    IsPerformed lower is_word settings 22 50 who 9 action none "c" started
      (perform_action lower is_word settings 22 50 who 9 action none "c" started)
perform_action-IsPerformed_example =
    perform_action-IsPerformed lower is_word settings 22 50 who 9 action none "c" started refl

-- White space alone is refused.
blank_action :
    perform_action lower is_word settings 22 50 who 9 action none "c" started
    ≡ (err validation_error, started)
unfolding perform_action validate_question question_payload action_question strip is_space lstrip
    rstrip
blank_action = refl

abbrev rounds_seen : List Round
rounds_seen =
    record { current = ok asked.message; progress = "a" ∷ []; counted = 1 }
    ∷ record {
      current = ok (record asked.message { state = MessageState.completed });
      progress = "a" ∷ "b" ∷ "c" ∷ [];
      counted = 3;
    }
    ∷ []

phases-stream_example : phases (stream rounds_seen) ≡ last_progress rounds_seen []
unfolding IsSteady
phases-stream_example =
    phases-stream rounds_seen (("a" ∷ [], refl), refl, (("b" ∷ "c" ∷ [], refl), refl, tt))
