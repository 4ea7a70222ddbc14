-- ===== src/Tests/Conversations.antt =====
-- conversations.py on one conversation: a question, its failure, and the question repeated.
use docta.Prelude.{
  ◌≤◌, length, ℕ, ◌+◌, ◌≡◌, refl, Bool, true, false, none, some, [], ◌∷◌, ok, get_elem?, arith,
}
use docta.Identity.{AuthenticatedIdentity}
use docta.Models.{seconds, student}
use docta.Text.{Text, codes, strip, is_space, join}
use docta.Rag.{TutorRequest, TurnKind}
use docta.Contract
use docta.Store.{Store}
use docta.Conversations.{
  request, turns_within, reversed, total_size, request-bounded, MessageState, Conversation, Message,
  ConversationStore, ServiceSettings, AcceptedMessage, message_view, accept, accept_in, accept_new,
  insert_turn, turn_of, antecedent_query, completed_before, detect_intent, phrase_of, words_from,
  idempotency_key, owned, expire_in, active_corpus, new_message, append_message, row_checks, view,
  response_of, ltrim, rtrim, fail, IsSound, AllApart, Reach, here, next, accepts, fails,
  Reach-IsSound, Reach-final, accept_again,
}

abbrev pub lower : Text → Text
lower t = t

abbrev pub is_word : ℕ → Bool
is_word c = true

abbrev pub settings : ServiceSettings
settings = record { model_version = "m"; retrieval_version = "r"; message_timeout_seconds = 90 }

abbrev pub who : AuthenticatedIdentity
who = record { issuer = "i"; subject = "s" }

abbrev base : Store
base = record {
  users = record { id = 8; oidc_issuer = "i"; oidc_subject = "s" } ∷ [];
  courses = [];
  memberships = record { course_id = 1; user_id = 8; role = student } ∷ [];
  documents = [];
  versions = [];
  corpora = [];
  corpus_documents = [];
  chunks = [];
  embeddings = [];
  jobs = [];
  events = [];
}

abbrev conversation : ℕ → Conversation
conversation n = record {
  id = 9;
  course_id = 1;
  owner_user_id = 8;
  idempotency_key = codes "k";
  next_sequence = n;
  created_at = 0;
}

abbrev start : ConversationStore
start = record {
  base = base;
  conversations = conversation 1 ∷ [];
  messages = [];
  evidence = [];
  citations = [];
}

abbrev waiting : Message
waiting = record {
  id = 20;
  course_id = 1;
  conversation_id = 9;
  corpus_version_id = none;
  sequence = 1;
  idempotency_key = codes "a";
  question = codes "ayuda";
  state = MessageState.pending;
  answer = none;
  mode = none;
  grounded = none;
  failure_code = none;
  correlation_id = "c";
  prompt_version = "socratic-tutor-v4";
  retrieval_config_version = "r";
  model_version = "m";
  kind = TurnKind.followup;
  intent = some docta.Rag.Intent.dont_know;
  parent_message_id = none;
  retrieval_query = none;
  query_version = none;
  intervention = none;
  contract_version = none;
  situation = none;
  help_level = none;
  created_at = 5;
  deadline_at = 5 + seconds 90;
  completed_at = none;
}

abbrev ended : Message
ended = record waiting {
  state = MessageState.failed;
  failure_code = some "PROVIDER_TIMEOUT";
  completed_at = some 7;
}

abbrev with_message : Message → ConversationStore
with_message m = record {
  base = base;
  conversations = conversation 2 ∷ [];
  messages = m ∷ [];
  evidence = [];
  citations = [];
}

abbrev pub accepted : AcceptedMessage
accepted = record {
  message = message_view waiting none;
  created = true;
  owner_user_id = 8;
  correlation_id = "c";
}

first_question :
    accept lower is_word settings 20 5 who 9
      (codes "ayuda")
      (some (codes " a"))
      "c"
      TurnKind.question
      none
      none
      start
    ≡ ok (accepted, with_message waiting)
unfolding accept accept_in accept_new insert_turn turn_of detect_intent phrase_of words_from
    idempotency_key owned expire_in active_corpus new_message append_message row_checks view
    response_of ltrim rtrim strip is_space join antecedent_query completed_before
first_question = refl

the_failure : with_message ended ≡ fail 7 20 "PROVIDER_TIMEOUT" (with_message waiting)
unfolding fail
the_failure = refl

start-IsSound : IsSound start
unfolding AllApart
start-IsSound = record { payload = tt; one_pending = λ id. ground arith; numbered = tt; apart = tt }

one_failure : Reach lower is_word settings (with_message waiting) (with_message ended)
one_failure = next here (fails 7 20 "PROVIDER_TIMEOUT" the_failure)

Reach-IsSound_example : IsSound (with_message ended)
Reach-IsSound_example = Reach-IsSound lower is_word settings start-IsSound (
    next
      (next here (
        accepts 20 5 who 9 (codes "ayuda") (some (codes " a")) "c" TurnKind.question none none
          accepted first_question))
      (fails 7 20 "PROVIDER_TIMEOUT" the_failure))

again : fail 9 20 "OTHER" (with_message ended) ≡ with_message ended
unfolding fail
again = refl

Reach-final_example : get_elem? (fail 9 20 "OTHER" (with_message ended)).messages 0 ≡ some ended
Reach-final_example =
    Reach-final lower is_word settings (next here (fails 9 20 "OTHER" refl)) 0 ended refl refl

accept_again_example :
    (r : AcceptedMessage) × (accept lower is_word settings 21 9 who 9
        (codes "ayuda")
        (some (codes " a"))
        "d"
        TurnKind.question
        none
        none
        (with_message ended)
      ≡ ok (r, expire_in 9 (some 9) (with_message ended)))
    × (r.created ≡ false)
    × (r.message.id ≡ 20)
    × (r.message.sequence ≡ 1)
accept_again_example =
    accept_again lower is_word settings 20 21 5 9 who 9 (codes "ayuda") (some (codes " a")) "c" "d"
      TurnKind.question TurnKind.question none none none none start-IsSound first_question
      one_failure

-- The next question of a conversation whose first one was answered.
abbrev pub first_answer : Message
first_answer = record waiting {
  state = MessageState.completed;
  answer = some (codes "Lee");
  mode = some docta.Contract.hint;
  grounded = some true;
  completed_at = some 7;
}

abbrev pub second_question : Message
second_question = record waiting {
  id = 21;
  corpus_version_id = some 3;
  sequence = 2;
  idempotency_key = codes "b";
}

abbrev pub asked : AcceptedMessage
asked = record accepted { message = message_view second_question none }

abbrev pub two_messages : ConversationStore
two_messages = record {
  base = base;
  conversations = conversation 3 ∷ [];
  messages = first_answer ∷ second_question ∷ [];
  evidence = [];
  citations = [];
}

abbrev asked_request : TutorRequest
asked_request = record {
  scope = record {
    course_id = 1;
    corpus_version_id = 3;
    principal_user_id = 8;
    conversation_id = 9;
    message_id = 21;
    correlation_id = "c";
  };
  question = codes "ayuda";
  evidence = [];
  history =
      record { question = codes "ayuda"; answer = codes "Lee"; situation = none; help_level = 0 }
      ∷ [];
  turn_kind = TurnKind.followup;
  turn_intent = some docta.Rag.Intent.dont_know;
  retrieval_query = none;
  needs_antecedent = true;
}

one_turn : request asked [] two_messages ≡ ok asked_request
unfolding request turns_within completed_before reversed
one_turn = refl

request-bounded_example :
    (total_size asked_request.history ≤ 12000) × (length asked_request.history ≤ 6)
request-bounded_example = request-bounded asked [] two_messages one_turn
