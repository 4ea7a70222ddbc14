-- ===== src/Retrieval/Authorization.antt =====
-- What the authorization of a retrieval means, in the rows it rests on.
use docta.Prelude.{
  ◌<◌, ◌≡◌, ◌⊎◌, refl, ◌∙◌, Bool, true, false, ◌&&◌, Option, none, some, any, any-mem, inl, inr,
  Option-cases, arith, ◌==◌, nat_eq, option_eq, list_eq, list_beq_iff, option_beq_iff, ap,
}
use mathlib.Core.List.{Memᴰ}
use mathlib.Core.Option.{some-injective}
use docta.Models.{Uuid, Time, CourseMembership, CorpusVersion, CorpusVersionState, ready, is_ready}
use docta.Text.{Text}
use docta.Store.{Store}
use docta.Rag.{RetrievalScope}
use docta.Conversations.{ConversationStore, Conversation, Message, MessageState, is_pending}
use docta.Retrieval.Search.{asked_text, is_asked, is_owned, is_corpus_of, is_authorized}

-- The message of the scope waits for the answer to the question, which is its retrieval query, or,
-- where it has none, its own text.
pub record IsWaiting (now : Time) (scope : RetrievalScope) (question : Text) (m : Message)
    : Type 0 where
  pub id : m.id ≡ scope.message_id
  pub course : m.course_id ≡ scope.course_id
  pub corpus : m.corpus_version_id ≡ some scope.corpus_version_id
  pub conversation : m.conversation_id ≡ scope.conversation_id
  pub state : m.state ≡ MessageState.pending
  pub asks :
      (m.retrieval_query ≡ some question) ⊎ ((m.retrieval_query ≡ none) × (m.question ≡ question))
  pub in_time : now < m.deadline_at

-- The scope is that of a waiting message, in a conversation of the principal, who is a member of the
-- conversation's course, and of a ready corpus of the course.
pub record IsAuthorized (now : Time) (scope : RetrievalScope) (question : Text)
    (s : ConversationStore) : Type 0 where
  pub message : Message
  pub sent : Memᴰ message s.messages
  pub waits : IsWaiting now scope question message
  pub conversation : Conversation
  pub opened : Memᴰ conversation s.conversations
  pub same_conversation : conversation.id ≡ scope.conversation_id
  pub owner : conversation.owner_user_id ≡ scope.principal_user_id
  pub membership : CourseMembership
  pub member : Memᴰ membership s.base.memberships
  pub of_owner : membership.user_id ≡ scope.principal_user_id
  pub of_course : membership.course_id ≡ conversation.course_id
  pub corpus : CorpusVersion
  pub built : Memᴰ corpus s.base.corpora
  pub same_corpus : corpus.id ≡ scope.corpus_version_id
  pub corpus_course : corpus.course_id ≡ scope.course_id
  pub is_ready : corpus.state ≡ ready

pending-state : (st : MessageState) → is_pending st ≡ true → st ≡ MessageState.pending
pending-state MessageState.pending h = refl
pending-state MessageState.completed h = cc
pending-state MessageState.failed h = cc

ready-state : (st : CorpusVersionState) → is_ready st ≡ true → st ≡ ready
ready-state ready h = refl
ready-state _ h = cc

some-id : (a : Option Uuid) (b : Uuid) → (a == some b) ≡ true → a ≡ some b
some-id a b h = (option_beq_iff a (some b)).0 h

asked_text-cases :
    (m : Message) (question : Text)
    → (asked_text m == question) ≡ true
    → (m.retrieval_query ≡ some question) ⊎ ((m.retrieval_query ≡ none) × (m.question ≡ question))
asked_text-cases m question h = elim (Option-cases m.retrieval_query) [
  | inl e ↦ inr (e, (list_beq_iff m.question question).0 (rw e at h))
  | inr (q, e) ↦
      let same : q ≡ question = (list_beq_iff q question).0 (rw e at h) in inl (e ∙ ap some same)
]

is_asked-IsWaiting :
    (now : Time) (scope : RetrievalScope) (question : Text) (m : Message)
    → is_asked now scope question m ≡ true
    → IsWaiting now scope question m
is_asked-IsWaiting now scope question m h = record {
  id = ground arith;
  course = ground arith;
  corpus = some-id m.corpus_version_id scope.corpus_version_id (ground arith);
  conversation = ground arith;
  state = pending-state m.state (ground arith);
  asks = asked_text-cases m question (ground arith);
  in_time = ground arith;
}

pub both_true : (a b : Bool) → (a && b) ≡ true → (a ≡ true) × (b ≡ true)
both_true true b h = (refl, h)
both_true false b h = cc

is_owned-ok :
    (s : Store) (scope : RetrievalScope) (m : Message) (c : Conversation)
    → is_owned s scope m c ≡ true
    → (c.id ≡ m.conversation_id)
      × (c.owner_user_id ≡ scope.principal_user_id)
      × ((p : CourseMembership) × Memᴰ p s.memberships
          × (p.course_id ≡ c.course_id)
          × (p.user_id ≡ c.owner_user_id))
is_owned-ok s scope m c h =
    let q = λ (p : CourseMembership). p.course_id == c.course_id && p.user_id == c.owner_user_id in
    let (p, member, belongs) = any-mem q s.memberships (ground arith) in
    (ground arith, ground arith, (p, member, ground arith, ground arith))

is_corpus_of-ok :
    (m : Message) (v : CorpusVersion)
    → is_corpus_of m v ≡ true
    → (some v.id ≡ m.corpus_version_id) × (v.course_id ≡ m.course_id) × (v.state ≡ ready)
is_corpus_of-ok m v h = (
  (option_beq_iff (some v.id) m.corpus_version_id).0 (ground arith),
  ground arith,
  ready-state v.state (ground arith),
)

message-IsAuthorized :
    (now : Time) (scope : RetrievalScope) (question : Text) (s : ConversationStore) (m : Message)
    → Memᴰ m s.messages
    → is_authorized now scope question s m ≡ true
    → IsAuthorized now scope question s
message-IsAuthorized now scope question s m sent tested =
    let (both, has_corpus) =
      both_true (is_asked now scope question m && any (is_owned s.base scope m) s.conversations)
        (any (is_corpus_of m) s.base.corpora) tested in
    let (asked, has_owner) =
      both_true (is_asked now scope question m) (any (is_owned s.base scope m) s.conversations)
        both in
    let waits = is_asked-IsWaiting now scope question m asked in
    let (c, opened, owned) = any-mem (is_owned s.base scope m) s.conversations has_owner in
    let (own, owner, (p, member, of_course, holder)) = is_owned-ok s.base scope m c owned in
    let (v, built, fits) = any-mem (is_corpus_of m) s.base.corpora has_corpus in
    let (of_message, corpus_course, done) = is_corpus_of-ok m v fits in
    record {
      message = m;
      sent = sent;
      waits = waits;
      conversation = c;
      opened = opened;
      same_conversation = own ∙ waits.conversation;
      owner = owner;
      membership = p;
      member = member;
      of_owner = holder ∙ owner;
      of_course = of_course;
      corpus = v;
      built = built;
      same_corpus = some-injective v.id scope.corpus_version_id (of_message ∙ waits.corpus);
      corpus_course = corpus_course ∙ waits.course;
      is_ready = done;
    }

-- What is tested of a scope is what its authorization means.
pub is_authorized-IsAuthorized :
    (now : Time) (scope : RetrievalScope) (question : Text) (s : ConversationStore)
    → any (is_authorized now scope question s) s.messages ≡ true
    → IsAuthorized now scope question s
is_authorized-IsAuthorized now scope question s h =
    let (m, sent, tested) = any-mem (is_authorized now scope question s) s.messages h in
    message-IsAuthorized now scope question s m sent tested
