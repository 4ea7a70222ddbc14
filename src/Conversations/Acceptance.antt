-- ===== src/Conversations/Acceptance.antt =====
-- What `accept` changes: overdue messages fail, and then nothing, or a message is appended.
use docta.Prelude.{
  ℕ, ◌≡◌, refl, Bool, true, Option, none, some, sym, arith, String, ok, >>=-eq-ok, any, find,
  find_by-key, nat_eq, list_eq, inl, inr, Bool-cases, Option-cases,
}
use mathlib.Core.Path.{subst}
use docta.Identity.{AuthenticatedIdentity}
use docta.Models.{Uuid, Time}
use docta.Text.{Text}
use docta.Rag.{TurnKind, Intent}
use docta.Conversations.Rows.{Conversation, ConversationStore, terminal_payload}
use docta.Conversations.Requests.{idempotency_key}
use docta.Conversations.Access.{conversation_by, owned, expire_in}
use docta.Conversations.Turns.{Turn, active_corpus, turn_of}
use docta.Conversations.Accept.{
  AcceptedMessage, ServiceSettings, is_open_in, has_key, new_message, append_message, replay,
  insert_turn, accept_new, accept_in, accept,
}
use docta.Conversations.Changes.{Change, appended, untouched, Changes, done, then_change}
use docta.Conversations.Transactions.{expire_in-Change}

module _ (lower : Text → Text) (is_word : ℕ → Bool) (settings : ServiceSettings) where
  new_message-payload :
      (id : Uuid) (now : Time) (c : Conversation) (corpus_id : Option Uuid) (text key : Text)
      (correlation_id : String) (t : Turn) (parent_id : Option Uuid)
      → terminal_payload
          (new_message settings id now c corpus_id text key correlation_id t parent_id)
        ≡ true
  unfolding terminal_payload new_message
  new_message-payload id now c corpus_id text key correlation_id t parent_id = refl

  insert_turn-store :
      (id : Uuid) (now : Time) (c : Conversation) (text key : Text) (correlation_id : String)
      (parent_id : Option Uuid) (s : ConversationStore) (t : Turn) {r : AcceptedMessage}
      {s' : ConversationStore}
      → insert_turn lower is_word settings id now c text key correlation_id parent_id s t
        ≡ ok (r, s')
      → s'
        ≡ append_message
            (new_message settings id now c
              (active_corpus s.base c.course_id)
              text
              key
              correlation_id
              t
              parent_id)
            c.id
            s
  unfolding insert_turn
  insert_turn-store id now c text key correlation_id parent_id s t h = ground arith

  -- A question that is not a replay is appended.
  pub accept_new-Change :
      (id : Uuid) (now : Time) (c : Conversation) (text key : Text) (correlation_id : String)
      (kind : TurnKind) (intent : Option Intent) (parent_id : Option Uuid) (s : ConversationStore)
      {r : AcceptedMessage} {s' : ConversationStore}
      → conversation_by c.id s.conversations ≡ some c
      → find (has_key c.id key) s.messages ≡ none
      → accept_new lower is_word settings id now c text key correlation_id kind intent parent_id s
        ≡ ok (r, s')
      → Change s s'
  unfolding accept_new new_message
  accept_new-Change id now c text key correlation_id kind intent parent_id s {r} {s'} found fresh
        h =
      elim (Bool-cases (any (is_open_in c.id) s.messages)) [
        | inl busy ↦ let h' = rw (busy, accept_new) at h in cc
        | inr free ↦
            let (t, _, h₁) =
              >>=-eq-ok (turn_of lower is_word c s.messages text kind intent parent_id)
                (insert_turn lower is_word settings id now c text key correlation_id parent_id s)
                (rw (free, accept_new) at h) in
            appended c
              (new_message settings id now c (active_corpus s.base c.course_id) text key
                correlation_id t parent_id)
              found fresh free refl refl
              (new_message-payload id now c _ text key correlation_id t parent_id)
              (insert_turn-store id now c text key correlation_id parent_id s t h₁)
      ]

  accept_in-Change :
      (id : Uuid) (now : Time) (c : Conversation) (text key : Text) (correlation_id : String)
      (kind : TurnKind) (intent : Option Intent) (parent_id : Option Uuid) (s : ConversationStore)
      {r : AcceptedMessage} {s' : ConversationStore}
      → conversation_by c.id s.conversations ≡ some c
      → accept_in lower is_word settings id now c text key correlation_id kind intent parent_id s
        ≡ ok (r, s')
      → Change s s'
  unfolding accept_in replay
  accept_in-Change id now c text key correlation_id kind intent parent_id s {r} {s'} found h =
      elim (Option-cases (find (has_key c.id key) s.messages)) [
        | inl fresh ↦
            accept_new-Change id now c text key correlation_id kind intent parent_id s found fresh
              (rw (fresh, accept_in) at h)
        | inr (old, e) ↦
            let h' = rw (e, accept_in) at h in
            untouched (ground arith) (ground arith) (ground arith)
      ]

  owned-found :
      (s : ConversationStore) (who : AuthenticatedIdentity) (conversation_id : Uuid)
      {c : Conversation}
      → owned s who conversation_id ≡ ok c
      → conversation_by c.id s.conversations ≡ some c
  unfolding owned
  owned-found s who conversation_id {c} h =
      let found : conversation_by conversation_id s.conversations ≡ some c = ground arith in
      subst (λ k. conversation_by k s.conversations ≡ some c)
        (sym (find_by-key (λ (c : Conversation). c.id) conversation_id s.conversations found)) found

  -- A question that is accepted: overdue messages fail, and then it is a replay, or it is appended.
  pub accept-Changes :
      (id : Uuid) (now : Time) (who : AuthenticatedIdentity) (conversation_id : Uuid) (text : Text)
      (header : Option Text) (correlation_id : String) (kind : TurnKind) (intent : Option Intent)
      (parent_id : Option Uuid) (s : ConversationStore) {r : AcceptedMessage}
      {s' : ConversationStore}
      → accept lower is_word settings id now who conversation_id text header correlation_id kind
          intent parent_id s
        ≡ ok (r, s')
      → Changes s s'
  unfolding accept expire_in
  accept-Changes id now who conversation_id text header correlation_id kind intent parent_id s h =
      let (key, _, h₁) = >>=-eq-ok (idempotency_key header) _ h in
      let (c, has, h₂) = >>=-eq-ok (owned s who conversation_id) _ h₁ in
      then_change (then_change done (expire_in-Change now (some conversation_id) s)) (
        accept_in-Change id now c text key correlation_id kind intent parent_id
          (expire_in now (some conversation_id) s) (owned-found s who conversation_id has) h₂)
