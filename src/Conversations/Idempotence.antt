-- ===== src/Conversations/Idempotence.antt =====
-- `accept` under one idempotency key, over all runs of the service.
use docta.Prelude.{
  ℕ, ◌≡◌, refl, Bool, true, false, Option, none, some, sym, ◌∙◌, ok, >>=-eq-ok, String, find, any,
  inl, inr, Bool-cases, Option-cases, All-find,
}
use mathlib.Core.Path.{subst}
use docta.Identity.{AuthenticatedIdentity}
use docta.Models.{Uuid, Time}
use docta.Text.{Text}
use docta.Rag.{TurnKind, Intent}
use docta.Conversations.Rows.{Message, Conversation, ConversationStore, terminal_payload}
use docta.Conversations.Requests.{idempotency_key}
use docta.Conversations.Views.{MessageView, view}
use docta.Conversations.Access.{owned, expire_in}
use docta.Conversations.Turns.{turn_of}
use docta.Conversations.Accept.{
  AcceptedMessage, ServiceSettings, is_open_in, has_key, insert_turn, accept_new, accept_in, accept,
}
use docta.Conversations.Changes.{then_change, join-Changes}
use docta.Conversations.Numbering.{IsSound}
use docta.Conversations.Soundness.{Changes-IsSound}
use docta.Conversations.Transactions.{expire_in-Change}
use docta.Conversations.Acceptance.{accept-Changes}
use docta.Conversations.Ownership.{Changes-owned, Changes-key}
use docta.Conversations.Runs.{Reach, Reach-Changes}
use docta.Conversations.Retries.{
  view_ok, view_fields, IsAccepted, replayed, replay_ok, replay-IsAccepted, insert_turn-IsAccepted,
}

module _ (lower : Text → Text) (is_word : ℕ → Bool) (settings : ServiceSettings) where
  accept_new-IsAccepted :
      (id : Uuid) (now : Time) (c : Conversation) (text key : Text) (correlation_id : String)
      (kind : TurnKind) (intent : Option Intent) (parent_id : Option Uuid) (s : ConversationStore)
      {r : AcceptedMessage} {s' : ConversationStore}
      → find (has_key c.id key) s.messages ≡ none
      → accept_new lower is_word settings id now c text key correlation_id kind intent parent_id s
        ≡ ok (r, s')
      → IsAccepted c key text r s'
  unfolding accept_new
  accept_new-IsAccepted id now c text key correlation_id kind intent parent_id s fresh h =
      elim (Bool-cases (any (is_open_in c.id) s.messages)) [
        | inl busy ↦ let h' = rw (busy, accept_new) at h in cc
        | inr free ↦
            let (t, _, h₁) =
              >>=-eq-ok (turn_of lower is_word c s.messages text kind intent parent_id)
                (insert_turn lower is_word settings id now c text key correlation_id parent_id s)
                (rw (free, accept_new) at h) in
            insert_turn-IsAccepted lower is_word settings id now c text key correlation_id parent_id
              s t fresh h₁
      ]

  accept_in-IsAccepted :
      (id : Uuid) (now : Time) (c : Conversation) (text key : Text) (correlation_id : String)
      (kind : TurnKind) (intent : Option Intent) (parent_id : Option Uuid) (s : ConversationStore)
      {r : AcceptedMessage} {s' : ConversationStore}
      → accept_in lower is_word settings id now c text key correlation_id kind intent parent_id s
        ≡ ok (r, s')
      → IsAccepted c key text r s'
  unfolding accept_in
  accept_in-IsAccepted id now c text key correlation_id kind intent parent_id s h =
      elim (Option-cases (find (has_key c.id key) s.messages)) [
        | inl fresh ↦
            accept_new-IsAccepted id now c text key correlation_id kind intent parent_id s fresh
              (rw (fresh, accept_in) at h)
        | inr (old, e) ↦ replay-IsAccepted c old key text s e (rw (e, accept_in) at h)
      ]

  accept-IsAccepted :
      (id : Uuid) (now : Time) (who : AuthenticatedIdentity) (conversation_id : Uuid) (text : Text)
      (header : Option Text) (correlation_id : String) (kind : TurnKind) (intent : Option Intent)
      (parent_id : Option Uuid) (s : ConversationStore) {r : AcceptedMessage}
      {s' : ConversationStore}
      → accept lower is_word settings id now who conversation_id text header correlation_id kind
          intent parent_id s
        ≡ ok (r, s')
      → (key : Text) × (c : Conversation) × (idempotency_key header ≡ ok key)
        × (owned s who conversation_id ≡ ok c)
        × IsAccepted c key text r s'
  unfolding accept
  accept-IsAccepted id now who conversation_id text header correlation_id kind intent parent_id s
        h =
      let (key, has, h₁) = >>=-eq-ok (idempotency_key header) _ h in
      let (c, mine, h₂) = >>=-eq-ok (owned s who conversation_id) _ h₁ in
      (
        key,
        c,
        has,
        mine,
        accept_in-IsAccepted id now c text key correlation_id kind intent parent_id
            (expire_in now (some conversation_id) s) h₂,
      )

  -- The second request, once the row of the first is known.
  accept_in_old :
      (id : Uuid) (now : Time) (c : Conversation) (text key : Text) (correlation_id : String)
      (kind : TurnKind) (intent : Option Intent) (parent_id : Option Uuid) (s : ConversationStore)
      (m : Message) {v : MessageView}
      → find (has_key c.id key) s.messages ≡ some m
      → m.question ≡ text
      → view s m ≡ ok v
      → accept_in lower is_word settings id now c text key correlation_id kind intent parent_id s
        ≡ ok (replayed c m v, s)
  unfolding accept_in
  accept_in_old id now c text key correlation_id kind intent parent_id s m found same shown =
      rw (found, accept_in) (replay_ok c m text s same shown)

  accept_old :
      (id : Uuid) (now : Time) (who : AuthenticatedIdentity) (conversation_id : Uuid)
      (text key : Text) (header : Option Text) (correlation_id : String) (kind : TurnKind)
      (intent : Option Intent) (parent_id : Option Uuid) (s : ConversationStore) (c : Conversation)
      (m : Message) {v : MessageView}
      → idempotency_key header ≡ ok key
      → owned s who conversation_id ≡ ok c
      → find (has_key c.id key) (expire_in now (some conversation_id) s).messages ≡ some m
      → m.question ≡ text
      → view (expire_in now (some conversation_id) s) m ≡ ok v
      → accept lower is_word settings id now who conversation_id text header correlation_id kind
          intent parent_id s
        ≡ ok (replayed c m v, expire_in now (some conversation_id) s)
  unfolding accept
  accept_old id now who conversation_id text key header correlation_id kind intent parent_id s c m
        has mine found same shown =
      rw (has, mine)
        (accept_in_old id now c text key correlation_id kind intent parent_id
          (expire_in now (some conversation_id) s) m found same shown)

  -- From a sound store: once a question was accepted, and after any further run, the same identity
  -- sending the same question under the same key to the conversation gets, whatever else it sends,
  -- the message that was made, with its id and number, as not created; nothing is stored but the
  -- expiry of overdue messages.
  pub accept_again :
      (id id' : Uuid) (now now' : Time) (who : AuthenticatedIdentity) (conversation_id : Uuid)
      (text : Text) (header : Option Text) (corr corr' : String) (kind kind' : TurnKind)
      (intent intent' : Option Intent) (parent_id parent_id' : Option Uuid)
      {s s' s'' : ConversationStore} {r : AcceptedMessage}
      → IsSound s
      → accept lower is_word settings id now who conversation_id text header corr kind intent
          parent_id s
        ≡ ok (r, s')
      → Reach lower is_word settings s' s''
      → (r' : AcceptedMessage) × (accept lower is_word settings id' now' who conversation_id text
            header corr' kind' intent' parent_id' s''
          ≡ ok (r', expire_in now' (some conversation_id) s''))
        × (r'.created ≡ false)
        × (r'.message.id ≡ r.message.id)
        × (r'.message.sequence ≡ r.message.sequence)
  accept_again id id' now now' who conversation_id text header corr corr' kind kind' intent intent'
        parent_id parent_id' {s} {s'} {s''} {r} sound h run =
      let (key, c, has, mine, first) =
        accept-IsAccepted id now who conversation_id text header corr kind intent parent_id s h in
      let before =
        accept-Changes lower is_word settings id now who conversation_id text header corr kind
          intent parent_id s h in
      let after = Reach-Changes lower is_word settings run in
      let expired = expire_in-Change now' (some conversation_id) s'' in
      let (d, mine', same_conversation) =
        Changes-owned (join-Changes before after) who conversation_id c mine in
      let (m, found, same) =
        Changes-key (then_change after expired) c.id key first.row first.found in
      let sound' = Changes-IsSound (join-Changes before (then_change after expired)) sound in
      let (v, shown) =
        view_ok (expire_in now' (some conversation_id) s'') m
          (All-find (λ m. terminal_payload m ≡ true) _ _ found sound'.payload) in
      let (same_id, same_sequence) =
        view_fields (expire_in now' (some conversation_id) s'') m shown in
      (
        replayed d m v,
        accept_old id' now' who conversation_id text key header corr' kind' intent' parent_id' s'' d
            m has mine'
            (subst
              (λ k.
                find (has_key k key) (expire_in now' (some conversation_id) s'').messages ≡ some m)
              (sym same_conversation) found)
            (same.question ∙ first.question) shown,
        refl,
        same_id ∙ same.id ∙ sym first.id,
        same_sequence ∙ same.sequence ∙ sym first.sequence,
      )
