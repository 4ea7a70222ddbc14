-- ===== src/Conversations/Ownership.antt =====
-- What a run keeps of a conversation and of a message under its key: the owner, and the identity.
use docta.Prelude.{
  ◌+◌, ◌≡◌, refl, true, some, sym, ◌∙◌, arith, ok, if◌then◌else◌, any, find, find_by-update_where,
  find_by-append, ◌==◌, nat_eq, string_eq, list_eq,
}
use mathlib.Core.Path.{subst}
use docta.Identity.{AuthenticatedIdentity}
use docta.Models.{Uuid}
use docta.Store.{Store}
use docta.Text.{Text}
use docta.Conversations.Rows.{Message, Conversation, ConversationStore}
use docta.Conversations.Access.{is_owner, conversation_by, owned}
use docta.Conversations.Accept.{has_key, append_message}
use docta.Conversations.Changes.{
  IsSame, Change, settled, appended, created, untouched, Changes, done, then_change,
}
use docta.Conversations.Numbering.{IsSame-refl}
use docta.Conversations.Permanence.{Change-key}

-- The columns of a conversation that decide who owns it.
pub record HasSameOwner (c c' : Conversation) : Type 0 where
  pub id : c'.id ≡ c.id
  pub course : c'.course_id ≡ c.course_id
  pub owner : c'.owner_user_id ≡ c.owner_user_id

Change-base : {s s' : ConversationStore} → Change s s' → s'.base ≡ s.base
unfolding append_message
Change-base (settled p f h em ec eb) = eb
Change-base (appended c n found fresh free same number pay es) = rw es refl
Change-base (untouched em ec eb) = eb
Change-base (created more ec em eb) = eb

Change-conversation :
    {s s' : ConversationStore}
    → Change s s'
    → (k : Uuid) (c : Conversation) → conversation_by k s.conversations ≡ some c
    → (c' : Conversation) × (conversation_by k s'.conversations ≡ some c') × HasSameOwner c c'
unfolding append_message
Change-conversation (settled p f h em ec eb) k c e =
    (c, rw ec e, record { id = refl; course = refl; owner = refl })
Change-conversation (untouched em ec eb) k c e =
    (c, rw ec e, record { id = refl; course = refl; owner = refl })
Change-conversation {s} (created more ec em eb) k c e = (
  c,
  rw (ec, find_by-append (λ (c : Conversation). c.id) k s.conversations more, e) refl,
  record { id = refl; course = refl; owner = refl },
)
Change-conversation {s} (appended d n found fresh free same number pay es) k c e = (
  if c.id == d.id then record c { next_sequence = c.next_sequence + 1 } else c,
  rw
      (
        es,
        find_by-update_where (λ (c : Conversation). c.id) k (λ c. c.id == d.id)
            (λ c. record c { next_sequence = c.next_sequence + 1 }) s.conversations (λ c. refl),
        e,
      )
      refl,
  record { id = ground arith; course = ground arith; owner = ground arith },
)

owner-kept :
    (t : Store) (who : AuthenticatedIdentity) (c c' : Conversation)
    → HasSameOwner c c'
    → any (is_owner t who c) t.users ≡ true
    → any (is_owner t who c') t.users ≡ true
owner-kept t who c c' same h = rw (same.course, same.owner) h

owned-intro :
    (s : ConversationStore) (who : AuthenticatedIdentity) (k : Uuid) (c : Conversation)
    → conversation_by k s.conversations ≡ some c
    → any (is_owner s.base who c) s.base.users ≡ true
    → owned s who k ≡ ok c
unfolding owned
owned-intro s who k c found mine = rw (found, mine) refl

owned-elim :
    (s : ConversationStore) (who : AuthenticatedIdentity) (k : Uuid) (c : Conversation)
    → owned s who k ≡ ok c
    → (conversation_by k s.conversations ≡ some c)
      × (any (is_owner s.base who c) s.base.users ≡ true)
unfolding owned
owned-elim s who k c e = (ground arith, ground arith)

Change-owned :
    {s s' : ConversationStore}
    → Change s s'
    → (who : AuthenticatedIdentity) (k : Uuid) (c : Conversation) → owned s who k ≡ ok c
    → (c' : Conversation) × (owned s' who k ≡ ok c') × (c'.id ≡ c.id)
Change-owned {s} {s'} change who k c e =
    let (found, mine) = owned-elim s who k c e in
    let (c', found', same) = Change-conversation change k c found in
    (
      c',
      owned-intro s' who k c' found' (
          subst (λ t. any (is_owner t who c') t.users ≡ true) (sym (Change-base change))
            (owner-kept s.base who c c' same mine)),
      same.id,
    )

pub Changes-owned :
    {s s' : ConversationStore}
    → Changes s s'
    → (who : AuthenticatedIdentity) (k : Uuid) (c : Conversation) → owned s who k ≡ ok c
    → (c' : Conversation) × (owned s' who k ≡ ok c') × (c'.id ≡ c.id)
Changes-owned done who k c e = (c, e, refl)
Changes-owned (then_change before change) who k c e =
    let (d, e₁, id₁) = Changes-owned before who k c e in
    let (f, e₂, id₂) = Change-owned change who k d e₁ in (f, e₂, id₂ ∙ id₁)

IsSame-trans : {a b c : Message} → IsSame a b → IsSame b c → IsSame a c
IsSame-trans x y = record {
  id = y.id ∙ x.id;
  conversation = y.conversation ∙ x.conversation;
  sequence = y.sequence ∙ x.sequence;
  key = y.key ∙ x.key;
  question = y.question ∙ x.question;
}

pub Changes-key :
    {s s' : ConversationStore}
    → Changes s s'
    → (conversation_id : Uuid) (key : Text) (m : Message)
    → find (has_key conversation_id key) s.messages ≡ some m
    → (m' : Message) × (find (has_key conversation_id key) s'.messages ≡ some m') × IsSame m m'
Changes-key done id key m e = (m, e, IsSame-refl m)
Changes-key (then_change before change) id key m e =
    let (n, e₁, same₁) = Changes-key before id key m e in
    let (o, e₂, same₂) = Change-key change id key n e₁ in (o, e₂, IsSame-trans same₁ same₂)
