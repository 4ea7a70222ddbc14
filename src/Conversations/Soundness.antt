-- ===== src/Conversations/Soundness.antt =====
-- The changes of a transaction keep the invariant of the messages.
use docta.Prelude.{
  ◌≡◌, refl, Bool, true, false, none, some, List, [], ◌∷◌, ◌++◌, sym, arith, any, find,
  update_where, count_where, All, All-append, All-weaken, All-update_where, nat_eq, list_eq, inl,
  inr, Bool-cases, eq_self,
}
use mathlib.Core.Path.{subst}
use docta.Conversations.Rows.{Message, Conversation, ConversationStore, terminal_payload}
use docta.Conversations.Access.{conversation_by}
use docta.Conversations.Accept.{is_open_in, has_key, append_message}
use docta.Conversations.Changes.{
  Settles, Change, settled, appended, created, untouched, Changes, done, then_change,
}
use docta.Conversations.Numbering.{
  Apart, IsNumbered, IsSound, count_where-settled, count_where-none, count_where-snoc,
  AllApart-settled, AllApart-snoc, IsNumbered-append, IsNumbered-numbers_on, IsNumbered-new,
}

module _ (p : Message → Bool) (f : Message → Message)
    (h : (m : Message) → p m ≡ true → Settles m (f m)) where
  IsNumbered-settled :
      (cs : List Conversation) (ms : List Message)
      → All (IsNumbered cs) ms
      → All (IsNumbered cs) (update_where p f ms)
  unfolding IsNumbered
  IsNumbered-settled cs ms = All-update_where (IsNumbered cs) p f ms (λ m e (c, found, below).
      let step = (h m e).same in (c, rw (step.conversation) found, rw (step.sequence) below))

  settled-IsSound :
      (s s' : ConversationStore)
      → s'.messages ≡ update_where p f s.messages
      → s'.conversations ≡ s.conversations
      → IsSound s
      → IsSound s'
  settled-IsSound s s' em ec sound = record {
    payload = rw em (
        All-update_where (λ m. terminal_payload m ≡ true) p f s.messages (λ m e. (h m e).payload)
          sound.payload);
    one_pending = λ id.
        let fewer = count_where-settled p f id s.messages h in
        let one = sound.one_pending id in rw em (omega arith);
    numbered = rw (em, ec) (IsNumbered-settled s.conversations s.messages sound.numbered);
    apart = rw em (AllApart-settled p f h s.messages sound.apart);
  }

-- A message that stands before a new one of its conversation differs in number and key.
new-Apart :
    (c : Conversation) (m : Message) (s : ConversationStore)
    → conversation_by c.id s.conversations ≡ some c
    → m.conversation_id ≡ c.id
    → m.sequence ≡ c.next_sequence
    → (ms : List Message) → find (has_key c.id m.idempotency_key) ms ≡ none
    → All (IsNumbered s.conversations) ms
    → All (λ n. Apart n m) ms
unfolding IsNumbered Apart
new-Apart c m s found same number [] fresh numbered = tt
new-Apart c m s found same number (n ∷ ms) fresh ((d, at, below), rest) = (
  (λ together.
      let at_c : conversation_by c.id s.conversations ≡ some d = rw (together, same) at at in
      let row : d ≡ c = cc in
      (
        (λ e. let number_d : n.sequence ≡ d.next_sequence = cc in omega arith),
        (λ e.
            let key : has_key c.id m.idempotency_key n ≡ true =
              rw (together, same, e, eq_self c.id, eq_self m.idempotency_key) refl in
            let none_found = rw key at fresh in cc),
      )),
  new-Apart c m s found same number ms (ground arith) rest,
)

appended-IsSound :
    (c : Conversation) (m : Message) (s : ConversationStore)
    → conversation_by c.id s.conversations ≡ some c
    → find (has_key c.id m.idempotency_key) s.messages ≡ none
    → any (is_open_in c.id) s.messages ≡ false
    → m.conversation_id ≡ c.id
    → m.sequence ≡ c.next_sequence
    → terminal_payload m ≡ true
    → IsSound s
    → IsSound (append_message m c.id s)
unfolding append_message
appended-IsSound c m s found fresh free same number pay sound = record {
  payload = All-append (λ m. terminal_payload m ≡ true) s.messages (m ∷ []) sound.payload (pay, tt);
  one_pending = λ id.
      let before = sound.one_pending id in
      let more = count_where-snoc (is_open_in id) s.messages m in
      elim (Bool-cases (is_open_in id m)) [
        | inl e ↦
            let row : c.id ≡ id = ground arith in
            let none_open : count_where (is_open_in id) s.messages ≡ 0 =
              subst (λ k. count_where (is_open_in k) s.messages ≡ 0) row
                (count_where-none (is_open_in c.id) s.messages free) in
            let more_e = rw e at more in omega arith
        | inr e ↦ let more_e = rw e at more in omega arith
      ];
  numbered =
      All-append (IsNumbered _) s.messages (m ∷ [])
        (All-weaken (IsNumbered s.conversations) _ (IsNumbered-numbers_on c.id s.conversations)
          s.messages sound.numbered)
        (IsNumbered-new c s.conversations m found same number, tt);
  apart =
      AllApart-snoc s.messages m sound.apart
        (new-Apart c m s found same number s.messages fresh sound.numbered);
}

created-IsSound :
    (more : List Conversation) (s s' : ConversationStore)
    → s'.conversations ≡ s.conversations ++ more
    → s'.messages ≡ s.messages
    → IsSound s
    → IsSound s'
created-IsSound more s s' ec em sound = record {
  payload = rw em (sound.payload);
  one_pending = λ id. rw em (sound.one_pending id);
  numbered =
      rw (ec, em)
        (All-weaken (IsNumbered s.conversations) _ (IsNumbered-append s.conversations more)
          s.messages sound.numbered);
  apart = rw em (sound.apart);
}

Change-IsSound : {s s' : ConversationStore} → Change s s' → IsSound s → IsSound s'
Change-IsSound {s} {s'} (settled p f h em ec eb) = settled-IsSound p f h s s' em ec
Change-IsSound {s} (appended c m found fresh free same number pay e) =
    λ sound. subst IsSound (sym e) (appended-IsSound c m s found fresh free same number pay sound)
Change-IsSound {s} {s'} (untouched em ec eb) = λ sound. record {
  payload = rw em (sound.payload);
  one_pending = λ id. rw em (sound.one_pending id);
  numbered = rw (em, ec) (sound.numbered);
  apart = rw em (sound.apart);
}
Change-IsSound {s} {s'} (created more ec em eb) = created-IsSound more s s' ec em

pub Changes-IsSound : {s s' : ConversationStore} → Changes s s' → IsSound s → IsSound s'
Changes-IsSound done sound = sound
Changes-IsSound (then_change before c) sound = Change-IsSound c (Changes-IsSound before sound)
