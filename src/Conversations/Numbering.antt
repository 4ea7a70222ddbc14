-- ===== src/Conversations/Numbering.antt =====
-- The invariant of the messages: their payloads, one pending message at most in a conversation, and
-- distinct sequence numbers and keys.
use docta.Prelude.{
  ◌+◌, ◌≤◌, ◌<◌, ◌≡◌, ◌≢◌, refl, Bool, true, false, some, List, [], ◌∷◌, ◌++◌, arith, if◌then◌else◌,
  any, find_by-update_where, find_by-append, update_where, count_where, All, All-append, nat_eq,
  list_eq, inl, inr, Bool-cases, ◌==◌,
}
use docta.Models.{Uuid}
use docta.Conversations.Rows.{Message, Conversation, ConversationStore, terminal_payload}
use docta.Conversations.Access.{conversation_by}
use docta.Conversations.Accept.{is_open_in}
use docta.Conversations.Changes.{IsSame, Settles}

-- Two messages of one conversation have different numbers and keys.
unfoldable pub Apart : Message → Message → Type 0
Apart m n =
    m.conversation_id ≡ n.conversation_id
    → (m.sequence ≢ n.sequence) × (m.idempotency_key ≢ n.idempotency_key)

unfoldable pub AllApart : List Message → Type 0
AllApart [] = Unit
AllApart (m ∷ ms) = All (Apart m) ms × AllApart ms

-- The conversation of a message exists, and has yet to give out a number as high as the message's.
unfoldable pub IsNumbered : List Conversation → Message → Type 0
IsNumbered cs m =
    (c : Conversation) × (conversation_by m.conversation_id cs ≡ some c)
    × (m.sequence < c.next_sequence)

pub record IsSound (s : ConversationStore) : Type 0 where
  pub payload : All (λ m. terminal_payload m ≡ true) s.messages
  pub one_pending : (id : Uuid) → count_where (is_open_in id) s.messages ≤ 1
  pub numbered : All (IsNumbered s.conversations) s.messages
  pub apart : AllApart s.messages

pub count_where-settled :
    (p : Message → Bool) (f : Message → Message) (id : Uuid) (ms : List Message)
    → ((m : Message) → p m ≡ true → Settles m (f m))
    → count_where (is_open_in id) (update_where p f ms) ≤ count_where (is_open_in id) ms
count_where-settled p f id [] h = omega arith
count_where-settled p f id (m ∷ ms) h = elim (Bool-cases (p m)) [
  | inl e ↦
      let out = (h m e).is_settled in
      let later = count_where-settled p f id ms h in rw e (ground arith)
  | inr e ↦ let later = count_where-settled p f id ms h in rw e (ground arith)
]

pub count_where-none :
    (q : Message → Bool) (ms : List Message) → any q ms ≡ false → count_where q ms ≡ 0
count_where-none q [] h = refl
count_where-none q (m ∷ ms) h = ground (arith, count_where-none q ms)

pub count_where-snoc :
    (q : Message → Bool) (ms : List Message) (m : Message)
    → count_where q (ms ++ m ∷ []) ≡ count_where q ms + (if q m then 1 else 0)
count_where-snoc q [] m = ground arith
count_where-snoc q (n ∷ ms) m = ground (arith, count_where-snoc q ms m)

pub IsSame-refl : (m : Message) → IsSame m m
IsSame-refl m = record {
  id = refl;
  conversation = refl;
  sequence = refl;
  key = refl;
  question = refl;
}

-- A row after an update is the same message.
pub update_row-IsSame :
    (p : Message → Bool) (f : Message → Message)
    → ((m : Message) → p m ≡ true → Settles m (f m))
    → (m : Message) → IsSame m (if p m then f m else m)
update_row-IsSame p f h m = elim (Bool-cases (p m)) [
  | inl e ↦ rw e ((h m e).same)
  | inr e ↦ rw e (IsSame-refl m)
]

Apart-IsSame : {m m' n n' : Message} → IsSame m m' → IsSame n n' → Apart m n → Apart m' n'
unfolding Apart
Apart-IsSame a b h =
    let ac = a.conversation in
    let bc = b.conversation in
    let an = a.sequence in
    let bn = b.sequence in
    let ak = a.key in
    let bk = b.key in λ same. let (hn, hk) = h (cc) in ((λ e. hn (cc)), (λ e. hk (cc)))

module _ (p : Message → Bool) (f : Message → Message)
    (h : (m : Message) → p m ≡ true → Settles m (f m)) where
  All-Apart-settled :
      {m m' : Message} (ms : List Message)
      → IsSame m m'
      → All (Apart m) ms
      → All (Apart m') (update_where p f ms)
  All-Apart-settled [] e all_apart = tt
  All-Apart-settled (n ∷ ms) e (one, rest) =
      (Apart-IsSame e (update_row-IsSame p f h n) one, All-Apart-settled ms e rest)

  pub AllApart-settled : (ms : List Message) → AllApart ms → AllApart (update_where p f ms)
  unfolding AllApart
  AllApart-settled [] a = tt
  AllApart-settled (m ∷ ms) (one, rest) =
      (All-Apart-settled ms (update_row-IsSame p f h m) one, AllApart-settled ms rest)

pub AllApart-snoc :
    (ms : List Message) (m : Message)
    → AllApart ms
    → All (λ n. Apart n m) ms
    → AllApart (ms ++ m ∷ [])
unfolding AllApart
AllApart-snoc [] m a b = (tt, tt)
AllApart-snoc (n ∷ ms) m (one, rest) (new, news) =
    (All-append (Apart n) ms (m ∷ []) one (new, tt), AllApart-snoc ms m rest news)

-- The table of conversations may grow, and a number may be given out.
pub IsNumbered-append :
    (cs more : List Conversation) (m : Message) → IsNumbered cs m → IsNumbered (cs ++ more) m
unfolding IsNumbered
IsNumbered-append cs more m (c, found, below) = (
  c,
  rw (find_by-append (λ (c : Conversation). c.id) m.conversation_id cs more, found) refl,
  below,
)

abbrev pub numbers_on : Uuid → List Conversation → List Conversation
numbers_on id =
    update_where (λ c. c.id == id) (λ c. record c { next_sequence = c.next_sequence + 1 })

pub IsNumbered-numbers_on :
    (id : Uuid) (cs : List Conversation) (m : Message)
    → IsNumbered cs m
    → IsNumbered (numbers_on id cs) m
unfolding IsNumbered
IsNumbered-numbers_on id cs m (c, found, below) = (
  if c.id == id then record c { next_sequence = c.next_sequence + 1 } else c,
  rw
      (
        find_by-update_where (λ (c : Conversation). c.id) m.conversation_id (λ c. c.id == id)
            (λ c. record c { next_sequence = c.next_sequence + 1 }) cs (λ c. refl),
        found,
      )
      refl,
  ground arith,
)

pub IsNumbered-new :
    (c : Conversation) (cs : List Conversation) (m : Message)
    → conversation_by c.id cs ≡ some c
    → m.conversation_id ≡ c.id
    → m.sequence ≡ c.next_sequence
    → IsNumbered (numbers_on c.id cs) m
unfolding IsNumbered
IsNumbered-new c cs m found same number = (
  record c { next_sequence = c.next_sequence + 1 },
  rw
      (
        same,
        find_by-update_where (λ (c : Conversation). c.id) c.id (λ d. d.id == c.id)
            (λ c. record c { next_sequence = c.next_sequence + 1 }) cs (λ c. refl),
        found,
      )
      (ground arith),
  omega arith,
)
