-- ===== src/Conversations/Permanence.antt =====
-- What the transactions never change: a settled message, and the columns that identify a message or
-- a conversation.
use docta.Prelude.{
  ℕ, zero, suc, ◌≡◌, refl, Bool, true, false, some, List, [], ◌∷◌, ◌++◌, arith, if◌then◌else◌, find,
  get_elem?, update_where, inl, inr, Bool-cases, nat_eq,
}
use mathlib.Core.Path.{subst}
use docta.Models.{Uuid}
use docta.Text.{Text}
use docta.Conversations.Rows.{Message, ConversationStore, is_pending}
use docta.Conversations.Accept.{has_key, append_message, ServiceSettings}
use docta.Conversations.Changes.{
  IsSame, Settles, Change, settled, appended, created, untouched, Changes, done, then_change,
}
use docta.Conversations.Numbering.{IsSame-refl, update_row-IsSame}
use docta.Conversations.Runs.{Reach, Reach-Changes}

get_elem?-append :
    (ms ns : List Message) (i : ℕ) {m : Message}
    → get_elem? ms i ≡ some m
    → get_elem? (ms ++ ns) i ≡ some m
get_elem?-append [] ns i h = cc
get_elem?-append (n ∷ ms) ns zero h = h
get_elem?-append (n ∷ ms) ns (suc i) h = get_elem?-append ms ns i h

module _ (p : Message → Bool) (f : Message → Message)
    (h : (m : Message) → p m ≡ true → Settles m (f m)) where
  get_elem?-settled :
      (ms : List Message) (i : ℕ) {m : Message}
      → get_elem? ms i ≡ some m
      → is_pending m.state ≡ false
      → get_elem? (update_where p f ms) i ≡ some m
  get_elem?-settled [] i e final = cc
  get_elem?-settled (n ∷ ms) zero {m} e final = elim (Bool-cases (p n)) [
    | inl changes ↦ let waits = (h n changes).was_pending in ground arith
    | inr keeps ↦ rw keeps e
  ]
  get_elem?-settled (n ∷ ms) (suc i) e final = get_elem?-settled ms i e final

  has_key-settled :
      (conversation_id : Uuid) (key : Text) (ms : List Message) {m : Message}
      → find (has_key conversation_id key) ms ≡ some m
      → (m' : Message) × (find (has_key conversation_id key) (update_where p f ms) ≡ some m')
        × IsSame m m'
  has_key-settled conversation_id key [] e = cc
  has_key-settled conversation_id key (n ∷ ms) {m} e =
      let same = update_row-IsSame p f h n in
      let kept : has_key conversation_id key (if p n then f n else n)
          ≡ has_key conversation_id key n =
        rw (same.conversation, same.key) refl in
      elim (Bool-cases (has_key conversation_id key n)) [
        | inl yes_here ↦ (
          if p n then f n else n,
          rw (kept, yes_here) refl,
          let row : n ≡ m = ground arith in subst (λ k. IsSame k (if p n then f n else n)) row same,
        )
        | inr later ↦
            let (m', found, e') = has_key-settled conversation_id key ms (rw later at e) in
            (m', rw (kept, later) found, e')
      ]

has_key-append :
    (conversation_id : Uuid) (key : Text) (ms ns : List Message) {m : Message}
    → find (has_key conversation_id key) ms ≡ some m
    → find (has_key conversation_id key) (ms ++ ns) ≡ some m
has_key-append conversation_id key [] ns e = cc
has_key-append conversation_id key (n ∷ ms) ns {m} e =
    elim (Bool-cases (has_key conversation_id key n)) [
      | inl yes_here ↦ rw yes_here (rw yes_here at e)
      | inr later ↦ rw later (has_key-append conversation_id key ms ns (rw later at e))
    ]

Change-final :
    {s s' : ConversationStore}
    → Change s s'
    → (i : ℕ) (m : Message) → get_elem? s.messages i ≡ some m
    → is_pending m.state ≡ false
    → get_elem? s'.messages i ≡ some m
unfolding append_message
Change-final {s} (settled p f h em ec eb) i m e final =
    rw em (get_elem?-settled p f h s.messages i e final)
Change-final {s} (appended c n found fresh free same number pay es) i m e final =
    rw es (get_elem?-append s.messages (n ∷ []) i e)
Change-final (untouched em ec eb) i m e final = rw em e
Change-final (created more ec em eb) i m e final = rw em e

Changes-final :
    {s s' : ConversationStore}
    → Changes s s'
    → (i : ℕ) (m : Message) → get_elem? s.messages i ≡ some m
    → is_pending m.state ≡ false
    → get_elem? s'.messages i ≡ some m
Changes-final done i m e final = e
Changes-final (then_change before c) i m e final =
    Change-final c i m (Changes-final before i m e final) final

-- A message that has been answered or has failed never changes again: in every run it keeps its
-- place and all its columns.
pub Reach-final :
    (lower : Text → Text) (is_word : ℕ → Bool) (settings : ServiceSettings)
    {s s' : ConversationStore}
    → Reach lower is_word settings s s'
    → (i : ℕ) (m : Message) → get_elem? s.messages i ≡ some m
    → is_pending m.state ≡ false
    → get_elem? s'.messages i ≡ some m
Reach-final lower is_word settings run = Changes-final (Reach-Changes lower is_word settings run)

pub Change-key :
    {s s' : ConversationStore}
    → Change s s'
    → (conversation_id : Uuid) (key : Text) (m : Message)
    → find (has_key conversation_id key) s.messages ≡ some m
    → (m' : Message) × (find (has_key conversation_id key) s'.messages ≡ some m') × IsSame m m'
unfolding append_message
Change-key {s} (settled p f h em ec eb) id key m e =
    rw em (has_key-settled p f h id key s.messages e)
Change-key {s} (appended c n found fresh free same number pay es) id key m e =
    (m, rw es (has_key-append id key s.messages (n ∷ []) e), IsSame-refl m)
Change-key (untouched em ec eb) id key m e = (m, rw em e, IsSame-refl m)
Change-key (created more ec em eb) id key m e = (m, rw em e, IsSame-refl m)
