-- ===== src/Conversations/History.antt =====
-- How much of the conversation `request` shows to the tutor model.
use docta.Prelude.{
  ℕ, ◌+◌, ◌-◌, ◌≤◌, ◌≡◌, refl, List, [], ◌∷◌, ◌++◌, ok, arith, length, take, length-take, ltb, inl,
  inr, Bool-cases,
}
use docta.Rag.{HistoryTurn, TutorRequest, Evidence}
use docta.Conversations.Rows.{Message, ConversationStore}
use docta.Conversations.Turns.{completed_before}
use docta.Conversations.Accept.{AcceptedMessage}
use docta.Conversations.Reads.{answer_of, turns_within, reversed, request}

abbrev turn_size : HistoryTurn → ℕ
turn_size t = length t.question + length t.answer

abbrev pub total_size : List HistoryTurn → ℕ
total_size [] = 0
total_size (t ∷ ts) = turn_size t + total_size ts

total_size-snoc :
    (ts : List HistoryTurn) (t : HistoryTurn)
    → (total_size (ts ++ t ∷ []) ≡ total_size ts + turn_size t)
      × (length (ts ++ t ∷ []) ≡ length ts + 1)
total_size-snoc [] t = (omega arith, omega arith)
total_size-snoc (u ∷ ts) t = let (a, b) = total_size-snoc ts t in (omega arith, omega arith)

total_size-reversed :
    (ts : List HistoryTurn)
    → (total_size (reversed ts) ≡ total_size ts) × (length (reversed ts) ≡ length ts)
unfolding reversed
total_size-reversed [] = (refl, refl)
total_size-reversed (t ∷ ts) =
    let (a, b) = total_size-reversed ts in
    let (c, d) = total_size-snoc (reversed ts) t in (omega arith, omega arith)

turns_within-fits :
    (n : ℕ) (ms : List Message)
    → (total_size (turns_within n ms) ≤ n) × (length (turns_within n ms) ≤ length ms)
unfolding turns_within
turns_within-fits n [] = (omega arith, omega arith)
turns_within-fits n (m ∷ ms) =
    let size = length m.question + length (answer_of m) in
    let (a, b) = turns_within-fits (n - size) ms in
    elim (Bool-cases (ltb n size)) [
      | inl e ↦ rw e (omega arith, omega arith)
      | inr e ↦ let le : size ≤ n = ground arith in rw e (omega arith, omega arith)
    ]

-- The history that `request` shows to the model has at most six turns, and their questions and
-- answers together at most 12000 characters.
pub request-bounded :
    (accepted : AcceptedMessage) (evidence : List Evidence) (s : ConversationStore)
    {r : TutorRequest}
    → request accepted evidence s ≡ ok r
    → (total_size r.history ≤ 12000) × (length r.history ≤ 6)
unfolding request
request-bounded accepted evidence s {r} h =
    let earlier =
      completed_before accepted.message.conversation_id accepted.message.sequence s.messages in
    let kept = turns_within 12000 (take 6 earlier) in
    let shown : r.history ≡ reversed kept = ground arith in
    let (a, b) = total_size-reversed kept in
    let (c, d) = turns_within-fits 12000 (take 6 earlier) in
    let six = length-take 6 earlier in rw shown (omega arith, omega arith)
