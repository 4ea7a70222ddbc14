-- ===== src/Runtime/Settlement.antt =====
-- Every execution ends with its message settled, whatever the retriever and the tutor model return
-- and wherever the task is stopped.
use docta.Prelude.{
  ℕ, ◌≡◌, refl, ◌∙◌, ap, Bool, true, false, ◌&&◌, Option, none, some, List, [], ◌∷◌, String, Result,
  ok, err, >>=-eq-ok, arith, find, find_by, find_holds, find_by-update_where, update_where,
  count_where, count_where-update_where, count_where-one, find-only, nat_beq, ◌==◌, nat_eq, inl,
  inr, Bool-cases,
}
use docta.Models.{Uuid, Time}
use docta.Contract.{TutorIntervention}
use docta.Rag.{Evidence, TutorDraft}
use docta.Conversations.{
  ConversationStore, Message, AcceptedMessage, is_pending, is_open, open_message, with_intervention,
  answered, failed_message, save_evidence, complete, fail,
}
use docta.Runtime.Tasks.{RunError, failure_code, RuntimeState, Progress, without}
use docta.Runtime.Pipeline.{World, pipeline, fail_message, handled, run}
use docta.Runtime.Keeps.{pipeline-keeps}
use docta.Runtime.Answers.{pipeline-Answered}

abbrev pub has_id : Uuid → Message → Bool
has_id id m = nat_beq m.id id

-- `Message.id` is the primary key: there is one row.
unfoldable pub HasOneRow : Uuid → ConversationStore → Type 0
HasOneRow id s = count_where (has_id id) s.messages ≡ 1

-- The message is settled, and nothing of its execution is left in `progress`.
pub record IsSettled (id : Uuid) (r : RuntimeState) : Type 0 where
  pub message : Message
  pub found : find_by (λ (m : Message). m.id) id r.database.messages ≡ some message
  pub settled : is_pending message.state ≡ false
  pub forgotten : find_by (λ (p : Progress). p.message_id) id r.progress ≡ none

find_by-without :
    (id : Uuid) (ps : List Progress)
    → find_by (λ (p : Progress). p.message_id) id (without id ps) ≡ none
find_by-without id [] = refl
find_by-without id (p ∷ ps) = ground (arith, find_by-without id ps)

with_intervention-row :
    (v : Option TutorIntervention) (m : Message)
    → ((with_intervention v m).id ≡ m.id) × ((with_intervention v m).state ≡ m.state)
with_intervention-row none m = (refl, refl)
with_intervention-row (some v) m = (refl, refl)

save_evidence-HasOneRow :
    (now : Time) (a : AcceptedMessage) (id : Uuid) (evidence : List Evidence)
    (s s' : ConversationStore)
    → save_evidence now a evidence s ≡ ok (tt, s')
    → HasOneRow id s
    → HasOneRow id s'
unfolding save_evidence HasOneRow
save_evidence-HasOneRow now a id evidence s s' h one =
    let same : s'.messages ≡ s.messages = ground arith in rw same one

-- What `complete` does to the messages.
complete-rows :
    (now : Time) (id : Uuid) (d : TutorDraft) (s s' : ConversationStore)
    → complete now id d s ≡ ok (tt, s')
    → (m : Message) × (find (is_open now id) s.messages ≡ some m)
      × (s'.messages
          ≡ update_where
              (is_open now id)
              (λ x. with_intervention d.intervention (answered now d x))
              s.messages)
unfolding complete open_message
complete-rows now id d s s' h =
    let (m, found, h₁) = >>=-eq-ok (open_message now id s.messages) _ h in
    (m, ground arith, ground arith)

complete-HasOneRow :
    (now : Time) (id : Uuid) (d : TutorDraft) (s s' : ConversationStore)
    → complete now id d s ≡ ok (tt, s')
    → HasOneRow id s
    → HasOneRow id s'
unfolding HasOneRow
complete-HasOneRow now id d s s' h one =
    let (_, _, rows) = complete-rows now id d s s' h in
    rw rows (
      count_where-update_where (has_id id) (is_open now id) _ s.messages
        (λ x. ap (λ i. nat_beq i id) (with_intervention-row d.intervention (answered now d x)).0)
      ∙ one)

complete-settles :
    (now : Time) (id : Uuid) (d : TutorDraft) (s s' : ConversationStore)
    → complete now id d s ≡ ok (tt, s')
    → HasOneRow id s
    → (m : Message) × (find_by (λ (m : Message). m.id) id s'.messages ≡ some m)
      × (is_pending m.state ≡ false)
unfolding HasOneRow
complete-settles now id d s s' h one =
    let (m, opened, rows) = complete-rows now id d s s' h in
    let f = λ (x : Message). with_intervention d.intervention (answered now d x) in
    let found =
      find-only (has_id id) (is_open now id) s.messages (λ x e. ground arith) one opened in
    let open_row = find_holds (is_open now id) s.messages opened in
    (
      f m,
      rw rows (
          find_by-update_where (λ (m : Message). m.id) id (is_open now id) f s.messages
            (λ x. (with_intervention-row d.intervention (answered now d x)).0)
          ∙ rw (found, open_row) refl),
      rw ((with_intervention-row d.intervention (answered now d m)).1) refl,
    )

fail-settles :
    (now : Time) (id : Uuid) (code : String) (s : ConversationStore)
    → HasOneRow id s
    → (m : Message) × (find_by (λ (m : Message). m.id) id (fail now id code s).messages ≡ some m)
      × (is_pending m.state ≡ false)
unfolding HasOneRow fail
fail-settles now id code s one =
    let (m, found) = count_where-one (has_id id) s.messages one in
    let p = λ (x : Message). x.id == id && is_pending x.state in
    let mine = find_holds (has_id id) s.messages found in
    let row =
      find_by-update_where (λ (m : Message). m.id) id p (failed_message now code) s.messages
        (λ x. refl) in
    elim (Bool-cases (is_pending m.state)) [
      | inl waits ↦ (failed_message now code m, row ∙ rw (found, mine, waits) refl, refl)
      | inr done ↦ (m, row ∙ rw (found, mine, done) refl, done)
    ]

abbrev Settled : Uuid → ConversationStore → Type 0
Settled id s =
    (m : Message) × (find_by (λ (m : Message). m.id) id s.messages ≡ some m)
    × (is_pending m.state ≡ false)

module _ (same_letter : ℕ → ℕ → Bool) (w : World) (accepted : AcceptedMessage)
    (others : (i : ℕ) (s : ConversationStore)
      → HasOneRow accepted.message.id s
      → HasOneRow accepted.message.id (w.meanwhile i s))
    (available : w.available ≡ true) where
  handled-settles :
      (x : Result RunError Unit) (r : RuntimeState)
      → HasOneRow accepted.message.id r.database
      → (x ≡ ok tt → Settled accepted.message.id r.database)
      → Settled accepted.message.id (handled same_letter w accepted.message.id x r).database
  unfolding handled fail_message
  handled-settles (ok u) r one done = done refl
  handled-settles (err e) r one done = rw available (
      fail-settles (w.clock 5) accepted.message.id (failure_code e) (w.meanwhile 5 r.database)
        (others 5 r.database one))

  -- If the message has one row at first, if others neither add nor remove rows with its id, and if the
  -- database takes the failure where there is one, then after an execution the message is answered or
  -- failed, whatever the retriever and the model return, and wherever the task is cancelled, times out
  -- or loses the database, and its progress is dropped.
  pub run-IsSettled :
      (r : RuntimeState)
      → HasOneRow accepted.message.id r.database
      → IsSettled accepted.message.id (run same_letter w accepted r)
  unfolding run
  run-IsSettled r one =
      let id = accepted.message.id in
      let saves = save_evidence-HasOneRow (w.clock 2) accepted id in
      let end = pipeline same_letter w accepted r in
      let kept =
        pipeline-keeps (HasOneRow id) same_letter w others accepted saves
          (complete-HasOneRow (w.clock 4) id) r one in
      let (m, found, settled) = handled-settles end.0 end.1 kept (λ done.
        let a =
          pipeline-Answered same_letter w (HasOneRow id) others accepted saves r {r' = end.1} one
            (ap (λ x. (x, end.1)) done) in
        complete-settles (w.clock 4) id a.valid a.before end.1.database a.recorded a.holds) in
      record {
        message = m;
        found = found;
        settled = settled;
        forgotten = find_by-without id (handled same_letter w id end.0 end.1).progress;
      }
