-- ===== src/Conversations/Runs.antt =====
-- All runs of the service's transactions, in any order and by any identities.
use docta.Prelude.{ℕ, ◌≡◌, Bool, Option, none, List, sym, String, ok}
use mathlib.Core.Path.{subst}
use docta.Identity.{AuthenticatedIdentity}
use docta.Models.{Uuid, Time}
use docta.Text.{Text}
use docta.Rag.{TurnKind, Intent, TutorDraft, Evidence}
use docta.Conversations.Rows.{ConversationStore}
use docta.Conversations.Views.{MessageView}
use docta.Conversations.Access.{ConversationView, create}
use docta.Conversations.Accept.{AcceptedMessage, ServiceSettings, accept}
use docta.Conversations.Reads.{HistoryView, history, read}
use docta.Conversations.Outcomes.{complete, fail, expire, save_evidence}
use docta.Conversations.Changes.{Changes, done, then_change, join-Changes}
use docta.Conversations.Numbering.{IsSound}
use docta.Conversations.Soundness.{Changes-IsSound}
use docta.Conversations.Acceptance.{accept-Changes}
use docta.Conversations.Transactions.{
  create-Change, complete-Change, fail-Change, save_evidence-Change, expire_in-Change,
  history-Change, read-Change,
}

module _ (lower : Text → Text) (is_word : ℕ → Bool) (settings : ServiceSettings) where
  -- One transaction that commits.
  pub data Step (s s' : ConversationStore) : Type 0 where
    creates :
        (id : Uuid) (now : Time) (who : AuthenticatedIdentity) (course_id : Uuid)
        (header : Option Text) (r : ConversationView)
        → create id now who course_id header s ≡ ok (r, s')
        → Step s s'
    accepts :
        (id : Uuid) (now : Time) (who : AuthenticatedIdentity) (conversation_id : Uuid)
        (text : Text) (header : Option Text) (correlation_id : String) (kind : TurnKind)
        (intent : Option Intent) (parent_id : Option Uuid) (r : AcceptedMessage)
        → accept lower is_word settings id now who conversation_id text header correlation_id kind
            intent parent_id s
          ≡ ok (r, s')
        → Step s s'
    pages :
        (now : Time) (who : AuthenticatedIdentity) (conversation_id : Uuid) (after limit : ℕ)
        (r : HistoryView)
        → history now who conversation_id after limit s ≡ ok (r, s')
        → Step s s'
    reads :
        (now : Time) (who : AuthenticatedIdentity) (conversation_id message_id : Uuid)
        (r : MessageView)
        → read now who conversation_id message_id s ≡ ok (r, s')
        → Step s s'
    saves :
        (now : Time) (a : AcceptedMessage) (evidence : List Evidence)
        → save_evidence now a evidence s ≡ ok (tt, s')
        → Step s s'
    completes :
        (now : Time) (id : Uuid) (draft : TutorDraft)
        → complete now id draft s ≡ ok (tt, s')
        → Step s s'
    fails : (now : Time) (id : Uuid) (code : String) → s' ≡ fail now id code s → Step s s'
    expires : (now : Time) → s' ≡ expire now s → Step s s'

  pub data Reach (s : ConversationStore) : ConversationStore → Type 0 where
    here : Reach s s
    next : {t u : ConversationStore} → Reach s t → Step t u → Reach s u

  pub join-Reach : {s t u : ConversationStore} → Reach s t → Reach t u → Reach s u
  join-Reach before here = before
  join-Reach before (next later step) = next (join-Reach before later) step

  Step-Changes : {s s' : ConversationStore} → Step s s' → Changes s s'
  unfolding expire
  Step-Changes {s} (creates id now who course_id header r h) =
      then_change done (create-Change id now who course_id header s h)
  Step-Changes {s} (accepts id now who conversation_id text header corr kind intent parent_id r h) =
      accept-Changes lower is_word settings id now who conversation_id text header corr kind intent
        parent_id s h
  Step-Changes {s} (pages now who conversation_id after limit r h) =
      then_change done (history-Change now who conversation_id after limit s h)
  Step-Changes {s} (reads now who conversation_id message_id r h) =
      then_change done (read-Change now who conversation_id message_id s h)
  Step-Changes {s} (saves now a evidence h) =
      then_change done (save_evidence-Change now a evidence s h)
  Step-Changes {s} (completes now id draft h) = then_change done (complete-Change now id draft s h)
  Step-Changes {s} (fails now id code e) =
      subst (Changes s) (sym e) (then_change done (fail-Change now id code s))
  Step-Changes {s} (expires now e) =
      subst (Changes s) (sym e) (then_change done (expire_in-Change now none s))

  pub Reach-Changes : {s s' : ConversationStore} → Reach s s' → Changes s s'
  Reach-Changes here = done
  Reach-Changes (next before step) = join-Changes (Reach-Changes before) (Step-Changes step)

  -- In every run from a sound store each message carries the columns that belong to its state, each
  -- conversation has at most one pending message, and the messages of a conversation have distinct
  -- sequence numbers, below the one it gives out next, and distinct idempotency keys.
  pub Reach-IsSound : {s s' : ConversationStore} → IsSound s → Reach s s' → IsSound s'
  Reach-IsSound sound run = Changes-IsSound (Reach-Changes run) sound
