-- ===== src/Jobs/Outbox.antt =====
-- jobs.py: dispatch, retry and dead letters, and the relay that publishes and reconciles events.
use docta.Prelude.{
  ℕ, ◌+◌, Bool, true, false, ◌&&◌, ◌||◌, Option, none, some, List, [], ◌∷◌, ◌++◌, String,
  if◌then◌else◌, leb, ltb, any, update_where, count_where, find_by, is_none, ◌==◌, nat_eq,
  string_eq, option_eq,
}
use docta.Models.{
  Uuid, Time, seconds, IngestionJob, OutboxEvent, OutboxKind, ingestion, dead, is_pending,
  is_running, is_ingestion,
}
use docta.Store.{Store}
use docta.Jobs.Envelope.{JobEnvelope, Fields, fields, envelope_for}

-- A new event, by the columns' defaults.
abbrev pub new_event : (id : Uuid) (now : Time) → IngestionJob → OutboxKind → OutboxEvent
new_event id now job kind = record {
  id = id;
  course_id = job.course_id;
  job_id = job.id;
  kind = kind;
  available_at = now;
  created_at = now;
  published_at = none;
  publish_token = none;
  publish_lease_until = none;
}

abbrev pub same_kind : OutboxKind → OutboxKind → Bool
same_kind ingestion ingestion = true
same_kind dead dead = true
same_kind _ _ = false

-- `insert(OutboxEvent)….on_conflict_do_nothing(constraint="uq_outbox_job_kind")`
unfoldable pub insert_event : OutboxEvent → List OutboxEvent → List OutboxEvent
insert_event e events =
    if any (λ o. o.job_id == e.job_id && same_kind o.kind e.kind) events
    then events
    else events ++ e ∷ []

-- `OutboxJobDispatcher.dispatch`
unfoldable pub dispatch :
    (id : Uuid) (now : Time) → IngestionJob → List OutboxEvent → List OutboxEvent
dispatch id now job events = insert_event (new_event id now job ingestion) events

unfoldable pub record_dead_letter :
    (id : Uuid) (now : Time) → IngestionJob → List OutboxEvent → List OutboxEvent
record_dead_letter id now job events = insert_event (new_event id now job dead) events

unfoldable pub schedule_retry : IngestionJob → Time → List OutboxEvent → List OutboxEvent
schedule_retry job available_at events =
    update_where (λ e. e.job_id == job.id && is_ingestion e.kind)
      (λ e. record e {
        available_at = available_at;
        published_at = none;
        publish_token = none;
        publish_lease_until = none;
      })
      events

-- `OutboxEvent.publish_lease_until.is_(None) or publish_lease_until <= now`
abbrev pub lapsed : Option Time → Time → Bool
lapsed none now = true
lapsed (some until) now = leb until now

-- the WHERE clause of `publish_one`
unfoldable pub is_due : Time → OutboxEvent → Bool
is_due now e = is_none e.published_at && leb e.available_at now && lapsed e.publish_lease_until now

-- ORDER BY available_at, id
abbrev pub before : OutboxEvent → OutboxEvent → Bool
before a b =
    ltb a.available_at b.available_at || (a.available_at == b.available_at && ltb a.id b.id)

-- The first due event that has a job (the JOIN), in that order.
unfoldable pub next_due :
    Time → List IngestionJob → List OutboxEvent → Option (OutboxEvent × IngestionJob)
next_due now jobs [] = none
next_due now jobs (e ∷ es) =
    let rest = next_due now jobs es in
    let job = find_by (λ (j : IngestionJob). j.id) e.job_id jobs in
    elim job [
      | none ↦ rest
      | some j ↦
          if is_due now e
          then (elim rest [
            | none ↦ some (e, j)
            | some (f, k) ↦ if before f e then some (f, k) else some (e, j)
          ])
          else rest
    ]

-- What `publish_one` hands to the publisher.
pub record Delivery : Type 0 where
  pub kind : OutboxKind
  pub envelope : JobEnvelope
  pub fields : Fields

-- `job.failure_code or "DOCUMENT_PROCESSING_FAILED"`
abbrev pub or_code : Option String → String
or_code none = "DOCUMENT_PROCESSING_FAILED"
or_code (some code) = if code == "" then "DOCUMENT_PROCESSING_FAILED" else code

module _ (str_uuid : Uuid → String) (str_int : ℕ → String) (isoformat : Time → String) where
  unfoldable pub delivery_fields : OutboxKind → JobEnvelope → IngestionJob → Fields
  delivery_fields ingestion envelope job = fields str_uuid envelope
  delivery_fields dead envelope job =
      fields str_uuid envelope
      ++ ("failure_code", or_code job.failure_code) ∷ ("attempt", str_int job.attempt) ∷ []

  -- the first transaction of `publish_one`: lease the event to `token` for 30 seconds
  unfoldable pub lease_event : (token : Uuid) (now : Time) → Store → Option Delivery × Store
  lease_event token now s = elim (next_due now s.jobs s.events) [
    | none ↦ (none, s)
    | some (event, job) ↦
        let envelope = envelope_for isoformat event job in
        (
          some (record {
            kind = event.kind;
            envelope = envelope;
            fields = delivery_fields event.kind envelope job;
          }),
          record s {
            events =
                update_where (λ e. e.id == event.id)
                  (λ e. record e {
                    publish_token = some token;
                    publish_lease_until = some (now + seconds 30);
                  })
                  s.events;
          },
        )
  ]

-- the second transaction of `publish_one`, after the publisher has accepted the message
unfoldable pub mark_published : (token event_id : Uuid) (now : Time) → Store → Store
mark_published token event_id now s = record s {
  events =
      update_where (λ e. e.id == event_id && e.publish_token == some token)
        (λ e. record e {
          published_at = some now;
          publish_token = none;
          publish_lease_until = none;
        })
        s.events;
}

-- `lease_expires_at <= now`, false on NULL
abbrev pub expired : Option Time → Time → Bool
expired none now = false
expired (some until) now = leb until now

abbrev pub is_due_job : Time → IngestionJob → Bool
is_due_job now j =
    (is_pending j.state && leb j.next_attempt_at now)
    || (is_running j.state && expired j.lease_expires_at now)

-- the WHERE clause of `reconcile`; `now - stale` is compared as `published_at + stale <= now`
abbrev pub published_before : Option Time → ℕ → Time → Bool
published_before none stale now = false
published_before (some at) stale now = leb (at + seconds stale) now

abbrev pub is_stale : (stale_seconds : ℕ) → Time → List IngestionJob → OutboxEvent → Bool
is_stale stale_seconds now jobs e =
    is_ingestion e.kind
    && any (λ j. j.id == e.job_id && is_due_job now j) jobs
    && published_before e.published_at stale_seconds now

-- `OutboxRelay.reconcile`: the number of events that are due again
unfoldable pub reconcile : (stale_seconds : ℕ) (now : Time) → Store → ℕ × Store
reconcile stale_seconds now s = (
  count_where (is_stale stale_seconds now s.jobs) s.events,
  record s {
    events =
        update_where (is_stale stale_seconds now s.jobs)
          (λ e. record e {
            published_at = none;
            available_at = now;
            publish_token = none;
            publish_lease_until = none;
          })
          s.events;
  },
)
