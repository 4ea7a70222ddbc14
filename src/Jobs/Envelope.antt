-- ===== src/Jobs/Envelope.antt =====
-- jobs.py: `JobEnvelope`. How Python writes and reads a UUID, and writes a time, is an argument.
use docta.Prelude.{
  Bool, not, ◌&&◌, Option, none, some, List, [], ◌∷◌, map, String, Result, ok, ◌>>=◌, ◌>>◌,
  raise_if, or_raise, if◌then◌else◌, length, ltb, any, all, contains, ◌==◌, ◌!=◌, nat_eq, string_eq,
}
use docta.Models.{Uuid, Time, IngestionJob, OutboxEvent}
use docta.Text.{codes}

pub record JobEnvelope : Type 0 where
  pub event_id : Uuid
  pub job_id : Uuid
  pub course_id : Uuid
  pub document_version_id : Uuid
  pub pipeline_version : String
  pub correlation_id : String
  pub created_at : String

-- a `dict[str, str]` in order of insertion
abbrev pub Fields : Type 0
Fields = List (String × String)

unfoldable pub get_field : String → Fields → Option String
get_field k [] = none
get_field k ((j, v) ∷ fs) = if j == k then some v else get_field k fs

abbrev pub field_names : List String
field_names =
    "schema_version" ∷ "event_id" ∷ "job_id" ∷ "course_id" ∷ "document_version_id"
    ∷ "pipeline_version" ∷ "correlation_id" ∷ "created_at" ∷ []

-- `set(fields) != {…}`
unfoldable pub same_names : Fields → Bool
same_names fields =
    let names : List String = map (λ (f : String × String). f.0) fields in
    all (contains field_names) names && all (contains names) field_names

pub data EnvelopeError : Type 0 where
  value_error : String → EnvelopeError
  key_error : EnvelopeError
  -- `UUID(…)` on a text that is none
  bad_uuid : EnvelopeError

module _ (str_uuid : Uuid → String) where
  -- `JobEnvelope.fields`
  unfoldable pub fields : JobEnvelope → Fields
  fields e =
      ("schema_version", "1")
      ∷ ("event_id", str_uuid e.event_id)
      ∷ ("job_id", str_uuid e.job_id)
      ∷ ("course_id", str_uuid e.course_id)
      ∷ ("document_version_id", str_uuid e.document_version_id)
      ∷ ("pipeline_version", e.pipeline_version)
      ∷ ("correlation_id", e.correlation_id)
      ∷ ("created_at", e.created_at)
      ∷ []

abbrev pub oversized : String × String → Bool
oversized f = ltb 100 (length (codes f.1))

module _ (parse_uuid : String → Option Uuid) where
  unfoldable pub uuid_field : String → Fields → Result EnvelopeError Uuid
  uuid_field k fs = do
    value ← or_raise (get_field k fs) key_error
    or_raise (parse_uuid value) bad_uuid

  -- `JobEnvelope.parse`
  unfoldable pub parse : Fields → Result EnvelopeError JobEnvelope
  parse fs = do
    raise_if (not (same_names fs)) (value_error "invalid job envelope")
    version ← or_raise (get_field "schema_version" fs) key_error
    raise_if (version != "1") (value_error "invalid job envelope")
    raise_if (any oversized fs) (value_error "oversized job envelope")
    event_id ← uuid_field "event_id" fs
    job_id ← uuid_field "job_id" fs
    course_id ← uuid_field "course_id" fs
    document_version_id ← uuid_field "document_version_id" fs
    pipeline_version ← or_raise (get_field "pipeline_version" fs) key_error
    correlation_id ← or_raise (get_field "correlation_id" fs) key_error
    created_at ← or_raise (get_field "created_at" fs) key_error
    ok (record {
      event_id = event_id;
      job_id = job_id;
      course_id = course_id;
      document_version_id = document_version_id;
      pipeline_version = pipeline_version;
      correlation_id = correlation_id;
      created_at = created_at;
    })

module _ (isoformat : Time → String) where
  -- `envelope_for`
  unfoldable pub envelope_for : OutboxEvent → IngestionJob → JobEnvelope
  envelope_for event job = record {
    event_id = event.id;
    job_id = job.id;
    course_id = job.course_id;
    document_version_id = job.document_version_id;
    pipeline_version = job.pipeline_version;
    correlation_id = job.correlation_id;
    created_at = isoformat event.created_at;
  }

-- `==` of two envelopes, a frozen dataclass
unfoldable pub envelope_beq : JobEnvelope → JobEnvelope → Bool
envelope_beq a b =
    a.event_id == b.event_id
    && a.job_id == b.job_id
    && a.course_id == b.course_id
    && a.document_version_id == b.document_version_id
    && a.pipeline_version == b.pipeline_version
    && a.correlation_id == b.correlation_id
    && a.created_at == b.created_at
