-- ===== src/Jobs/Delivery.antt =====
-- An envelope that is written to the fields of a message and read from them.
use docta.Prelude.{
  ◌≡◌, refl, Option, some, ok, err, if◌then◌else◌, any, String, inl, inr, Bool-cases,
}
use docta.Models.{Uuid}
use docta.Jobs.Envelope.{
  JobEnvelope, value_error, fields, oversized, get_field, same_names, uuid_field, parse,
}

-- If a UUID is read as it was written, an envelope is read from its fields as it was, unless one of
-- its fields is longer than 100 characters: then it is refused as oversized.
pub parse-fields :
    (str_uuid : Uuid → String) (parse_uuid : String → Option Uuid)
    → ((u : Uuid) → parse_uuid (str_uuid u) ≡ some u)
    → (e : JobEnvelope)
    → parse parse_uuid (fields str_uuid e) ≡ (
        if any oversized (fields str_uuid e)
        then err (value_error "oversized job envelope")
        else ok e)
unfolding parse uuid_field fields same_names get_field
parse-fields str_uuid parse_uuid round e = elim (Bool-cases (any oversized (fields str_uuid e))) [
  | inl long ↦ rw long refl
  | inr short ↦
      rw (short, round e.event_id, round e.job_id, round e.course_id, round e.document_version_id)
        refl
]
