-- ===== src/Tests/Jobs.antt =====
-- jobs.py: an envelope, with UUIDs written as tallies.

use docta.Prelude.{zero, suc, ◌≡◌, refl, Option, none, some, ok, String}
use docta.Models.{Uuid}
use docta.Jobs.{JobEnvelope, fields, parse, parse-fields}

abbrev tally : Uuid → String
tally zero = ""
tally (suc n) = String.◌∷◌ "a" (tally n)

abbrev read_tally : String → Option Uuid
read_tally String.[] = some 0
read_tally (String.◌∷◌ c s) = elim (read_tally s) [ some n ↦ some (suc n) | none ↦ none ]

read_tally-tally : (u : Uuid) → read_tally (tally u) ≡ some u
read_tally-tally zero = refl
read_tally-tally (suc n) = rw (read_tally-tally n) refl

abbrev envelope : JobEnvelope
envelope = record {
  event_id = 4;
  job_id = 1;
  course_id = 2;
  document_version_id = 3;
  pipeline_version = "v";
  correlation_id = "c";
  created_at = "t";
}

parse-fields_example : parse read_tally (fields tally envelope) ≡ ok envelope
unfolding fields
parse-fields_example = parse-fields tally read_tally read_tally-tally envelope
