-- ===== src/Documents.antt =====
-- apps/api/src/docta_api/documents.py: uploads, their confirmation, and the publication of a corpus.
mod Requests
mod Service
mod Operations
mod Endpoints
mod Jobs
mod Runs
mod Changes
mod Consistency
mod Teachers
mod Uploads
mod Publication
mod Filenames
mod Denial
unfoldable pub use Requests.*
unfoldable pub use Service.*
unfoldable pub use Operations.*
unfoldable pub use Endpoints.*
pub use Consistency.{IsConsistent, confirmed_has_job}
unfoldable pub use Jobs.{HasUniqueIds}
pub use Runs.{Step, uploads, confirms, activates, Reach, here, next}
pub use Uploads.{IsRepeated, upload-IsRepeated}
unfoldable pub use Publication.{IsOnlyRow}
pub use Publication.{MayPublish, Swaps, activate_corpus-Swaps}
pub use Filenames.{IsSafe, sanitize_filename-ok}
unfoldable pub use Denial.{IsOutsider}
pub use Denial.{outsider_denied}
