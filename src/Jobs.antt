-- ===== src/Jobs.antt =====
-- apps/api/src/docta_api/jobs.py: the envelope of a job, and the outbox that dispatches it.
mod Envelope
mod Outbox
mod Delivery
unfoldable pub use Envelope.*
unfoldable pub use Outbox.*
pub use Delivery.{parse-fields}
