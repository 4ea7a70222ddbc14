-- ===== src/Ingestion.antt =====
-- apps/api/src/docta_api/ingestion.py: the worker that claims a job, builds a corpus outside any
-- transaction, and records the outcome under the job's fencing token.
mod Claim
mod Success
mod Failure
mod Embed
mod Process
mod Lifecycle
mod Transactions
mod Claims
mod Fencing
mod Versions
unfoldable pub use Claim.*
unfoldable pub use Success.*
unfoldable pub use Failure.*
unfoldable pub use Embed.*
unfoldable pub use Process.*
pub use Lifecycle.*
pub use Transactions.*
pub use Claims.*
pub use Fencing.*
pub use Versions.*
