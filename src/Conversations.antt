-- ===== src/Conversations.antt =====
-- apps/api/src/docta_api/conversations.py and conversation_models.py: the conversations of students,
-- their messages, and what the service's transactions do to them.
mod Rows
mod Requests
mod Views
mod Access
mod Turns
mod Accept
mod Reads
mod Outcomes
mod Changes
mod Numbering
mod Soundness
mod Transactions
mod Acceptance
mod Runs
mod Permanence
mod Ownership
mod Retries
mod Idempotence
mod History
unfoldable pub use Rows.*
unfoldable pub use Requests.*
unfoldable pub use Views.*
unfoldable pub use Access.*
unfoldable pub use Turns.*
unfoldable pub use Accept.*
unfoldable pub use Reads.*
unfoldable pub use Outcomes.*
pub use Changes.*
unfoldable pub use Numbering.*
pub use Soundness.*
pub use Transactions.*
pub use Acceptance.*
pub use Runs.*
pub use Permanence.*
pub use Ownership.*
pub use Retries.*
pub use Idempotence.*
pub use History.*
