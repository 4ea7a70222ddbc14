-- ===== src/Runtime.antt =====
-- apps/api/src/docta_api/conversation_runtime.py: the executions that answer the accepted messages.
mod Tasks
mod Pipeline
mod Keeps
mod Answers
mod Settlement
mod Outcomes
mod Routes
mod Streams
mod Actions
unfoldable pub use Tasks.*
unfoldable pub use Pipeline.*
unfoldable pub use Routes.*
unfoldable pub use Settlement.{HasOneRow}
pub use Settlement.{IsSettled, run-IsSettled}
pub use Outcomes.{Outcome, public_codes, run-Outcome}
unfoldable pub use Streams.{IsSteady}
pub use Streams.{phases, last_progress, phases-stream}
pub use Actions.{IsPerformed, perform_action-IsPerformed}
