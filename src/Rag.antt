-- ===== src/Rag.antt =====
-- apps/api/src/docta_api/rag.py: evidence, drafts, and the validation of what the model answers.
mod Drafts
mod Validator
mod Quotes
mod Soundness
mod Answers
unfoldable pub use Drafts.*
unfoldable pub use Validator.*
pub use Answers.*
