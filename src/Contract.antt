-- ===== src/Contract.antt =====
-- apps/api/src/docta_api/tutor_contract.py: the structured intervention that the model emits, its
-- validation, and what the application derives from it.
mod Blocks
mod Validation
mod Derived
mod Coherence
mod Levels
mod Rendering
unfoldable pub use Blocks.*
unfoldable pub use Validation.*
unfoldable pub use Derived.*
pub use Coherence.*
pub use Levels.*
pub use Rendering.*
