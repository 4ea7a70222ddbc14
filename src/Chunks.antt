-- ===== src/Chunks.antt =====
-- apps/api/src/docta_api/document_parser.py: the pages of a parsed document are cut into
-- overlapping chunks. The hash of a chunk's text is an argument.
mod Defs
mod Windows
mod Origin
mod Ordinals
mod Coverage
mod Blank
unfoldable pub use Defs.*
pub use Windows.*
pub use Origin.*
pub use Ordinals.*
pub use Coverage.*
pub use Blank.*
