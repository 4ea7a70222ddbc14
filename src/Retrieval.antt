-- ===== src/Retrieval.antt =====
-- apps/api/src/docta_api/postgres_retriever.py and retrieval_auth.py: the retrieval of evidence.
mod Lexemes
mod Escaping
mod Search
mod Authorization
mod Matches
mod Coverage
unfoldable pub use Lexemes.*
unfoldable pub use Search.*
pub use Escaping.{query_lexemes-or_tsquery_text}
pub use Coverage.{IsRetrieved, retrieve-IsRetrieved}
