-- ===== src/Tests.antt =====
-- The theorems at concrete inputs, and tests of the definitions.
mod Chunks
mod Contract
mod Rag
mod Conversations
mod Ingestion
mod Documents
mod Runtime
mod Retrieval
mod Courses
mod Jobs
