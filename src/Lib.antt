-- ===== src/Lib.antt =====
-- Docta, a course-scoped tutor that answers from the evidence of a course's documents: a model of
-- the API's core (apps/api/src/docta_api) and what it guarantees.
--
-- The parts and how they interact. A teacher uploads a document (documents.py), which queues an
-- ingestion job and an outbox event (jobs.py). A relay publishes the event, and a worker
-- (ingestion.py) claims the job under a lease and a fencing token, reads and parses the object, cuts
-- it into chunks (document_parser.py), embeds them, and records a corpus or a failure. A student's
-- question (conversations.py) is answered from retrieved evidence: the model emits an intervention
-- (tutor_contract.py), and the validator (rag.py) lets through only what the evidence supports; the
-- runtime (conversation_runtime.py) runs these steps and records the answer or a failure.
--
-- Files:
--   Prelude   shared names, Boolean tests, results, lists, equality as an interface, table rows
--   Text      Python's str: strip, slices, rfind, `in`, the matches of an escaped pattern, join
--   Models    the rows of models.py
--   Store     the database, and a transaction that commits or rolls back (database.py)
--   Chunks    document_parser.py: build_chunks (Defs), its windows, origin, ordinals and coverage of
--             the chunks, and the blank documents
--   Contract  tutor_contract.py: blocks, validation, and what is derived from an intervention
--   Rag       rag.py: drafts, EvidenceResponseValidator.validate, and what an answer rests on
--   Jobs      jobs.py: the envelope and its delivery, and the outbox with its relay
--   Ingestion ingestion.py: claim, success, failure, embedding, process; the life of a job, and
--             fencing over all runs of the transactions
--   Conversations  conversations.py: the requests, the messages of a conversation and their states,
--             over all runs of the service's transactions
--   Identity  identity.py: the identity that a bearer token proves
--   Documents documents.py: uploads and their confirmation, the view of a version, the publication of
--             a corpus, over all runs of the service beside the worker
--   Runtime   conversation_runtime.py and conversation_routes.py: an execution with the places where it
--             can be stopped, how it ends, and the stream of events
--   Retrieval postgres_retriever.py and retrieval_auth.py: the lexemes of a query, the authorization of
--             a scope, and the chunks that are retrieved
--   Courses   courses.py: the creation of courses under an idempotency key, and their view
--   Tests     the theorems at concrete inputs, and tests
--
-- Conventions. A UUID is a number; a datetime is a count of microseconds; a text that the program
-- walks is the list of its code points, one that it only compares is a String; a float is its 64
-- bits. A table is the list of its rows, and a transaction a function of the store that raises or
-- returns; now() and clock_timestamp() of one transaction are one reading. UUIDs that are drawn,
-- clock readings, random delays, hashes, UUID and integer syntax, the object storage, the parser, the
-- embedder, the database's full-text functions and the case tables of `re` are arguments of the
-- definitions that use them. Row locks make each transaction atomic, so an interleaving is a sequence
-- of transactions (`Reach`); what others commit between the transactions of one operation is an
-- argument (`meanwhile`). The creation times that only the database fills in and nothing reads are
-- left out of the rows and of the views. A text has no lone surrogates, so that each one can be encoded
-- for its hash.
--
-- Of the database's constraints on messages, the checks of a new row are tested when it is appended
-- (`row_checks`); the unique ones are no tests of the model, but parts of its invariant (`IsSound`).
--
-- Fuel. Only the loop over a page (`chunk_page`) runs on fuel, one more than the characters of the
-- page; each round moves the start by at least one, and `build_chunks-total` shows that it is enough.
-- All other loops recur on their lists.
--
-- Not modelled: HTTP routing (main.py, health.py, workspace.py, the routes of courses.py and
-- documents.py), the dense retriever, provider adapters, Redis and S3 clients, settings, migrations,
-- development scripts and the web application; of the conversation runtime its recovery loop, its
-- shutdown, and the cancellation of a task before its first step, which runs nothing of it.
pub mod Prelude
pub mod Text
pub mod Chunks
pub mod Models
pub mod Contract
pub mod Rag
pub mod Identity
pub mod Store
pub mod Jobs
pub mod Ingestion
pub mod Documents
pub mod Conversations
pub mod Runtime
pub mod Retrieval
pub mod Courses
mod Tests
