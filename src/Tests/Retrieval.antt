-- ===== src/Tests/Retrieval.antt =====
-- postgres_retriever.py on a course with one chunk.
use docta.Prelude.{◌≡◌, refl, true, false, none, some, [], ◌∷◌, ◌++◌, ok}
use docta.Models.{Chunk, ready, DocumentVersion, indexed}
use docta.Text.{codes, show_nat}
use docta.Rag.{RetrievalScope, Evidence}
use docta.Conversations.{ConversationStore}
use docta.Retrieval.{
  or_tsquery_text, query_lexemes, from_keys, find_all, match_group, is_pair, unescape,
  query_lexemes-or_tsquery_text, FullText, authorize_retrieval, retrieve, IsRetrieved,
  retrieve-IsRetrieved,
}
use docta.Tests.Conversations.{two_messages}

query_lexemes-or_tsquery_text_example :
    query_lexemes (or_tsquery_text (codes "o'x" ∷ codes "\\y" ∷ []))
    ≡ codes "o'x" ∷ codes "\\y" ∷ []
unfolding from_keys
query_lexemes-or_tsquery_text_example =
    query_lexemes-or_tsquery_text (codes "o'x" ∷ codes "\\y" ∷ [])

-- A quote that nothing closes ends the match at the quote before it.
unclosed : query_lexemes (codes "'ab''") ≡ codes "ab" ∷ []
unfolding query_lexemes from_keys find_all match_group is_pair unescape
unclosed = refl

abbrev full_text : FullText
full_text = record {
  plainto_tsquery = λ t. some (codes "'ayud'");
  matched = λ lexemes k. 1;
  matches = λ query k. true;
  ranks_above = λ query a b. false;
}

abbrev scope : RetrievalScope
scope = record {
  course_id = 1;
  corpus_version_id = 3;
  principal_user_id = 8;
  conversation_id = 9;
  message_id = 21;
  correlation_id = "c";
}

abbrev chunk : Chunk
chunk = record {
  id = 30;
  course_id = 1;
  corpus_version_id = 3;
  document_version_id = 31;
  page_start = 1;
  page_end = 1;
  ordinal = 0;
  content = codes "ayuda";
  content_hash = "h";
}

abbrev version : DocumentVersion
version = record {
  id = 31;
  course_id = 1;
  document_id = 32;
  storage_key = "k";
  storage_version_id = some "sv";
  original_filename = codes "a.pdf";
  expected_size_bytes = 3;
  expected_sha256 = "s";
  media_type = "application/pdf";
  state = indexed;
  pipeline_version = "v";
  parser_version = some "p";
  upload_idempotency_key = codes "u";
  upload_request_hash = "h";
  confirmation_idempotency_key = some (codes "c");
  confirmation_request_hash = some "h";
  object_size_bytes = some 3;
  object_sha256 = some "s";
  page_count = some 1;
  chunk_count = some 1;
  failure_code = none;
  updated_at = 1;
}

abbrev with_corpus : ConversationStore
with_corpus = record two_messages {
  base = record two_messages.base {
    documents = record { id = 32; course_id = 1; title = codes "a"; created_by_user_id = 8 } ∷ [];
    versions = version ∷ [];
    corpora =
        record {
          id = 3;
          course_id = 1;
          state = ready;
          pipeline_version = "v";
          page_count = 1;
          chunk_count = 1;
          ready_at = some 1;
        }
        ∷ [];
    chunks = chunk ∷ [];
  };
}

abbrev found : Evidence
found = record {
  chunk_id = 30;
  course_id = 1;
  corpus_version_id = 3;
  document_version_id = 31;
  document_title = codes "a";
  document_sha256 = "s";
  page_start = 1;
  page_end = 1;
  fragment = codes "chunk-" ++ show_nat 0;
  content = codes "ayuda";
  content_hash = "h";
}

one_chunk : retrieve full_text 50 scope (codes "ayuda") with_corpus ≡ ok (found ∷ [])
unfolding retrieve authorize_retrieval query_lexemes from_keys find_all match_group is_pair unescape
one_chunk = refl

retrieve-IsRetrieved_example :
    IsRetrieved full_text 50 scope (codes "ayuda") with_corpus (found ∷ [])
retrieve-IsRetrieved_example =
    retrieve-IsRetrieved full_text 50 scope (codes "ayuda") with_corpus one_chunk
