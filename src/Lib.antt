-- ===== src/Lib.antt =====
-- KnowledgeOS AI: the backend's core (backend/app), as functions of explicit states.
--
-- A question is answered from the documents of a workspace: `retrieve` asks a vector store and a
-- full-text index, fuses the two rankings, re-reads the candidates from the database under the
-- workspace's id, and picks a diverse few; `answer` refuses below a floor of similarity, and else
-- streams the model's answer, whose markers are then checked for those that point at no source.
-- An upload is deduplicated, stored and queued; a worker claims the job, parses and chunks the
-- document, and indexes its chunks, after which it is ready. Sessions are kept by refresh tokens that
-- rotate, and a row is reached only through a membership of its organization.
--
-- Files and the code they are about:
--   Prelude, Float, Text      shared names; floats as an interface of monotone operations; Python text
--   Errors                    backend/app/core/errors.py: `AppError` and its subclasses, `raise` as a result
--   Content                   backend/app/db/models/content.py, enums.py: rows of documents, chunks, jobs
--   Fusion                    backend/app/services/fusion.py: `reciprocal_rank_fusion`, `normalize_scores`;
--                             Fusion/Similar and Fusion/Diversify: `_too_similar` and `diversify`
--   Fusion/Merge, Order, Dominance, Normalize, Diversify/*   what is proved of them
--   Retrieval                 backend/app/services/retrieval_service.py: the records and the token budget;
--                             Retrieval/Query: `_build_or_tsquery`; Retrieval/Search: `retrieve`;
--                             Retrieval/Query/Terms, Retrieval/Isolation: what is proved of them
--   Citation                  backend/app/services/citation_service.py: `validate`; Citation/Marker: the
--                             expression `_MARKER`; Citation/Numbers, Laws, RoundTrip, Nested: its laws
--   Tokens                    backend/app/services/token_service.py and `refresh` and `logout` of
--                             backend/app/api/v1/auth.py; Tokens/Rows, Rotation, Family: their laws
--   Chat                      backend/app/services/chat_service.py: the history and the records of a turn;
--                             Chat/Prompt, Escape, Budget: backend/app/services/prompt_builder.py;
--                             Chat/Turn: `answer` as the list of its events; Chat/Events, Laws: its laws
--   Ingestion                 backend/app/services/ingestion_pipeline.py: `process_document` and `_run` over
--                             committed and uncommitted rows and a vector store; Ingestion/Rows,
--                             Counted, Run, Laws
--   Access                    backend/app/api/deps.py, `_load_document`, `_load_conversation` and
--                             `submit_feedback` of backend/app/api/v1; Access/Laws, Loads, Hidden: laws
--   Intake                    backend/app/services/document_service.py and `source_type_for` of
--                             backend/app/providers/parsers/formats.py; Intake/Unique, Raised
--   Documents                 the endpoints of backend/app/api/v1/documents.py that change documents, over
--                             Access, Limits, Fetching, Intake; Documents/Authorized, Removed
--   Workspaces                `create_workspace` and `update_workspace` of
--                             backend/app/api/v1/workspaces.py, with `slugify` of
--                             backend/app/services/auth_service.py; Workspaces/Slugs: the slugs
--   Fetching                  backend/app/services/url_fetcher.py; Fetching/Vetted: its law
--   Chunking                  backend/app/services/chunking.py: Chunking/Split `_subdivide` and the
--                             expressions, Pack `_pack` and `_split_page`, Absorb `_absorb_fragments`,
--                             Document `chunk_document`; Ink, Kept, Fragments, Bounds, Numbered: its laws
--   Queue                     backend/app/services/queue.py: the lists in Redis and its
--                             commands; Queue/Kept, Interleaved, Fifo, Reaped: their laws
--   Worker                    backend/app/worker.py: a turn of `consume_forever` on a claimed job, which
--                             runs `process_document` and answers to the queue; Worker/Poison, Turn
--   Limits                    backend/app/core/rate_limit.py: the sliding window; Limits/Window: its law
--   Tests                     concrete instances of the parameters, and runs on them
--
-- Parameters: the float operations with the laws of correctly rounded arithmetic; the Unicode
-- character database; what the vector store, the embedder and Postgres full-text ranking answer;
-- what the model's stream yields and whether it raises; what the parser, the chunker and the store do;
-- whether the storage and the queue take an upload; what other workers do between two commands;
-- the digest of a token and of an upload, and the test of an address; what the resolver, the HTTP
-- client and the join of URLs give; the clock and the random draws.
--
-- Identifiers are numbers, a table is the list of its rows, and an exception is a result. The
-- printing of a number is on fuel, where one more than the number is enough, since each digit makes
-- it smaller; the cutting of a text in slices is on its length, since each slice takes a character. The
-- loop of redirects runs for four turns, as in the code. No other recursion needs fuel.
--
-- Not modelled: logging, the usage record of an ingestion, `persist`, the signals and the inline thread
-- of the worker, the expiry of a limiter's key, a database that fails, the limit of 4300 digits on
-- `int`, floats that are not numbers, `delete_workspace`, the endpoints that only list rows or edit a
-- conversation, and the adapters of third-party services.
mod Prelude
pub mod Float
pub mod Text
pub mod Errors
pub mod Content
pub mod Fusion
pub mod Retrieval
pub mod Citation
pub mod Tokens
pub mod Access
pub mod Chunking
pub mod Fetching
pub mod Limits
pub mod Intake
pub mod Documents
pub mod Queue
pub mod Worker
pub mod Workspaces
pub mod Chat
pub mod Ingestion
mod Tests
