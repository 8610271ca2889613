-- ===== src/Lib.antt =====
-- Verification of the agentic RAG platform: a question of a user is answered from the documents that
-- the user may read, by a graph of nodes around a language model, with citations.
--
-- How the parts interact. app/api/chat.py receives a message. The dependency `rate_limit` lets the
-- request in or turns it away (app/core/ratelimit.py), app/core/rbac.py gives the collections that the
-- user may read, and `turn` runs the compiled graph of app/graph/builder.py on the checkpoint of the
-- thread. The nodes (app/graph/nodes.py) look up the semantic cache, route the question
-- (app/router/classifier.py), retrieve chunks and pages, pack them into a context within a budget
-- (app/context/assembler.py, over the rank fusion of app/retrieval/fusion.py), generate an answer,
-- turn its markers into citations (app/graph/citations.py), grade it, and store or abstain.
--
-- The files.
--   Prelude, Prelude/*: Boolean tests, lists and texts on the native numbers.
--   Settings: app/config.py, the settings that the modelled code reads.
--   Characters: the character classes of Python that `strip`, `lower` and `\s` use, as a table.
--   Chunks: the records of a chunk and of a page hit, as retriever_node makes them.
--   Context/Estimate, Context/Fusion, Context/Assembler: app/context/assembler.py `assemble`,
--     `_acl_ok`, `_truncate_to_budget`, `_load_image_b64`, and app/retrieval/fusion.py `rrf_merge`.
--   Citations: app/graph/citations.py `extract_citations`.
--   Graph/State: app/graph/state.py. Graph/FollowUp: `is_follow_up` of app/graph/nodes.py.
--   Graph/NativeMarkers: `normalize_markers`. Graph/Router: app/router/classifier.py `classify`.
--   Graph/Services: what the nodes call. Graph/Nodes: one function per node method.
--   Graph/Builder: the conditions, the edges, the run, and the turn of app/api/chat.py.
--   Graph/{Invariant,Termination,Scope,Grounding,Retries,Turns}: what holds of a turn.
--   Access/Rbac: app/core/rbac.py over the rows of its tables. Access/{Queries,Readable,Decisions}:
--     the rules of its head comment, and its queries against them.
--   Access/Redis: the server that app/core/ratelimit.py calls. Access/Quota: its functions.
--     Access/{Counters,Balance,Slots,Overlap}: what they do to the counters.
--   Auth/Tokens: app/core/security.py and app/core/redis.py. Auth/Requests: app/core/deps.py and the
--     endpoints of app/api/auth.py. Auth/{Authorized,Denied,Rotation}: who is let in, and for how long.
--   Cache/Stores: what app/retrieval/semantic_cache.py calls. Cache/Semantic: its methods.
--     Cache/{Hits,Tagged,History,Unseen}: what a lookup can return, over any sequence of operations.
--   Chat/Rows: app/models/chat.py and app/schemas/chat.py. Chat/Conversations: the endpoints of app/api/chat.py
--     for sessions and feedback. Chat/Turns: its `chat`, over `turn` of the graph.
--     Chat/{Histories,Answers,Kept,Isolation,Ratings}: what a user sees of whose conversations.
--   Admin/State, Admin/Service: app/api/admin.py over the rows, the session epochs and the cache.
--     Admin/{Sessions,Revocation}: what an administrator ends, and for whom.
--   Gaps/Classify, Gaps/Report: app/services/knowledge_gaps.py. Gaps/Tally: the figures of its report.
--   Ingestion/Indexer: `index_document` of app/ingestion/indexer.py. Ingestion/{Replaced,Reindexed}: what an attempt
--     leaves behind.
--   Metadata/Words, Metadata/Lookup: app/retrieval/metadata_lookup.py and `detect_lang` of
--     app/graph/prompts.py. Metadata/Scoped: what the lookup shows to whom.
--   Characters/Strip: str.strip().
--   Documents/Filenames: `safe_filename` of app/ingestion/storage.py. Documents/State: the rows, files and
--     stores behind app/services/documents.py. Documents/Service: its functions, with the calls that
--     raise. Documents/Endpoints: app/api/documents.py.
--     Documents/{Naming,Refusals,Alike,Deduplication,Uploading,Deletion}: what a request does in each case.
--   Ingestion/Rows, Ingestion/Paragraphs: the packing loops of `chunk_table` and `_pack_paragraphs` in
--     app/ingestion/chunker.py. Ingestion/{Rows/Tiling,Cuts,Bounds}: what they make of their input.
--   Ingestion/Elements: app/ingestion/types.py. Ingestion/{Texts,Tables,Chunker}: `chunk_text_run`,
--     `chunk_table` and `build_chunks_v2`. Ingestion/Chunker/{Segments,Segmented}: what the elements are
--     read as.
--   Ingestion/FileType: app/ingestion/filetype.py `detect`.
--   Ingestion/Jobs: `_handle_job` of worker/main.py with app/ingestion/jobs.py and app/queue.py.
--     Ingestion/{Retrying,Draining,Requeueing}: what becomes of a job, of the queue, of dead letters.
--   Tests: runs at concrete inputs, and the theorems at inputs that meet their hypotheses.
--
-- What is a parameter. The language model, the retrievers, the semantic cache, the metadata lookup and
-- the object store are the fields of Services, each a function of the iteration counter and of its
-- arguments: the model answers anything, a different thing at each call. A call that raises ends the
-- turn in the source and has no counterpart here, except where the source catches. The characters'
-- classes are a table with the hypothesis that the brackets and the digits are what they are. Redis,
-- the vector database and the signing library are records of their calls with their documented effects
-- as laws. The rows of the database are lists.
--
-- Choices of the model. Identifiers are numbers. Scores, latencies, traces and metrics do not influence
-- what is modelled and are left out. The rank fusion orders candidates by 1 / (k + rank): the model
-- compares the denominators. The estimator divides by 3.8 characters per token: the model rounds the
-- exact quotient. Durations are whole seconds. The rows of documents, of their jobs and of the audit are
-- lists with the newest first. A request of the document service names the calls that raise in it; such
-- a call has no effect of its own, ends the request and loses what is not committed. It also names the
-- files that rmtree cannot remove, which the source does not notice. A store of the cache says whether
-- its tags got written behind the upsert. The worker's parameter Calls says which reports and pushes of
-- a job raise.
--
-- Bounds. The run of the graph has the recursion limit of app/api/chat.py as its fuel,
-- max_graph_iterations * 3 + 10. The loop that cuts a paragraph has one round per character as its
-- fuel, and has no result where the overlap is not smaller than the maximum. The worker's loop takes
-- the number of jobs to handle. Every other loop is structural recursion over the list that the source
-- iterates over.
--
-- Not modelled: the rendering of tables and rows to text (a parameter of the chunker), the parsers and the figure
-- captioning of app/ingestion, the embedders and the vector database behind app/retrieval, the
-- evaluation queue of the worker, the streaming variant `chat_stream`, the listings and metrics of the
-- administration, the observability, the evaluation and the web interface: they are I/O around third-party services, or wait for a later version of this
-- library. The indexing of one document is an answer of the parameter Calls of Ingestion/Jobs; what
-- run_pipeline makes of a file is an answer in Ingestion/Indexer. The
-- expiry of the counters (_INFLIGHT_TTL) is not modelled: the counters keep their values between the
-- commands, and a request's entry and its exit are each one step of an interleaving. A counter of a
-- user is taken to be at least 0.
pub mod Prelude
pub mod Settings
pub mod Chunks
pub mod Characters
pub mod Context
pub mod Citations
pub mod Graph
pub mod Access
pub mod Auth
pub mod Cache
pub mod Documents
pub mod Chat
pub mod Admin
pub mod Gaps
pub mod Metadata
pub mod Ingestion
mod Tests
