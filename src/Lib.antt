-- ===== src/Lib.antt =====
-- The inference runtime of LeanLM. One question becomes one execution context (IEC), which a
-- pipeline of ten stages enriches and never rewrites; each stage belongs to one capability, a
-- state machine watches their order, an event bus and a telemetry span record what happens, and a
-- verifier checks the finished context against the Deterministic Inference Contract.
--
-- Common: the names that all modules share, Boolean tests on the native numbers, lists.
-- Shared: src/leanlm/shared. Errors (errors.py) has the exceptions as values, with `Result` for a
--   call that may raise; Events (events.py) the bus with its bounded history; Telemetry
--   (telemetry.py) the span around a stage; Text (text.py) words, shingles, the token counter,
--   truncation and the normalization of a text.
-- Contracts: src/leanlm/contracts. Dto (dto.py) has the data objects; Iec (iec.py) the execution
--   context with `evolve`; Capability (capability.py) `execute` and the registry; Ddp (ddp.py)
--   the state of a document on its way through the document pipeline.
-- Runtime: src/leanlm/runtime. StateMachine (state_machine.py); Pipeline (pipeline.py), whose
--   `run` is a fold over the stages that passes the machine, the bus and the telemetry along; Dic
--   (dic.py), the verifier; Loading (`load` of runtime.py); Asking (`ask`, `open_session` and
--   `close_session` of runtime.py, over all the others); Session (session.py), the sessions and
--   the numbering of their requests; Ingesting (`ingest` of runtime.py), files through the document
--   pipeline into the corpus, one after the other; Assembly (`_build_registry`, `use_documents` and
--   the handlers of the runtime's own stages), the pipeline of all capabilities; Corpus (corpus.py), the tables of the database with the
--   caches in front of them.
-- Ingestion: src/leanlm/packages/ingestion. Extraction and Loader (services.py) read, check and
--   normalize a file; Contract (contracts.py) is the capability.
-- Context: src/leanlm/packages/context. Optimizer (services.py) drops noise and duplicates and
--   merges fragments before retrieval; Intent (services.py) reads the question's intent off a
--   lexicon; Budget (services.py, models.py) makes a token budget of it and of the machine's
--   state; Contract (contracts.py) is the capability that runs all three.
-- Understanding: src/leanlm/packages/understanding. Structure (services.py) finds the blocks of a
--   normalised text with their offsets; Segmenter (services.py) makes units with section paths of
--   them, splits oversized ones and folds small ones; Contract (contracts.py) is the capability.
-- Inference: src/leanlm/packages/inference. Prompt (services.py) assembles the prompt of the
--   passages; Cleaning (cleaning.py) takes the scaffolding of the tool and the reasoning of the
--   model off a generation; Contract (contracts.py) is the capability that owns both stages.
-- Retrieval: src/leanlm/packages/retrieval. Index and Ranking (services.py) score the
--   units of a context for a question by BM25, with its gate for questions off the topic; Selector
--   (services.py) is the greedy choice of passages under a token budget; Contract (contracts.py)
--   is the capability.
-- Validation: src/leanlm/packages/validation. Response (services.py) measures and judges an
--   answer; Contract (contracts.py) is the capability that adds the report to the context.
-- Performance: src/leanlm/packages/performance. Sampler (services.py) keeps the peaks of the
--   readings; Thermal (services.py) chooses the thermal zone that is read.
-- Trust: src/leanlm/trust. OfflineGuard (offline_guard.py) blocks the network during a session.
-- Scenarios: concrete pipelines, contexts, documents and calls.
--
-- A method that changes its object returns the changed record. A method that may raise returns a
-- `Result`; the pipeline returns a `Flow`, which says whether it goes on, has returned or has
-- raised, with the state that it leaves in each case. Loops are recursions on a list; the
-- selection of evidence runs on fuel, the number of its items, since each round removes one, and
-- so does the loop that removes reasoning blocks, on the length of the text, since each round
-- shortens it. The keyword arguments of `evolve` are a list of changes. Floating-point scores and
-- ratios are exact fractions.
--
-- Parameters: `re`, `unicodedata` and `str.lower` (the record `TextLibrary`), the digest, the
-- boilerplate patterns, the line patterns of the structure analyzer (`LinePatterns`), the token
-- counter where the source takes any, clock readings, and what the capabilities, the runtime's
-- own handlers and the model backend do (`Capability`, `Handler`, `Backend`, `InferenceBackend`), the file system and
-- the readers of PDF files (`FileSystem`, `Readers`). The order of an SQL
-- query, `sorted`, roundings and the logarithm of the scores are parameters too. Subscribers of the bus are
-- identities, and the calls they get are a list.
--
-- Not modelled: timestamps, durations and the resource samples of a stage, identifiers and
-- checksums, the serialisation to dictionaries, floating-point reporting fields, the backends
-- that run a language model, configuration and profile loading, the command line, the workspace
-- server, the metrics snapshot, benchmarks and packaging.
pub mod Common
pub mod Context
pub mod Contracts
pub mod Inference
pub mod Ingestion
pub mod Performance
pub mod Retrieval
pub mod Runtime
pub mod Scenarios
pub mod Shared
pub mod Trust
pub mod Understanding
pub mod Validation
