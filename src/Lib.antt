-- ===== src/Lib.antt =====
-- A verification library for anti_entropator, a tool that scans files and ingests them into a
-- content-addressed object store with a catalog of observations.
--
-- The program reads a directory tree (src/scan), describes each file by a `FileInfo` (src/domain),
-- uploads its bytes under the key of their hash (src/ingest/upload.rs, src/storage), and appends an
-- observation row of the path to the catalog (src/lakehouse) unless the catalog's latest row of the
-- path already records the content (src/ingest/state.rs). Each ingest run keeps a journal in the
-- object store (src/ingest/journal.rs), from which a later run sees what an interrupted run left.
--
-- The files:
--   Prelude           shared: Boolean tests, lists, byte texts, results, effectful code, maps
--   Domain            src/domain and src/file_hash.rs: Observation and RelativePath
--                     (domain/observation.rs), ContentHash and Category (domain/mod.rs; the former
--                     with file_hash.rs `to_lower_hex`), FileInfo (domain/file_info.rs), and Utf8,
--                     the decoder that `OsStr::to_str` stands on
--   Domain.Stats      src/domain/stats.rs
--   Storage           the OpenDAL operator as a record of operations with its laws; Storage.Memory
--                     is a store in memory that meets them
--   Config            src/config/mod.rs
--   FileHash          src/file_hash.rs: the reading loops
--   Scan              src/scan/mod.rs: `scan_file` and the suggestion of names; Scan.Names has the generic
--                     filenames and Scan.Enrichers is src/scan/enrichers.rs
--   Lakehouse         src/lakehouse: Schema (schema.rs), Batch (the columns of writer.rs), Commit
--                     (`commit_files`), Http, Signing, Server and Setup (mod.rs: its requests and `init`)
--   Ingest.State      src/ingest/state.rs
--   Ingest.Journal    src/ingest/journal.rs: the journal as a value; Journal.Persist has the
--                     journals in the object store
--   Ingest.Upload     src/ingest/upload.rs: `upload_verified` and `verify_existing`, over the operator,
--                     a SHA-256 and the results of the reads of the source file
--   Ingest.Output     src/ingest/output.rs
--   Ingest.Pipeline   src/ingest/pipeline.rs as a step relation on the state of its two tasks, with the
--                     outcome types of src/ingest/mod.rs
--   Ingest.Collect    src/ingest/mod.rs: `collect_files`
--   Ingest.File       src/ingest/mod.rs: `RunContext::new`, `prepare_file` and `process_file`
--   Ingest.Run        src/ingest/mod.rs: `JournaledCommitter`, `report_open_runs` and
--                     `supersede_open_runs`; Ingest.Run.Ending is the end of `run`
-- Modules below these hold the theorems; each `Tests` module holds concrete runs.
--
-- Texts are byte strings (`List ℕ`), a UUID and a timestamp are numbers, and a `u64` wraps at 2^64
-- (the release build has no overflow checks). Effectful code is a function of a world: it returns a
-- result and the world after it, so that what was done before an error stays done. There is no fuel:
-- every loop of the modelled code is structural, the retry of a file by the attempts that are left; the
-- pipeline, whose steps are a relation, has a measure.
--
-- Parameters, since they are not code of the repository: UUIDv5, the clock, JSON, the lossy decoding
-- and the lower-casing of texts, SHA-256 and HMAC, the rounding of a percentile's index, the file
-- system and its walk, glob patterns, the detection of MIME types, external programs, the environment,
-- the object store, the HTTP client and its servers, the builder of iceberg schemas, Arrow, the iceberg
-- client, and what the workers and the committer of a pipeline return.
--
-- Not modelled: `run` of src/ingest/mod.rs as a whole, the profiler, the inspection of runs, the query
-- and doctor commands and the command line, which mostly call other libraries or print.
mod Prelude
pub mod Domain
pub mod Storage
pub mod Config
pub mod FileHash
pub mod Scan
pub mod Ingest
pub mod Lakehouse
