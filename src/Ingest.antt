-- ===== src/Ingest.antt =====
-- src/ingest: the ingest command.
pub mod State
pub mod Journal
pub mod Upload
pub mod Output
pub mod Pipeline
pub mod Collect
pub mod File
pub mod Run
