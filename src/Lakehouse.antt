-- ===== src/Lakehouse.antt =====
-- src/lakehouse: the catalog table.
pub mod Schema
pub mod Batch
pub mod Http
pub mod Server
pub mod Signing
pub mod Setup
pub mod Commit
mod Tests
