-- ===== src/Domain.antt =====
-- src/domain: the types of an observation and of a scanned file.
pub mod Utf8
pub mod Observation
pub mod RelativePath
pub mod Paths
pub mod ContentHash
pub mod Category
pub mod FileInfo
pub mod Stats
