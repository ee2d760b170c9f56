-- ===== src/Wal.antt =====
-- The write-ahead log.
pub mod Format
pub mod Group
pub mod Recovery
pub mod Log
mod Examples
mod LogExamples
