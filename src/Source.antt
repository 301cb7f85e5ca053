-- ===== src/Source.antt =====
-- The sources of events (src/source).
pub mod Retry
pub mod Attempts
pub mod Backoff
pub mod Postgres
pub mod Connection
pub mod Cassandra
pub mod Resume
mod Tests
