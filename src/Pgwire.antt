-- ===== src/Pgwire.antt =====
-- crates/rocklake-pgwire: the parser of COPY streams and the session's buffers.
pub mod CopyParser
pub mod Session
