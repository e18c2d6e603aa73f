-- ===== src/Oracle.antt =====
-- crates/oracle: the line reader of the stdio transport.
pub mod LineReader
mod Tests
