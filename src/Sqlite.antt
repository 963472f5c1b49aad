-- ===== src/Sqlite.antt =====
-- src/mcp_persist/sqlite.py, `SQLiteEventStore`. `State` has the store and its connection, `Write`
-- the writing operations, `Forks` the fork chains, `Read` the replays and `Expire` the purges. The
-- modules below them prove.
pub mod State
pub mod Write
pub mod Forks
pub mod Read
pub mod Expire
