-- ===== src/Lib.antt =====
-- mcp-persist, the durable event stores of an MCP server: the paths below are from the repository's
-- root. A server stores each message of a stream as an event with a rising id, and a client that
-- reconnects names the last event it has seen and is sent the later ones of that stream.
--
-- Prelude: numbers, lists, texts and tests that all parts share.
-- Sse: src/mcp_persist/_sse_parser.py, `SSEParser`, and the frames that src/mcp_persist/proxy.py writes.
--   `feed`, `flush`, `split`, `process` and `dispatch` are the methods of these names. Sse/Lexer has a
--   reference that reads one character at a time.
-- Table, Sqlite: src/mcp_persist/sqlite.py, `SQLiteEventStore`. Table is the events table with its SQL
--   statements; Sqlite/State the store's fields, Sqlite/Write its writes and the write-behind buffer,
--   Sqlite/Forks `_get_stream_segments`, Sqlite/Read replay, iteration and subscription, Sqlite/Expire
--   purging and the selection of expired events.
-- Batching: src/mcp_persist/batching.py, `BatchingEventStore`, over a wrapped store that is a parameter.
-- Scope: src/mcp_persist/session_scope.py, `SessionScopedEventStore`, over a shared store that is a
--   parameter, and `_store_replay` of src/mcp_persist/proxy.py. Scope/Shared puts the SQLite store behind it.
-- Archive: src/mcp_persist/stored.py, `archive_expired_batch`, and the loop of `ArchiveScheduler` in
--   src/mcp_persist/scheduler.py.
-- Tiered: src/mcp_persist/tiered.py, `ChainedEventStore`, over two SQLite stores.
-- Portability: src/mcp_persist/portability.py, `export_stream` and `import_stream`.
-- Migration: src/mcp_persist/migration.py, `migrate`, between two stores that are parameters.
-- Recorder: src/mcp_persist/recorder.py, `RecordFlusher`, with the outcomes of the record store's writes
--   as a parameter of the steps.
-- Retention: src/mcp_persist/retention.py, `RetentionPolicy`, and a cycle of `RetentionScheduler` in
--   src/mcp_persist/scheduler.py.
-- Payload: src/mcp_persist/compression.py, src/mcp_persist/encryption.py and the coding of a payload in
--   src/mcp_persist/sqlite.py. zlib, zstandard, base64, UTF-8 and AES-GCM are parameters; a call that
--   raises yields `none`.
-- Sessions: src/mcp_persist/sessions.py. Sessions itself is the abstract registry, Sessions/Sql
--   `SQLiteSessionRegistry`, Sessions/Redis `RedisSessionRegistry` as lists of commands, and
--   Sessions/Listing its `list_sessions`. Rows, Keyspace, Held, Refinement and Agreement compare
--   the registries with it; Races is about commands that interleave.
-- Manager: src/mcp_persist/session_manager.py, `ResumableSessionManager`: adoption, registration and
--   the bookkeeping after a request, as calls to the registry of Sessions, and the params of the
--   opening body in Manager/Handshake. The SDK is a parameter.
-- StreamBuffer: src/mcp_persist/_stream_buffer.py, `StreamBuffer`: turns of the producer, which stores an
--   event and then appends it to the window, and of one consumer in `consume_from`.
-- Tests: the theorems at concrete inputs.
--
-- Models. A task runs alone between two `await`s and under a lock, so a method is one step, but a
-- flush of Batching writes without the store's lock and is two steps, with any others in between,
-- and so are `start` and `aclose` of the recorder. The commands of a Redis listing each see their own
-- state, each batch of a drain reads the clock anew, and a purge can end behind a committed chunk. What a database or a backend does is a value: `none`, or an
-- error, where the call raises. Times are whole ticks, an event id from a client is what `int` makes
-- of it and not negative, and texts are lists of code points. The coding of payloads, JSON
-- validation and `model_dump` are parameters; where a theorem needs that decoding undoes encoding it
-- is a hypothesis.
--
-- Fuel. `purge_loop` deletes at least one row in each turn but the last and gets one more turn than the
-- table has rows; `walk` visits no stream twice and gets one more turn than there are forks. `drain`
-- is given its fuel by its caller, and more turns than the hot store has rows are enough, whatever the
-- clock does between its batches. `read_pages` is given its fuel too: more turns than the index has members
-- are enough where no other client writes, as a page that is read has one at least.
--
-- Not modelled: the meaning of SQL beyond the statements in use, the creation of tables, log lines,
-- metrics, health checks, locks and timers, the Redis and Postgres event stores, record stores, the HTTP side of
-- the proxy,
-- configuration and the command line.
pub mod Prelude
pub mod Sse
pub mod Table
pub mod Sqlite
pub mod Batching
pub mod Scope
pub mod Portability
pub mod Migration
pub mod Archive
pub mod Tiered
pub mod Payload
pub mod Sessions
pub mod Manager
pub mod StreamBuffer
pub mod Recorder
pub mod Retention
pub mod Tests
