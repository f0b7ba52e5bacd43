-- ===== src/Lib.antt =====
-- zetdb: an in-memory key-value store that speaks an inline protocol and RESP, with an
-- append-only log.
--
-- The program and the files that model it:
-- - src/domain/command.rs, src/domain/errors.rs, src/domain/value.rs: the commands, the errors
--   and the entries with their expiry: Domain/Command, Domain/Errors, Domain/Value.
-- - src/storage/dashmap_engine.rs: the engine. Storage/Engine has one function for each method.
--   The map of the `dashmap` crate is the interface Storage/DashMap; Storage/Table is an
--   association list that meets its laws. What a client sees of the engine is `view`
--   (Engine/View); Engine/Reads, Engine/Writes, Engine/Evict and Engine/Capacity state the
--   methods against it.
-- - src/storage/aof.rs, and `to_aof_entry` of src/domain/command.rs: Storage/Aof/Entry has the
--   format and the readers, Aof/Replay the replay, Aof/Rewrite the rewrite, Aof/Writer the batch and
--   the file, Aof/Rewriter the background tasks.
-- - src/protocol/response.rs: Protocol/Response.
-- - src/protocol/parser.rs: Protocol/Scan has the byte helpers, Protocol/Resp the readers of a
--   line and of a bulk string, Protocol/Frame `parse_resp_frame`, and Protocol/Inline
--   `parse_bytes` and `try_parse_frame`. Frame/Client is what a client sends, Inline/Reference
--   what the words of a line mean.
-- - src/application/dispatcher.rs: Application/Dispatch and Application/Buffer run a command on
--   the engine and return or write the reply; Application/Info has the text of INFO.
--   Application/Dictionary is a specification with no code of its own: what the commands mean on a
--   dictionary from keys to values.
-- - src/protocol/parser_borrowed.rs: Protocol/Borrowed; Borrowed/Reference is what the words of a
--   line mean to it. src/application/dispatcher_fast.rs: Application/Fast.
--   src/application/dispatcher_borrowed.rs: Application/Borrowed.
-- - src/storage/snapshot.rs: Storage/Snapshot; Snapshot/Format has the bytes, Snapshot/Disk the
--   files and the faults of a dump, Snapshot/Kept what a dump is to keep of an entry.
-- - src/observability/metrics.rs: Observability/Metrics.
-- - src/server/session.rs: Server/Session has a batch of frames and a turn of the full session,
--   Session/Fast the fast session, Session/Handle the choice between them; Session/Frames,
--   Session/Wire, Session/Sent, Session/Turns, Session/Pieces and Session/Lines are about a client
--   that sends commands,
--   Session/Logged about what its session logs, Session/Meaning about what it means.
-- - src/server/tcp.rs: Server/Tcp, the accept loop as a step relation, and the drain; Tcp/Run, a
--   run from the listener to the flush of the log.
-- - src/config/mod.rs: Config.
-- - src/main.rs: Server/Startup, what is restored before the server listens; Server/Main, what is
--   started for a configuration, and the end.
-- - src/bin/redis_compare.rs: Bench/Compare; Bench/Batch has what the server makes of a batch,
--   Bench/Replies how the replies are read. src/bin/pipeline_quick.rs: Bench/Quick, what a client
--   types and how it reads the replies, and Bench/Tally, how it counts.
--
-- A session appends what it reads to its buffer, takes frames off it with a parser, runs each on
-- the engine with a dispatcher, appends to the log and to the counters, and writes the replies.
--
-- How the state corresponds. A string is the list of its bytes. An `Instant` and a `Duration` are
-- numbers of nanoseconds; each reading of the clock is an argument, in the order of the source.
-- An `i64` is an integer within its range, with the wrap-around of a release build. A call of a
-- method of the map is one atomic step; a method that may not return, since it panics or waits
-- for its own lock, has an `Outcome`. A parser with an early return is a chain of steps over the
-- buffer and the position.
--
-- Loops are recursions on lists and counts. The replay runs on fuel: the number of bytes of the
-- file, which is enough since each entry takes a byte at least (Replay/Total). So do the loops of
-- the inline MGET and MSET, on the length of their line (Inline/Agreement, Borrowed/Agreement), and
-- the loops of a session over the frames of its buffer, with one round more than there are bytes
-- (Session/Progress, Session/Fast). What an engine with no limit on the keys, such as the one of
-- main, never waits for is in Engine/Unlimited, Replay/Unlimited, Application/Unlimited and
-- Session/Unlimited.
--
-- The crates `dashmap`, `itoa`, `memchr` and `crc32fast` are interfaces with the documented laws
-- (Storage/DashMap, Storage/Itoa, Protocol/Memchr, Snapshot/Crc). What the program uses of the standard library
-- for decimal numbers, byte orders and UTF-8 is modelled under Bytes.
--
-- A call of the file system fails or succeeds as its caller is told (Aof/Writer, Snapshot/Disk); a
-- failed write has written a prefix.
--
-- Not modelled: the interleaving of methods of the engine inside one another and of several threads on
-- the counters, the parsing of the command line, how the tasks in src/main.rs are run, the affinity
-- of threads, and the other load generators of src/bin, whose loops have other constants.
pub mod Prelude
pub mod Bytes
pub mod Config
pub mod Domain
pub mod Storage
pub mod Protocol
pub mod Application
pub mod Observability
pub mod Server
pub mod Bench
pub mod Tests
