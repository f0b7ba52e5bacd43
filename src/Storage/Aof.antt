-- ===== src/Storage/Aof.antt =====
-- storage/aof.rs: the log of write commands. The children have the format of an entry
-- (`Command::to_aof_entry` of domain/command.rs), the replay, and the writer with its batch.
pub mod Entry
pub mod Replay
pub mod Writer
pub mod Rewrite
pub mod Rewriter
