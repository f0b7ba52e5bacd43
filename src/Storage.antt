-- ===== src/Storage.antt =====
-- storage/: the map of the crate behind its laws, a table that has them, and the engine.
pub mod DashMap
pub mod Table
pub mod Itoa
pub mod Engine
pub mod Aof
pub mod Snapshot
