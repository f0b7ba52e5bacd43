-- ===== src/Bench.antt =====
-- src/bin: what the load generators send, read and count. pipeline_quick.rs and redis_compare.rs stand for the
-- others, whose loops have other constants.
pub mod Tally
pub mod Quick
pub mod Compare
pub mod Replies
pub mod Batch
