-- ===== src/Tests.antt =====
-- Concrete runs: each theorem of the library that has hypotheses or parameters, applied at an input
-- where they hold, over an association list, a plain `memchr` and the `Display` of integers.
mod Data
mod Meaning
mod Reads
mod Writes
mod Capacity
mod Log
mod Writer
mod Bench
mod Protocol
mod Application
mod Snapshot
mod Lines
mod Server
mod Recovery
