-- ===== src/Server.antt =====
-- server/: the sessions, the accept loop, and what main.rs restores before it.
pub mod Session
pub mod Startup
pub mod Main
pub mod Tcp
