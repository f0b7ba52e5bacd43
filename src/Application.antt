-- ===== src/Application.antt =====
-- application/: the command dispatchers.
pub mod Info
pub mod Dictionary
pub mod Dispatch
pub mod Buffer
pub mod Unlimited
pub mod Replies
pub mod Fast
pub mod Borrowed
