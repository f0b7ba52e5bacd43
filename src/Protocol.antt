-- ===== src/Protocol.antt =====
-- protocol/: the replies and the parsers of both protocols.
pub mod Response
pub mod Memchr
pub mod Scan
pub mod Resp
pub mod Frame
pub mod Inline
pub mod Borrowed
