-- ===== src/Domain.antt =====
-- domain/: the commands, the stored values and the errors.
pub mod Command
pub mod ParsedCommand
pub mod Value
pub mod Errors
