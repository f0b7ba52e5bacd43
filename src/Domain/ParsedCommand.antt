-- ===== src/Domain/ParsedCommand.antt =====
-- domain/parsed_command.rs: a command that borrows its words from the buffer. A slice and a String are both
-- their bytes here, so Protocol/Borrowed goes to the `Command` of `to_owned` at once.
use zetdb.Prelude.{ℕ, ◌≡◌, refl, Bool, true, false, Option, List, Bytes}
use zetdb.Domain.Command.{
  Command, CommandType, is_write as owned_is_write, command_type as owned_command_type,
}
use zetdb.Storage.Aof.Entry.{to_aof_entry as owned_entry}

pub data ParsedCommand : Type 0 where
  ping : ParsedCommand
  get : Bytes → ParsedCommand
  set : Bytes → Bytes → Option ℕ → ParsedCommand
  del : Bytes → ParsedCommand
  incr : Bytes → ParsedCommand
  info : ParsedCommand
  db_size : ParsedCommand
  exists : Bytes → ParsedCommand
  ttl : Bytes → ParsedCommand
  expire : Bytes → ℕ → ParsedCommand
  flush_db : ParsedCommand
  keys : ParsedCommand
  mget : List Bytes → ParsedCommand
  mset : List (Bytes × Bytes) → ParsedCommand

unfoldable pub is_write : ParsedCommand → Bool
is_write (set _ _ _) = true
is_write (del _) = true
is_write (incr _) = true
is_write (expire _ _) = true
is_write flush_db = true
is_write (mset _) = true
is_write _ = false

unfoldable pub command_type : ParsedCommand → CommandType
command_type ping = CommandType.ping
command_type (get _) = CommandType.get
command_type (set _ _ _) = CommandType.set
command_type (del _) = CommandType.del
command_type (incr _) = CommandType.incr
command_type info = CommandType.info
command_type db_size = CommandType.db_size
command_type (exists _) = CommandType.exists
command_type (ttl _) = CommandType.ttl
command_type (expire _ _) = CommandType.expire
command_type flush_db = CommandType.flush_db
command_type keys = CommandType.keys
command_type (mget _) = CommandType.mget
command_type (mset _) = CommandType.mset

unfoldable pub to_owned : ParsedCommand → Command
to_owned ping = Command.ping
to_owned (get key) = Command.get key
to_owned (set key value ttl_) = Command.set key value ttl_
to_owned (del key) = Command.del key
to_owned (incr key) = Command.incr key
to_owned info = Command.info
to_owned db_size = Command.db_size
to_owned (exists key) = Command.exists key
to_owned (ttl key) = Command.ttl key
to_owned (expire key seconds) = Command.expire key seconds
to_owned flush_db = Command.flush_db
to_owned keys = Command.keys
to_owned (mget ks) = Command.mget ks
to_owned (mset pairs) = Command.mset pairs

unfoldable pub to_aof_entry : ParsedCommand → Option Bytes
unfolding to_owned
to_aof_entry c = owned_entry (to_owned c)

-- The owned command is a write exactly if the borrowed one is, and counts as the same type.
pub to_owned_agrees :
    (c : ParsedCommand)
    → (owned_is_write (to_owned c) ≡ is_write c)
      × (owned_command_type (to_owned c) ≡ command_type c)
unfolding to_owned is_write command_type owned_is_write owned_command_type
to_owned_agrees ping = (refl, refl)
to_owned_agrees (get key) = (refl, refl)
to_owned_agrees (set key value t) = (refl, refl)
to_owned_agrees (del key) = (refl, refl)
to_owned_agrees (incr key) = (refl, refl)
to_owned_agrees info = (refl, refl)
to_owned_agrees db_size = (refl, refl)
to_owned_agrees (exists key) = (refl, refl)
to_owned_agrees (ttl key) = (refl, refl)
to_owned_agrees (expire key seconds) = (refl, refl)
to_owned_agrees flush_db = (refl, refl)
to_owned_agrees keys = (refl, refl)
to_owned_agrees (mget ks) = (refl, refl)
to_owned_agrees (mset pairs) = (refl, refl)
