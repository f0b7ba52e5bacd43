-- ===== src/Domain/Command.antt =====
-- domain/command.rs and domain/parsed_command.rs: the commands, owned and borrowed. A key is a
-- `String` or a byte slice; both are its bytes here, so `bytes_to_string` is the identity.
use zetdb.Prelude.{ℕ, Bool, true, false, Option, Bytes, List}

pub data Command : Type 0 where
  ping : Command
  get : Bytes → Command
  set : Bytes → Bytes → Option ℕ → Command
  del : Bytes → Command
  incr : Bytes → Command
  info : Command
  db_size : Command
  exists : Bytes → Command
  ttl : Bytes → Command
  expire : Bytes → ℕ → Command
  flush_db : Command
  keys : Command
  mget : List Bytes → Command
  mset : List (Bytes × Bytes) → Command

-- observability/metrics.rs: the index of a command in the counters.
pub data CommandType : Type 0 where
  ping get set del incr info db_size exists ttl expire flush_db keys mget mset : CommandType

unfoldable pub is_write : Command → Bool
is_write (set _ _ _) = true
is_write (del _) = true
is_write (incr _) = true
is_write (expire _ _) = true
is_write flush_db = true
is_write (mset _) = true
is_write _ = false

unfoldable pub command_type : Command → CommandType
command_type ping = CommandType.ping
command_type (get _) = CommandType.get
command_type (set _ _ _) = CommandType.set
command_type (del _) = CommandType.del
command_type (incr _) = CommandType.incr
command_type info = CommandType.info
command_type db_size = CommandType.db_size
command_type (exists _) = CommandType.exists
command_type (ttl _) = CommandType.ttl
command_type (expire _ _) = CommandType.expire
command_type flush_db = CommandType.flush_db
command_type keys = CommandType.keys
command_type (mget _) = CommandType.mget
command_type (mset _) = CommandType.mset
