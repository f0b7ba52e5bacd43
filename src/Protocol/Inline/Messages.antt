-- ===== src/Protocol/Inline/Messages.antt =====
-- protocol/parser.rs: the texts of the errors of the inline parser.
use zetdb.Prelude.{Bytes, ◌++◌}
use zetdb.Bytes.{codes}

-- GET, DEL, INCR, EXISTS and TTL.
pub one_key_usage : Bytes → Bytes
one_key_usage name = name ++ (codes " requires exactly 1 argument: " ++ (name ++ codes " <key>"))

pub takes_no_arguments : Bytes → Bytes
takes_no_arguments name = name ++ codes " takes no arguments"

pub set_inline_usage : Bytes
set_inline_usage =
    codes "SET requires at least 2 arguments: SET <key> <value> [EX seconds | PX millis]"

pub ex_extra : Bytes
ex_extra = codes "SET EX: unexpected extra arguments"

pub px_extra : Bytes
px_extra = codes "SET PX: unexpected extra arguments"

pub ex_integer : Bytes
ex_integer = codes "SET EX: expected integer seconds"

pub px_integer : Bytes
px_integer = codes "SET PX: expected integer milliseconds"

pub expire_extra : Bytes
expire_extra = codes "EXPIRE requires exactly 2 arguments: EXPIRE <key> <seconds>"

pub mset_inline_usage : Bytes
mset_inline_usage = codes "MSET requires at least 2 arguments: MSET <key> <value> [key value ...]"

pub mset_unmatched : Bytes
mset_unmatched = codes "MSET requires matching key-value pairs"
