-- ===== src/Protocol/Borrowed/Messages.antt =====
-- protocol/parser_borrowed.rs: the texts of the errors.
use zetdb.Prelude.{Bytes}
use zetdb.Bytes.{codes}

-- EXISTS and TTL.
pub command_usage : Bytes
command_usage = codes "Command requires exactly 1 argument"

pub set_two : Bytes
set_two = codes "SET requires at least 2 arguments: SET <key> <value>"

pub set_four : Bytes
set_four = codes "SET requires at most 4 arguments: SET <key> <value> [EX <seconds>]"

pub expire_positive : Bytes
expire_positive = codes "EXPIRE: seconds must be a positive integer"

pub mget_one : Bytes
mget_one = codes "MGET requires at least 1 key"

pub mset_two : Bytes
mset_two = codes "MSET requires at least 2 arguments: MSET <key> <value>"

pub mset_even : Bytes
mset_even = codes "MSET requires even number of arguments"
