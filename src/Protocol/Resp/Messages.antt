-- ===== src/Protocol/Resp/Messages.antt =====
-- protocol/parser.rs: the texts of the errors of the RESP parser.
use zetdb.Prelude.{ℕ, ◌+◌, ◌/◌, ◌%◌, Bytes, [], ◌∷◌, ◌++◌, ltb, if◌then◌else◌}
use zetdb.Bytes.{codes}

-- `b as char`, in UTF-8.
byte_char : ℕ → Bytes
byte_char b = if ltb b 128 then b ∷ [] else (192 + b / 64) ∷ (128 + b % 64) ∷ []

pub expected_prefix : ℕ → ℕ → Bytes
expected_prefix prefix b =
    codes "RESP: expected '"
    ++ (byte_char prefix ++ (codes "', got '" ++ (byte_char b ++ codes "'")))

pub empty_integer : Bytes
empty_integer = codes "RESP: empty integer"

pub invalid_negative : Bytes
invalid_negative = codes "RESP: invalid negative integer"

pub expected_integer : Bytes
expected_integer = codes "RESP: expected integer"

pub null_array : Bytes
null_array = codes "RESP: null array"

pub array_too_large : Bytes
array_too_large = codes "RESP: array too large"

pub get_usage : Bytes
get_usage = codes "GET requires exactly 1 argument: GET <key>"

pub set_usage : Bytes
set_usage = codes "SET requires at least 2 arguments: SET <key> <value> [EX sec | PX ms]"

pub set_ex_integer : Bytes
set_ex_integer = codes "SET EX: expected integer"

pub set_px_integer : Bytes
set_px_integer = codes "SET PX: expected integer"

pub set_unknown_option : Bytes → Bytes
set_unknown_option opt = codes "SET: unknown option '" ++ (opt ++ codes "'")

pub del_usage : Bytes
del_usage = codes "DEL requires exactly 1 argument: DEL <key>"

pub incr_usage : Bytes
incr_usage = codes "INCR requires exactly 1 argument: INCR <key>"

pub exists_usage : Bytes
exists_usage = codes "EXISTS requires exactly 1 argument: EXISTS <key>"

pub ttl_usage : Bytes
ttl_usage = codes "TTL requires exactly 1 argument: TTL <key>"

pub expire_usage : Bytes
expire_usage = codes "EXPIRE requires 2 arguments: EXPIRE <key> <seconds>"

pub expire_seconds : Bytes
expire_seconds = codes "EXPIRE: seconds must be a positive integer"

pub mget_usage : Bytes
mget_usage = codes "MGET requires at least 1 argument: MGET <key> [key ...]"

pub mset_usage : Bytes
mset_usage = codes "MSET requires matching key-value pairs: MSET <key> <value> [key value ...]"
