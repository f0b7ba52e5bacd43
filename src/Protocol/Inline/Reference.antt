-- ===== src/Protocol/Inline/Reference.antt =====
-- The reference of the inline parser: a command from the words of its line.
use zetdb.Prelude.{ℕ, Option, none, List, [], ◌∷◌, Bytes, is_empty, if◌then◌else◌}
use zetdb.Bytes.{codes}
use zetdb.Bytes.Decimal.{parse_u64}
use zetdb.Bytes.Utf8.{from_utf8_lossy}
use zetdb.Domain.Errors.{Result, ok, err}
use zetdb.Domain.Value.{from_secs, from_millis}
use zetdb.Domain.Command.{Command}
use zetdb.Protocol.Scan.{ParseError, empty_command, unknown_command, eq_ignore_ascii_case}
use zetdb.Protocol.Resp.Messages.{set_unknown_option, expire_usage, mget_usage}
use zetdb.Protocol.Inline.{refuse, ttl_number, set_with, expire_with, with_pair, mset_with}
use zetdb.Protocol.Inline.Messages.{
  one_key_usage, takes_no_arguments, set_inline_usage, ex_extra, px_extra, ex_integer, px_integer,
  expire_extra, mset_unmatched,
}

abbrev pub single_key : Bytes → (Bytes → Command) → List Bytes → Result Command ParseError
single_key name make (k ∷ []) = ok (make k)
single_key name make _ = refuse (one_key_usage name)

-- The number behind EX or PX; no number reads as an empty one.
abbrev pub ttl_value : Bytes → Bytes → (ℕ → ℕ) → List Bytes → Result (Option ℕ) ParseError
ttl_value extra message unit [] = ttl_number message unit (parse_u64 [])
ttl_value extra message unit (n ∷ []) = ttl_number message unit (parse_u64 n)
ttl_value extra message unit (n ∷ w ∷ ws) = refuse extra

abbrev pub ttl_words : Bytes → List Bytes → Result (Option ℕ) ParseError
ttl_words opt args =
    if eq_ignore_ascii_case opt (codes "EX")
    then ttl_value ex_extra ex_integer from_secs args
    else if eq_ignore_ascii_case opt (codes "PX")
    then ttl_value px_extra px_integer from_millis args
    else refuse (set_unknown_option (from_utf8_lossy opt))

abbrev pub set_words : List Bytes → Result Command ParseError
set_words [] = refuse set_inline_usage
set_words (k ∷ []) = refuse set_inline_usage
set_words (k ∷ v ∷ []) = ok (Command.set k v none)
set_words (k ∷ v ∷ opt ∷ args) = set_with k v (ttl_words opt args)

abbrev pub expire_words : List Bytes → Result Command ParseError
expire_words [] = refuse expire_usage
expire_words (k ∷ []) = refuse expire_usage
expire_words (k ∷ n ∷ []) = expire_with k (parse_u64 n)
expire_words (k ∷ n ∷ w ∷ ws) = refuse expire_extra

abbrev pub mget_words : List Bytes → Result Command ParseError
mget_words [] = refuse mget_usage
mget_words (k ∷ ks) = ok (Command.mget (k ∷ ks))

abbrev pub pairs_of : List Bytes → Result (List (Bytes × Bytes)) ParseError
pairs_of [] = ok []
pairs_of (k ∷ []) = refuse mset_unmatched
pairs_of (k ∷ v ∷ ws) = with_pair (k, v) (pairs_of ws)

abbrev pub mset_words : List Bytes → Result Command ParseError
mset_words ws = mset_with (pairs_of ws)

-- The reference: the verb, and then its words.
abbrev pub verb_words : Bytes → List Bytes → Result Command ParseError
verb_words verb ws =
    if eq_ignore_ascii_case verb (codes "GET")
    then single_key (codes "GET") Command.get ws
    else if eq_ignore_ascii_case verb (codes "SET")
    then set_words ws
    else if eq_ignore_ascii_case verb (codes "PING")
    then ok Command.ping
    else if eq_ignore_ascii_case verb (codes "DEL")
    then single_key (codes "DEL") Command.del ws
    else if eq_ignore_ascii_case verb (codes "INCR")
    then single_key (codes "INCR") Command.incr ws
    else if eq_ignore_ascii_case verb (codes "INFO")
    then ok Command.info
    else if eq_ignore_ascii_case verb (codes "DBSIZE")
    then ok Command.db_size
    else if eq_ignore_ascii_case verb (codes "EXISTS")
    then single_key (codes "EXISTS") Command.exists ws
    else if eq_ignore_ascii_case verb (codes "TTL")
    then single_key (codes "TTL") Command.ttl ws
    else if eq_ignore_ascii_case verb (codes "EXPIRE")
    then expire_words ws
    else if eq_ignore_ascii_case verb (codes "FLUSHDB")
    then (if is_empty ws
        then ok Command.flush_db
        else refuse (takes_no_arguments (codes "FLUSHDB")))
    else if eq_ignore_ascii_case verb (codes "KEYS")
    then (if is_empty ws then ok Command.keys else refuse (takes_no_arguments (codes "KEYS")))
    else if eq_ignore_ascii_case verb (codes "MGET")
    then mget_words ws
    else if eq_ignore_ascii_case verb (codes "MSET")
    then mset_words ws
    else err (unknown_command (from_utf8_lossy verb))

abbrev pub parse_words : List Bytes → Result Command ParseError
parse_words [] = err empty_command
parse_words (verb ∷ ws) = verb_words verb ws
