-- ===== src/Protocol/Borrowed/Reference.antt =====
-- protocol/parser_borrowed.rs: the reference, a command from the words of its line.
use zetdb.Prelude.{ℕ, none, List, [], ◌∷◌, Bytes, is_empty, if◌then◌else◌}
use zetdb.Bytes.{codes}
use zetdb.Bytes.Utf8.{from_utf8_lossy}
use zetdb.Domain.Errors.{Result, ok, err}
use zetdb.Domain.Command.{Command}
use zetdb.Protocol.Scan.{ParseError, unknown_command, FrameResult, skip, eq_ignore_ascii_case}
use zetdb.Protocol.Resp.Messages.{expire_usage}
use zetdb.Protocol.Inline.{refuse, with_pair}
use zetdb.Protocol.Inline.Messages.{one_key_usage, takes_no_arguments}
use zetdb.Protocol.Borrowed.{parse_u64_ascii, in_secs, expire_seconds_of, mset_of, consuming}
use zetdb.Protocol.Borrowed.Messages.{
  command_usage, set_two, set_four, expire_positive, mget_one, mset_even,
}

abbrev pub one_word : Bytes → (Bytes → Command) → List Bytes → Result Command ParseError
one_word usage make (k ∷ []) = ok (make k)
one_word usage make _ = refuse usage

abbrev pub set_of : List Bytes → Result Command ParseError
set_of [] = refuse set_two
set_of (k ∷ []) = refuse set_two
set_of (k ∷ v ∷ []) = ok (Command.set k v none)
set_of (k ∷ v ∷ t ∷ []) = ok (Command.set k v (in_secs (parse_u64_ascii t)))
set_of (k ∷ v ∷ t ∷ w ∷ ws) = refuse set_four

abbrev pub expire_of : List Bytes → Result Command ParseError
expire_of [] = refuse expire_usage
expire_of (k ∷ []) = refuse expire_usage
expire_of (k ∷ n ∷ []) = expire_seconds_of k (parse_u64_ascii n)
expire_of (k ∷ n ∷ w ∷ ws) = refuse expire_positive

abbrev pub mget_of : List Bytes → Result Command ParseError
mget_of [] = refuse mget_one
mget_of (k ∷ ks) = ok (Command.mget (k ∷ ks))

abbrev pub pairs_or_odd : List Bytes → Result (List (Bytes × Bytes)) ParseError
pairs_or_odd [] = ok []
pairs_or_odd (k ∷ []) = refuse mset_even
pairs_or_odd (k ∷ v ∷ ws) = with_pair (k, v) (pairs_or_odd ws)

abbrev pub none_of : Bytes → Command → List Bytes → Result Command ParseError
none_of name c ws = if is_empty ws then ok c else refuse (takes_no_arguments name)

-- The reference: the verb, and then its words.
abbrev pub command_of : Bytes → List Bytes → Result Command ParseError
command_of verb ws =
    if eq_ignore_ascii_case verb (codes "GET")
    then one_word (one_key_usage (codes "GET")) Command.get ws
    else if eq_ignore_ascii_case verb (codes "SET")
    then set_of ws
    else if eq_ignore_ascii_case verb (codes "PING")
    then ok Command.ping
    else if eq_ignore_ascii_case verb (codes "DEL")
    then one_word (one_key_usage (codes "DEL")) Command.del ws
    else if eq_ignore_ascii_case verb (codes "INCR")
    then one_word (one_key_usage (codes "INCR")) Command.incr ws
    else if eq_ignore_ascii_case verb (codes "INFO")
    then ok Command.info
    else if eq_ignore_ascii_case verb (codes "DBSIZE")
    then ok Command.db_size
    else if eq_ignore_ascii_case verb (codes "EXISTS")
    then one_word command_usage Command.exists ws
    else if eq_ignore_ascii_case verb (codes "TTL")
    then one_word command_usage Command.ttl ws
    else if eq_ignore_ascii_case verb (codes "EXPIRE")
    then expire_of ws
    else if eq_ignore_ascii_case verb (codes "FLUSHDB")
    then none_of (codes "FLUSHDB") Command.flush_db ws
    else if eq_ignore_ascii_case verb (codes "KEYS")
    then none_of (codes "KEYS") Command.keys ws
    else if eq_ignore_ascii_case verb (codes "MGET")
    then mget_of ws
    else if eq_ignore_ascii_case verb (codes "MSET")
    then mset_of (pairs_or_odd ws)
    else err (unknown_command (from_utf8_lossy verb))

-- A line of these words, whose command ends at `command_end`.
abbrev pub line_of_words : ℕ → List Bytes → Result FrameResult ParseError
line_of_words command_end [] = ok (skip command_end)
line_of_words command_end (verb ∷ ws) = consuming command_end (command_of verb ws)
