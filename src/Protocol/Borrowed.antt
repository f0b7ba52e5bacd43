-- ===== src/Protocol/Borrowed.antt =====
-- protocol/parser_borrowed.rs: the parser of inline commands that borrows from the buffer. Its
-- commands are a `Command`, and its results a `FrameResult`, which have the same cases.
pub mod Messages
pub mod Reference
pub mod Words
pub mod Agreement
pub mod Lines
pub mod Owned
use zetdb.Prelude.{
  ℕ, zero, suc, ◌+◌, ◌*◌, ◌-◌, ◌%◌, ◌^◌, Bool, true, false, ◌&&◌, Option, none, some, List, [], ◌∷◌,
  Bytes, length, take, is_empty, get_elem?, ltb, ◌==◌, if◌then◌else◌,
}
use zetdb.Bytes.{codes, is_ascii_digit}
use zetdb.Bytes.Utf8.{from_utf8_lossy}
use zetdb.Domain.Errors.{Result, ok, err}
use zetdb.Domain.Value.{from_secs}
use zetdb.Domain.Command.{Command}
use zetdb.Protocol.Memchr.{Memchr2}
use zetdb.Protocol.Scan.{
  ParseError, unknown_command, FrameResult, complete, incomplete, skip, trim, split_first_word,
  eq_ignore_ascii_case,
}
use zetdb.Protocol.Resp.Messages.{expire_usage}
use zetdb.Protocol.Inline.{refuse, with_pair}
use zetdb.Protocol.Inline.Messages.{one_key_usage, takes_no_arguments}
use Messages.{command_usage, set_two, set_four, expire_positive, mget_one, mset_two, mset_even}

-- The loop of `parse_u64_ascii`: it wraps around in a release build.
unfoldable pub ascii_digits : ℕ → Bytes → Option ℕ
ascii_digits n [] = some n
ascii_digits n (b ∷ s) =
    let rest = ascii_digits ((n * 10 + (b - b'0')) % 2 ^ 64) s in
    if is_ascii_digit b then rest else none

unfoldable pub parse_u64_ascii : Bytes → Option ℕ
unfolding ascii_digits
parse_u64_ascii [] = none
parse_u64_ascii (b ∷ s) = ascii_digits 0 (b ∷ s)

abbrev pub in_secs : Option ℕ → Option ℕ
in_secs none = none
in_secs (some n) = some (from_secs n)

unfoldable pub parse_single_key_borrowed :
    Bytes → (Bytes → Command) → Bytes → Result Command ParseError
parse_single_key_borrowed usage make rest0 =
    let rest = trim rest0 in
    let (key, trailing) = split_first_word rest in
    if is_empty rest
    then refuse usage
    else if is_empty (trim trailing)
    then ok (make key)
    else refuse usage

-- These three are written out in the source, each with the body of `parse_single_key_borrowed`.
abbrev pub parse_get_borrowed : Bytes → Result Command ParseError
parse_get_borrowed = parse_single_key_borrowed (one_key_usage (codes "GET")) Command.get

abbrev pub parse_del_borrowed : Bytes → Result Command ParseError
parse_del_borrowed = parse_single_key_borrowed (one_key_usage (codes "DEL")) Command.del

abbrev pub parse_incr_borrowed : Bytes → Result Command ParseError
parse_incr_borrowed = parse_single_key_borrowed (one_key_usage (codes "INCR")) Command.incr

-- The word behind the value is the number of seconds; what is no number is no time to live.
unfoldable pub parse_set_borrowed : Bytes → Result Command ParseError
parse_set_borrowed rest0 =
    let rest = trim rest0 in
    let (key, rest1) = split_first_word rest in
    let value_part = trim rest1 in
    let (value, rest2) = split_first_word value_part in
    let trailing = trim rest2 in
    let (ttl_str, after_ttl) = split_first_word trailing in
    if is_empty rest
    then refuse set_two
    else if is_empty key
    then refuse set_two
    else if is_empty value_part
    then refuse set_two
    else if is_empty trailing
    then ok (Command.set key value none)
    else if is_empty (trim after_ttl)
    then ok (Command.set key value (in_secs (parse_u64_ascii ttl_str)))
    else refuse set_four

abbrev pub expire_seconds_of : Bytes → Option ℕ → Result Command ParseError
expire_seconds_of key none = refuse expire_positive
expire_seconds_of key (some n) = ok (Command.expire key n)

-- All that stands behind the key is the number.
unfoldable pub parse_expire_borrowed : Bytes → Result Command ParseError
parse_expire_borrowed rest0 =
    let rest = trim rest0 in
    let (key, rest1) = split_first_word rest in
    let seconds_part = trim rest1 in
    if is_empty rest
    then refuse expire_usage
    else if is_empty seconds_part
    then refuse expire_usage
    else expire_seconds_of key (parse_u64_ascii seconds_part)

-- The loop of `parse_mget_borrowed`. A round takes a byte at least: the length is enough fuel.
unfoldable pub mget_words_loop : ℕ → Bytes → List Bytes
mget_words_loop zero remaining = []
mget_words_loop (suc fuel) remaining =
    let (key, trailing) = split_first_word remaining in
    let more = mget_words_loop fuel (trim trailing) in
    if is_empty remaining then [] else if is_empty key then more else key ∷ more

unfoldable pub parse_mget_borrowed : Bytes → Result Command ParseError
parse_mget_borrowed rest0 =
    let rest = trim rest0 in
    let keys = mget_words_loop (length rest) rest in
    if is_empty rest
    then refuse mget_one
    else if is_empty keys
    then refuse mget_one
    else ok (Command.mget keys)

-- The loop of `parse_mset_borrowed`.
unfoldable pub mset_words_loop : ℕ → Bytes → Result (List (Bytes × Bytes)) ParseError
mset_words_loop zero remaining = ok []
mset_words_loop (suc fuel) remaining =
    let (key, rest) = split_first_word remaining in
    let values = trim rest in
    let (value, trailing) = split_first_word values in
    let more = mset_words_loop fuel (trim trailing) in
    if is_empty remaining
    then ok []
    else if is_empty key
    then ok []
    else if is_empty values
    then refuse mset_even
    else with_pair (key, value) more

abbrev pub mset_of : Result (List (Bytes × Bytes)) ParseError → Result Command ParseError
mset_of (err e) = err e
mset_of (ok []) = refuse mset_two
mset_of (ok (p ∷ ps)) = ok (Command.mset (p ∷ ps))

unfoldable pub parse_mset_borrowed : Bytes → Result Command ParseError
parse_mset_borrowed rest0 =
    let rest = trim rest0 in
    if is_empty rest then refuse mset_two else mset_of (mset_words_loop (length rest) rest)

abbrev pub without_arguments : Bytes → Command → Bytes → Result Command ParseError
without_arguments name command rest =
    if is_empty (trim rest) then ok command else refuse (takes_no_arguments name)

-- The switch on the verb.
unfoldable pub verb_borrowed : Bytes → Bytes → Result Command ParseError
unfolding parse_single_key_borrowed parse_set_borrowed parse_expire_borrowed parse_mget_borrowed
    parse_mset_borrowed
verb_borrowed verb rest =
    if eq_ignore_ascii_case verb (codes "GET")
    then parse_get_borrowed rest
    else if eq_ignore_ascii_case verb (codes "SET")
    then parse_set_borrowed rest
    else if eq_ignore_ascii_case verb (codes "PING")
    then ok Command.ping
    else if eq_ignore_ascii_case verb (codes "DEL")
    then parse_del_borrowed rest
    else if eq_ignore_ascii_case verb (codes "INCR")
    then parse_incr_borrowed rest
    else if eq_ignore_ascii_case verb (codes "INFO")
    then ok Command.info
    else if eq_ignore_ascii_case verb (codes "DBSIZE")
    then ok Command.db_size
    else if eq_ignore_ascii_case verb (codes "EXISTS")
    then parse_single_key_borrowed command_usage Command.exists rest
    else if eq_ignore_ascii_case verb (codes "TTL")
    then parse_single_key_borrowed command_usage Command.ttl rest
    else if eq_ignore_ascii_case verb (codes "EXPIRE")
    then parse_expire_borrowed rest
    else if eq_ignore_ascii_case verb (codes "FLUSHDB")
    then without_arguments (codes "FLUSHDB") Command.flush_db rest
    else if eq_ignore_ascii_case verb (codes "KEYS")
    then without_arguments (codes "KEYS") Command.keys rest
    else if eq_ignore_ascii_case verb (codes "MGET")
    then parse_mget_borrowed rest
    else if eq_ignore_ascii_case verb (codes "MSET")
    then parse_mset_borrowed rest
    else err (unknown_command (from_utf8_lossy verb))

abbrev pub consuming : ℕ → Result Command ParseError → Result FrameResult ParseError
consuming command_end (ok c) = ok (complete command_end c)
consuming command_end (err e) = err e

-- The line of `pos` bytes.
unfoldable pub line_borrowed : ℕ → Bytes → Result FrameResult ParseError
unfolding verb_borrowed
line_borrowed pos buf =
    let input = trim (take pos buf) in
    let (verb, rest) = split_first_word input in
    if is_empty input then ok (skip (pos + 2)) else consuming (pos + 2) (verb_borrowed verb rest)

-- `s[p] == b`
abbrev pub byte_is : ℕ → Bytes → ℕ → Bool
byte_is b s p = elim (get_elem? s p) [ none ↦ false | some c ↦ c == b ]

module _ (M : Memchr2) where
  unfoldable pub parse_inline_borrowed : Bytes → Result FrameResult ParseError
  unfolding line_borrowed
  parse_inline_borrowed buf = elim (M.memchr2 b'\r' b'\n' buf) [
    | none ↦ ok incomplete
    | some p ↦
        if ltb (p + 1) (length buf) && byte_is b'\r' buf p && byte_is b'\n' buf (p + 1)
        then line_borrowed p buf
        else if byte_is b'\n' buf p
        then line_borrowed (p - 1) buf
        else ok incomplete
  ]
