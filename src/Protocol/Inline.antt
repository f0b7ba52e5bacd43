-- ===== src/Protocol/Inline.antt =====
-- protocol/parser.rs: the inline commands, `parse_bytes` and its helpers, and the choice between the
-- protocols, `try_parse_frame`.
pub mod Messages
pub mod Words
pub mod Reference
pub mod Agreement
pub mod RoundTrip
pub mod Buffered
use zetdb.Prelude.{
  ℕ, zero, suc, ◌+◌, Bool, true, false, Option, none, some, List, [], ◌∷◌, Bytes, length, take,
  is_empty, ◌==◌, if◌then◌else◌,
}
use zetdb.Bytes.{codes}
use zetdb.Bytes.Decimal.{parse_u64}
use zetdb.Bytes.Utf8.{from_utf8_lossy}
use zetdb.Domain.Errors.{Result, ok, err}
use zetdb.Domain.Value.{from_secs, from_millis}
use zetdb.Domain.Command.{Command}
use zetdb.Protocol.Memchr.{Memchr}
use zetdb.Protocol.Scan.{
  ParseError, empty_command, unknown_command, syntax_error, FrameResult, complete, incomplete, skip,
  trim, split_first_word, eq_ignore_ascii_case,
}
use zetdb.Protocol.Resp.Messages.{set_unknown_option, expire_usage, expire_seconds, mget_usage}
use zetdb.Protocol.Frame.{parse_resp_frame}
use Messages.{
  one_key_usage, takes_no_arguments, set_inline_usage, ex_extra, px_extra, ex_integer, px_integer,
  expire_extra, mset_inline_usage, mset_unmatched,
}

abbrev pub refuse : {A : Type 0} → Bytes → Result A ParseError
refuse message = err (syntax_error message)

unfoldable pub parse_single_key_bytes :
    Bytes → (Bytes → Command) → Bytes → Result Command ParseError
parse_single_key_bytes name make rest0 =
    let rest = trim rest0 in
    let (key, trailing) = split_first_word rest in
    if is_empty rest
    then refuse (one_key_usage name)
    else if is_empty (trim trailing)
    then ok (make key)
    else refuse (one_key_usage name)

-- These three are written out in the source, each with the body of `parse_single_key_bytes`.
abbrev pub parse_get_bytes : Bytes → Result Command ParseError
parse_get_bytes = parse_single_key_bytes (codes "GET") Command.get

abbrev pub parse_del_bytes : Bytes → Result Command ParseError
parse_del_bytes = parse_single_key_bytes (codes "DEL") Command.del

abbrev pub parse_incr_bytes : Bytes → Result Command ParseError
parse_incr_bytes = parse_single_key_bytes (codes "INCR") Command.incr

abbrev pub ttl_number : Bytes → (ℕ → ℕ) → Option ℕ → Result (Option ℕ) ParseError
ttl_number message unit none = refuse message
ttl_number message unit (some n) = ok (some (unit n))

unfoldable pub parse_ttl_option : Bytes → Result (Option ℕ) ParseError
parse_ttl_option input =
    let (opt, rest) = split_first_word input in
    let (val, trailing) = split_first_word (trim rest) in
    if eq_ignore_ascii_case opt (codes "EX")
    then (if is_empty (trim trailing)
        then ttl_number ex_integer from_secs (parse_u64 val)
        else refuse ex_extra)
    else if eq_ignore_ascii_case opt (codes "PX")
    then (if is_empty (trim trailing)
        then ttl_number px_integer from_millis (parse_u64 val)
        else refuse px_extra)
    else refuse (set_unknown_option (from_utf8_lossy opt))

abbrev pub set_with : Bytes → Bytes → Result (Option ℕ) ParseError → Result Command ParseError
set_with key value (ok ttl) = ok (Command.set key value ttl)
set_with key value (err e) = err e

unfoldable pub parse_set_bytes : Bytes → Result Command ParseError
unfolding parse_ttl_option
parse_set_bytes rest0 =
    let rest = trim rest0 in
    let (key, rest1) = split_first_word rest in
    let rest2 = trim rest1 in
    let (value, rest3) = split_first_word rest2 in
    let trailing = trim rest3 in
    if is_empty rest
    then refuse set_inline_usage
    else if is_empty key
    then refuse set_inline_usage
    else if is_empty rest2
    then refuse set_inline_usage
    else set_with key value (if is_empty trailing then ok none else parse_ttl_option trailing)

abbrev pub expire_with : Bytes → Option ℕ → Result Command ParseError
expire_with key none = refuse expire_seconds
expire_with key (some n) = ok (Command.expire key n)

unfoldable pub parse_expire_bytes : Bytes → Result Command ParseError
parse_expire_bytes rest0 =
    let rest = trim rest0 in
    let (key, rest1) = split_first_word rest in
    let rest2 = trim rest1 in
    let (secs, trailing) = split_first_word rest2 in
    if is_empty rest
    then refuse expire_usage
    else if is_empty key
    then refuse expire_usage
    else if is_empty rest2
    then refuse expire_usage
    else if is_empty (trim trailing)
    then expire_with key (parse_u64 secs)
    else refuse expire_extra

-- The loop of `parse_mget_bytes`. A round takes a byte at least: the length is enough fuel.
unfoldable pub mget_loop : ℕ → Bytes → List Bytes
mget_loop zero remaining = []
mget_loop (suc fuel) remaining =
    let s = trim remaining in
    let (key, rest) = split_first_word s in
    let more = mget_loop fuel rest in if is_empty s then [] else key ∷ more

unfoldable pub parse_mget_bytes : Bytes → Result Command ParseError
parse_mget_bytes rest0 =
    let rest = trim rest0 in
    let keys = mget_loop (length rest) rest in
    if is_empty rest
    then refuse mget_usage
    else if is_empty keys
    then refuse mget_usage
    else ok (Command.mget keys)

abbrev pub with_pair :
    Bytes × Bytes
    → Result (List (Bytes × Bytes)) ParseError
    → Result (List (Bytes × Bytes)) ParseError
with_pair p (ok ps) = ok (p ∷ ps)
with_pair p (err e) = err e

-- The loop of `parse_mset_bytes`.
unfoldable pub mset_loop : ℕ → Bytes → Result (List (Bytes × Bytes)) ParseError
mset_loop zero remaining = ok []
mset_loop (suc fuel) remaining =
    let s = trim remaining in
    let (key, rest) = split_first_word s in
    let s' = trim rest in
    let (value, rest') = split_first_word s' in
    let more = mset_loop fuel rest' in
    if is_empty s
    then ok []
    else if is_empty key
    then ok []
    else if is_empty s'
    then refuse mset_unmatched
    else with_pair (key, value) more

abbrev pub mset_with : Result (List (Bytes × Bytes)) ParseError → Result Command ParseError
mset_with (err e) = err e
mset_with (ok []) = refuse mset_inline_usage
mset_with (ok (p ∷ ps)) = ok (Command.mset (p ∷ ps))

unfoldable pub parse_mset_bytes : Bytes → Result Command ParseError
parse_mset_bytes rest0 =
    let rest = trim rest0 in
    if is_empty rest then refuse mset_inline_usage else mset_with (mset_loop (length rest) rest)

abbrev pub no_arguments : Bytes → Command → Bytes → Result Command ParseError
no_arguments name command rest =
    if is_empty (trim rest) then ok command else refuse (takes_no_arguments name)

-- The switch on the verb.
unfoldable pub parse_verb : Bytes → Bytes → Result Command ParseError
unfolding parse_single_key_bytes parse_set_bytes parse_expire_bytes parse_mget_bytes
    parse_mset_bytes
parse_verb verb rest =
    if eq_ignore_ascii_case verb (codes "GET")
    then parse_get_bytes rest
    else if eq_ignore_ascii_case verb (codes "SET")
    then parse_set_bytes rest
    else if eq_ignore_ascii_case verb (codes "PING")
    then ok Command.ping
    else if eq_ignore_ascii_case verb (codes "DEL")
    then parse_del_bytes rest
    else if eq_ignore_ascii_case verb (codes "INCR")
    then parse_incr_bytes rest
    else if eq_ignore_ascii_case verb (codes "INFO")
    then ok Command.info
    else if eq_ignore_ascii_case verb (codes "DBSIZE")
    then ok Command.db_size
    else if eq_ignore_ascii_case verb (codes "EXISTS")
    then parse_single_key_bytes (codes "EXISTS") Command.exists rest
    else if eq_ignore_ascii_case verb (codes "TTL")
    then parse_single_key_bytes (codes "TTL") Command.ttl rest
    else if eq_ignore_ascii_case verb (codes "EXPIRE")
    then parse_expire_bytes rest
    else if eq_ignore_ascii_case verb (codes "FLUSHDB")
    then no_arguments (codes "FLUSHDB") Command.flush_db rest
    else if eq_ignore_ascii_case verb (codes "KEYS")
    then no_arguments (codes "KEYS") Command.keys rest
    else if eq_ignore_ascii_case verb (codes "MGET")
    then parse_mget_bytes rest
    else if eq_ignore_ascii_case verb (codes "MSET")
    then parse_mset_bytes rest
    else err (unknown_command (from_utf8_lossy verb))

unfoldable pub parse_bytes : Bytes → Result Command ParseError
parse_bytes input =
    let s = trim input in
    let (verb, rest) = split_first_word s in
    if is_empty s then err empty_command else parse_verb verb rest

abbrev pub inline_result : ℕ → Result Command ParseError → Result FrameResult ParseError
inline_result p (ok c) = ok (complete (p + 1) c)
inline_result p (err empty_command) = ok (skip (p + 1))
inline_result p (err (unknown_command v)) = err (unknown_command v)
inline_result p (err (syntax_error m)) = err (syntax_error m)

module _ (M : Memchr) where
  unfoldable pub try_parse_frame_inline : Bytes → Result FrameResult ParseError
  try_parse_frame_inline buf = elim (M.memchr b'\n' buf) [
    | none ↦ ok incomplete
    | some p ↦ inline_result p (parse_bytes (take p buf))
  ]

  unfoldable pub try_parse_frame : Bytes → Result FrameResult ParseError
  try_parse_frame [] = ok incomplete
  try_parse_frame (b ∷ s) =
      if b == b'*' then parse_resp_frame M (b ∷ s) else try_parse_frame_inline (b ∷ s)
