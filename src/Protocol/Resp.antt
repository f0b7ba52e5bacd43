-- ===== src/Protocol/Resp.antt =====
-- protocol/parser.rs: the RESP frames, `parse_resp_frame` and its readers. The source carries the
-- buffer and a position; a `Frame` is a step over both, which returns a value and the next position,
-- finds the buffer incomplete, or fails. `do` chains the steps as the source does by its early returns.
pub mod Messages
use zetdb.Prelude.{
  ℕ, zero, suc, ◌+◌, ◌-◌, ◌*◌, ◌/◌, ◌%◌, ◌^◌, ◌≡◌, Bool, true, false, ◌&&◌, ◌||◌, not, Option, none,
  some, List, [], ◌∷◌, ◌++◌, Bytes, length, take, drop, get_elem?, is_empty, ltb, leb, ◌==◌,
  if◌then◌else◌,
}
use zetdb.Prelude.Int.{ℤ, pos, negsuc, of_word}
use zetdb.Bytes.{codes, is_ascii_digit}
use zetdb.Bytes.Decimal.{parse_u64}
use zetdb.Bytes.Utf8.{from_utf8_lossy}
use zetdb.Domain.Errors.{Result, ok, err}
use zetdb.Domain.Value.{from_secs, from_millis}
use zetdb.Domain.Command.{Command}
use zetdb.Protocol.Memchr.{Memchr}
use zetdb.Protocol.Scan.{
  ParseError, empty_command, unknown_command, syntax_error, FrameResult, complete,
  eq_ignore_ascii_case,
}
use Messages.{
  expected_prefix, empty_integer, invalid_negative, expected_integer, null_array, array_too_large,
  get_usage, set_usage, set_ex_integer, set_px_integer, set_unknown_option, del_usage, incr_usage,
  exists_usage, ttl_usage, expire_usage, expire_seconds, mget_usage, mset_usage,
}

-- `n = n * 10 + digit` in `i64`, as a 64-bit pattern with the wrap-around of a release build; `none`
-- at a byte that is no digit.
unfoldable pub int_digits : Bytes → ℕ → Option ℕ
int_digits [] n = some n
int_digits (b ∷ s) n =
    let rest = int_digits s ((n * 10 + (b - b'0')) % 2 ^ 64) in
    if is_ascii_digit b then rest else none

abbrev signed_digits : Bool → Option ℕ → Result ℤ ParseError
signed_digits negative none = err (syntax_error expected_integer)
signed_digits negative (some w) = ok (of_word (if negative then 2 ^ 64 - w else w))

-- The number between the prefix and the end of its line.
unfoldable pub parse_int : Bytes → Result ℤ ParseError
unfolding int_digits
parse_int [] = err (syntax_error empty_integer)
parse_int (b ∷ s) =
    if b == b'-'
    then (if is_empty s
        then err (syntax_error invalid_negative)
        else signed_digits true (int_digits s 0))
    else signed_digits false (int_digits (b ∷ s) 0)

abbrev pub with_size : Result ℤ ParseError → ℕ → Result (Option (ℤ × ℕ)) ParseError
with_size (ok n) size = ok (some (n, size))
with_size (err e) size = err e

-- Where the number ends, if the line feed stands at `p`.
abbrev pub num_end : Bytes → ℕ → ℕ
num_end buf p = elim (get_elem? buf (p - 1)) [
  | none ↦ p
  | some b ↦ if ltb 0 p && b == b'\r' then p - 1 else p
]

-- `$<len>\r\n<data>\r\n`: the two bytes behind the data are passed over, whatever they are.
unfoldable pub bulk_data : Bytes → ℤ → ℕ → Option (Bytes × ℕ)
bulk_data buf (negsuc n) p = some ([], p)
bulk_data buf (pos len) p =
    if ltb (length buf) (p + len + 2) then none else some (take len (drop p buf), p + len + 2)

module _ (M : Memchr) where
  unfoldable pub read_resp_line_int : Bytes → ℕ → Result (Option (ℤ × ℕ)) ParseError
  unfolding parse_int
  read_resp_line_int [] prefix = ok none
  read_resp_line_int (b ∷ s) prefix =
      if b == prefix
      then (elim (M.memchr b'\n' (b ∷ s)) [
        | none ↦ ok none
        | some p ↦ with_size (parse_int (drop 1 (take (num_end (b ∷ s) p) (b ∷ s)))) (p + 1)
      ])
      else err (syntax_error (expected_prefix prefix b))

  unfoldable pub read_resp_bulk : Bytes → Result (Option (Bytes × ℕ)) ParseError
  unfolding bulk_data
  read_resp_bulk buf = elim (read_resp_line_int buf b'$') [
    | err e ↦ err e
    | ok none ↦ ok none
    | ok (some (len, n)) ↦ ok (bulk_data buf len n)
  ]
