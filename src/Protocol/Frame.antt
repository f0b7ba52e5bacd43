-- ===== src/Protocol/Frame.antt =====
-- protocol/parser.rs: `parse_resp_frame`. The source carries the buffer and a position; a `Frame` is a
-- step over both, which returns a value and the next position, finds the buffer incomplete, or fails.
-- `do` chains the steps as the source does by its early returns.
mod Kept
mod Steady
mod Arguments
pub mod Whole
pub mod Wire
pub mod Client
mod Reads
pub mod RoundTrip
use zetdb.Prelude.{
  ℕ, zero, suc, ◌+◌, ◌-◌, ◌/◌, ◌%◌, Bool, true, false, ◌||◌, not, Option, none, some, List, [], ◌∷◌,
  Bytes, drop, ltb, leb, ◌==◌, if◌then◌else◌,
}
use zetdb.Prelude.Int.{ℤ, pos, negsuc}
use zetdb.Bytes.{codes}
use zetdb.Bytes.Decimal.{parse_u64}
use zetdb.Bytes.Utf8.{from_utf8_lossy}
use zetdb.Domain.Errors.{Result, ok, err}
use zetdb.Domain.Value.{from_secs, from_millis}
use zetdb.Domain.Command.{Command}
use zetdb.Protocol.Memchr.{Memchr}
use zetdb.Protocol.Scan.{
  ParseError, empty_command, unknown_command, syntax_error, FrameResult, complete,
  eq_ignore_ascii_case,
}
use zetdb.Protocol.Resp.{read_resp_line_int, read_resp_bulk}
use zetdb.Protocol.Resp.Messages.{
  null_array, array_too_large, get_usage, set_usage, set_ex_integer, set_px_integer,
  set_unknown_option, del_usage, incr_usage, exists_usage, ttl_usage, expire_usage, expire_seconds,
  mget_usage, mset_usage,
}

pub data Step (A : Type 0) : Type 0 where
  done : A → ℕ → Step A
  incomplete : Step A
  fails : ParseError → Step A

abbrev pub Frame : Type 0 → Type 0
Frame A = Bytes → ℕ → Step A

module _ {A : Type 0} where
  unfoldable pub pure : A → Frame A
  pure a buf p = done a p

  unfoldable pub fail : ParseError → Frame A
  fail e buf p = fails e

  abbrev pub lift : Result A ParseError → Frame A
  lift (ok a) = pure a
  lift (err e) = fail e

module _ {A B : Type 0} where
  infixl 5 ◌>>=◌
  unfoldable pub ◌>>=◌ : Frame A → (A → Frame B) → Frame B
  ◌>>=◌ m f buf p = elim (m buf p) [
    | done a p' ↦ f a buf p'
    | incomplete ↦ incomplete
    | fails e ↦ fails e
  ]

infixl 5 ◌>>◌
abbrev pub ◌>>◌ : {B : Type 0} → Frame (Unit {0}) → Frame B → Frame B
m >> k = m >>= λ _. k

-- A reader at the position: `reader(&buf[pos..])?`, and `pos += n`.
unfoldable pub step_of : {A : Type 0} → ℕ → Result (Option (A × ℕ)) ParseError → Step A
step_of p (ok none) = incomplete
step_of p (ok (some (a, n))) = done a (p + n)
step_of p (err e) = fails e

unfoldable pub at_position : {A : Type 0} → (Bytes → Result (Option (A × ℕ)) ParseError) → Frame A
unfolding step_of
at_position reader buf p = step_of p (reader (drop p buf))

abbrev pub number_or : Bytes → (ℕ → Option ℕ) → Option ℕ → Result (Option ℕ) ParseError
number_or message unit none = err (syntax_error message)
number_or message unit (some n) = ok (unit n)

-- The option of SET: `EX` with seconds or `PX` with milliseconds.
unfoldable pub ttl_option : Bytes → Bytes → Result (Option ℕ) ParseError
ttl_option opt value =
    if eq_ignore_ascii_case opt (codes "EX")
    then number_or set_ex_integer (λ n. some (from_secs n)) (parse_u64 value)
    else if eq_ignore_ascii_case opt (codes "PX")
    then number_or set_px_integer (λ n. some (from_millis n)) (parse_u64 value)
    else err (syntax_error (set_unknown_option (from_utf8_lossy opt)))

-- The number of elements, within its bounds.
unfoldable pub checked_count : ℤ → Frame ℕ
checked_count (negsuc n) = fail (syntax_error null_array)
checked_count (pos n) =
    if ltb 1024 n
    then fail (syntax_error array_too_large)
    else if n == 0
    then fail empty_command
    else pure n

module _ (M : Memchr) where
  unfoldable pub header : Frame ℤ
  header = at_position (λ buf. read_resp_line_int M buf b'*')

  unfoldable pub bulk : Frame Bytes
  bulk = at_position (read_resp_bulk M)

  -- `for _ in 0..n`: read an argument and drop it.
  unfoldable pub skip_args : ℕ → Frame (Unit {0})
  skip_args zero = pure tt
  skip_args (suc n) = do _ ← bulk; skip_args n

  unfoldable pub bulks : ℕ → Frame (List Bytes)
  bulks zero = pure []
  bulks (suc n) = do k ← bulk; ks ← bulks n; pure (k ∷ ks)

  unfoldable pub bulk_pairs : ℕ → Frame (List (Bytes × Bytes))
  bulk_pairs zero = pure []
  bulk_pairs (suc n) = do k ← bulk; v ← bulk; ps ← bulk_pairs n; pure ((k, v) ∷ ps)

  -- GET, DEL, INCR, EXISTS and TTL.
  unfoldable pub one_key : Bytes → (Bytes → Command) → ℕ → Frame Command
  one_key usage make args =
      if args == 1 then (do k ← bulk; pure (make k)) else fail (syntax_error usage)

  unfoldable pub set_args : ℕ → Frame Command
  set_args args = if ltb args 2 then fail (syntax_error set_usage) else (do
    k ← bulk
    v ← bulk
    if leb 2 (args - 2)
        then (do
          opt ← bulk
          value ← bulk
          ttl ← lift (ttl_option opt value)
          skip_args (args - 4)
          pure (Command.set k v ttl))
        else (do skip_args (args - 2); pure (Command.set k v none)))

  unfoldable pub expire_args : ℕ → Frame Command
  expire_args args =
      if args == 2
      then (do
        k ← bulk
        value ← bulk
        elim (parse_u64 value) [
          | none ↦ fail (syntax_error expire_seconds)
          | some n ↦ pure (Command.expire k n)
        ])
      else fail (syntax_error expire_usage)

  unfoldable pub mget_args : ℕ → Frame Command
  mget_args args =
      if ltb args 1
      then fail (syntax_error mget_usage)
      else (do ks ← bulks args; pure (Command.mget ks))

  unfoldable pub mset_args : ℕ → Frame Command
  mset_args args =
      if ltb args 2 || not (args % 2 == 0)
      then fail (syntax_error mset_usage)
      else (do ps ← bulk_pairs (args / 2); pure (Command.mset ps))

  -- The switch on the verb.
  unfoldable pub command_args : Bytes → ℕ → Frame Command
  command_args verb args =
      if eq_ignore_ascii_case verb (codes "PING")
      then pure Command.ping
      else if eq_ignore_ascii_case verb (codes "INFO")
      then pure Command.info
      else if eq_ignore_ascii_case verb (codes "DBSIZE")
      then pure Command.db_size
      else if eq_ignore_ascii_case verb (codes "GET")
      then one_key get_usage Command.get args
      else if eq_ignore_ascii_case verb (codes "SET")
      then set_args args
      else if eq_ignore_ascii_case verb (codes "DEL")
      then one_key del_usage Command.del args
      else if eq_ignore_ascii_case verb (codes "INCR")
      then one_key incr_usage Command.incr args
      else if eq_ignore_ascii_case verb (codes "EXISTS")
      then one_key exists_usage Command.exists args
      else if eq_ignore_ascii_case verb (codes "TTL")
      then one_key ttl_usage Command.ttl args
      else if eq_ignore_ascii_case verb (codes "EXPIRE")
      then expire_args args
      else if eq_ignore_ascii_case verb (codes "FLUSHDB")
      then pure Command.flush_db
      else if eq_ignore_ascii_case verb (codes "KEYS")
      then pure Command.keys
      else if eq_ignore_ascii_case verb (codes "MGET")
      then mget_args args
      else if eq_ignore_ascii_case verb (codes "MSET")
      then mset_args args
      else fail (unknown_command verb)

  unfoldable pub frame : Frame Command
  frame = do count ← header; n ← checked_count count; verb ← bulk; command_args verb (n - 1)

abbrev pub frame_result : Step Command → Result FrameResult ParseError
frame_result (done c p) = ok (complete p c)
frame_result incomplete = ok FrameResult.incomplete
frame_result (fails e) = err e

unfoldable pub parse_resp_frame : Memchr → Bytes → Result FrameResult ParseError
parse_resp_frame M buf = frame_result (frame M buf 0)
