-- ===== src/Bench/Compare.antt =====
-- bin/redis_compare.rs: the RESP frames that it sends, and how it reads the replies. An `isize` has 64
-- bits, and what the server sends is there to the end.
use zetdb.Prelude.{
  ℕ, zero, suc, ◌+◌, ◌%◌, ◌||◌, ◌&&◌, Bool, none, some, List, [], ◌∷◌, ◌++◌, Bytes, length, take,
  drop, is_empty, ltb, ◌==◌, if◌then◌else◌,
}
use zetdb.Prelude.Int.{ℤ, pos, negsuc}
use zetdb.Bytes.{codes, crlf, bytes_eq}
use zetdb.Bytes.Decimal.{show_nat, parse_i64}
use zetdb.Bytes.Utf8.{from_utf8_lossy}
use zetdb.Domain.Errors.{Result, ok, err}
use zetdb.Observability.Metrics.{add_word}

unfoldable pub resp_args : List Bytes → Bytes
resp_args [] = []
resp_args (arg ∷ args) = b'$' ∷ (show_nat (length arg) ++ (crlf ++ (arg ++ crlf))) ++ resp_args args

unfoldable pub resp_frame : List Bytes → Bytes
unfolding resp_args
resp_frame args = b'*' ∷ (show_nat (length args) ++ (crlf ++ resp_args args))

unfoldable pub resp_set : Bytes → Bytes → Bytes
unfolding resp_frame
resp_set key val = resp_frame (codes "SET" ∷ key ∷ val ∷ [])

unfoldable pub resp_get : Bytes → Bytes
unfolding resp_frame
resp_get key = resp_frame (codes "GET" ∷ key ∷ [])

-- What is in the buffer of 32 bytes for a key.
unfoldable pub write_key : ℕ → Bytes
write_key counter = take 32 (codes "k:" ++ show_nat counter)

-- One command of a batch; the number of bytes of the key, not its counter, is taken modulo 1000.
unfoldable pub batch_command : Bool → ℕ → Bytes
unfolding resp_set resp_get write_key
batch_command is_set counter =
    let key = write_key counter in
    if is_set then resp_set key key else resp_get (take (length key % 1000) key)

unfoldable pub build_batch : Bool → ℕ → ℕ → Bytes
unfolding batch_command
build_batch is_set zero counter = []
build_batch is_set (suc n) counter =
    batch_command is_set counter ++ build_batch is_set n (add_word counter 1)

-- `AsyncBufReadExt::read_line`, on all that the server sends: a line with its end, and what is behind it.
unfoldable pub split_line : Bytes → Bytes × Bytes
split_line [] = ([], [])
split_line (b ∷ s) = let r = split_line s in if b == b'\n' then (b ∷ [], s) else (b ∷ r.0, r.1)

-- `trim_end_matches(['\r', '\n'])`
unfoldable pub trim_end : Bytes → Bytes
trim_end [] = []
trim_end (b ∷ s) =
    let r = trim_end s in if is_empty r && (b == b'\r' || b == b'\n') then [] else b ∷ r

pub data ReadError : Type 0 where
  invalid_data unexpected_eof : ReadError

-- The data of a bulk string behind its length.
unfoldable pub read_bulk : ℤ → Bytes → Result Bytes ReadError
read_bulk (pos n) rest =
    if ltb (length rest) (n + 2) then err unexpected_eof else ok (drop (n + 2) rest)
read_bulk (negsuc n) rest = ok rest

unfoldable pub read_reply : Bytes → Bytes → Result Bytes ReadError
unfolding trim_end read_bulk
read_reply [] rest = ok rest
read_reply (b ∷ len_text) rest =
    if b == b'$'
    then (elim (parse_i64 (trim_end len_text)) [
      | none ↦ err invalid_data
      | some len ↦ read_bulk len rest
    ])
    else ok rest

-- What is left behind a reply; a line that is not UTF-8 is an error of `read_line`.
unfoldable pub read_resp_response : Bytes → Result Bytes ReadError
unfolding split_line read_reply
read_resp_response s =
    let r = split_line s in
    if bytes_eq (from_utf8_lossy r.0) r.0 then read_reply r.0 r.1 else err invalid_data

unfoldable pub read_responses : ℕ → Bytes → Result Bytes ReadError
unfolding read_resp_response
read_responses zero s = ok s
read_responses (suc n) s = elim (read_resp_response s) [
  | ok rest ↦ read_responses n rest
  | err e ↦ err e
]
