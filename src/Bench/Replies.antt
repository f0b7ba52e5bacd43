-- ===== src/Bench/Replies.antt =====
-- bin/redis_compare.rs: the replies of the server, as the client reads them.
use zetdb.Prelude.{
  ℕ, suc, ◌+◌, ◌^◌, ◌<◌, ◌≡◌, refl, ap, ◌∙◌, true, false, none, some, List, [], ◌∷◌, ◌++◌,
  append_assoc, Bytes, All, length, length-append, drop-length-append, ltb, ◌==◌, arith,
}
use zetdb.Prelude.Int.{ℤ, pos, negsuc}
use zetdb.Bytes.{codes, crlf, bytes_eq, bytes_eq_iff}
use zetdb.Bytes.Decimal.{show_nat, show_nat_shape, show_int, parse_i64, parse_i64-show_int, IsDigit}
use zetdb.Bytes.Utf8.{from_utf8_lossy, IsUtf8, ascii-IsUtf8}
use zetdb.Domain.Errors.{ok}
use zetdb.Storage.Itoa.{Itoa}
use zetdb.Protocol.Response.{
  Response, pong, value, integer, error, array, error_text, bulk, write_value, write_integer,
  write_to_impl,
}
use zetdb.Bench.Compare.{
  split_line, trim_end, read_bulk, read_reply, read_resp_response, read_responses,
}

-- A byte of a line of text.
abbrev pub IsTextByte : ℕ → Type 0
IsTextByte b = (b < 128) × ((b == b'\n') ≡ false) × ((b == b'\r') ≡ false)

split_line-append :
    (line rest : Bytes)
    → All IsTextByte line
    → split_line (line ++ (crlf ++ rest)) ≡ (line ++ crlf, rest)
unfolding split_line
split_line-append [] rest h = refl
split_line-append (b ∷ line) rest h = ground (arith, h.0, split_line-append line rest h.1)

trim_end-append : (line : Bytes) → All IsTextByte line → trim_end (line ++ crlf) ≡ line
unfolding trim_end
trim_end-append [] h = refl
trim_end-append (b ∷ line) h = ground (arith, h.0, trim_end-append line h.1)

line-IsUtf8 : (line : Bytes) → All IsTextByte line → IsUtf8 (line ++ crlf)
line-IsUtf8 line h = ascii-IsUtf8 (line ++ crlf) (all_ascii line h)
  where
    all_ascii : (l : Bytes) → All IsTextByte l → All (λ b. b < 128) (l ++ crlf)
    all_ascii [] g = (omega arith, (omega arith, tt))
    all_ascii (b ∷ l) g = (g.0.0, all_ascii l g.1)

read_line :
    (line rest : Bytes)
    → All IsTextByte line
    → read_resp_response (line ++ (crlf ++ rest)) ≡ read_reply (line ++ crlf) rest
unfolding read_resp_response
read_line line rest h =
    let text : bytes_eq (from_utf8_lossy (line ++ crlf)) (line ++ crlf) ≡ true =
      (bytes_eq_iff (from_utf8_lossy (line ++ crlf)) (line ++ crlf)).1 (line-IsUtf8 line h) in
    rw (split_line-append line rest h, text) refl

digits-text : (s : Bytes) → All IsDigit s → All IsTextByte s
digits-text [] h = tt
digits-text (b ∷ s) h =
    ((omega (arith, h.0), ground (arith, h.0), ground (arith, h.0)), digits-text s h.1)

show_int-text : (n : ℤ) → All IsTextByte (show_int n)
unfolding show_int
show_int-text (pos n) = digits-text (show_nat n) (show_nat_shape n).0
show_int-text (negsuc n) =
    ((omega arith, refl, refl), digits-text (show_nat (n + 1)) (show_nat_shape (n + 1)).0)

-- A reply of one line, or a bulk string; an error is one line of text.
abbrev pub IsReadable : Response → Type 0
IsReadable pong = Unit
IsReadable Response.ok = Unit
IsReadable (value none) = Unit
IsReadable (value (some v)) = length v < 2 ^ 63
IsReadable (integer n) = Unit
IsReadable (error e) = (line : Bytes) × (error_text e ≡ b'-' ∷ (line ++ crlf)) × All IsTextByte line
IsReadable (array xs) = ⊥

-- A line that does not begin with a dollar is the whole reply.
read_plain :
    (b : ℕ) (line rest : Bytes)
    → (b == b'$') ≡ false
    → IsTextByte b
    → All IsTextByte line
    → read_resp_response ((b ∷ (line ++ crlf)) ++ rest) ≡ ok rest
unfolding read_reply
read_plain b line rest e t h =
    ap (λ s. read_resp_response (b ∷ s)) (append_assoc line crlf rest)
    ∙ read_line (b ∷ line) rest (t, h)
    ∙ rw e refl

read_dollar :
    (line rest : Bytes) (len : ℤ)
    → All IsTextByte line
    → parse_i64 line ≡ some len
    → read_resp_response ((b'$' ∷ line) ++ (crlf ++ rest)) ≡ read_bulk len rest
unfolding read_reply
read_dollar line rest len h e =
    read_line (b'$' ∷ line) rest ((omega arith, refl, refl), h)
    ∙ rw (trim_end-append line h, e) refl

read_bulk-append : (v rest : Bytes) → read_bulk (pos (length v)) ((v ++ crlf) ++ rest) ≡ ok rest
unfolding read_bulk
read_bulk-append v rest =
    let n : length v + 2 ≡ length (v ++ crlf) = omega (arith, length-append v crlf) in
    let there : ltb (length ((v ++ crlf) ++ rest)) (length (v ++ crlf)) ≡ false =
      ground (arith, length-append (v ++ crlf) rest) in
    rw (n, there, drop-length-append (v ++ crlf) rest) refl

module _ (I : Itoa) where
  -- A reply that the server writes in its RESP mode, if it is a status, an integer, a value shorter than
  -- 2^63 bytes, of any bytes, no value, or an error on a line of text: the client reads it
  -- and nothing behind it.
  pub read_resp_response-write_to_impl :
      (r : Response) (rest : Bytes)
      → IsReadable r
      → read_resp_response (write_to_impl I true r ++ rest) ≡ ok rest
  unfolding write_to_impl write_value write_integer bulk show_int read_bulk
  read_resp_response-write_to_impl pong rest h =
      read_plain b'+' (codes "PONG") rest refl (omega arith, refl, refl)
        (
          (omega arith, refl, refl),
          ((omega arith, refl, refl), ((omega arith, refl, refl), ((omega arith, refl, refl), tt))),
        )
  read_resp_response-write_to_impl Response.ok rest h =
      read_plain b'+' (codes "OK") rest refl (omega arith, refl, refl)
        ((omega arith, refl, refl), ((omega arith, refl, refl), tt))
  read_resp_response-write_to_impl (value none) rest h =
      read_dollar (codes "-1") rest (negsuc 0)
        ((omega arith, refl, refl), ((omega arith, refl, refl), tt))
        (parse_i64-show_int (negsuc 0) (omega arith))
  read_resp_response-write_to_impl (value (some v)) rest h =
      let len = show_nat (length v) in
      ap (λ d. read_resp_response ((b'$' ∷ (d ++ (crlf ++ (v ++ crlf)))) ++ rest))
        (I.format-eq (pos (length v)))
      ∙ ap (λ s. read_resp_response (b'$' ∷ s)) (append_assoc len (crlf ++ (v ++ crlf)) rest)
      ∙ read_dollar len ((v ++ crlf) ++ rest) (pos (length v)) (show_int-text (pos (length v)))
          (parse_i64-show_int (pos (length v)) h)
      ∙ read_bulk-append v rest
  read_resp_response-write_to_impl (integer n) rest h =
      ap (λ s. read_resp_response ((b':' ∷ (s ++ crlf)) ++ rest)) (I.format-eq n)
      ∙ read_plain b':' (show_int n) rest refl (omega arith, refl, refl) (show_int-text n)
  read_resp_response-write_to_impl (error e) rest h =
      ap (λ s. read_resp_response (s ++ rest)) h.1
      ∙ read_plain b'-' h.0 rest refl (omega arith, refl, refl) h.2
  read_resp_response-write_to_impl (array xs) rest h = absurd h

  abbrev pub written : List Response → Bytes
  written [] = []
  written (r ∷ rs) = write_to_impl I true r ++ written rs

  -- As many reads as the server has written replies, each of which is a status, an integer, a value shorter
  -- than 2^63 bytes, of any bytes, no value, or an error on a line of text: the reads succeed and
  -- leave exactly what follows the last reply.
  pub read_responses-written :
      (rs : List Response) (rest : Bytes)
      → All IsReadable rs
      → read_responses (length rs) (written rs ++ rest) ≡ ok rest
  unfolding read_responses
  read_responses-written [] rest h = refl
  read_responses-written (r ∷ rs) rest h =
      ap (λ s. read_responses (suc (length rs)) s)
        (append_assoc (write_to_impl I true r) (written rs) rest)
      ∙ rw (read_responses, read_resp_response-write_to_impl r (written rs ++ rest) h.0)
          (read_responses-written rs rest h.1)
