-- ===== src/Protocol/Frame/Wire.antt =====
-- protocol/parser.rs: what the readers answer on a line and on a bulk string as a client prints them.
use zetdb.Prelude.{
  ℕ, suc, ◌+◌, ◌-◌, ◌*◌, ◌%◌, ◌^◌, ◌<◌, ◌≡◌, ◌≢◌, refl, ap, sym, ◌∙◌, true, some, [], ◌∷◌, ◌++◌,
  append_assoc, Bytes, length, length-append, drop, take, take-length-append, drop-length-append,
  get_elem?, All, arith, ◌==◌, inl, inr, Bool-cases,
}
use zetdb.Prelude.Int.{ℤ, pos}
use zetdb.Bytes.{crlf, is_ascii_digit}
use zetdb.Bytes.Decimal.{show_nat, show_nat_shape, scan_digits, scan_digits-show_nat, IsDigit}
use zetdb.Domain.Errors.{ok}
use zetdb.Protocol.Memchr.{Memchr}
use zetdb.Protocol.Resp.{
  read_resp_line_int, read_resp_bulk, bulk_data, parse_int, int_digits, num_end,
}

-- A client's bulk string.
abbrev pub resp_bulk : Bytes → Bytes
resp_bulk d = b'$' ∷ (show_nat (length d) ++ (crlf ++ (d ++ crlf)))

int_digits-scan :
    (s : Bytes) (acc v : ℕ)
    → scan_digits s acc ≡ some v
    → int_digits s (acc % 2 ^ 64) ≡ some (v % 2 ^ 64)
unfolding int_digits scan_digits
int_digits-scan [] acc v h = ground arith
int_digits-scan (c ∷ s) acc v h = elim (Bool-cases (is_ascii_digit c)) [
  | inr bad ↦ ground arith
  | inl good ↦
      let same : (acc % 2 ^ 64 * 10 + (c - b'0')) % 2 ^ 64 ≡ (acc * 10 + (c - b'0')) % 2 ^ 64 =
        omega arith in
      rw (good, same) (int_digits-scan s (acc * 10 + (c - b'0')) v (rw good at h))
]

parse_int_run :
    (s : Bytes) (n : ℕ)
    → All IsDigit s
    → 0 < length s
    → scan_digits s 0 ≡ some n
    → n < 2 ^ 63
    → parse_int s ≡ ok (pos n)
unfolding parse_int
parse_int_run [] n d p e h = absurd (omega arith)
parse_int_run (c ∷ s) n d p e h = ground (arith, int_digits-scan (c ∷ s) 0 n e)

module _ (M : Memchr) (rest : Bytes) where
  line_feed_at :
      (ds : Bytes)
      → All IsDigit ds
      → M.memchr b'\n' (ds ++ (b'\r' ∷ b'\n' ∷ rest)) ≡ some (length ds + 1)
  line_feed_at [] h =
      ground (arith, M.memchr-cons b'\n' b'\r' (b'\n' ∷ rest), M.memchr-cons b'\n' b'\n' rest)
  line_feed_at (d ∷ ds) h =
      ground (arith, M.memchr-cons b'\n' d (ds ++ (b'\r' ∷ b'\n' ∷ rest)), line_feed_at ds h.1)

  return_at : (ds : Bytes) → get_elem? (ds ++ (b'\r' ∷ b'\n' ∷ rest)) (length ds) ≡ some b'\r'
  return_at [] = refl
  return_at (d ∷ ds) = return_at ds

  num_end_at :
      (prefix : ℕ) (ds : Bytes)
      → num_end (prefix ∷ (ds ++ (b'\r' ∷ b'\n' ∷ rest))) (suc (suc (length ds))) ≡ suc (length ds)
  num_end_at prefix ds = ground (arith, return_at ds)

  number_at :
      (prefix : ℕ) (ds : Bytes)
      → drop 1 (
          take
            (num_end (prefix ∷ (ds ++ (b'\r' ∷ b'\n' ∷ rest))) (suc (suc (length ds))))
            (prefix ∷ (ds ++ (b'\r' ∷ b'\n' ∷ rest))))
        ≡ ds
  number_at prefix ds = rw (num_end_at prefix ds, take-length-append ds (b'\r' ∷ b'\n' ∷ rest)) refl

  memchr_at :
      (prefix : ℕ) (ds : Bytes)
      → prefix ≢ b'\n'
      → All IsDigit ds
      → M.memchr b'\n' (prefix ∷ (ds ++ (b'\r' ∷ b'\n' ∷ rest))) ≡ some (suc (suc (length ds)))
  memchr_at prefix ds np h =
      ground (arith, M.memchr-cons b'\n' prefix (ds ++ (b'\r' ∷ b'\n' ∷ rest)), line_feed_at ds h)

  pub read_resp_line_int-show_nat :
      (prefix n : ℕ)
      → prefix ≢ b'\n'
      → n < 2 ^ 63
      → read_resp_line_int M (prefix ∷ (show_nat n ++ (crlf ++ rest))) prefix
        ≡ ok (some (pos n, length (show_nat n) + 3))
  unfolding read_resp_line_int
  read_resp_line_int-show_nat prefix n np h =
      let ds = show_nat n in
      let shape = show_nat_shape n in
      let same : (prefix == prefix) ≡ true = ground arith in
      rw
        (
          same,
          memchr_at prefix ds np shape.0,
          number_at prefix ds,
          parse_int_run ds n shape.0 shape.1 (scan_digits-show_nat n) h,
        )
        (ap (λ k. ok (some (pos n, k))) (omega arith))

length-resp_bulk :
    (d : Bytes) → length (resp_bulk d) ≡ length (show_nat (length d)) + 3 + length d + 2
length-resp_bulk d =
    let ds = show_nat (length d) in
    omega (arith, length-append ds (crlf ++ (d ++ crlf)), length-append d crlf)

resp_bulk-append :
    (d rest : Bytes)
    → resp_bulk d ++ rest ≡ b'$' ∷ (show_nat (length d) ++ (crlf ++ (d ++ (crlf ++ rest))))
resp_bulk-append d rest =
    let ds = show_nat (length d) in
    ap (◌∷◌ b'$') (
      append_assoc ds (crlf ++ (d ++ crlf)) rest
      ∙ ap (λ t. ds ++ (b'\r' ∷ b'\n' ∷ t)) (append_assoc d crlf rest))

bulk_data-line :
    (line d rest : Bytes)
    → bulk_data (line ++ (d ++ (crlf ++ rest))) (pos (length d)) (length line)
      ≡ some (d, length line + length d + 2)
unfolding bulk_data
bulk_data-line line d rest =
    rw (drop-length-append line (d ++ (crlf ++ rest)), take-length-append d (crlf ++ rest))
      (ground (arith, length-append line (d ++ (crlf ++ rest)), length-append d (crlf ++ rest)))

module _ (M : Memchr) where
  bulk_behind :
      (s : Bytes) (n : ℤ) (k : ℕ)
      → read_resp_line_int M s b'$' ≡ ok (some (n, k))
      → read_resp_bulk M s ≡ ok (bulk_data s n k)
  unfolding read_resp_bulk
  bulk_behind s n k e = rw (read_resp_bulk, e) refl

  -- A bulk string of fewer than 2^63 bytes, as a client prints it, is read back, whatever follows it.
  pub read_resp_bulk-resp_bulk :
      (d rest : Bytes)
      → length d < 2 ^ 63
      → read_resp_bulk M (resp_bulk d ++ rest) ≡ ok (some (d, length (resp_bulk d)))
  read_resp_bulk-resp_bulk d rest h =
      let ds = show_nat (length d) in
      let line = b'$' ∷ (ds ++ crlf) in
      let tail = d ++ (crlf ++ rest) in
      let size : length ds + 3 ≡ length line = omega (arith, length-append ds crlf) in
      ap (read_resp_bulk M) (resp_bulk-append d rest)
      ∙ bulk_behind _ _ _ (read_resp_line_int-show_nat M tail b'$' (length d) (ground arith) h)
      ∙ ap (λ k. ok (bulk_data (b'$' ∷ (ds ++ (crlf ++ tail))) (pos (length d)) k)) size
      ∙ ap (λ t. ok (bulk_data (b'$' ∷ t) (pos (length d)) (length line)))
          (sym (append_assoc ds crlf tail))
      ∙ ap ok (bulk_data-line line d rest)
      ∙ ap (λ k. ok (some (d, k))) (omega (arith, length-resp_bulk d, size))
