-- ===== src/Protocol/Frame/Kept.antt =====
-- protocol/parser.rs: what the readers answer does not depend on the bytes behind it.
use zetdb.Prelude.{
  ℕ, zero, suc, ◌+◌, ◌-◌, ◌≤◌, ◌<◌, ◌≡◌, refl, ap, ◌∙◌, false, Option, none, some, [], ◌∷◌, ◌++◌,
  Bytes, length, length-append, length-drop, drop, take, drop-append, take-append, get_elem?, arith,
  ltb, ◌==◌, inl, inr, Bool-cases, Option-cases,
}
use zetdb.Prelude.Int.{ℤ, pos, negsuc}
use zetdb.Domain.Errors.{Result, ok, err}
use zetdb.Protocol.Memchr.{Memchr, memchr-append}
use zetdb.Protocol.Scan.{ParseError}
use zetdb.Protocol.Resp.{read_resp_line_int, read_resp_bulk, bulk_data, num_end, with_size}

-- What a reader answers on `n` bytes still stands when more follow.
abbrev pub Kept :
    {A : Type 0}
    → ℕ
    → Result (Option (A × ℕ)) ParseError
    → Result (Option (A × ℕ)) ParseError
    → Type 0
Kept n (ok none) r = Unit
Kept n (ok (some (a, k))) r = (r ≡ ok (some (a, k))) × (0 < k) × (k ≤ n)
Kept n (err e) r = r ≡ err e

module _ (M : Memchr) where
  get_elem?-append :
      (s more : Bytes) (i : ℕ) → i < length s → get_elem? (s ++ more) i ≡ get_elem? s i
  get_elem?-append [] more i h = absurd (omega arith)
  get_elem?-append (b ∷ s) more zero h = refl
  get_elem?-append (b ∷ s) more (suc i) h = get_elem?-append s more i (omega arith)

  num_end_le : (s : Bytes) (i : ℕ) → num_end s i ≤ i
  num_end_le s i = elim (Option-cases (get_elem? s (i - 1))) [
    | inl e ↦ ground arith
    | inr (b, e) ↦ ground arith
  ]

  num_end-append : (s more : Bytes) (i : ℕ) → i < length s → num_end (s ++ more) i ≡ num_end s i
  num_end-append s more i h = elim (Option-cases (get_elem? s (i - 1))) [
    | inl e ↦ ground (arith, get_elem?-append s more (i - 1) (omega arith))
    | inr (b, e) ↦ ground (arith, get_elem?-append s more (i - 1) (omega arith))
  ]

  number-append :
      (s more : Bytes) (i : ℕ)
      → i < length s
      → drop 1 (take (num_end (s ++ more) i) (s ++ more)) ≡ drop 1 (take (num_end s i) s)
  number-append s more i h =
      ap (λ n. drop 1 (take n (s ++ more))) (num_end-append s more i h)
      ∙ ap (drop 1) (take-append (num_end s i) s more (omega (arith, num_end_le s i)))

  with_size-Kept :
      (n k : ℕ) (r : Result ℤ ParseError) → 0 < k → k ≤ n → Kept n (with_size r k) (with_size r k)
  with_size-Kept n k (ok z) p h = (refl, p, h)
  with_size-Kept n k (err e) p h = refl

  pub read_resp_line_int-Kept :
      (s more : Bytes) (prefix : ℕ)
      → Kept (length s) (read_resp_line_int M s prefix) (read_resp_line_int M (s ++ more) prefix)
  unfolding read_resp_line_int
  read_resp_line_int-Kept [] more prefix = tt
  read_resp_line_int-Kept (b ∷ s) more prefix = elim (Bool-cases (b == prefix)) [
    | inr other ↦ rw other refl
    | inl same ↦ elim (Option-cases (M.memchr b'\n' (b ∷ s))) [
      | inl e ↦ rw (same, e) tt
      | inr (i, e) ↦
          let stays = memchr-append M b'\n' (b ∷ s) more i e in
          rw (same, e, stays.0, number-append (b ∷ s) more i stays.1)
            (with_size-Kept (length (b ∷ s)) (i + 1) _ (omega arith) (omega (arith, stays.1)))
    ]
  ]

  pub read_resp_bulk-Kept :
      (s more : Bytes) → Kept (length s) (read_resp_bulk M s) (read_resp_bulk M (s ++ more))
  unfolding read_resp_bulk bulk_data
  read_resp_bulk-Kept s more =
      bulk_of (read_resp_line_int M s b'$') _ (read_resp_line_int-Kept s more b'$')
    where
      after : Bytes → Result (Option (ℤ × ℕ)) ParseError → Result (Option (Bytes × ℕ)) ParseError
      after buf r = elim r [
        | err e ↦ err e
        | ok none ↦ ok none
        | ok (some (len, n)) ↦ ok (bulk_data buf len n)
      ]

      still_long : (k : ℕ) → ltb (length s) k ≡ false → ltb (length (s ++ more)) k ≡ false
      still_long k h = ground (arith, length-append s more)

      data_of :
          (z : ℤ) (n : ℕ)
          → 0 < n
          → n ≤ length s
          → Kept (length s) (ok (bulk_data s z n)) (ok (bulk_data (s ++ more) z n))
      data_of (negsuc l) n h0 h = (refl, h0, h)
      data_of (pos l) n h0 h = elim (Bool-cases (ltb (length s) (n + l + 2))) [
        | inl short ↦ rw short tt
        | inr long ↦
            rw
              (
                long,
                still_long (n + l + 2) long,
                drop-append n s more h,
                take-append l (drop n s) more (ground (arith, length-drop n s)),
              )
              (refl, omega arith, ground arith)
      ]

      bulk_of :
          (r r' : Result (Option (ℤ × ℕ)) ParseError)
          → Kept (length s) r r'
          → Kept (length s) (after s r) (after (s ++ more) r')
      bulk_of (err e) r' h = rw h refl
      bulk_of (ok none) r' h = tt
      bulk_of (ok (some (z, n))) r' h = rw h.0 (data_of z n h.1 h.2)
