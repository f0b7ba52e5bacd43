-- ===== src/Bytes/Decimal.antt =====
-- Decimal numbers as the standard library prints and parses them.
use mathlib.Core.Logic.{dite, dif_pos, dif_neg}
use mathlib.Core.WellFounded.{Acc, WellFounded}
use native.Mathlib.Bridge.{le_prop}
use native.Mathlib.Decide.{dec_lt}
use zetdb.Prelude.{
  Bytes, ℕ, zero, suc, ◌+◌, ◌-◌, ◌*◌, ◌/◌, ◌%◌, ◌^◌, ◌≤◌, ◌<◌, ◌≡◌, ◌∙◌, ap, refl, Bool, ◌&&◌,
  Option, none, some, [], ◌∷◌, ◌++◌, length, length-append, arith, All, leb, ltb, ◌==◌,
  if◌then◌else◌,
}
use zetdb.Prelude.Int.{ℤ, pos, negsuc, neg, IsI64}

Acc-below : (k n : ℕ) → n < k → Acc ◌<◌ n
Acc-below zero n h = absurd (omega arith)
Acc-below (suc k) n h = Acc.intro n (λ m hm. Acc-below k m (omega arith))

lt_wf : WellFounded ◌<◌
unfolding Acc-below
lt_wf = record { apply = λ n. Acc-below (suc n) n (omega arith) }

abbrev tenth_lt : {n : ℕ} → 9 < n → n / 10 < n
tenth_lt h = omega arith

digits : (n : ℕ) → Acc ◌<◌ n → Bytes
digits n (Acc.intro _ smaller) =
    dite (dec_lt 9 n) (λ h. digits (n / 10) (smaller (n / 10) (tenth_lt h)) ++ (b'0' + n % 10) ∷ [])
      (λ _. (b'0' + n) ∷ [])

-- `Display` of an unsigned integer.
unfoldable pub show_nat : ℕ → Bytes
unfolding digits lt_wf dec_lt
show_nat n = digits n (lt_wf.apply n)

-- `Display` of a signed integer.
unfoldable pub show_int : ℤ → Bytes
unfolding show_nat
show_int (pos n) = show_nat n
show_int (negsuc n) = b'-' ∷ show_nat (n + 1)

abbrev is_digit : ℕ → Bool
is_digit b = leb b'0' b && leb b b'9'

-- The value of a run of digits behind `acc`.
unfoldable pub scan_digits : Bytes → ℕ → Option ℕ
scan_digits [] acc = some acc
scan_digits (c ∷ s) acc =
    let rest = scan_digits s (acc * 10 + (c - b'0')) in if is_digit c then rest else none

abbrev pub parse_digits : Bytes → Option ℕ
parse_digits [] = none
parse_digits (c ∷ s) = scan_digits (c ∷ s) 0

abbrev bounded : ℕ → Option ℕ → Option ℕ
bounded limit none = none
bounded limit (some n) = if ltb n limit then some n else none

abbrev strip_plus : Bytes → Bytes
strip_plus [] = []
strip_plus (c ∷ s) = if c == b'+' then s else c ∷ s

-- `str::parse::<u64>`: one leading `+` is taken, and a value that does not fit is an error.
unfoldable pub parse_u64 : Bytes → Option ℕ
unfolding scan_digits
parse_u64 s = bounded (2 ^ 64) (parse_digits (strip_plus s))

abbrev map_int : (ℕ → ℤ) → Option ℕ → Option ℤ
map_int f none = none
map_int f (some n) = some (f n)

-- `str::parse::<i64>`
unfoldable pub parse_i64 : Bytes → Option ℤ
unfolding scan_digits
parse_i64 [] = none
parse_i64 (c ∷ s) =
    if c == b'-'
    then map_int neg (bounded (2 ^ 63 + 1) (parse_digits s))
    else map_int pos (bounded (2 ^ 63) (parse_digits (strip_plus (c ∷ s))))

abbrev pub IsDigit : ℕ → Type 0
IsDigit b = (b'0' ≤ b) × (b ≤ b'9')

All-append : (xs ys : Bytes) → All IsDigit xs → All IsDigit ys → All IsDigit (xs ++ ys)
All-append [] ys h k = k
All-append (x ∷ xs) ys h k = (h.0, All-append xs ys h.1 k)

digits-IsDigit : (n : ℕ) (w : Acc ◌<◌ n) → All IsDigit (digits n w)
unfolding digits
digits-IsDigit n (Acc.intro _ smaller) = elim (dec_lt 9 n) [
  | yes h ↦
      rw (dif_pos (dec_lt 9 n) le_prop h)
        (All-append _ _ (digits-IsDigit (n / 10) (smaller _ (tenth_lt h))) (omega arith))
  | no h ↦ rw (dif_neg (dec_lt 9 n) h) (omega arith)
]

scan_digits-append :
    (xs ys : Bytes) (acc v : ℕ)
    → scan_digits xs acc ≡ some v
    → scan_digits (xs ++ ys) acc ≡ scan_digits ys v
unfolding scan_digits
scan_digits-append [] ys acc v h = ground arith
scan_digits-append (x ∷ xs) ys acc v h =
    ground (arith, scan_digits-append xs ys (acc * 10 + (x - b'0')) v)

scan_digit : (d v : ℕ) → d < 10 → scan_digits ((b'0' + d) ∷ []) v ≡ some (v * 10 + d)
unfolding scan_digits
scan_digit d v h = ground arith

scan_digits-digits : (n : ℕ) (w : Acc ◌<◌ n) → scan_digits (digits n w) 0 ≡ some n
unfolding digits
scan_digits-digits n (Acc.intro _ smaller) = elim (dec_lt 9 n) [
  | yes h ↦ rw (dif_pos (dec_lt 9 n) le_prop h) (
      scan_digits-append (digits (n / 10) (smaller (n / 10) (tenth_lt h))) ((b'0' + n % 10) ∷ []) 0
        (n / 10) (scan_digits-digits (n / 10) (smaller _ (tenth_lt h)))
      ∙ scan_digit (n % 10) (n / 10) (omega arith)
      ∙ ap some (omega arith))
  | no h ↦ rw (dif_neg (dec_lt 9 n) h) (scan_digit n 0 (omega arith) ∙ ap some (omega arith))
]

digits_pos : (n : ℕ) (w : Acc ◌<◌ n) → 0 < length (digits n w)
unfolding digits
digits_pos n (Acc.intro _ smaller) = elim (dec_lt 9 n) [
  | yes h ↦ rw (dif_pos (dec_lt 9 n) le_prop h) (
      omega
        (arith, length-append (digits (n / 10) (smaller _ (tenth_lt h))) ((b'0' + n % 10) ∷ [])))
  | no h ↦ rw (dif_neg (dec_lt 9 n) h) (omega arith)
]

-- A printed number is a non-empty run of digits.
pub show_nat_shape : (n : ℕ) → All IsDigit (show_nat n) × (0 < length (show_nat n))
unfolding show_nat
show_nat_shape n = (digits-IsDigit n (lt_wf.apply n), digits_pos n (lt_wf.apply n))

pub scan_digits-show_nat : (n : ℕ) → scan_digits (show_nat n) 0 ≡ some n
unfolding show_nat
scan_digits-show_nat n = scan_digits-digits n (lt_wf.apply n)

parse_digits_run :
    (s : Bytes) (n : ℕ) → 0 < length s → scan_digits s 0 ≡ some n → parse_digits s ≡ some n
parse_digits_run [] n h e = absurd (omega arith)
parse_digits_run (c ∷ s) n h e = e

strip_plus_run : (s : Bytes) → All IsDigit s → strip_plus s ≡ s
strip_plus_run [] h = refl
strip_plus_run (c ∷ s) h = ground arith

pub parse_u64-show_nat : (n : ℕ) → n < 2 ^ 64 → parse_u64 (show_nat n) ≡ some n
unfolding parse_u64
parse_u64-show_nat n h =
    rw
      (
        strip_plus_run (show_nat n) (show_nat_shape n).0,
        parse_digits_run (show_nat n) n (show_nat_shape n).1 (scan_digits-show_nat n),
      )
      (ground arith)

parse_i64_run :
    (s : Bytes) (n : ℕ)
    → All IsDigit s
    → parse_digits s ≡ some n
    → n < 2 ^ 63
    → parse_i64 s ≡ some (pos n)
unfolding parse_i64
parse_i64_run [] n d e h = cc
parse_i64_run (c ∷ s) n d e h = rw (strip_plus_run (c ∷ s) d, e) (ground arith)

parse_i64_minus :
    (s : Bytes) (n : ℕ)
    → parse_digits s ≡ some (n + 1)
    → n < 2 ^ 63
    → parse_i64 (b'-' ∷ s) ≡ some (negsuc n)
unfolding parse_i64
parse_i64_minus s n e h = rw e (ground arith)

-- What `Display` prints of an `i64`, `parse` reads back.
pub parse_i64-show_int : (x : ℤ) → IsI64 x → parse_i64 (show_int x) ≡ some x
unfolding show_int
parse_i64-show_int (pos n) h =
    parse_i64_run (show_nat n) n (show_nat_shape n).0
      (parse_digits_run (show_nat n) n (show_nat_shape n).1 (scan_digits-show_nat n)) h
parse_i64-show_int (negsuc n) h =
    parse_i64_minus (show_nat (n + 1)) n
      (parse_digits_run (show_nat (n + 1)) (n + 1) (show_nat_shape (n + 1)).1
        (scan_digits-show_nat (n + 1)))
      h
