-- ===== src/Prelude/Int.antt =====
-- Signed integers over the native numbers, and the two's complement reading of 64-bit words.
use Prim.Native.Nat.{ℕ, zero, suc, ◌+◌, ◌-◌, ◌%◌, ◌^◌, ◌<◌}
use mathlib.Core.Path.{◌≡◌}
use native.Mathlib.Omega.{arith}
use zetdb.Prelude.Tests.{ltb, ◌==◌, if◌then◌else◌}

-- `negsuc n` is -(n + 1).
pub data ℤ : Type 0 where
  pos : ℕ → ℤ
  negsuc : ℕ → ℤ

-- The range of Rust's `i64`.
abbrev pub IsI64 : ℤ → Type 0
IsI64 (pos n) = n < 2 ^ 63
IsI64 (negsuc n) = n < 2 ^ 63

-- `x as u64` for an `i64`: its bit pattern.
abbrev pub to_word : ℤ → ℕ
to_word (pos n) = n % 2 ^ 64
to_word (negsuc n) = 2 ^ 64 - 1 - n % 2 ^ 64

-- `w as i64`: the signed reading of the low 64 bits.
abbrev pub of_word : ℕ → ℤ
of_word w = let v = w % 2 ^ 64 in if ltb v (2 ^ 63) then pos v else negsuc (2 ^ 64 - 1 - v)

-- `-n` for a natural number.
abbrev pub neg : ℕ → ℤ
neg zero = pos 0
neg (suc n) = negsuc n

-- `x + 1` in `i64` with the wrap-around of a release build.
abbrev pub suc_i64 : ℤ → ℤ
suc_i64 (pos n) = if n == 2 ^ 63 - 1 then negsuc (2 ^ 63 - 1) else pos (n + 1)
suc_i64 (negsuc n) = neg n

pub of_word-to_word : (x : ℤ) → IsI64 x → of_word (to_word x) ≡ x
of_word-to_word (pos n) h = ground arith
of_word-to_word (negsuc n) h = ground arith

pub to_word-lt : (x : ℤ) → to_word x < 2 ^ 64
to_word-lt (pos n) = omega arith
to_word-lt (negsuc n) = omega arith

pub IsI64-suc_i64 : (x : ℤ) → IsI64 x → IsI64 (suc_i64 x)
IsI64-suc_i64 (pos n) h = ground arith
IsI64-suc_i64 (negsuc zero) h = omega arith
IsI64-suc_i64 (negsuc (suc n)) h = omega arith
