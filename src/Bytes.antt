-- ===== src/Bytes.antt =====
-- Byte strings: Rust's `&[u8]`, `Vec<u8>`, `Bytes` and `String` (its UTF-8 bytes) are lists of
-- numbers below 256. The children model what the program uses of the standard library's byte orders,
-- decimal numbers and UTF-8 decoding.
pub mod Endian
pub mod Decimal
pub mod Utf8
use Prim.Native.Char.{code}
use Prim.Native.String.{String}
use zetdb.Prelude.{
  Bytes, ℕ, ◌-◌, ◌≤◌, ◌<◌, ◌+◌, ◌≡◌, ◌↔◌, refl, Bool, true, false, ◌&&◌, List, [], ◌∷◌, arith, ◌==◌,
  leb, if◌then◌else◌, ap,
}

abbrev pub IsByte : ℕ → Type 0
IsByte b = b < 256

-- The bytes of an ASCII literal.
abbrev pub codes : String → Bytes
codes String.[] = []
codes (String.◌∷◌ c s) = code c ∷ codes s

abbrev pub crlf : Bytes
crlf = b'\r' ∷ b'\n' ∷ []

-- Equality of byte strings.
unfoldable pub bytes_eq : Bytes → Bytes → Bool
bytes_eq [] [] = true
bytes_eq [] (b ∷ bs) = false
bytes_eq (a ∷ as') [] = false
bytes_eq (a ∷ as') (b ∷ bs) = a == b && bytes_eq as' bs

pub bytes_eq_iff : (a b : Bytes) → (bytes_eq a b ≡ true) ↔ (a ≡ b)
unfolding bytes_eq
bytes_eq_iff [] [] = ground arith
bytes_eq_iff [] (b ∷ bs) = ground arith
bytes_eq_iff (a ∷ as') [] = ground arith
bytes_eq_iff (a ∷ as') (b ∷ bs) = ground (arith, bytes_eq_iff as' bs)

-- `u8::is_ascii_digit`
abbrev pub is_ascii_digit : ℕ → Bool
is_ascii_digit b = leb b'0' b && leb b b'9'

-- `u8::to_ascii_uppercase`
abbrev to_ascii_uppercase : ℕ → ℕ
to_ascii_uppercase b = if leb b'a' b && leb b b'z' then b - 32 else b

-- `u8::eq_ignore_ascii_case`
abbrev pub byte_eq_ignore_ascii_case : ℕ → ℕ → Bool
byte_eq_ignore_ascii_case a b = to_ascii_uppercase a == to_ascii_uppercase b
