-- ===== src/Bytes/Utf8.antt =====
-- `String::from_utf8_lossy` of the standard library: a byte string is read as UTF-8, and each maximal
-- part that is not well formed becomes U+FFFD.
use zetdb.Prelude.{
  ℕ, ◌-◌, ◌<◌, ◌≡◌, refl, Bool, ◌&&◌, Bytes, [], ◌∷◌, ◌++◌, arith, leb, ltb, ◌==◌, if◌then◌else◌,
  All,
}

-- What is open: the bytes of a sequence so far, the range that the next byte must lie in, and how
-- many bytes follow that one. `idle` is the state between two characters.
pub data Scan : Type 0 where
  idle : Scan
  inside : Bytes → ℕ → ℕ → ℕ → Scan

abbrev replacement : Bytes
replacement = 0xef ∷ 0xbf ∷ 0xbd ∷ []

abbrev between : ℕ → ℕ → ℕ → Bool
between lo hi b = leb lo b && leb b hi

-- The first byte of a character.
start : ℕ → Bytes × Scan
start b =
    if ltb b 0x80
    then (b ∷ [], idle)
    else if between 0xc2 0xdf b
    then ([], inside (b ∷ []) 0x80 0xbf 0)
    else if b == 0xe0
    then ([], inside (b ∷ []) 0xa0 0xbf 1)
    else if b == 0xed
    then ([], inside (b ∷ []) 0x80 0x9f 1)
    else if between 0xe1 0xef b
    then ([], inside (b ∷ []) 0x80 0xbf 1)
    else if b == 0xf0
    then ([], inside (b ∷ []) 0x90 0xbf 2)
    else if between 0xf1 0xf3 b
    then ([], inside (b ∷ []) 0x80 0xbf 2)
    else if b == 0xf4
    then ([], inside (b ∷ []) 0x80 0x8f 2)
    else (replacement, idle)

-- A byte that does not continue the open sequence ends it as ill formed, and is read afresh.
advance : Scan → ℕ → Bytes × Scan
unfolding start
advance idle b = start b
advance (inside seen lo hi more) b =
    if between lo hi b
    then (if more == 0
        then (seen ++ b ∷ [], idle)
        else ([], inside (seen ++ b ∷ []) 0x80 0xbf (more - 1)))
    else (let (out, s) = start b in (replacement ++ out, s))

scan : Scan → Bytes → Bytes
unfolding advance
scan idle [] = []
scan (inside seen lo hi more) [] = replacement
scan s (b ∷ bs) = let (out, s') = advance s b in out ++ scan s' bs

unfoldable pub from_utf8_lossy : Bytes → Bytes
unfolding scan
from_utf8_lossy = scan idle

-- Well-formed UTF-8 is what `from_utf8_lossy` leaves alone: its result is always well formed.
abbrev pub IsUtf8 : Bytes → Type 0
IsUtf8 s = from_utf8_lossy s ≡ s

pub ascii-IsUtf8 : (s : Bytes) → All (λ b. b < 128) s → IsUtf8 s
unfolding from_utf8_lossy
ascii-IsUtf8 [] h = refl
ascii-IsUtf8 (b ∷ s) h = ground (arith, ascii-IsUtf8 s)

two_bytes : from_utf8_lossy (0xc3 ∷ 0xa9 ∷ 0x41 ∷ []) ≡ 0xc3 ∷ 0xa9 ∷ 0x41 ∷ []
unfolding from_utf8_lossy
two_bytes = refl

cut_short : from_utf8_lossy (0xe2 ∷ 0x82 ∷ 0x41 ∷ 0xff ∷ []) ≡ replacement ++ (0x41 ∷ replacement)
unfolding from_utf8_lossy
cut_short = refl
