-- ===== src/Protocol/Scan.antt =====
-- protocol/parser.rs: the byte helpers, the errors and the results of the parsers.
use zetdb.Prelude.{ℕ, Bool, true, ◌&&◌, ◌||◌, [], ◌∷◌, Bytes, length, is_empty, ◌==◌, if◌then◌else◌}
use zetdb.Bytes.{byte_eq_ignore_ascii_case}
use zetdb.Domain.Command.{Command}

pub data ParseError : Type 0 where
  empty_command : ParseError
  unknown_command : Bytes → ParseError
  syntax_error : Bytes → ParseError

pub data FrameResult : Type 0 where
  complete : ℕ → Command → FrameResult
  incomplete : FrameResult
  skip : ℕ → FrameResult

unfoldable pub is_whitespace : ℕ → Bool
is_whitespace b = b == b' ' || b == b'\t' || b == b'\r' || b == b'\n'

-- The two loops of `trim`, from the front and from the back.
unfoldable pub trim_start : Bytes → Bytes
trim_start [] = []
trim_start (b ∷ s) = let rest = trim_start s in if is_whitespace b then rest else b ∷ s

unfoldable pub trim_end : Bytes → Bytes
trim_end [] = []
trim_end (b ∷ s) =
    let rest = trim_end s in if is_empty rest && is_whitespace b then [] else b ∷ rest

unfoldable pub trim : Bytes → Bytes
trim s = trim_end (trim_start s)

-- The bytes before the first white space, and the rest from it on.
unfoldable pub split_first_word : Bytes → Bytes × Bytes
split_first_word [] = ([], [])
split_first_word (b ∷ s) =
    let r = split_first_word s in if is_whitespace b then ([], b ∷ s) else (b ∷ r.0, r.1)

unfoldable pub zip_all : Bytes → Bytes → Bool
zip_all [] bs = true
zip_all (a ∷ as') [] = true
zip_all (a ∷ as') (b ∷ bs) = byte_eq_ignore_ascii_case a b && zip_all as' bs

unfoldable pub eq_ignore_ascii_case : Bytes → Bytes → Bool
unfolding zip_all
eq_ignore_ascii_case a b = length a == length b && zip_all a b
