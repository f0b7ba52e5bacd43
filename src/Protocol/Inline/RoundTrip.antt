-- ===== src/Protocol/Inline/RoundTrip.antt =====
-- protocol/parser.rs: a command as a client types it on a line is parsed to itself.
use zetdb.Prelude.{
  ℕ, ◌/◌, ◌<◌, ◌≡◌, refl, sym, ap, ◌∙◌, true, false, none, some, List, [], ◌∷◌, ◌++◌, Bytes, length,
  All, arith,
}
use zetdb.Bytes.Decimal.{parse_u64-show_nat}
use zetdb.Domain.Errors.{ok}
use zetdb.Domain.Value.{nanos_per_milli}
use zetdb.Domain.Command.{Command}
use zetdb.Protocol.Scan.{is_whitespace, eq_ignore_ascii_case}
use zetdb.Protocol.Frame.Client.{verb, arguments, pair_words, FitsFrame}
use zetdb.Protocol.Inline.{parse_bytes, with_pair}
use zetdb.Protocol.Inline.Words.{words}
use zetdb.Protocol.Inline.Reference.{parse_words, pairs_of}
use zetdb.Protocol.Inline.Agreement.{parse_bytes-eq-parse_words}

-- Bytes that are no white space, and one at least.
abbrev pub IsWord : Bytes → Type 0
IsWord w = (0 < length w) × All (λ b. is_whitespace b ≡ false) w

-- Words with blanks between them and a carriage return behind.
abbrev pub line_of : Bytes → List Bytes → Bytes
line_of w [] = w ++ b'\r' ∷ []
line_of w (v ∷ ws) = w ++ b' ' ∷ line_of v ws

words-append :
    (w s : Bytes) (gap : ℕ)
    → is_whitespace gap ≡ true
    → IsWord w
    → words (w ++ gap ∷ s) ≡ w ∷ words s
unfolding words
words-append [] s gap g h = absurd (omega (arith, h.0))
words-append (b ∷ []) s gap g h = ground (arith, h.1.0)
words-append (b ∷ c ∷ w) s gap g h =
    ground (arith, h.1.0, h.1.1.0, words-append (c ∷ w) s gap g (omega arith, h.1.1))

words-line_of : (w : Bytes) (ws : List Bytes) → All IsWord (w ∷ ws) → words (line_of w ws) ≡ w ∷ ws
words-line_of w [] h =
    words-append w [] b'\r' (unfold is_whitespace in refl) h.0 ∙ ap (◌∷◌ w) (unfold words in refl)
words-line_of w (v ∷ ws) h =
    words-append w (line_of v ws) b' ' (unfold is_whitespace in refl) h.0
    ∙ ap (◌∷◌ w) (words-line_of v ws h.1)

pairs_of-pair_words : (ps : List (Bytes × Bytes)) → pairs_of (pair_words ps) ≡ ok ps
pairs_of-pair_words [] = refl
pairs_of-pair_words ((k, v) ∷ ps) = ap (with_pair (k, v)) (pairs_of-pair_words ps)

parse_words-command : (c : Command) → FitsFrame c → parse_words (verb c ∷ arguments c) ≡ ok c
unfolding eq_ignore_ascii_case
parse_words-command (Command.set k v none) f = refl
parse_words-command (Command.set k v (some t)) f =
    rw (parse_u64-show_nat (t / nanos_per_milli) f.1)
      (ap (λ d. ok (Command.set k v (some d))) (sym f.0))
parse_words-command (Command.expire k n) f = rw (parse_u64-show_nat n f) refl
parse_words-command (Command.mget []) f = absurd (omega (arith, f.0))
parse_words-command (Command.mget (k ∷ ks)) f = refl
parse_words-command (Command.mset []) f = absurd (omega (arith, f.0))
parse_words-command (Command.mset (p ∷ ps)) f = rw (pairs_of-pair_words (p ∷ ps)) refl
parse_words-command _ f = refl

-- A command as a client types it, its words apart by blanks, is parsed to itself, if no word is empty
-- or holds white space, its numbers have their types, its time to live is whole milliseconds, and its
-- keys would fit a RESP array.
pub parse_bytes-line_of :
    (c : Command)
    → FitsFrame c
    → All IsWord (verb c ∷ arguments c)
    → parse_bytes (line_of (verb c) (arguments c)) ≡ ok c
parse_bytes-line_of c f h =
    parse_bytes-eq-parse_words (line_of (verb c) (arguments c))
    ∙ ap parse_words (words-line_of (verb c) (arguments c) h)
    ∙ parse_words-command c f

-- Words with blanks between them, and nothing behind.
abbrev pub typed_words : Bytes → List Bytes → Bytes
typed_words w [] = w
typed_words w (v ∷ ws) = w ++ b' ' ∷ typed_words v ws

words_last : (w : Bytes) → IsWord w → words w ≡ w ∷ []
unfolding words
words_last [] h = absurd (omega (arith, h.0))
words_last (b ∷ []) h = ground (arith, h.1.0)
words_last (b ∷ c ∷ w) h = ground (arith, h.1.0, h.1.1.0, words_last (c ∷ w) (omega arith, h.1.1))

words-typed_words :
    (w : Bytes) (ws : List Bytes) → All IsWord (w ∷ ws) → words (typed_words w ws) ≡ w ∷ ws
words-typed_words w [] h = words_last w h.0
words-typed_words w (v ∷ ws) h =
    words-append w (typed_words v ws) b' ' (unfold is_whitespace in refl) h.0
    ∙ ap (◌∷◌ w) (words-typed_words v ws h.1)

-- The same without the carriage return.
pub parse_bytes-typed_words :
    (c : Command)
    → FitsFrame c
    → All IsWord (verb c ∷ arguments c)
    → parse_bytes (typed_words (verb c) (arguments c)) ≡ ok c
parse_bytes-typed_words c f h =
    parse_bytes-eq-parse_words (typed_words (verb c) (arguments c))
    ∙ ap parse_words (words-typed_words (verb c) (arguments c) h)
    ∙ parse_words-command c f
