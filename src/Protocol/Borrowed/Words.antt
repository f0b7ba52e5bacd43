-- ===== src/Protocol/Borrowed/Words.antt =====
-- protocol/parser_borrowed.rs: the number behind the key of EXPIRE, which is all that is left of the
-- line.
use zetdb.Prelude.{
  ℕ, ◌+◌, ◌*◌, ◌-◌, ◌%◌, ◌^◌, ◌≡◌, refl, sym, ap, ◌∙◌, false, none, [], ◌∷◌, Bytes, is_empty, arith,
}
use zetdb.Protocol.Scan.{is_whitespace, trim, trim_start, trim_end, split_first_word}
use zetdb.Protocol.Inline.Words.{words}
use zetdb.Protocol.Borrowed.{ascii_digits, parse_u64_ascii}

-- A text with white space in it is no number.
ascii_digits-split :
    (s : Bytes) (n : ℕ) → is_empty (split_first_word s).1 ≡ false → ascii_digits n s ≡ none
unfolding ascii_digits split_first_word is_whitespace
ascii_digits-split [] n h = ground (arith, h)
ascii_digits-split (b ∷ s) n h =
    ground (arith, h, ascii_digits-split s ((n * 10 + (b - b'0')) % 2 ^ 64))

words-first : (b : ℕ) (s : Bytes) → is_whitespace b ≡ false → is_empty (words (b ∷ s)) ≡ false
unfolding words
words-first b s h = ground arith

words-trim_end_ne :
    (s : Bytes) → is_empty (trim_end s) ≡ false → is_empty (words (trim_end s)) ≡ false
unfolding words trim_end
words-trim_end_ne [] h = ground (arith, h)
words-trim_end_ne (b ∷ s) h = ground (arith, h, words-trim_end_ne s)

-- What is behind the first word of a trimmed text is nothing, or has a word.
pub rest_of_trimmed :
    (s : Bytes)
    → words (split_first_word (trim_end s)).1 ≡ []
    → (split_first_word (trim_end s)).1 ≡ []
unfolding words trim_end split_first_word
rest_of_trimmed [] h = refl
rest_of_trimmed (b ∷ s) h = ground (arith, h, words-trim_end_ne s, rest_of_trimmed s)

split_word : (s : Bytes) → (split_first_word s).1 ≡ [] → (split_first_word s).0 ≡ s
unfolding split_first_word
split_word [] h = refl
split_word (b ∷ s) h = ground (arith, h, split_word s)

-- The rest of a line after the key, where its first word is `n`.
pub parse_u64_ascii-word :
    (s n r : Bytes)
    → split_first_word (trim s) ≡ (n, r)
    → words r ≡ []
    → parse_u64_ascii (trim s) ≡ parse_u64_ascii n
unfolding trim
parse_u64_ascii-word s n r e w =
    let none_left = rest_of_trimmed (trim_start s) (rw e w) in
    ap parse_u64_ascii (sym (split_word (trim_end (trim_start s)) none_left) ∙ ap (λ p. p.0) e)

words-ne : (r : Bytes) → is_empty (words r) ≡ false → is_empty r ≡ false
unfolding words
words-ne [] h = h
words-ne (b ∷ r) h = refl

digits-words :
    (t n r : Bytes)
    → split_first_word t ≡ (n, r)
    → is_empty (words r) ≡ false
    → parse_u64_ascii t ≡ none
unfolding parse_u64_ascii
digits-words [] n r e h = refl
digits-words (b ∷ t) n r e h =
    ascii_digits-split (b ∷ t) 0 (ap (λ p. is_empty p.1) e ∙ words-ne r h)

-- More than one word is no number.
pub parse_u64_ascii-words :
    (s n r : Bytes)
    → split_first_word (trim s) ≡ (n, r)
    → is_empty (words r) ≡ false
    → parse_u64_ascii (trim s) ≡ none
parse_u64_ascii-words s = digits-words (trim s)
