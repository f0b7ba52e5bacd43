-- ===== src/Protocol/Inline/Words.antt =====
-- protocol/parser.rs: the words of a line, as `trim` and `split_first_word` take them off one by one.
use zetdb.Prelude.{
  ℕ, ◌+◌, ◌≤◌, ◌<◌, ◌≡◌, refl, sym, ap, ◌∙◌, ◌⊎◌, Bool, true, false, ◌&&◌, List, [], ◌∷◌, Bytes,
  length, is_empty, if◌then◌else◌, arith, inl, inr, Bool-cases,
}
use zetdb.Protocol.Scan.{is_whitespace, trim, trim_start, trim_end, split_first_word}

-- At the end of a word.
abbrev at_gap : Bytes → Bool
at_gap [] = true
at_gap (b ∷ s) = is_whitespace b

abbrev join : ℕ → List Bytes → List Bytes
join b [] = (b ∷ []) ∷ []
join b (w ∷ ws) = (b ∷ w) ∷ ws

-- The reference: the maximal runs of bytes that are no white space.
unfoldable pub words : Bytes → List Bytes
words [] = []
words (b ∷ s) =
    let rest = words s in
    if is_whitespace b then rest else if at_gap s then (b ∷ []) ∷ rest else join b rest

words-trim_start : (s : Bytes) → words (trim_start s) ≡ words s
unfolding words trim_start
words-trim_start [] = refl
words-trim_start (b ∷ s) = ground (arith, words-trim_start s)

at_gap-trim_end : (s : Bytes) → at_gap (trim_end s) ≡ at_gap s
unfolding trim_end
at_gap-trim_end [] = refl
at_gap-trim_end (b ∷ s) = ground arith

words-trim_end : (s : Bytes) → words (trim_end s) ≡ words s
unfolding words trim_end
words-trim_end [] = refl
words-trim_end (b ∷ s) = ground (arith, words-trim_end s, at_gap-trim_end s)

pub words-trim : (s : Bytes) → words (trim s) ≡ words s
unfolding trim
words-trim s = words-trim_end (trim_start s) ∙ words-trim_start s

-- A text that is trimmed is empty or begins with a word.
abbrev pub Begins : Bytes → Type 0
Begins [] = Unit
Begins (b ∷ s) = is_whitespace b ≡ false

trim_start-Begins : (s : Bytes) → Begins (trim_start s)
unfolding trim_start
trim_start-Begins [] = tt
trim_start-Begins (b ∷ s) = elim (Bool-cases (is_whitespace b)) [
  | inl e ↦ rw e (trim_start-Begins s)
  | inr e ↦ rw e e
]

trim_end-Begins : (s : Bytes) → Begins s → Begins (trim_end s)
unfolding trim_end
trim_end-Begins [] h = tt
trim_end-Begins (b ∷ s) h = rw (trim_end, kept) h
  where
    kept : (is_empty (trim_end s) && is_whitespace b) ≡ false
    kept = ground (arith, h)

pub split_first_word-words :
    (b : ℕ) (s : Bytes)
    → is_whitespace b ≡ false
    → words (b ∷ s) ≡ (split_first_word (b ∷ s)).0 ∷ words (split_first_word (b ∷ s)).1
unfolding words split_first_word
split_first_word-words b [] h = ground arith
split_first_word-words b (c ∷ s) h = elim (Bool-cases (is_whitespace c)) [
  | inl e ↦ ground arith
  | inr e ↦ ground (arith, split_first_word-words c s e)
]

first_word-ne :
    (b : ℕ) (s : Bytes) → is_whitespace b ≡ false → is_empty (split_first_word (b ∷ s)).0 ≡ false
unfolding split_first_word
first_word-ne b s h = ground arith

-- Nothing but white space, or the next word and what is behind it.
abbrev pub WordView : Bytes → Type 0
WordView s =
    ((trim s ≡ []) × (words s ≡ []))
    ⊎ ((k : Bytes) × (r : Bytes) × (split_first_word (trim s) ≡ (k, r))
        × (is_empty (trim s) ≡ false)
        × (is_empty k ≡ false)
        × (words s ≡ k ∷ words r))

pub word_view : (s : Bytes) → WordView s
unfolding trim trim_end
word_view s = of_trim (trim s) refl (trim_end-Begins (trim_start s) (trim_start-Begins s))
  where
    of_trim : (t : Bytes) → trim s ≡ t → Begins t → WordView s
    of_trim [] e h = inl (e, sym (words-trim s) ∙ ap words e ∙ unfold words in refl)
    of_trim (b ∷ t) e h = inr (
      (split_first_word (b ∷ t)).0,
      (split_first_word (b ∷ t)).1,
      ap split_first_word e,
      ap is_empty e,
      first_word-ne b t h,
      sym (words-trim s) ∙ ap words e ∙ split_first_word-words b t h,
    )

trim_start_le : (s : Bytes) → length (trim_start s) ≤ length s
unfolding trim_start
trim_start_le [] = omega arith
trim_start_le (b ∷ s) = ground (arith, trim_start_le s)

trim_end_le : (s : Bytes) → length (trim_end s) ≤ length s
unfolding trim_end
trim_end_le [] = omega arith
trim_end_le (b ∷ s) = ground (arith, trim_end_le s)

length-split :
    (s : Bytes) → length (split_first_word s).0 + length (split_first_word s).1 ≡ length s
unfolding split_first_word
length-split [] = refl
length-split (b ∷ s) = ground (arith, length-split s)

length-ne : (k : Bytes) → is_empty k ≡ false → 0 < length k
length-ne [] h = cc
length-ne (b ∷ k) h = omega arith

pub rest_lt_trim :
    (s k r : Bytes)
    → split_first_word (trim s) ≡ (k, r)
    → is_empty k ≡ false
    → length r < length (trim s)
rest_lt_trim s k r e h =
    let lengths : length k + length r ≡ length (trim s) =
      sym (ap (λ p. length p.0 + length p.1) e) ∙ length-split (trim s) in
    omega (arith, lengths, length-ne k h)

pub trim_le : (s : Bytes) → length (trim s) ≤ length s
unfolding trim
trim_le s = omega (arith, trim_end_le (trim_start s), trim_start_le s)

-- Behind a word fewer bytes remain.
pub rest_lt :
    (s k r : Bytes) → split_first_word (trim s) ≡ (k, r) → is_empty k ≡ false → length r < length s
rest_lt s k r e h = omega (arith, rest_lt_trim s k r e h, trim_le s)
