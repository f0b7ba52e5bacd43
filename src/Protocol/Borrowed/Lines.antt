-- ===== src/Protocol/Borrowed/Lines.antt =====
-- protocol/parser_borrowed.rs: where `parse_inline_borrowed` ends a line.
use zetdb.Prelude.{
  ℕ, suc, ◌+◌, ◌-◌, ◌≡◌, refl, sym, ap, ◌∙◌, true, false, ◌||◌, some, [], ◌∷◌, ◌++◌, Bytes, length,
  length-append, take-length-append, ltb, ◌==◌, arith, inl, inr, Bool-cases, append_assoc,
}
use zetdb.Bytes.{crlf}
use zetdb.Domain.Errors.{ok}
use zetdb.Protocol.Memchr.{Memchr2}
use zetdb.Protocol.Scan.{incomplete, skip}
use zetdb.Protocol.Inline.Words.{words}
use zetdb.Protocol.Borrowed.{byte_is, line_borrowed, parse_inline_borrowed}
use zetdb.Protocol.Borrowed.Reference.{line_of_words}
use zetdb.Protocol.Borrowed.Agreement.{line_borrowed-words}

-- A byte that ends no line.
abbrev pub IsPlain : ℕ → Type 0
IsPlain b = (b == b'\r' || b == b'\n') ≡ false

-- No byte of the text ends a line.
abbrev pub IsLine : Bytes → Type 0
IsLine [] = Unit
IsLine (b ∷ s) = IsPlain b × IsLine s

byte_is-append :
    (line rest : Bytes) (b c : ℕ) → byte_is b (line ++ (c ∷ rest)) (length line) ≡ (c == b)
byte_is-append [] rest b c = refl
byte_is-append (x ∷ line) rest b c = byte_is-append line rest b c

byte_is-suc :
    (line rest : Bytes) (b c d : ℕ)
    → byte_is b (line ++ (c ∷ d ∷ rest)) (suc (length line)) ≡ (d == b)
byte_is-suc [] rest b c d = refl
byte_is-suc (x ∷ line) rest b c d = byte_is-suc line rest b c d

byte_is-next :
    (line rest : Bytes) (b c d : ℕ)
    → byte_is b (line ++ (c ∷ d ∷ rest)) (length line + 1) ≡ (d == b)
byte_is-next line rest b c d =
    ap (byte_is b (line ++ (c ∷ d ∷ rest))) (omega arith) ∙ byte_is-suc line rest b c d

length-two :
    (line rest : Bytes) (c d : ℕ) → ltb (length line + 1) (length (line ++ (c ∷ d ∷ rest))) ≡ true
length-two line rest c d = ground (arith, length-append line (c ∷ d ∷ rest))

take-words :
    (line rest : Bytes)
    → line_borrowed (length line) (line ++ rest) ≡ line_of_words (length line + 2) (words line)
take-words line rest =
    line_borrowed-words (length line) (line ++ rest)
    ∙ ap (λ t. line_of_words (length line + 2) (words t)) (take-length-append line rest)

IsLine-append : (line : Bytes) (c : ℕ) → IsLine line → IsPlain c → IsLine (line ++ (c ∷ []))
IsLine-append [] c h p = (p, tt)
IsLine-append (x ∷ line) c h p = (h.0, IsLine-append line c h.1 p)

module _ (M : Memchr2) where
  memchr2-line :
      (line rest : Bytes) (c : ℕ)
      → IsLine line
      → (c == b'\r' || c == b'\n') ≡ true
      → M.memchr2 b'\r' b'\n' (line ++ (c ∷ rest)) ≡ some (length line)
  memchr2-line [] rest c h e = ground (arith, M.memchr2-cons b'\r' b'\n' c rest, e)
  memchr2-line (x ∷ line) rest c h e =
      M.memchr2-cons b'\r' b'\n' x (line ++ (c ∷ rest))
      ∙ rw (h.0, memchr2-line line rest c h.1 e) refl

  -- A line that ends in CRLF, with anything behind it, gives what the reference gives on its words, and
  -- is consumed with its end.
  pub parse_inline_borrowed-crlf :
      (line rest : Bytes)
      → IsLine line
      → parse_inline_borrowed M (line ++ (crlf ++ rest))
        ≡ line_of_words (length line + 2) (words line)
  unfolding parse_inline_borrowed
  parse_inline_borrowed-crlf line rest h =
      rw
        (
          parse_inline_borrowed,
          memchr2-line line (b'\n' ∷ rest) b'\r' h refl,
          length-two line rest b'\r' b'\n',
          byte_is-append line (b'\n' ∷ rest) b'\r' b'\r',
          byte_is-next line rest b'\n' b'\r' b'\n',
        )
        (take-words line (crlf ++ rest))

  lf_at :
      (pre rest : Bytes)
      → IsLine pre
      → parse_inline_borrowed M (pre ++ (b'\n' ∷ rest))
        ≡ line_borrowed (length pre - 1) (pre ++ (b'\n' ∷ rest))
  unfolding parse_inline_borrowed
  lf_at pre rest h =
      let at_cr = byte_is-append pre rest b'\r' b'\n' in
      let at_lf = byte_is-append pre rest b'\n' b'\n' in
      elim (Bool-cases (ltb (length pre + 1) (length (pre ++ (b'\n' ∷ rest))))) [
        | inl e ↦
            rw (parse_inline_borrowed, memchr2-line pre rest b'\n' h refl, e, at_cr, at_lf) refl
        | inr e ↦ rw (parse_inline_borrowed, memchr2-line pre rest b'\n' h refl, e, at_lf) refl
      ]

  -- A line that ends in LF alone loses its last byte: the words are those of what stands before it.
  pub parse_inline_borrowed-lf :
      (line rest : Bytes) (c : ℕ)
      → IsLine line
      → IsPlain c
      → parse_inline_borrowed M (line ++ (c ∷ b'\n' ∷ rest))
        ≡ line_of_words (length line + 2) (words line)
  unfolding parse_inline_borrowed
  parse_inline_borrowed-lf line rest c h p =
      ap (parse_inline_borrowed M) (sym (append_assoc line (c ∷ []) (b'\n' ∷ rest)))
      ∙ lf_at (line ++ (c ∷ [])) rest (IsLine-append line c h p)
      ∙ ap (λ n. line_borrowed n ((line ++ (c ∷ [])) ++ (b'\n' ∷ rest)))
          (omega (arith, length-append line (c ∷ [])))
      ∙ ap (line_borrowed (length line)) (append_assoc line (c ∷ []) (b'\n' ∷ rest))
      ∙ take-words line (c ∷ b'\n' ∷ rest)

  -- An empty line that ends in LF alone is skipped with the byte behind it, whether there is one or not.
  pub parse_inline_borrowed-lf_only :
      (rest : Bytes) → parse_inline_borrowed M (b'\n' ∷ rest) ≡ ok (skip 2)
  parse_inline_borrowed-lf_only rest =
      lf_at [] rest tt ∙ line_borrowed-words 0 (b'\n' ∷ rest) ∙ unfold words in refl

  -- A CR with another byte behind it before the end of the line: no line is ever found.
  pub parse_inline_borrowed-cr :
      (line rest : Bytes) (c : ℕ)
      → IsLine line
      → (c == b'\n') ≡ false
      → parse_inline_borrowed M (line ++ (b'\r' ∷ c ∷ rest)) ≡ ok incomplete
  unfolding parse_inline_borrowed
  parse_inline_borrowed-cr line rest c h p =
      rw
        (
          parse_inline_borrowed,
          memchr2-line line (c ∷ rest) b'\r' h refl,
          length-two line rest b'\r' c,
          byte_is-append line (c ∷ rest) b'\r' b'\r',
          byte_is-append line (c ∷ rest) b'\n' b'\r',
          byte_is-next line rest b'\n' b'\r' c,
          p,
        )
        refl
