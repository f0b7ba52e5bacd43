-- ===== src/Protocol/Borrowed/Agreement.antt =====
-- protocol/parser_borrowed.rs: the parser against the reference that takes the line apart into words
-- first.
use zetdb.Prelude.{
  ℕ, zero, suc, ◌+◌, ◌≤◌, ◌≡◌, refl, sym, ap, ◌∙◌, [], ◌∷◌, Bytes, length, take, is_empty, arith,
  inl, inr,
}
use zetdb.Bytes.{codes}
use zetdb.Domain.Command.{Command}
use zetdb.Protocol.Scan.{trim}
use zetdb.Protocol.Inline.{with_pair}
use zetdb.Protocol.Inline.Messages.{one_key_usage}
use zetdb.Protocol.Inline.Words.{words, word_view, words-trim, rest_lt, rest_lt_trim, trim_le}
use zetdb.Protocol.Borrowed.{
  parse_single_key_borrowed, parse_set_borrowed, parse_expire_borrowed, mget_words_loop,
  parse_mget_borrowed, mset_words_loop, parse_mset_borrowed, without_arguments, mset_of,
  verb_borrowed, line_borrowed,
}
use zetdb.Protocol.Borrowed.Messages.{command_usage}
use zetdb.Protocol.Borrowed.Reference.{
  one_word, set_of, expire_of, mget_of, pairs_or_odd, none_of, command_of, line_of_words,
}
use zetdb.Protocol.Borrowed.Words.{parse_u64_ascii-word, parse_u64_ascii-words}

single_key-eq :
    (usage : Bytes) (make : Bytes → Command) (rest : Bytes)
    → parse_single_key_borrowed usage make rest ≡ one_word usage make (words rest)
unfolding parse_single_key_borrowed
single_key-eq usage make rest = elim (word_view rest) [
  | inl (e, w) ↦ rw (e, w) refl
  | inr (k, r, e, ne, nk, w) ↦ elim (word_view r) [
    | inl (e', w') ↦ rw (ne, e, e', w, w') refl
    | inr (k', r', e', ne', nk', w') ↦ rw (ne, e, ne', w, w') refl
  ]
]

set-eq : (rest : Bytes) → parse_set_borrowed rest ≡ set_of (words rest)
unfolding parse_set_borrowed
set-eq rest = elim (word_view rest) [
  | inl (e, w) ↦ rw (e, w) refl
  | inr (k, r, e, ne, nk, w) ↦ elim (word_view r) [
    | inl (e', w') ↦ rw (ne, e, nk, e', w, w') refl
    | inr (v, r', e', ne', nv, w') ↦ elim (word_view r') [
      | inl (e'', w'') ↦ rw (ne, e, nk, ne', e', e'', w, w', w'') refl
      | inr (t, r'', e'', ne'', nt, w'') ↦ elim (word_view r'') [
        | inl (e3, w3) ↦ rw (ne, e, nk, ne', e', ne'', e'', e3, w, w', w'', w3) refl
        | inr (x, r3, e3, ne3, nx, w3) ↦
            rw (ne, e, nk, ne', e', ne'', e'', ne3, w, w', w'', w3) refl
      ]
    ]
  ]
]

expire-eq : (rest : Bytes) → parse_expire_borrowed rest ≡ expire_of (words rest)
unfolding parse_expire_borrowed
expire-eq rest = elim (word_view rest) [
  | inl (e, w) ↦ rw (e, w) refl
  | inr (k, r, e, ne, nk, w) ↦ elim (word_view r) [
    | inl (e', w') ↦ rw (ne, e, e', w, w') refl
    | inr (n, r', e', ne', nn, w') ↦ elim (word_view r') [
      | inl (e'', w'') ↦ rw (ne, e, ne', w, w', w'', parse_u64_ascii-word r n r' e' w'') refl
      | inr (x, r'', e'', ne'', nx, w'') ↦
          rw (ne, e, ne', w, w', w'', parse_u64_ascii-words r n r' e' (ap is_empty w'')) refl
    ]
  ]
]

none-eq :
    (name : Bytes) (c : Command) (rest : Bytes)
    → without_arguments name c rest ≡ none_of name c (words rest)
none-eq name c rest = elim (word_view rest) [
  | inl (e, w) ↦ rw (e, w) refl
  | inr (k, r, e, ne, nk, w) ↦ rw (ne, w) refl
]

no_words : (s : Bytes) → length (trim s) ≤ 0 → words s ≡ []
no_words s h = sym (words-trim s) ∙ nothing (trim s) h
  where
    nothing : (t : Bytes) → length t ≤ 0 → words t ≡ []
    nothing [] h = unfold words in refl
    nothing (b ∷ t) h = absurd (omega arith)

mget_loop-eq :
    (fuel : ℕ) (s : Bytes) → length (trim s) ≤ fuel → mget_words_loop fuel (trim s) ≡ words s
unfolding mget_words_loop
mget_loop-eq zero s h = sym (no_words s h)
mget_loop-eq (suc fuel) s h = elim (word_view s) [
  | inl (e, w) ↦ rw (e, w) refl
  | inr (k, r, e, ne, nk, w) ↦
      rw (ne, e, nk, w)
        (ap (◌∷◌ k) (mget_loop-eq fuel r (omega (arith, rest_lt_trim s k r e nk, trim_le r))))
]

mset_loop-eq :
    (fuel : ℕ) (s : Bytes)
    → length (trim s) ≤ fuel
    → mset_words_loop fuel (trim s) ≡ pairs_or_odd (words s)
unfolding mset_words_loop
mset_loop-eq zero s h = sym (ap pairs_or_odd (no_words s h))
mset_loop-eq (suc fuel) s h = elim (word_view s) [
  | inl (e, w) ↦ rw (e, w) refl
  | inr (k, r, e, ne, nk, w) ↦ elim (word_view r) [
    | inl (e', w') ↦ rw (ne, e, nk, e', w, w') refl
    | inr (v, r', e', ne', nv, w') ↦
        rw (ne, e, nk, ne', e', w, w')
          (ap (with_pair (k, v)) (
            mset_loop-eq fuel r'
              (omega (arith, rest_lt_trim s k r e nk, rest_lt r v r' e' nv, trim_le r'))))
  ]
]

mget-eq : (rest : Bytes) → parse_mget_borrowed rest ≡ mget_of (words rest)
unfolding parse_mget_borrowed
mget-eq rest =
    let keys = mget_loop-eq (length (trim rest)) rest (omega arith) in
    elim (word_view rest) [
      | inl (e, w) ↦ rw (e, w) refl
      | inr (k, r, e, ne, nk, w) ↦ rw (ne, keys, w) refl
    ]

mset-eq : (rest : Bytes) → parse_mset_borrowed rest ≡ mset_of (pairs_or_odd (words rest))
unfolding parse_mset_borrowed
mset-eq rest =
    let pairs = mset_loop-eq (length (trim rest)) rest (omega arith) in
    elim (word_view rest) [
      | inl (e, w) ↦ rw (e, w) refl
      | inr (k, r, e, ne, nk, w) ↦ rw (ne, pairs) refl
    ]

verb-eq : (verb rest : Bytes) → verb_borrowed verb rest ≡ command_of verb (words rest)
unfolding verb_borrowed
verb-eq verb rest =
    rw
      (
        single_key-eq (one_key_usage (codes "GET")) Command.get rest,
        set-eq rest,
        single_key-eq (one_key_usage (codes "DEL")) Command.del rest,
        single_key-eq (one_key_usage (codes "INCR")) Command.incr rest,
        single_key-eq command_usage Command.exists rest,
        single_key-eq command_usage Command.ttl rest,
        expire-eq rest,
        none-eq (codes "FLUSHDB") Command.flush_db rest,
        none-eq (codes "KEYS") Command.keys rest,
        mget-eq rest,
        mset-eq rest,
      )
      refl

pub line_borrowed-words :
    (pos : ℕ) (buf : Bytes) → line_borrowed pos buf ≡ line_of_words (pos + 2) (words (take pos buf))
unfolding line_borrowed
line_borrowed-words pos buf = elim (word_view (take pos buf)) [
  | inl (e, w) ↦ rw (e, w) refl
  | inr (verb, rest, e, ne, nk, w) ↦ rw (ne, e, w, verb-eq verb rest) refl
]
