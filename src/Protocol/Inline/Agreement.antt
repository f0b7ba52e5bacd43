-- ===== src/Protocol/Inline/Agreement.antt =====
-- protocol/parser.rs: the inline parser against the reference that takes the line apart into words
-- first.
use zetdb.Prelude.{
  ℕ, zero, suc, ◌≤◌, ◌≡◌, refl, sym, ap, ◌∙◌, true, [], ◌∷◌, Bytes, length, is_empty, if◌then◌else◌,
  arith, inl, inr,
}
use zetdb.Bytes.{codes}
use zetdb.Domain.Errors.{ok}
use zetdb.Domain.Command.{Command}
use zetdb.Protocol.Scan.{trim, trim_start, trim_end, split_first_word}
use zetdb.Protocol.Inline.{
  refuse, with_pair, no_arguments, parse_single_key_bytes, parse_ttl_option, parse_set_bytes,
  parse_expire_bytes, mget_loop, parse_mget_bytes, mset_loop, parse_mset_bytes, parse_verb,
  parse_bytes,
}
use zetdb.Protocol.Inline.Messages.{takes_no_arguments}
use zetdb.Protocol.Inline.Words.{words, word_view, words-trim, rest_lt}
use zetdb.Protocol.Inline.Reference.{
  single_key, ttl_words, set_words, expire_words, mget_words, pairs_of, mset_words, verb_words,
  parse_words,
}

module _ (name : Bytes) where
  single_key-eq :
      (make : Bytes → Command) (rest : Bytes)
      → parse_single_key_bytes name make rest ≡ single_key name make (words rest)
  unfolding parse_single_key_bytes
  single_key-eq make rest = elim (word_view rest) [
    | inl (e, w) ↦ rw (e, w) refl
    | inr (k, r, e, ne, nk, w) ↦ elim (word_view r) [
      | inl (e', w') ↦ rw (ne, e, e', w, w') refl
      | inr (k', r', e', ne', nk', w') ↦ rw (ne, e, ne', w, w') refl
    ]
  ]

split_nothing : (s : Bytes) → trim s ≡ [] → split_first_word (trim s) ≡ ([], [])
split_nothing s e = ap split_first_word e ∙ unfold split_first_word in refl

trim_nothing : is_empty (trim []) ≡ true
unfolding trim trim_start trim_end
trim_nothing = refl

ttl-eq :
    (input opt r : Bytes)
    → split_first_word input ≡ (opt, r)
    → parse_ttl_option input ≡ ttl_words opt (words r)
unfolding parse_ttl_option
ttl-eq input opt r e = elim (word_view r) [
  | inl (e', w') ↦ rw (e, split_nothing r e', trim_nothing, w') refl
  | inr (k, r', e', ne', nk', w') ↦ elim (word_view r') [
    | inl (e'', w'') ↦ rw (e, e', e'', w', w'') refl
    | inr (k2, r'', e'', ne'', nk'', w'') ↦ rw (e, e', ne'', w', w'') refl
  ]
]

set-eq : (rest : Bytes) → parse_set_bytes rest ≡ set_words (words rest)
unfolding parse_set_bytes
set-eq rest = elim (word_view rest) [
  | inl (e, w) ↦ rw (e, w) refl
  | inr (k, r, e, ne, nk, w) ↦ elim (word_view r) [
    | inl (e', w') ↦ rw (ne, e, nk, e', w, w') refl
    | inr (v, r', e', ne', nv, w') ↦ elim (word_view r') [
      | inl (e'', w'') ↦ rw (ne, e, nk, ne', e', e'', w, w', w'') refl
      | inr (opt, r'', e'', ne'', nopt, w'') ↦
          rw (ne, e, nk, ne', e', ne'', w, w', w'', ttl-eq (trim r') opt r'' e'') refl
    ]
  ]
]

expire-eq : (rest : Bytes) → parse_expire_bytes rest ≡ expire_words (words rest)
unfolding parse_expire_bytes
expire-eq rest = elim (word_view rest) [
  | inl (e, w) ↦ rw (e, w) refl
  | inr (k, r, e, ne, nk, w) ↦ elim (word_view r) [
    | inl (e', w') ↦ rw (ne, e, nk, e', w, w') refl
    | inr (n, r', e', ne', nn, w') ↦ elim (word_view r') [
      | inl (e'', w'') ↦ rw (ne, e, nk, ne', e', e'', w, w', w'') refl
      | inr (x, r'', e'', ne'', nx, w'') ↦ rw (ne, e, nk, ne', e', ne'', w, w', w'') refl
    ]
  ]
]

no_arguments-eq :
    (name : Bytes) (c : Command) (rest : Bytes)
    → no_arguments name c rest
      ≡ (if is_empty (words rest) then ok c else refuse (takes_no_arguments name))
no_arguments-eq name c rest = elim (word_view rest) [
  | inl (e, w) ↦ rw (e, w) refl
  | inr (k, r, e, ne, nk, w) ↦ rw (ne, w) refl
]

words-nil : words [] ≡ []
unfolding words
words-nil = refl

mget_loop-eq : (fuel : ℕ) (s : Bytes) → length s ≤ fuel → mget_loop fuel s ≡ words s
unfolding mget_loop
mget_loop-eq zero [] h = sym words-nil
mget_loop-eq zero (b ∷ s) h = absurd (omega arith)
mget_loop-eq (suc fuel) s h = elim (word_view s) [
  | inl (e, w) ↦ rw (e, w) refl
  | inr (k, r, e, ne, nk, w) ↦
      rw (ne, e, w) (ap (◌∷◌ k) (mget_loop-eq fuel r (omega (arith, rest_lt s k r e nk))))
]

mset_loop-eq : (fuel : ℕ) (s : Bytes) → length s ≤ fuel → mset_loop fuel s ≡ pairs_of (words s)
unfolding mset_loop
mset_loop-eq zero [] h = sym (ap pairs_of words-nil)
mset_loop-eq zero (b ∷ s) h = absurd (omega arith)
mset_loop-eq (suc fuel) s h = elim (word_view s) [
  | inl (e, w) ↦ rw (e, w) refl
  | inr (k, r, e, ne, nk, w) ↦ elim (word_view r) [
    | inl (e', w') ↦ rw (ne, e, nk, e', w, w') refl
    | inr (v, r', e', ne', nv, w') ↦
        rw (ne, e, nk, ne', e', w, w')
          (ap (with_pair (k, v))
            (mset_loop-eq fuel r' (omega (arith, rest_lt s k r e nk, rest_lt r v r' e' nv))))
  ]
]

mget-eq : (rest : Bytes) → parse_mget_bytes rest ≡ mget_words (words rest)
unfolding parse_mget_bytes
mget-eq rest =
    let keys = mget_loop-eq (length (trim rest)) (trim rest) (omega arith) ∙ words-trim rest in
    elim (word_view rest) [
      | inl (e, w) ↦ rw (e, w) refl
      | inr (k, r, e, ne, nk, w) ↦ rw (ne, keys, w) refl
    ]

mset-eq : (rest : Bytes) → parse_mset_bytes rest ≡ mset_words (words rest)
unfolding parse_mset_bytes
mset-eq rest =
    let pairs =
      mset_loop-eq (length (trim rest)) (trim rest) (omega arith) ∙ ap pairs_of (words-trim rest) in
    elim (word_view rest) [
      | inl (e, w) ↦ rw (e, w) refl
      | inr (k, r, e, ne, nk, w) ↦ rw (ne, pairs) refl
    ]

verb-eq : (verb rest : Bytes) → parse_verb verb rest ≡ verb_words verb (words rest)
unfolding parse_verb
verb-eq verb rest =
    rw
      (
        single_key-eq (codes "GET") Command.get rest,
        set-eq rest,
        single_key-eq (codes "DEL") Command.del rest,
        single_key-eq (codes "INCR") Command.incr rest,
        single_key-eq (codes "EXISTS") Command.exists rest,
        single_key-eq (codes "TTL") Command.ttl rest,
        expire-eq rest,
        no_arguments-eq (codes "FLUSHDB") Command.flush_db rest,
        no_arguments-eq (codes "KEYS") Command.keys rest,
        mget-eq rest,
        mset-eq rest,
      )
      refl

-- The inline parser answers on a line what the reference answers on the words of the line.
pub parse_bytes-eq-parse_words : (line : Bytes) → parse_bytes line ≡ parse_words (words line)
unfolding parse_bytes
parse_bytes-eq-parse_words line = elim (word_view line) [
  | inl (e, w) ↦ rw (e, w) refl
  | inr (verb, rest, e, ne, nk, w) ↦ rw (ne, e, w, verb-eq verb rest) refl
]
