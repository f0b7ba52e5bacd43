-- ===== src/Protocol/Borrowed/Owned.antt =====
-- protocol/parser_borrowed.rs against protocol/parser.rs: the lines on which the two inline parsers
-- give the same command.
use mathlib.Core.Path.{subst}
use zetdb.Prelude.{
  ℕ, ◌+◌, ◌≡◌, refl, sym, ap, ◌∙◌, Bool, true, false, Option, some, none, List, [], ◌∷◌, ◌++◌,
  Bytes, length, if_rule, if◌then◌else◌,
}
use zetdb.Bytes.{codes, crlf}
use zetdb.Bytes.Decimal.{parse_u64}
use zetdb.Domain.Errors.{Result, ok, err}
use zetdb.Domain.Value.{from_secs, from_millis}
use zetdb.Domain.Command.{Command}
use zetdb.Protocol.Memchr.{Memchr2}
use zetdb.Protocol.Scan.{ParseError, complete, eq_ignore_ascii_case}
use zetdb.Protocol.Inline.{
  refuse, ttl_number, set_with, expire_with, with_pair, mset_with, parse_bytes,
}
use zetdb.Protocol.Inline.Messages.{one_key_usage, ex_extra, px_extra, ex_integer, px_integer}
use zetdb.Protocol.Inline.Words.{words}
use zetdb.Protocol.Inline.Reference.{
  single_key, ttl_value, ttl_words, set_words, expire_words, mget_words, pairs_of, verb_words,
  parse_words,
}
use zetdb.Protocol.Inline.Agreement.{parse_bytes-eq-parse_words}
use zetdb.Protocol.Borrowed.{mset_of, consuming, parse_inline_borrowed}
use zetdb.Protocol.Borrowed.Messages.{command_usage}
use zetdb.Protocol.Borrowed.Reference.{
  one_word, set_of, expire_of, mget_of, pairs_or_odd, command_of, line_of_words,
}
use zetdb.Protocol.Borrowed.Lines.{IsLine, parse_inline_borrowed-crlf}

-- Neither SET with a time to live nor EXPIRE.
abbrev pub NoSeconds : Command → Type 0
NoSeconds (Command.set k v (some ttl)) = ⊥
NoSeconds (Command.expire k n) = ⊥
NoSeconds _ = Unit

-- What the first answers without a time to live, the second answers as well.
abbrev Follows : Result Command ParseError → Result Command ParseError → Type 0
Follows x y = (c : Command) → NoSeconds c → x ≡ ok c → y ≡ ok c

if-Follows :
    (b : Bool) {x x' y y' : Result Command ParseError}
    → Follows x y
    → Follows x' y'
    → Follows (if b then x else x') (if b then y else y')
if-Follows true h h' = h
if-Follows false h h' = h'

same : (x : Result Command ParseError) → Follows x x
same x c n e = e

refused : (m : Bytes) (y : Result Command ParseError) → Follows (refuse m) y
refused m y c n e = cc

one-Follows :
    (name usage : Bytes) (make : Bytes → Command) (ws : List Bytes)
    → Follows (single_key name make ws) (one_word usage make ws)
one-Follows name usage make [] = refused _ _
one-Follows name usage make (k ∷ []) = same _
one-Follows name usage make (k ∷ w ∷ ws) = refused _ _

-- A time to live that is read is one.
abbrev IsTtl : Result (Option ℕ) ParseError → Type 0
IsTtl (ok none) = ⊥
IsTtl _ = Unit

ttl_number-IsTtl : (m : Bytes) (unit : ℕ → ℕ) (o : Option ℕ) → IsTtl (ttl_number m unit o)
ttl_number-IsTtl m unit none = tt
ttl_number-IsTtl m unit (some n) = tt

ttl_value-IsTtl :
    (extra m : Bytes) (unit : ℕ → ℕ) (ws : List Bytes) → IsTtl (ttl_value extra m unit ws)
ttl_value-IsTtl extra m unit [] = ttl_number-IsTtl m unit (parse_u64 [])
ttl_value-IsTtl extra m unit (n ∷ []) = ttl_number-IsTtl m unit (parse_u64 n)
ttl_value-IsTtl extra m unit (n ∷ w ∷ ws) = tt

ttl_words-IsTtl : (opt : Bytes) (ws : List Bytes) → IsTtl (ttl_words opt ws)
ttl_words-IsTtl opt ws =
    if_rule IsTtl (eq_ignore_ascii_case opt (codes "EX"))
      (ttl_value-IsTtl ex_extra ex_integer from_secs ws)
      (if_rule IsTtl (eq_ignore_ascii_case opt (codes "PX"))
        (ttl_value-IsTtl px_extra px_integer from_millis ws) tt)

abbrev IsBare : Result Command ParseError → Type 0
IsBare (ok c) = NoSeconds c
IsBare (err e) = Unit

-- A command with seconds is none of those that are compared.
seconds_follow :
    (c : Command) (y : Result Command ParseError) → (NoSeconds c → ⊥) → Follows (ok c) y
seconds_follow c y h c' n e = absurd (h (subst IsBare (sym e) n))

set_with-Follows :
    (k v : Bytes) (o : Result (Option ℕ) ParseError) (y : Result Command ParseError)
    → IsTtl o
    → Follows (set_with k v o) y
set_with-Follows k v (ok none) y h = absurd h
set_with-Follows k v (ok (some d)) y h = seconds_follow (Command.set k v (some d)) y (λ x. x)
set_with-Follows k v (err m) y h = λ c n e. cc

set-Follows : (ws : List Bytes) → Follows (set_words ws) (set_of ws)
set-Follows [] = refused _ _
set-Follows (k ∷ []) = refused _ _
set-Follows (k ∷ v ∷ []) = same _
set-Follows (k ∷ v ∷ opt ∷ []) = set_with-Follows k v (ttl_words opt []) _ (ttl_words-IsTtl opt [])
set-Follows (k ∷ v ∷ opt ∷ w ∷ ws) =
    set_with-Follows k v (ttl_words opt (w ∷ ws)) _ (ttl_words-IsTtl opt (w ∷ ws))

with_pair_follows :
    (p : Bytes × Bytes) (x y : Result (List (Bytes × Bytes)) ParseError) (ps : List (Bytes × Bytes))
    → ((qs : List (Bytes × Bytes)) → x ≡ ok qs → y ≡ ok qs)
    → with_pair p x ≡ ok ps
    → with_pair p y ≡ ok ps
with_pair_follows p (ok qs) y ps h e = ap (with_pair p) (h qs refl) ∙ e
with_pair_follows p (err m) y ps h e = cc

pairs_follow :
    (ws : List Bytes) (ps : List (Bytes × Bytes)) → pairs_of ws ≡ ok ps → pairs_or_odd ws ≡ ok ps
pairs_follow [] ps e = e
pairs_follow (k ∷ []) ps e = cc
pairs_follow (k ∷ v ∷ ws) ps e =
    with_pair_follows (k, v) (pairs_of ws) (pairs_or_odd ws) ps (pairs_follow ws) e

mset-Follows :
    (x y : Result (List (Bytes × Bytes)) ParseError)
    → ((qs : List (Bytes × Bytes)) → x ≡ ok qs → y ≡ ok qs)
    → Follows (mset_with x) (mset_of y)
mset-Follows (ok []) y h c n e = cc
mset-Follows (ok (p ∷ ps)) y h c n e = ap mset_of (h (p ∷ ps) refl) ∙ e
mset-Follows (err m) y h c n e = cc

expire_with-Follows :
    (k : Bytes) (o : Option ℕ) (y : Result Command ParseError) → Follows (expire_with k o) y
expire_with-Follows k none y = refused _ _
expire_with-Follows k (some m) y = seconds_follow (Command.expire k m) y (λ x. x)

expire-Follows : (ws : List Bytes) → Follows (expire_words ws) (expire_of ws)
expire-Follows [] = refused _ _
expire-Follows (k ∷ []) = refused _ _
expire-Follows (k ∷ n ∷ []) = expire_with-Follows k (parse_u64 n) _
expire-Follows (k ∷ n ∷ w ∷ ws) = refused _ _

mget-Follows : (ws : List Bytes) → Follows (mget_words ws) (mget_of ws)
mget-Follows [] = refused _ _
mget-Follows (k ∷ ks) = same _

verb-Follows : (verb : Bytes) (ws : List Bytes) → Follows (verb_words verb ws) (command_of verb ws)
verb-Follows verb ws =
    if-Follows (eq_ignore_ascii_case verb (codes "GET"))
      (one-Follows (codes "GET") (one_key_usage (codes "GET")) Command.get ws)
      (if-Follows (eq_ignore_ascii_case verb (codes "SET")) (set-Follows ws) (
        if-Follows (eq_ignore_ascii_case verb (codes "PING")) (same _) (
          if-Follows (eq_ignore_ascii_case verb (codes "DEL"))
            (one-Follows (codes "DEL") (one_key_usage (codes "DEL")) Command.del ws)
            (if-Follows (eq_ignore_ascii_case verb (codes "INCR"))
              (one-Follows (codes "INCR") (one_key_usage (codes "INCR")) Command.incr ws)
              (if-Follows (eq_ignore_ascii_case verb (codes "INFO")) (same _) (
                if-Follows (eq_ignore_ascii_case verb (codes "DBSIZE")) (same _) (
                  if-Follows (eq_ignore_ascii_case verb (codes "EXISTS"))
                    (one-Follows (codes "EXISTS") command_usage Command.exists ws)
                    (if-Follows (eq_ignore_ascii_case verb (codes "TTL"))
                      (one-Follows (codes "TTL") command_usage Command.ttl ws)
                      (if-Follows (eq_ignore_ascii_case verb (codes "EXPIRE")) (expire-Follows ws) (
                        if-Follows (eq_ignore_ascii_case verb (codes "FLUSHDB")) (same _) (
                          if-Follows (eq_ignore_ascii_case verb (codes "KEYS")) (same _) (
                            if-Follows (eq_ignore_ascii_case verb (codes "MGET")) (mget-Follows ws)
                              (if-Follows (eq_ignore_ascii_case verb (codes "MSET"))
                                (mset-Follows (pairs_of ws) (pairs_or_odd ws) (pairs_follow ws))
                                (same _))))))))))))))

words_follow :
    (ws : List Bytes) (n : ℕ) (c : Command)
    → NoSeconds c
    → parse_words ws ≡ ok c
    → line_of_words n ws ≡ ok (complete n c)
words_follow [] n c h e = cc
words_follow (verb ∷ ws) n c h e = ap (consuming n) (verb-Follows verb ws c h e)

-- A command that the owned parser reads off a line, and that is neither SET with a time to live nor EXPIRE,
-- is what the borrowed parser reads off the same line with CRLF behind it.
pub parse_inline_borrowed-eq-parse_bytes :
    (M : Memchr2) (line rest : Bytes) (c : Command)
    → IsLine line
    → NoSeconds c
    → parse_bytes line ≡ ok c
    → parse_inline_borrowed M (line ++ (crlf ++ rest)) ≡ ok (complete (length line + 2) c)
parse_inline_borrowed-eq-parse_bytes M line rest c h n e =
    parse_inline_borrowed-crlf M line rest h
    ∙ words_follow (words line) (length line + 2) c n (sym (parse_bytes-eq-parse_words line) ∙ e)
