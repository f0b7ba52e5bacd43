-- ===== src/Storage/Aof/Entry/RoundTrip.antt =====
-- What `to_aof_entry` writes, the replay reads back.
use mathlib.Core.Path.{subst}
use zetdb.Prelude.{
  ℕ, ◌/◌, ◌%◌, ◌^◌, ◌<◌, ◌≡◌, refl, ap, ◌∙◌, Option, none, some, is_some, inl, inr, ◌⊎◌, List, [],
  ◌∷◌, ◌++◌, append_assoc, Bytes, length, length-append, take-length-append, drop-length-append,
  All, arith,
}
use zetdb.Prelude.Int.{ℤ, pos, negsuc, to_word, IsI64, of_word-to_word, to_word-lt}
use zetdb.Bytes.Endian.{to_le_bytes, from_le_bytes, length-to_le_bytes, from_le_bytes-to_le_bytes}
use zetdb.Bytes.Utf8.{IsUtf8}
use zetdb.Domain.Value.{nanos_per_milli}
use zetdb.Domain.Command.{Command}
use zetdb.Storage.Aof.Entry.{
  encode_key, encode_value, encode_ttl, encode_pairs, ttl_millis, to_aof_entry, Logged, set, del,
  incr, expire, flushdb, mset, read_word, read_bytes, read_key, read_value, read_pair, read_pairs,
  read_entry,
}

read_bytes-append :
    (n : ℕ) (s rest : Bytes) → length s ≡ n → read_bytes n (s ++ rest) ≡ some (s, rest)
unfolding read_bytes
read_bytes-append n s rest h =
    subst (λ k. read_bytes k (s ++ rest) ≡ some (s, rest)) h
      (ground (arith, length-append s rest, take-length-append s rest, drop-length-append s rest))

word_of : Option (Bytes × Bytes) → Option (ℕ × Bytes)
word_of none = none
word_of (some (b, r)) = some (from_le_bytes b, r)

read_word-eq : (w : ℕ) (rest : Bytes) → read_word w rest ≡ word_of (read_bytes w rest)
unfolding read_word read_bytes word_of
read_word-eq w rest = ground arith

pub read_word-append :
    (w v : ℕ) (rest : Bytes) → v < 256 ^ w → read_word w (to_le_bytes w v ++ rest) ≡ some (v, rest)
unfolding word_of
read_word-append w v rest h = rw (
  read_word-eq w,
  read_bytes-append w (to_le_bytes w v) rest (length-to_le_bytes w v),
  from_le_bytes-to_le_bytes w v h,
)

-- What fits the width of its length field.
abbrev pub FitsKey : Bytes → Type 0
FitsKey k = (length k < 2 ^ 16) × IsUtf8 k

abbrev pub FitsValue : Bytes → Type 0
FitsValue v = length v < 2 ^ 32

abbrev pub FitsPair : Bytes × Bytes → Type 0
FitsPair p = FitsKey p.0 × FitsValue p.1

-- The commands that the format of the log can hold: keys are text below 64 KiB, values are below
-- 4 GiB, at most 65535 pairs, and a time to live whose milliseconds fit an `i64`.
abbrev pub FitsLog : Command → Type 0
FitsLog (Command.set k v none) = FitsKey k × FitsValue v
FitsLog (Command.set k v (some d)) = FitsKey k × FitsValue v × (d / nanos_per_milli < 2 ^ 63)
FitsLog (Command.del k) = FitsKey k
FitsLog (Command.incr k) = FitsKey k
FitsLog (Command.expire k seconds) = FitsKey k × (seconds < 2 ^ 64)
FitsLog (Command.mset pairs) = (length pairs < 2 ^ 16) × All FitsPair pairs
FitsLog _ = Unit

abbrev pub ttl_field : Option ℕ → ℤ
ttl_field none = negsuc 0
ttl_field (some d) = pos (d / nanos_per_milli)

-- What the log says of a command.
abbrev pub logged : Command → Option Logged
logged (Command.set k v ttl) = some (set k v (ttl_field ttl))
logged (Command.del k) = some (del k)
logged (Command.incr k) = some (incr k)
logged (Command.expire k seconds) = some (expire k seconds)
logged Command.flush_db = some flushdb
logged (Command.mset pairs) = some (mset pairs)
logged _ = none

read_word-encode_key :
    (k rest : Bytes) → FitsKey k → read_word 2 (encode_key k ++ rest) ≡ some (length k, k ++ rest)
unfolding encode_key
read_word-encode_key k rest h = rw append_assoc (
    read_word-append 2 (length k % 2 ^ 16) (k ++ rest) (omega arith)
    ∙ ap (λ n. some (n, k ++ rest)) (omega arith))

read_word-encode_value :
    (v rest : Bytes)
    → FitsValue v
    → read_word 4 (encode_value v ++ rest) ≡ some (length v, v ++ rest)
unfolding encode_value
read_word-encode_value v rest h = rw append_assoc (
    read_word-append 4 (length v % 2 ^ 32) (v ++ rest) (omega arith)
    ∙ ap (λ n. some (n, v ++ rest)) (omega arith))

pub read_key-encode_key :
    (k rest : Bytes) → FitsKey k → read_key (encode_key k ++ rest) ≡ some (k, rest)
unfolding read_key
read_key-encode_key k rest h =
    rw (read_word-encode_key k rest h, read_bytes-append (length k) k rest refl, h.1)

pub read_value-encode_value :
    (v rest : Bytes) → FitsValue v → read_value (encode_value v ++ rest) ≡ some (v, rest)
unfolding read_value
read_value-encode_value v rest h =
    rw (read_word-encode_value v rest h, read_bytes-append (length v) v rest refl)

read_pair-encode :
    (k v rest : Bytes)
    → FitsPair (k, v)
    → read_pair (encode_key k ++ (encode_value v ++ rest)) ≡ (some (k, v), rest)
unfolding read_pair
read_pair-encode k v rest h = ground (
  arith,
  read_word-encode_key k (encode_value v ++ rest) h.0,
  read_bytes-append (length k) k (encode_value v ++ rest) refl,
  read_word-encode_value v rest h.1,
  read_bytes-append (length v) v rest refl,
  h.0.1,
)

read_pairs-encode_pairs :
    (ps : List (Bytes × Bytes)) (rest : Bytes)
    → All FitsPair ps
    → read_pairs (length ps) (encode_pairs ps ++ rest) ≡ (ps, rest)
unfolding read_pairs encode_pairs
read_pairs-encode_pairs [] rest h = refl
read_pairs-encode_pairs ((k, v) ∷ ps) rest h =
    rw (append_assoc (encode_key k), append_assoc (encode_value v))
      (ground (
        arith,
        read_pair-encode k v (encode_pairs ps ++ rest) h.0,
        read_pairs-encode_pairs ps rest h.1,
      ))

pub ttl_millis-eq : (ttl : Option ℕ) → IsI64 (ttl_field ttl) → ttl_millis ttl ≡ ttl_field ttl
unfolding ttl_millis
ttl_millis-eq none h = refl
ttl_millis-eq (some d) h = ground arith

read_ttl :
    (ttl : Option ℕ) (rest : Bytes)
    → IsI64 (ttl_field ttl)
    → read_word 8 (encode_ttl (ttl_millis ttl) ++ rest) ≡ some (to_word (ttl_field ttl), rest)
unfolding encode_ttl
read_ttl ttl rest h =
    rw (ttl_millis-eq ttl h)
      (read_word-append 8 (to_word (ttl_field ttl)) rest (to_word-lt (ttl_field ttl)))

set_fits :
    (k v : Bytes) (ttl : Option ℕ)
    → FitsLog (Command.set k v ttl)
    → FitsKey k × FitsValue v × IsI64 (ttl_field ttl)
set_fits k v none h = (h.0, h.1, omega arith)
set_fits k v (some d) h = h

mod_fits : (n : ℕ) → n < 2 ^ 16 → n % 2 ^ 16 ≡ n
mod_fits n h = omega arith

-- The log holds every write command that it can hold, and the replay reads back what the entry says,
-- whatever follows it; of the other commands nothing is logged.
pub read_entry-to_aof_entry :
    (c : Command) (rest : Bytes)
    → FitsLog c
    → elim (to_aof_entry c) [ none ↦ none | some bs ↦ read_entry (bs ++ rest) ]
      ≡ elim (logged c) [ none ↦ none | some l ↦ some (l, rest) ]
unfolding to_aof_entry read_entry
read_entry-to_aof_entry (Command.set k v ttl) rest h = rw (
  append_assoc (encode_key k),
  append_assoc (encode_value v),
  read_key-encode_key k (encode_value v ++ (encode_ttl (ttl_millis ttl) ++ rest))
      (set_fits k v ttl h).0,
  read_value-encode_value v (encode_ttl (ttl_millis ttl) ++ rest) (set_fits k v ttl h).1,
  read_ttl ttl rest (set_fits k v ttl h).2,
  of_word-to_word (ttl_field ttl) (set_fits k v ttl h).2,
)
read_entry-to_aof_entry (Command.del k) rest h = rw (read_key-encode_key k rest h)
read_entry-to_aof_entry (Command.incr k) rest h = rw (read_key-encode_key k rest h)
read_entry-to_aof_entry (Command.expire k seconds) rest h = rw (
  append_assoc (encode_key k),
  read_key-encode_key k (to_le_bytes 8 seconds ++ rest) h.0,
  read_word-append 8 seconds rest h.1,
)
read_entry-to_aof_entry (Command.mset pairs) rest h = rw (
  append_assoc (to_le_bytes 2 (length pairs % 2 ^ 16)),
  read_word-append 2 (length pairs % 2 ^ 16) (encode_pairs pairs ++ rest) (omega arith),
  mod_fits (length pairs) h.0,
  read_pairs-encode_pairs pairs rest h.1,
)
read_entry-to_aof_entry _ rest h = refl

same_logged : (c : Command) → is_some (to_aof_entry c) ≡ is_some (logged c)
unfolding to_aof_entry
same_logged Command.ping = refl
same_logged _ = refl

-- A command is not logged, or its entry is read back whatever follows it.
pub entry_cases :
    (c : Command) (rest : Bytes)
    → FitsLog c
    → ((to_aof_entry c ≡ none) × (logged c ≡ none))
      ⊎ ((bs : Bytes) × (l : Logged) × (to_aof_entry c ≡ some bs)
          × (logged c ≡ some l)
          × (read_entry (bs ++ rest) ≡ some (l, rest)))
entry_cases c rest h = go (to_aof_entry c) (logged c) refl refl (read_entry-to_aof_entry c rest h)
  where
    go :
        (o : Option Bytes) (p : Option Logged)
        → to_aof_entry c ≡ o
        → logged c ≡ p
        → elim o [ none ↦ none | some bs ↦ read_entry (bs ++ rest) ]
          ≡ elim p [ none ↦ none | some l ↦ some (l, rest) ]
        → ((to_aof_entry c ≡ none) × (logged c ≡ none))
          ⊎ ((bs : Bytes) × (l : Logged) × (to_aof_entry c ≡ some bs)
              × (logged c ≡ some l)
              × (read_entry (bs ++ rest) ≡ some (l, rest)))
    go none none e f x = inl (e, f)
    go none (some l) e f x = absurd (cc)
    go (some bs) none e f x = ground (arith, same_logged c)
    go (some bs) (some l) e f x = inr (bs, l, e, f, x)
