-- ===== src/Storage/Aof/Entry.antt =====
-- domain/command.rs, `to_aof_entry`, and the readers of storage/aof.rs. The source keeps a position in
-- the data; a reader here takes the bytes that remain at the position and returns those that remain
-- behind what it read.
pub mod RoundTrip
use zetdb.Prelude.{
  ℕ, zero, suc, ◌+◌, ◌/◌, ◌%◌, ◌^◌, Bool, true, false, Option, none, some, List, [], ◌∷◌, ◌++◌,
  Bytes, length, take, drop, ltb, ◌==◌, if◌then◌else◌,
}
use zetdb.Prelude.Int.{ℤ, pos, negsuc, of_word, to_word}
use zetdb.Bytes.Endian.{to_le_bytes, from_le_bytes}
use zetdb.Bytes.Utf8.{from_utf8_lossy}
use zetdb.Domain.Value.{nanos_per_milli}
use zetdb.Domain.Command.{Command}

abbrev pub cmd_set : ℕ
cmd_set = 1

abbrev pub cmd_del : ℕ
cmd_del = 2

abbrev pub cmd_incr : ℕ
cmd_incr = 3

abbrev pub cmd_expire : ℕ
cmd_expire = 4

abbrev pub cmd_flushdb : ℕ
cmd_flushdb = 5

abbrev pub cmd_mset : ℕ
cmd_mset = 6

-- `len as u16`, little endian, and the key.
unfoldable pub encode_key : Bytes → Bytes
encode_key key = to_le_bytes 2 (length key % 2 ^ 16) ++ key

-- `len as u32`, little endian, and the value.
unfoldable pub encode_value : Bytes → Bytes
encode_value value = to_le_bytes 4 (length value % 2 ^ 32) ++ value

unfoldable pub encode_ttl : ℤ → Bytes
encode_ttl ttl_ms = to_le_bytes 8 (to_word ttl_ms)

-- `d.as_millis() as i64`, or -1.
unfoldable pub ttl_millis : Option ℕ → ℤ
ttl_millis none = negsuc 0
ttl_millis (some d) = of_word (d / nanos_per_milli)

unfoldable pub encode_pairs : List (Bytes × Bytes) → Bytes
encode_pairs [] = []
encode_pairs ((k, v) ∷ rest) = encode_key k ++ (encode_value v ++ encode_pairs rest)

-- `none` for a command that only reads.
unfoldable pub to_aof_entry : Command → Option Bytes
to_aof_entry (Command.set key value ttl) =
    some (cmd_set ∷ (encode_key key ++ (encode_value value ++ encode_ttl (ttl_millis ttl))))
to_aof_entry (Command.del key) = some (cmd_del ∷ encode_key key)
to_aof_entry (Command.incr key) = some (cmd_incr ∷ encode_key key)
to_aof_entry (Command.expire key seconds) =
    some (cmd_expire ∷ (encode_key key ++ to_le_bytes 8 seconds))
to_aof_entry Command.flush_db = some (cmd_flushdb ∷ [])
to_aof_entry (Command.mset pairs) =
    some (cmd_mset ∷ (to_le_bytes 2 (length pairs % 2 ^ 16) ++ encode_pairs pairs))
to_aof_entry _ = none

-- What an entry says to do.
pub data Logged : Type 0 where
  set : Bytes → Bytes → ℤ → Logged
  del : Bytes → Logged
  incr : Bytes → Logged
  expire : Bytes → ℕ → Logged
  flushdb : Logged
  mset : List (Bytes × Bytes) → Logged

infixl 5 ◌>>=◌
abbrev pub ◌>>=◌ {ℓ κ} : {A : Type ℓ} {B : Type κ} → Option A → (A → Option B) → Option B
none >>= f = none
some a >>= f = f a

-- `read_u16_le`, `read_u32_le` and `read_u64_le` at `w` 2, 4 and 8, behind the check that the source
-- makes before each call: that `w` bytes remain.
unfoldable pub read_word : ℕ → Bytes → Option (ℕ × Bytes)
read_word w rest =
    if ltb (length rest) w then none else some (from_le_bytes (take w rest), drop w rest)

-- `n` bytes, if they remain.
unfoldable pub read_bytes : ℕ → Bytes → Option (Bytes × Bytes)
read_bytes n rest = if ltb (length rest) n then none else some (take n rest, drop n rest)

unfoldable pub read_key : Bytes → Option (Bytes × Bytes)
read_key rest = do (n, r) ← read_word 2 rest; (k, r') ← read_bytes n r; some (from_utf8_lossy k, r')

unfoldable pub read_value : Bytes → Option (Bytes × Bytes)
read_value rest = do (n, r) ← read_word 4 rest; read_bytes n r

-- One pair of an MSET. Where the data end inside it there is no pair, and what remains is what lies
-- behind the last part that was read.
unfoldable pub read_pair : Bytes → Option (Bytes × Bytes) × Bytes
read_pair rest = elim (read_word 2 rest) [
  | none ↦ (none, rest)
  | some (n, r1) ↦ elim (read_bytes n r1) [
    | none ↦ (none, r1)
    | some (k, r2) ↦ elim (read_word 4 r2) [
      | none ↦ (none, r2)
      | some (m, r3) ↦ elim (read_bytes m r3) [
        | none ↦ (none, r3)
        | some (v, r4) ↦ (some (from_utf8_lossy k, v), r4)
      ]
    ]
  ]
]

-- The loop over the pairs: a `break` inside it ends this loop only.
unfoldable pub read_pairs : ℕ → Bytes → List (Bytes × Bytes) × Bytes
read_pairs zero rest = ([], rest)
read_pairs (suc n) rest =
    let r = read_pair rest in
    let more = read_pairs n r.1 in elim r.0 [ none ↦ ([], r.1) | some p ↦ (p ∷ more.0, more.1) ]

-- One round of the loop of `replay_aof` up to the call of the engine; `none` ends the replay.
unfoldable pub read_entry : Bytes → Option (Logged × Bytes)
read_entry [] = none
read_entry (c ∷ rest) =
    if c == cmd_set
    then (do
      (k, r1) ← read_key rest
      (v, r2) ← read_value r1
      (w, r3) ← read_word 8 r2
      some (set k v (of_word w), r3))
    else if c == cmd_del
    then (do (k, r) ← read_key rest; some (del k, r))
    else if c == cmd_incr
    then (do (k, r) ← read_key rest; some (incr k, r))
    else if c == cmd_expire
    then (do (k, r1) ← read_key rest; (seconds, r2) ← read_word 8 r1; some (expire k seconds, r2))
    else if c == cmd_flushdb
    then some (flushdb, rest)
    else if c == cmd_mset
    then (do (n, r) ← read_word 2 rest; let ps = read_pairs n r; some (mset ps.0, ps.1))
    else none
