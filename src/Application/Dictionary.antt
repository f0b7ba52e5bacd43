-- ===== src/Application/Dictionary.antt =====
-- What the commands mean, apart from the code: a dictionary from keys to values, with no clock, no
-- table and no entries. It leaves aside deadlines (SET with a time to live, EXPIRE) and a limit on the
-- keys; of INFO and DBSIZE it says what they change, which is nothing, and not what they answer.
pub mod Operations
pub mod Refines
pub mod Replayed
use zetdb.Prelude.{
  ℕ, ◌≡◌, Bool, false, ◌||◌, Option, none, some, List, [], ◌∷◌, Bytes, if◌then◌else◌, is_some,
}
use zetdb.Prelude.Int.{ℤ, pos, negsuc, suc_i64}
use zetdb.Bytes.{bytes_eq}
use zetdb.Bytes.Decimal.{parse_i64, show_int}
use zetdb.Bytes.Utf8.{from_utf8_lossy}
use zetdb.Domain.Errors.{not_an_integer, display}
use zetdb.Domain.Value.{ValueEntry}
use zetdb.Domain.Command.{Command}
use zetdb.Storage.DashMap.{DashMap}
use zetdb.Storage.Engine.{Engine}
use zetdb.Protocol.Response.{Response, type_error}
use zetdb.Application.Dispatch.{data_of, flag, key_items}

abbrev pub Dictionary : Type 0
Dictionary = Bytes → Option Bytes

abbrev pub nothing_stored : Dictionary
nothing_stored j = none

-- The dictionary with `o` at `k`.
abbrev pub updated : Bytes → Option Bytes → Dictionary → Dictionary
updated k o d j = if bytes_eq k j then o else d j

abbrev pub updated_all : List (Bytes × Bytes) → Dictionary → Dictionary
updated_all [] d = d
updated_all ((k, v) ∷ rest) d = updated_all rest (updated k (some v) d)

-- The integer that a value holds, for INCR; a key that is not there counts from 0.
abbrev pub counted : Option Bytes → Option ℤ
counted none = some (pos 0)
counted (some v) = parse_i64 (from_utf8_lossy v)

abbrev pub incr_to : Bytes → Option ℤ → Dictionary → Dictionary
incr_to k none d = d
incr_to k (some n) d = updated k (some (show_int (suc_i64 n))) d

abbrev pub incr_answer : Bytes → Option ℤ → Response
incr_answer k none = Response.error (type_error (display (not_an_integer k)))
incr_answer k (some n) = Response.integer (suc_i64 n)

abbrev pub values : Dictionary → List Bytes → List (Option Bytes)
values d [] = []
values d (k ∷ ks) = d k ∷ values d ks

-- The commands that the dictionary gives a meaning.
abbrev pub IsPlain : Command → Type 0
IsPlain (Command.set k v ttl) = ttl ≡ none
IsPlain (Command.expire k seconds) = ⊥
IsPlain _ = Unit

unfoldable pub meaning : Command → Dictionary → Dictionary
meaning (Command.set k v ttl) d = updated k (some v) d
meaning (Command.del k) d = updated k none d
meaning (Command.incr k) d = incr_to k (counted (d k)) d
meaning Command.flush_db d = nothing_stored
meaning (Command.mset pairs) d = updated_all pairs d
meaning _ d = d

-- The reply, where the dictionary settles it.
unfoldable pub meant_reply : Command → Dictionary → Option Response
meant_reply Command.ping d = some Response.pong
meant_reply (Command.get k) d = some (Response.value (d k))
meant_reply (Command.set k v ttl) d = some Response.ok
meant_reply (Command.del k) d = some (Response.integer (flag (is_some (d k))))
meant_reply (Command.incr k) d = some (incr_answer k (counted (d k)))
meant_reply (Command.exists k) d = some (Response.integer (flag (is_some (d k))))
meant_reply (Command.ttl k) d =
    some (Response.integer (if is_some (d k) then negsuc 0 else negsuc 1))
meant_reply Command.flush_db d = some Response.ok
meant_reply (Command.mget ks) d = some (Response.array (values d ks))
meant_reply (Command.mset pairs) d = some Response.ok
meant_reply _ d = none

abbrev pub elem : Bytes → List Bytes → Bool
elem k [] = false
elem k (j ∷ js) = bytes_eq j k || elem k js

abbrev pub Agrees : Option Response → Response → Type 0
Agrees none r = Unit
Agrees (some x) r = r ≡ x

-- What the reply may be: KEYS lists the keys of the dictionary, in any order; another command has the
-- reply that is meant.
abbrev pub Answers : Command → Dictionary → Response → Type 0
Answers Command.keys d r =
    (ks : List Bytes) × (r ≡ Response.array (key_items ks))
    × ((k : Bytes) → elem k ks ≡ is_some (d k))
Answers c d r = Agrees (meant_reply c d) r

unfoldable pub meaning_all : List Command → Dictionary → Dictionary
unfolding meaning
meaning_all [] d = d
meaning_all (c ∷ cs) d = meaning_all cs (meaning c d)

module _ {D : DashMap ValueEntry} where
  -- The engine stands for the dictionary: it has no limit on the keys, no entry has a deadline, and
  -- the bytes of the entries are the dictionary's values.
  abbrev pub Represents : Engine D → Dictionary → Type 0
  Represents s d =
      (s.max_keys ≡ 0)
      × ((j : Bytes) → data_of (D.get j s.map) ≡ d j)
      × ((j : Bytes) (e : ValueEntry) → D.get j s.map ≡ some e → e.expires_at ≡ none)
