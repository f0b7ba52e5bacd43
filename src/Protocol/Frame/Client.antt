-- ===== src/Protocol/Frame/Client.antt =====
-- The RESP frames that a client sends: the reference that the parser is compared with.
use zetdb.Prelude.{
  ◌*◌, ◌/◌, ◌^◌, ◌<◌, ◌≡◌, refl, none, some, List, [], ◌∷◌, ◌++◌, Bytes, length, arith,
}
use zetdb.Bytes.{codes, crlf}
use zetdb.Bytes.Decimal.{show_nat}
use zetdb.Domain.Value.{from_millis, nanos_per_milli}
use zetdb.Domain.Command.{Command}
use zetdb.Protocol.Frame.Wire.{resp_bulk}

abbrev pub resp_bulks : List Bytes → Bytes
resp_bulks [] = []
resp_bulks (w ∷ ws) = resp_bulk w ++ resp_bulks ws

-- The array of bulk strings that a client sends.
abbrev pub resp_array : List Bytes → Bytes
resp_array ws = b'*' ∷ (show_nat (length ws) ++ (crlf ++ resp_bulks ws))

abbrev pub pair_words : List (Bytes × Bytes) → List Bytes
pair_words [] = []
pair_words ((k, v) ∷ ps) = k ∷ v ∷ pair_words ps

abbrev pub verb : Command → Bytes
verb Command.ping = codes "PING"
verb (Command.get k) = codes "GET"
verb (Command.set k v t) = codes "SET"
verb (Command.del k) = codes "DEL"
verb (Command.incr k) = codes "INCR"
verb Command.info = codes "INFO"
verb Command.db_size = codes "DBSIZE"
verb (Command.exists k) = codes "EXISTS"
verb (Command.ttl k) = codes "TTL"
verb (Command.expire k n) = codes "EXPIRE"
verb Command.flush_db = codes "FLUSHDB"
verb Command.keys = codes "KEYS"
verb (Command.mget ks) = codes "MGET"
verb (Command.mset ps) = codes "MSET"

-- The time to live in milliseconds.
abbrev pub arguments : Command → List Bytes
arguments (Command.get k) = k ∷ []
arguments (Command.set k v none) = k ∷ v ∷ []
arguments (Command.set k v (some t)) = k ∷ v ∷ codes "PX" ∷ show_nat (t / nanos_per_milli) ∷ []
arguments (Command.del k) = k ∷ []
arguments (Command.incr k) = k ∷ []
arguments (Command.exists k) = k ∷ []
arguments (Command.ttl k) = k ∷ []
arguments (Command.expire k n) = k ∷ show_nat n ∷ []
arguments (Command.mget ks) = ks
arguments (Command.mset ps) = pair_words ps
arguments _ = []

-- A command as a client sends it.
abbrev pub resp_command : Command → Bytes
resp_command c = resp_array (verb c ∷ arguments c)

abbrev pub IsShort : Bytes → Type 0
IsShort d = length d < 2 ^ 63

-- The numbers of a command have their types, a time to live is whole milliseconds, and a command of
-- several keys has one and fits an array.
abbrev pub FitsFrame : Command → Type 0
FitsFrame (Command.set k v (some t)) =
    (t ≡ from_millis (t / nanos_per_milli)) × (t / nanos_per_milli < 2 ^ 64)
FitsFrame (Command.expire k n) = n < 2 ^ 64
FitsFrame (Command.mget ks) = (0 < length ks) × (length ks < 1024)
FitsFrame (Command.mset ps) = (0 < length ps) × (length ps < 512)
FitsFrame _ = Unit

pub length-pair_words : (ps : List (Bytes × Bytes)) → length (pair_words ps) ≡ 2 * length ps
length-pair_words [] = refl
length-pair_words ((k, v) ∷ ps) = omega (arith, length-pair_words ps)
