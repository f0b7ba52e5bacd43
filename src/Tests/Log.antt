-- ===== src/Tests/Log.antt =====
-- The append-only log at concrete commands and bytes.
use zetdb.Prelude.{ℕ, ◌+◌, ◌≡◌, refl, none, [], ◌∷◌, Bytes, arith}
use zetdb.Bytes.Endian.{to_le_bytes}
use zetdb.Bytes.Utf8.{from_utf8_lossy}
use zetdb.Domain.Command.{Command}
use zetdb.Storage.Aof.Entry.{to_aof_entry, encode_key, read_entry, cmd_del}
use zetdb.Storage.Aof.Replay.{Clock}
use zetdb.Storage.Aof.Replay.Torn.{read_entry_torn}
use zetdb.Tests.Data.{name}

abbrev ticks : ℕ → Clock
ticks i j = i + j

-- An entry of INCR, and one that is not an entry.
abbrev incr_entry : Bytes
incr_entry = 3 ∷ 1 ∷ 0 ∷ b'k' ∷ 9 ∷ []

read_entry_torn_example : read_entry (cmd_del ∷ 4 ∷ 0 ∷ b'n' ∷ b'a' ∷ []) ≡ none
unfolding from_utf8_lossy to_aof_entry encode_key to_le_bytes
read_entry_torn_example =
    read_entry_torn (Command.del name) (cmd_del ∷ 4 ∷ 0 ∷ b'n' ∷ b'a' ∷ []) b'm' (b'e' ∷ [])
      (omega arith, refl) tt refl
