-- ===== src/Storage/Snapshot/Disk.antt =====
-- storage/snapshot.rs: `dump_snapshot` and `run_snapshotter` on the files of the disk. The standard
-- library's calls are modelled by what they leave behind: `create` empties the file, a failed
-- `write_all` has written a prefix, and `rename` replaces the other file in one step or not at all.
use zetdb.Prelude.{ℕ, Option, none, some, List, [], ◌∷◌, Bytes, length, take}
use zetdb.Domain.Errors.{Result, ok, err}
use zetdb.Domain.Value.{ValueEntry}
use zetdb.Storage.DashMap.{DashMap}
use zetdb.Storage.Engine.{Engine, dump_entries}
use zetdb.Storage.Aof.Replay.{ReadFile, contents, not_found}
use zetdb.Storage.Snapshot.Crc.{Crc32}
use zetdb.Storage.Snapshot.Format.{encode_snapshot}
use zetdb.Storage.Snapshot.{LoadError, io}

-- The snapshot and the file `{path}.tmp`.
pub record Files : Type 0 where
  pub main : Option Bytes
  pub tmp : Option Bytes

-- The call that fails, if one does; `write_all` after some bytes.
pub data Fault : Type 0 where
  no_fault : Fault
  create_fails : Fault
  write_fails : ℕ → Fault
  sync_fails : Fault
  rename_fails : Fault

-- The atomic write of `count` entries in `buf`.
unfoldable pub write_atomic : Fault → ℕ → Bytes → Files → Result ℕ LoadError × Files
write_atomic no_fault count buf f = (ok count, record { main = some buf; tmp = none })
write_atomic create_fails count buf f = (err io, f)
write_atomic (write_fails n) count buf f = (err io, record f { tmp = some (take n buf) })
write_atomic sync_fails count buf f = (err io, record f { tmp = some buf })
write_atomic rename_fails count buf f = (err io, record f { tmp = some buf })

abbrev pub open_file : Option Bytes → ReadFile
open_file none = not_found
open_file (some bs) = contents bs

module _ (C : Crc32) {D : DashMap ValueEntry} where
  unfoldable pub dump_snapshot : Fault → ℕ → ℕ → Engine D → Files → Result ℕ LoadError × Files
  unfolding write_atomic encode_snapshot dump_entries
  dump_snapshot fault timestamp now s f =
      let entries = dump_entries now s in
      write_atomic fault (length entries) (encode_snapshot C timestamp entries) f

-- A tick of the background task: the fault, the time stamp, the instant and the engine then.
abbrev pub Tick : DashMap ValueEntry → Type 0
Tick D = Fault × ℕ × ℕ × Engine D

module _ (C : Crc32) {D : DashMap ValueEntry} where
  -- The loop logs each result and goes on.
  unfoldable pub run_snapshotter : List (Tick D) → Files → Files
  unfolding dump_snapshot
  run_snapshotter [] f = f
  run_snapshotter ((fault, timestamp, now, s) ∷ ticks) f =
      run_snapshotter ticks (dump_snapshot C fault timestamp now s f).1
