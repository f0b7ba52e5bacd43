-- ===== src/Storage/Aof/Writer.antt =====
-- storage/aof.rs: `AofWriter`, its batch and its file, on a disk where any call may fail. A failed
-- `write_all` has written a prefix.
pub mod Appends
pub mod Durable
pub mod Failed
use zetdb.Prelude.{
  ℕ, ◌-◌, Bool, true, false, ◌&&◌, Option, none, some, [], ◌++◌, Bytes, length, take, is_empty, leb,
  ltb, if◌then◌else◌,
}
use zetdb.Domain.Value.{nanos_per_sec}
use zetdb.Config.{FsyncPolicy, always, everysec, no_sync, is_every_write, is_every_second}

abbrev pub aof_batch_size : ℕ
aof_batch_size = 4096

-- `file` is what the open file holds, and `synced` how many bytes of it are known to be on the disk.
-- `renamed` is the file that the path names, where that is no longer the open one.
pub record AofWriter : Type 0 where
  pub file : Bytes
  pub synced : ℕ
  pub batch : Bytes
  pub fsync_policy : FsyncPolicy
  pub last_fsync : ℕ
  pub renamed : Option Bytes

-- The readings of the clock in one method, and which of its calls fail; a write after some bytes.
pub record Disk : Type 0 where
  pub clock : ℕ → ℕ
  pub batch_write : Option ℕ
  pub entry_write : Option ℕ
  pub sync_fails : Bool
  pub rename_fails : Bool
  pub open_fails : Bool

abbrev pub working : (ℕ → ℕ) → Disk
working clock = record {
  clock = clock;
  batch_write = none;
  entry_write = none;
  sync_fails = false;
  rename_fails = false;
  open_fails = false;
}

-- An `io::Result<()>`.
pub data Io : Type 0 where
  done failed : Io

-- The operator `?` between two calls.
infixl 5 ◌and_then◌
abbrev pub ◌and_then◌ : Io × AofWriter → (AofWriter → Io × AofWriter) → Io × AofWriter
(done, w) and_then f = f w
(failed, w) and_then f = (failed, w)

-- `AofWriter::new` on a file with what it has, or none yet; `now` is the reading of the clock.
unfoldable pub new : Option Bytes → FsyncPolicy → ℕ → AofWriter
new existing policy now = record {
  file = elim existing [ none ↦ [] | some bs ↦ bs ];
  synced = 0;
  batch = [];
  fsync_policy = policy;
  last_fsync = now;
  renamed = none;
}

abbrev pub write_all : Option ℕ → Bytes → AofWriter → Io × AofWriter
write_all none bs w = (done, record w { file = w.file ++ bs })
write_all (some n) bs w = (failed, record w { file = w.file ++ take n bs })

abbrev pub sync_all : Disk → AofWriter → Io × AofWriter
sync_all d w = if d.sync_fails then (failed, w) else (done, record w { synced = length w.file })

-- `if !batch.is_empty() { write_all(&batch)?; batch.clear() }`
unfoldable pub write_batch : Disk → AofWriter → Io × AofWriter
write_batch d w =
    if is_empty w.batch
    then (done, w)
    else (write_all d.batch_write w.batch w and_then λ w'. (done, record w' { batch = [] }))

-- The sync of the policy `everysec`: the first reading of the clock decides, the second is kept.
unfoldable pub sync_after_second : Disk → AofWriter → Io × AofWriter
sync_after_second d w =
    if leb nanos_per_sec (d.clock 0 - w.last_fsync)
    then (sync_all d w and_then λ w'. (done, record w' { last_fsync = d.clock 1 }))
    else (done, w)

unfoldable pub sync_by : FsyncPolicy → Disk → AofWriter → Io × AofWriter
unfolding sync_after_second
sync_by always d w = sync_all d w
sync_by everysec d w = sync_after_second d w
sync_by no_sync d w = (done, w)

-- The batch, then the entry.
unfoldable pub flush_batch : Disk → Bytes → AofWriter → Io × AofWriter
unfolding write_batch sync_by
flush_batch d entry w =
    write_batch d w and_then write_all d.entry_write entry and_then sync_by w.fsync_policy d

-- The entry joins the batch; a batch that is full is flushed.
unfoldable pub append_raw : Disk → Bytes → AofWriter → Io × AofWriter
unfolding flush_batch
append_raw d entry w =
    let w' = record w { batch = w.batch ++ entry } in
    if ltb (length w'.batch) aof_batch_size then (done, w') else flush_batch d entry w'

unfoldable pub flush : Disk → AofWriter → Io × AofWriter
unfolding write_batch is_every_write
flush d w = write_batch d w and_then λ w'.
    if is_every_write w.fsync_policy then sync_all d w' else (done, w')

unfoldable pub flush_if_needed : Disk → AofWriter → Io × AofWriter
unfolding write_batch is_every_second
flush_if_needed d w =
    if is_every_second w.fsync_policy && leb nanos_per_sec (d.clock 0 - w.last_fsync)
    then (write_batch d w and_then sync_all d and_then λ w'.
        (done, record w' { last_fsync = d.clock 1 }))
    else (done, w)

-- What the path names.
abbrev pub on_path : AofWriter → Bytes
on_path w = elim w.renamed [ none ↦ w.file | some bs ↦ bs ]

-- `file_size`, where the call succeeds.
unfoldable pub file_size : AofWriter → ℕ
file_size w = length (on_path w)

-- The batch goes to the old file; then the rewritten one is renamed over the path and opened.
unfoldable pub finalize_rewrite : Disk → Bytes → AofWriter → Io × AofWriter
unfolding write_batch
finalize_rewrite d rewritten w = write_batch d w and_then λ w1.
    if d.rename_fails
    then (failed, w1)
    else if d.open_fails
    then (failed, record w1 { renamed = some rewritten })
    else (done, record w1 { file = rewritten; synced = length rewritten; renamed = none })

-- What the writer holds, in the order in which a flush leaves it in the file.
abbrev pub contents : AofWriter → Bytes
contents w = w.file ++ w.batch
