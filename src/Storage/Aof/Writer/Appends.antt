-- ===== src/Storage/Aof/Writer/Appends.antt =====
-- storage/aof.rs: what an append adds to the log, on a disk that works.
use zetdb.Prelude.{
  ℕ, ◌+◌, ◌≤◌, ◌<◌, ◌≡◌, refl, [], ◌++◌, append_assoc, append-nil, Bytes, length, length-append,
  ltb, arith, if◌then◌else◌,
}
use zetdb.Config.{FsyncPolicy, always, everysec, no_sync, is_every_second}
use zetdb.Domain.Value.{nanos_per_sec}
use zetdb.Storage.Aof.Writer.{
  AofWriter, Disk, working, done, aof_batch_size, write_batch, sync_after_second, sync_by,
  flush_batch, append_raw, flush, flush_if_needed, contents,
}

write_batch-working :
    (clock : ℕ → ℕ) (w : AofWriter)
    → write_batch (working clock) w ≡ (done, record w { file = w.file ++ w.batch; batch = [] })
unfolding write_batch
write_batch-working clock w = ground (arith, append-nil w.file)

sync_by_file :
    (p : FsyncPolicy) (clock : ℕ → ℕ) (w : AofWriter)
    → ((sync_by p (working clock) w).0 ≡ done)
      × ((sync_by p (working clock) w).1.file ≡ w.file)
      × ((sync_by p (working clock) w).1.batch ≡ w.batch)
unfolding sync_by sync_after_second
sync_by_file always clock w = (refl, refl, refl)
sync_by_file everysec clock w = ground arith
sync_by_file no_sync clock w = (refl, refl, refl)

flush_batch-working :
    (clock : ℕ → ℕ) (entry : Bytes) (w : AofWriter)
    → flush_batch (working clock) entry w
      ≡ sync_by w.fsync_policy
          (working clock)
          (record w { file = (w.file ++ w.batch) ++ entry; batch = [] })
unfolding flush_batch
flush_batch-working clock entry w = rw (flush_batch, write_batch-working clock w) refl

-- On a disk that works an append succeeds; it adds the entry once while the batch has room, and twice
-- when it fills the batch.
pub contents-append_raw :
    (clock : ℕ → ℕ) (entry : Bytes) (w : AofWriter)
    → ((append_raw (working clock) entry w).0 ≡ done)
      × (contents (append_raw (working clock) entry w).1 ≡ (
          if ltb (length w.batch + length entry) aof_batch_size
          then contents w ++ entry
          else (contents w ++ entry) ++ entry))
unfolding append_raw
contents-append_raw clock entry w =
    let full = (w.file ++ (w.batch ++ entry)) ++ entry in
    ground (
      arith,
      length-append w.batch entry,
      append_assoc w.file w.batch entry,
      append-nil full,
      flush_batch-working clock entry (record w { batch = w.batch ++ entry }),
      sync_by_file w.fsync_policy clock (record w { file = full; batch = [] }),
    )

-- Whatever the policy and whatever the disk does, while the batch has room an append succeeds and leaves
-- the file and what is synced of it as they were: under `always` too the entry is not on the disk
-- when the client gets its reply.
pub append_raw_unsynced :
    (d : Disk) (entry : Bytes) (w : AofWriter)
    → length w.batch + length entry < aof_batch_size
    → ((append_raw d entry w).0 ≡ done)
      × ((append_raw d entry w).1.file ≡ w.file)
      × ((append_raw d entry w).1.synced ≡ w.synced)
unfolding append_raw
append_raw_unsynced d entry w h = ground (arith, length-append w.batch entry)

-- On a disk that works a flush succeeds and loses nothing that was appended: all of it is in the file,
-- and the batch is empty.
pub flush_lem :
    (clock : ℕ → ℕ) (w : AofWriter)
    → ((flush (working clock) w).0 ≡ done)
      × ((flush (working clock) w).1.file ≡ contents w)
      × ((flush (working clock) w).1.batch ≡ [])
unfolding flush
flush_lem clock w = ground (arith, write_batch-working clock w)

-- Under `everysec` the background task leaves everything that was appended synced on a disk that works,
-- a second after the last sync.
pub flush_if_needed_synced :
    (clock : ℕ → ℕ) (w : AofWriter)
    → w.fsync_policy ≡ everysec
    → w.last_fsync + nanos_per_sec ≤ clock 0
    → flush_if_needed (working clock) w ≡ (
      done,
      record w {
        file = contents w;
        synced = length (contents w);
        batch = [];
        last_fsync = clock 1;
      },
    )
unfolding flush_if_needed is_every_second
flush_if_needed_synced clock w e h = ground (arith, write_batch-working clock w, e, h)
