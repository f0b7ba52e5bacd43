-- ===== src/Tests/Snapshot.antt =====
-- The snapshots and the rewritten logs of concrete engines, with a checksum that is the length.
use zetdb.Prelude.{All, true, ℕ, ◌+◌, ◌≡◌, refl, none, some, List, [], ◌∷◌, ◌++◌, Bytes, arith}
use zetdb.Bytes.{codes, bytes_eq}
use zetdb.Domain.Errors.{err, returns}
use zetdb.Domain.Value.{ValueEntry}
use zetdb.Storage.Table.{table}
use zetdb.Storage.Engine.{new_engine}
use zetdb.Storage.Engine.View.{view}
use zetdb.Storage.Itoa.{display_itoa}
use zetdb.Storage.Aof.Replay.{Clock, contents, replay_aof, replayed}
use zetdb.Storage.Snapshot.{LoadError, load_snapshot}
use zetdb.Storage.Snapshot.Crc.{length_crc}
use zetdb.Storage.Snapshot.Kept.{Holds, IsNear, dumped}
use zetdb.Storage.Snapshot.Disk.{Files, no_fault, write_fails, open_file, Tick, run_snapshotter}
use zetdb.Storage.Snapshot.Restart.{FitsEngine, last_saved, restored, load_snapshot-run_snapshotter}
use zetdb.Storage.Snapshot.Damage.{IsSnapshot, load_snapshot_damaged}
use zetdb.Domain.Command.{Command}
use zetdb.Bytes.Utf8.{from_utf8_lossy}
use zetdb.Storage.Aof.Replay.Log.{log_of, apply_all}
use zetdb.Server.Startup.{start_engine, start_engine-log_of}
use zetdb.Domain.Errors.{◌>>=◌}
use zetdb.Config.{FsyncPolicy, default_config}
use zetdb.Storage.Engine.{dump_entries}
use zetdb.Storage.Aof.Replay.{not_found}
use zetdb.Storage.Aof.Writer.{AofWriter, working, on_path, file_size}
use zetdb.Storage.Aof.Rewrite.{rewrite_entries}
use zetdb.Storage.Aof.Rewriter.{
  Round, rewrite_round, replay_aof-rewrite_round, IsAtomic, rewrite_round-IsAtomic,
}
use zetdb.Server.Main.{boot, final_snapshot, boot-final_snapshot}
use zetdb.Prelude.{false}
use zetdb.Tests.Data.{Store, name, hits, store}

abbrev ticks : ℕ → Clock
ticks i j = i + j

abbrev no_files : Files
no_files = record { main = none; tmp = none }

store-fits : FitsEngine store
unfolding from_utf8_lossy bytes_eq
store-fits =
    (omega arith, (((omega arith, refl), omega arith), (((omega arith, refl), omega arith), tt)))

-- One entry, which at 50 has two milliseconds left.
abbrev lasting : Store
lasting = record {
  map = (hits, record { bytes = codes "7"; expires_at = some 2000050; created_at = none }) ∷ [];
  max_keys = 0;
}

lasting-fits : FitsEngine lasting
unfolding from_utf8_lossy bytes_eq
lasting-fits = (omega arith, (((omega arith, refl), omega arith), tt))

lasting-IsNear : All (λ p. IsNear 50 p.1.expires_at) ((table ValueEntry).entries lasting.map)
lasting-IsNear = (omega arith, tt)

-- A dump, and one whose write stops after nine bytes.
abbrev two_ticks : List (Tick (table ValueEntry))
two_ticks = (no_fault, 7, 50, store) ∷ (write_fails 9, 8, 60, store) ∷ []

load_snapshot-run_snapshotter_example :
    load_snapshot length_crc ticks
      (open_file (run_snapshotter length_crc two_ticks no_files).main)
      (new_engine (table ValueEntry))
    ≡ restored length_crc ticks (last_saved two_ticks none) (new_engine (table ValueEntry))
load_snapshot-run_snapshotter_example =
    load_snapshot-run_snapshotter length_crc ticks two_ticks no_files
      (new_engine (table ValueEntry)) refl (store-fits, (store-fits, tt))

-- Its version is 2.
abbrev newer : Bytes
newer = codes "ZDB1" ++ 2 ∷ codes "012345678901234567"

newer_version : ¬ (IsSnapshot length_crc newer)
newer_version h = ground (arith, h.2)

load_snapshot_damaged_example :
    (e : LoadError) × (load_snapshot length_crc ticks (contents newer) store
      ≡ returns (err e, store))
load_snapshot_damaged_example = load_snapshot_damaged length_crc ticks newer store newer_version

abbrev logged : List Command
logged = Command.incr hits ∷ Command.del name ∷ []

start_engine-log_of_example :
    start_engine display_itoa length_crc ticks
      (λ i j. 9 + j)
      (table ValueEntry)
      true
      true
      (open_file (run_snapshotter length_crc two_ticks no_files).main)
      (contents (log_of logged))
    ≡ some (
        restored length_crc ticks (last_saved two_ticks none) (new_engine (table ValueEntry))
        >>= λ r. apply_all display_itoa (λ i j. 9 + j) 0 logged r.1 >>= λ x. returns x.1)
unfolding from_utf8_lossy
start_engine-log_of_example =
    start_engine-log_of display_itoa length_crc ticks (λ i j. 9 + j) two_ticks no_files logged refl
      (store-fits, (store-fits, tt)) ((omega arith, refl), ((omega arith, refl), tt))

boot-final_snapshot_example :
    (s' : Store) × (boot display_itoa length_crc
        (λ i j. j)
        ticks
        (table ValueEntry)
        default_config
        (open_file (final_snapshot length_crc default_config no_fault 7 50 lasting no_files).main)
        not_found
      ≡ some (returns s'))
    × ((k : Bytes)
        → Holds (λ i j. j) ((table ValueEntry).get k s'.map) (dumped 50 (view lasting 50 k)))
boot-final_snapshot_example =
    boot-final_snapshot display_itoa length_crc (λ i j. j) ticks default_config 7 50 lasting
      no_files not_found refl refl lasting-fits lasting-IsNear (λ n. omega arith)

abbrev old_log : AofWriter
old_log = record {
  file = codes "old";
  synced = 3;
  batch = codes "b";
  fsync_policy = FsyncPolicy.everysec;
  last_fsync = 0;
  renamed = none;
}

abbrev quiet_round : Round (table ValueEntry)
quiet_round = record {
  size_fails = false;
  fault = no_fault;
  now = 50;
  engine = lasting;
  disk = working (λ j. j);
}

replay_aof-rewrite_round_example :
    (count : ℕ) × (s' : Store) × (on_path (rewrite_round 2 quiet_round old_log)
      ≡ rewrite_entries (dump_entries 50 lasting))
    × (replay_aof display_itoa
          (λ i j. j)
          (contents (on_path (rewrite_round 2 quiet_round old_log)))
          (new_engine (table ValueEntry))
        ≡ some (returns (replayed count s')))
    × ((k : Bytes)
        → Holds (λ i j. j) ((table ValueEntry).get k s'.map) (dumped 50 (view lasting 50 k)))
replay_aof-rewrite_round_example =
    replay_aof-rewrite_round display_itoa (λ i j. j) 2 quiet_round old_log (λ j. j) refl
      (unfold file_size in omega arith) refl refl lasting-fits.1 lasting-IsNear (λ n. omega arith)

-- The write of the temporary file stops after four bytes.
abbrev failing_round : Round (table ValueEntry)
failing_round = record quiet_round { fault = write_fails 4 }

rewrite_round-IsAtomic_example :
    IsAtomic
      (rewrite_entries (dump_entries 50 lasting))
      old_log
      (rewrite_round 2 failing_round old_log)
rewrite_round-IsAtomic_example = rewrite_round-IsAtomic 2 failing_round old_log refl
