-- ===== src/Server/Main.antt =====
-- main.rs: what `main` starts for its configuration, and its end. The tasks that it aborts, the pinning of
-- threads and the log lines have no part here.
use zetdb.Prelude.{
  All, ℕ, ◌*◌, ◌%◌, ◌^◌, ◌/◌, ◌≡◌, ap, ◌∙◌, Bool, true, false, ◌&&◌, Option, none, some, Bytes, ltb,
  if◌then◌else◌,
}
use zetdb.Domain.Errors.{Result, ok, Outcome, returns, panics, deadlocks, ◌>>=◌}
use zetdb.Domain.Value.{ValueEntry, nanos_per_milli}
use zetdb.Config.{Config, interval, is_every_second}
use zetdb.Storage.DashMap.{DashMap}
use zetdb.Storage.Itoa.{Itoa}
use zetdb.Storage.Engine.{Engine, new_engine}
use zetdb.Storage.Engine.View.{view}
use zetdb.Storage.Aof.Replay.{Clock, ReadFile}
use zetdb.Storage.Aof.Writer
use zetdb.Storage.Aof.Writer.{AofWriter}
use zetdb.Storage.Snapshot.Crc.{Crc32}
use zetdb.Storage.Snapshot.{LoadError, load_snapshot}
use zetdb.Storage.Snapshot.Kept.{IsNear, Holds, dumped}
use zetdb.Storage.Snapshot.Restore.{HasRoom}
use zetdb.Storage.Snapshot.Disk.{Fault, no_fault, Files, open_file, dump_snapshot}
use zetdb.Storage.Snapshot.Restart.{FitsEngine, load_snapshot-dump_snapshot}
use zetdb.Server.Startup.{restore_from, replay_from, start_engine}

-- The snapshots are taken on a timer, unless the interval is below a millisecond.
unfoldable pub starts_snapshotter : Config → Bool
unfolding interval
starts_snapshotter c = c.snapshot.snapshot_enabled && ltb 0 (interval c.snapshot / nanos_per_milli)

-- The log that the sessions append to: none where it is disabled, or cannot be opened.
unfoldable pub open_log : Config → Option (Option Bytes) → ℕ → Option AofWriter
unfolding Writer.new
open_log c none now = none
open_log c (some existing) now =
    if c.aof.aof_enabled then some (Writer.new existing c.aof.aof_fsync now) else none

unfoldable pub starts_fsync : Config → Option AofWriter → Bool
unfolding is_every_second
starts_fsync c none = false
starts_fsync c (some w) = is_every_second c.aof.aof_fsync

-- The threshold of the rewriter, in bytes of 64 bits.
unfoldable pub rewrite_threshold : Config → ℕ
rewrite_threshold c = c.aof.aof_rewrite_threshold_mb * 1024 % 2 ^ 64 * 1024 % 2 ^ 64

module _ (I : Itoa) (C : Crc32) (load_clock replay_clock : ℕ → Clock) (D : DashMap ValueEntry) where
  -- The engine that `main` makes, which has no limit of keys, and restores.
  unfoldable pub boot : Config → ReadFile → ReadFile → Option (Outcome (Engine D))
  unfolding start_engine
  boot c snapshot_file aof_file =
      start_engine I C load_clock replay_clock D c.snapshot.snapshot_enabled c.aof.aof_enabled
        snapshot_file aof_file

module _ (C : Crc32) {D : DashMap ValueEntry} where
  -- The snapshot at the end, once the server has stopped.
  unfoldable pub final_snapshot : Config → Fault → ℕ → ℕ → Engine D → Files → Files
  final_snapshot c fault timestamp now s f =
      if c.snapshot.snapshot_enabled then (dump_snapshot C fault timestamp now s f).1 else f

module _ (I : Itoa) (C : Crc32) (load_clock replay_clock : ℕ → Clock) {E : DashMap ValueEntry} where
  start_engine-load_snapshot :
      (file aof_file : ReadFile) (x : Result ℕ LoadError × Engine E)
      → load_snapshot C load_clock file (new_engine E) ≡ returns x
      → start_engine I C load_clock replay_clock E true false file aof_file ≡ some (returns x.1)
  unfolding start_engine restore_from replay_from
  start_engine-load_snapshot file aof_file x e =
      ap
        (λ (o : Outcome (Result ℕ LoadError × Engine E)).
          let then_log : Option (Outcome (Engine E)) = elim (o >>= λ r. returns r.1) [
            | returns s ↦ some (returns s)
            | panics ↦ some panics
            | deadlocks ↦ some deadlocks
          ] in
          then_log)
        e

  boot-load_snapshot :
      (c : Config) (file aof_file : ReadFile) (x : Result ℕ LoadError × Engine E)
      → c.snapshot.snapshot_enabled ≡ true
      → c.aof.aof_enabled ≡ false
      → load_snapshot C load_clock file (new_engine E) ≡ returns x
      → boot I C load_clock replay_clock E c file aof_file ≡ some (returns x.1)
  unfolding boot
  boot-load_snapshot c file aof_file x on off e =
      ap (λ b. start_engine I C load_clock replay_clock E b c.aof.aof_enabled file aof_file) on
      ∙ ap (λ b. start_engine I C load_clock replay_clock E true b file aof_file) off
      ∙ start_engine-load_snapshot file aof_file x e

module _ (I : Itoa) (C : Crc32) (load_clock replay_clock : ℕ → Clock)
    {D E : DashMap ValueEntry} where
  -- With snapshots enabled and the log disabled, a stop whose snapshot meets no fault, of an engine that the
  -- format can hold and whose deadlines are fewer than 2^63 milliseconds away, and then a start by a clock with room for every time to live: the start
  -- succeeds, and each key has the value that was visible at the instant of the stop, or none if none
  -- was, with a deadline exactly if a whole millisecond of its time to live was left, and then as
  -- many whole milliseconds behind an instant of the clock of the start as were left.
  pub boot-final_snapshot :
      (c : Config) (timestamp now : ℕ) (s : Engine D) (f : Files) (aof_file : ReadFile)
      → c.snapshot.snapshot_enabled ≡ true
      → c.aof.aof_enabled ≡ false
      → FitsEngine s
      → All (λ p. IsNear now p.1.expires_at) (D.entries s.map)
      → ((n : ℕ) → HasRoom (load_clock n))
      → (s' : Engine E) × (boot I C load_clock replay_clock E c
            (open_file (final_snapshot C c no_fault timestamp now s f).main)
            aof_file
          ≡ some (returns s'))
        × ((k : Bytes) → Holds load_clock (E.get k s'.map) (dumped now (view s now k)))
  unfolding final_snapshot
  boot-final_snapshot c timestamp now s f aof_file on off fits near room =
      let saved =
        load_snapshot-dump_snapshot C {E = E} load_clock timestamp now s f fits near room in
      let files = (dump_snapshot C no_fault timestamp now s f).1 in
      (
        saved.1,
        ap
              (λ b.
                boot I C load_clock replay_clock E c (open_file (if b then files else f).main)
                  aof_file)
              on
            ∙ boot-load_snapshot I C load_clock replay_clock c (open_file files.main) aof_file
                (ok saved.0, saved.1) on off saved.3,
        saved.4,
      )
