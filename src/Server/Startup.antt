-- ===== src/Server/Startup.antt =====
-- main.rs: what `main` restores before the server listens. The engine starts empty and without a
-- limit of keys. What the two calls answer is only written to the log of the program.
use zetdb.Prelude.{ℕ, ◌≡◌, refl, ap, Bool, true, false, Option, none, some, List, All}
use zetdb.Domain.Errors.{Result, Outcome, returns, panics, deadlocks, ◌>>=◌}
use zetdb.Domain.Value.{ValueEntry}
use zetdb.Domain.Command.{Command}
use zetdb.Storage.DashMap.{DashMap}
use zetdb.Storage.Itoa.{Itoa}
use zetdb.Storage.Engine.{Engine, new_engine}
use zetdb.Storage.Aof.Entry.RoundTrip.{FitsLog}
use zetdb.Storage.Aof.Replay.{
  Clock, ReadFile, contents, ReplayResult, replayed, io_error, as_replayed, replay_aof,
}
use zetdb.Storage.Aof.Replay.Log.{log_of, apply_all, replay_aof-log_of}
use zetdb.Storage.Snapshot.Crc.{Crc32}
use zetdb.Storage.Snapshot.{LoadError, load_snapshot}
use zetdb.Storage.Snapshot.Disk.{Files, open_file, Tick, run_snapshotter}
use zetdb.Storage.Snapshot.Restart.{FitsEngine, last_saved, restored, load_snapshot-run_snapshotter}

module _ {D : DashMap ValueEntry} where
  abbrev pub engine_of : ReplayResult (Engine D) → Engine D
  engine_of (replayed n s) = s
  engine_of (io_error s) = s

module _ (C : Crc32) (clock : ℕ → Clock) {D : DashMap ValueEntry} where
  -- The snapshot, where the configuration enables it.
  unfoldable pub restore_from : Bool → ReadFile → Engine D → Outcome (Engine D)
  restore_from false file s = returns s
  restore_from true file s = do (_, s') ← load_snapshot C clock file s; returns s'

module _ (I : Itoa) (clock : ℕ → Clock) {D : DashMap ValueEntry} where
  -- The log, where the configuration enables it.
  unfoldable pub replay_from : Bool → ReadFile → Engine D → Option (Outcome (Engine D))
  replay_from false file s = some (returns s)
  replay_from true file s = elim (replay_aof I clock file s) [
    | none ↦ none
    | some o ↦ some (o >>= λ r. returns (engine_of r))
  ]

module _ (I : Itoa) (C : Crc32) (load_clock replay_clock : ℕ → Clock) (D : DashMap ValueEntry) where
  -- The engine that `main` hands to the server; `none` would be a replay out of fuel.
  unfoldable pub start_engine :
      (snapshot_enabled aof_enabled : Bool) (snapshot_file aof_file : ReadFile)
      → Option (Outcome (Engine D))
  unfolding restore_from replay_from
  start_engine snapshot_enabled aof_enabled snapshot_file aof_file =
      elim (restore_from C load_clock snapshot_enabled snapshot_file (new_engine D)) [
        | returns s ↦ replay_from I replay_clock aof_enabled aof_file s
        | panics ↦ some panics
        | deadlocks ↦ some deadlocks
      ]

module _ (I : Itoa) (replay_clock : ℕ → Clock) {E : DashMap ValueEntry} where
  replay_from-log_of :
      (cs : List Command) (s : Engine E)
      → All FitsLog cs
      → replay_from I replay_clock true (contents (log_of cs)) s
        ≡ some (apply_all I replay_clock 0 cs s >>= λ r. returns r.1)
  unfolding replay_from
  replay_from-log_of cs s fits =
      rw (replay_from, replay_aof-log_of I replay_clock cs s fits)
        (ap some (bind_replayed (apply_all I replay_clock 0 cs s)))
    where
      bind_replayed :
          (o : Outcome (ℕ × Engine E))
          → (as_replayed o >>= λ r. returns (engine_of r)) ≡ (o >>= λ r. returns r.1)
      bind_replayed (returns x) = refl
      bind_replayed panics = refl
      bind_replayed deadlocks = refl

  replay_after :
      (cs : List Command) (o : Outcome (Result ℕ LoadError × Engine E))
      → All FitsLog cs
      → ◌≡◌ {A = Option (Outcome (Engine E))}
          (elim (o >>= λ r. returns r.1) [
            | returns s ↦ replay_from I replay_clock true (contents (log_of cs)) s
            | panics ↦ some panics
            | deadlocks ↦ some deadlocks
          ])
          (some (o >>= λ r. apply_all I replay_clock 0 cs r.1 >>= λ x. returns x.1))
  replay_after cs (returns r) fits = replay_from-log_of cs r.1 fits
  replay_after cs panics fits = refl
  replay_after cs deadlocks fits = refl

module _ (I : Itoa) (C : Crc32) (load_clock replay_clock : ℕ → Clock)
    {D E : DashMap ValueEntry} where
  -- After any number of ticks of the background task on a disk without a snapshot, each with a fault
  -- at any call or with none, and each of an engine that the format can hold, and with a log of
  -- commands that each fit an entry, the start never runs out of rounds: it loads the last dump that
  -- succeeded in full, or nothing, into an empty engine and then applies every logged command in its
  -- order, also those that the dump has already seen.
  pub start_engine-log_of :
      (ticks : List (Tick D)) (f : Files) (cs : List Command)
      → f.main ≡ none
      → All (λ t. FitsEngine t.3) ticks
      → All FitsLog cs
      → start_engine I C load_clock replay_clock E true true
          (open_file (run_snapshotter C ticks f).main)
          (contents (log_of cs))
        ≡ some (
            restored C load_clock (last_saved ticks none) (new_engine E) >>= λ r.
            apply_all I replay_clock 0 cs r.1 >>= λ x. returns x.1)
  unfolding start_engine restore_from
  start_engine-log_of ticks f cs e h fits =
      rw
        (
          start_engine,
          restore_from,
          load_snapshot-run_snapshotter C load_clock ticks f (new_engine E) e h,
        )
        (replay_after I replay_clock cs
          (restored C load_clock (last_saved ticks none) (new_engine E)) fits)
