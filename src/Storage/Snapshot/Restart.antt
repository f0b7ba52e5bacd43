-- ===== src/Storage/Snapshot/Restart.antt =====
-- storage/snapshot.rs: `load_snapshot` of the file that `dump_snapshot` or `run_snapshotter` left.
use mathlib.Core.Path.{subst}
use zetdb.Prelude.{
  ℕ, ◌^◌, ◌<◌, ◌≡◌, refl, ap, ◌∙◌, Option, none, some, List, [], ◌∷◌, Bytes, All, length, arith,
}
use zetdb.Domain.Errors.{Result, ok, Outcome, returns}
use zetdb.Domain.Value.{ValueEntry}
use zetdb.Storage.DashMap.{DashMap}
use zetdb.Storage.Engine.{Engine, dump_entries, new_engine}
use zetdb.Storage.Engine.View.{view}
use zetdb.Storage.Aof.Entry.RoundTrip.{FitsKey, FitsValue}
use zetdb.Storage.Aof.Replay.{Clock}
use zetdb.Storage.Snapshot.Crc.{Crc32}
use zetdb.Storage.Snapshot.Format.{Dumped, encode_snapshot}
use zetdb.Storage.Snapshot.{LoadError, loaded_of, load_snapshot}
use zetdb.Storage.Snapshot.RoundTrip.{restore_all, FitsDumped, load_snapshot-encode_snapshot}
use zetdb.Storage.Snapshot.Kept.{IsNear, Holds, dumped}
use zetdb.Storage.Snapshot.Restore.{
  HasRoom, restore_all-last_of, last_of-dump_entries, dump_list-FitsDumped, length-dump_list,
  All-map,
}
use zetdb.Storage.Snapshot.Disk.{
  Files, no_fault, create_fails, write_fails, sync_fails, rename_fails, open_file, dump_snapshot,
  Tick, run_snapshotter,
}

module _ {D : DashMap ValueEntry} where
  -- What the format can hold of an engine: fewer than 2^32 entries, keys that are text below 64 KiB
  -- and values below 4 GiB.
  abbrev pub FitsEngine : Engine D → Type 0
  FitsEngine s =
      (D.len s.map < 2 ^ 32) × All (λ p. FitsKey p.0 × FitsValue p.1.bytes) (D.entries s.map)

  dump_entries-FitsDumped :
      (now : ℕ) (s : Engine D)
      → FitsEngine s
      → All FitsDumped (dump_entries now s) × (length (dump_entries now s) < 2 ^ 32)
  unfolding dump_entries
  dump_entries-FitsDumped now s h = (
    dump_list-FitsDumped now (D.entries s.map) h.1,
    omega (arith, length-dump_list now (D.entries s.map), D.length-entries s.map, h.0),
  )

-- The last dump that succeeded, with its time stamp.
abbrev pub Saved : Type 0
Saved = Option (ℕ × List Dumped)

module _ {D : DashMap ValueEntry} where
  unfoldable pub last_saved : List (Tick D) → Saved → Saved
  last_saved [] o = o
  last_saved ((no_fault, timestamp, now, s) ∷ ticks) o =
      last_saved ticks (some (timestamp, dump_entries now s))
  last_saved ((create_fails, timestamp, now, s) ∷ ticks) o = last_saved ticks o
  last_saved ((write_fails n, timestamp, now, s) ∷ ticks) o = last_saved ticks o
  last_saved ((sync_fails, timestamp, now, s) ∷ ticks) o = last_saved ticks o
  last_saved ((rename_fails, timestamp, now, s) ∷ ticks) o = last_saved ticks o

abbrev FitsSaved : Saved → Type 0
FitsSaved none = Unit
FitsSaved (some (timestamp, ds)) = All FitsDumped ds × (length ds < 2 ^ 32)

abbrev file_of : Crc32 → Saved → Option Bytes
file_of C none = none
file_of C (some (timestamp, ds)) = some (encode_snapshot C timestamp ds)

module _ {D : DashMap ValueEntry} where
  last_saved-FitsSaved :
      (ticks : List (Tick D)) (o : Saved)
      → All (λ t. FitsEngine t.3) ticks
      → FitsSaved o
      → FitsSaved (last_saved ticks o)
  unfolding last_saved
  last_saved-FitsSaved [] o h e = e
  last_saved-FitsSaved ((no_fault, timestamp, now, s) ∷ ticks) o h e =
      last_saved-FitsSaved ticks _ h.1 (dump_entries-FitsDumped now s h.0)
  last_saved-FitsSaved ((create_fails, timestamp, now, s) ∷ ticks) o h e =
      last_saved-FitsSaved ticks o h.1 e
  last_saved-FitsSaved ((write_fails n, timestamp, now, s) ∷ ticks) o h e =
      last_saved-FitsSaved ticks o h.1 e
  last_saved-FitsSaved ((sync_fails, timestamp, now, s) ∷ ticks) o h e =
      last_saved-FitsSaved ticks o h.1 e
  last_saved-FitsSaved ((rename_fails, timestamp, now, s) ∷ ticks) o h e =
      last_saved-FitsSaved ticks o h.1 e

  main-run_snapshotter :
      (C : Crc32) (ticks : List (Tick D)) (f : Files) (o : Saved)
      → f.main ≡ file_of C o
      → (run_snapshotter C ticks f).main ≡ file_of C (last_saved ticks o)
  unfolding run_snapshotter last_saved
  main-run_snapshotter C [] f o e = e
  main-run_snapshotter C ((no_fault, timestamp, now, s) ∷ ticks) f o e =
      main-run_snapshotter C ticks _ (some (timestamp, dump_entries now s)) refl
  main-run_snapshotter C ((create_fails, timestamp, now, s) ∷ ticks) f o e =
      main-run_snapshotter C ticks _ o e
  main-run_snapshotter C ((write_fails n, timestamp, now, s) ∷ ticks) f o e =
      main-run_snapshotter C ticks _ o e
  main-run_snapshotter C ((sync_fails, timestamp, now, s) ∷ ticks) f o e =
      main-run_snapshotter C ticks _ o e
  main-run_snapshotter C ((rename_fails, timestamp, now, s) ∷ ticks) f o e =
      main-run_snapshotter C ticks _ o e

module _ (C : Crc32) {E : DashMap ValueEntry} (clock : ℕ → Clock) where
  -- The entries of a saved dump stored in their order, or nothing where there is none.
  abbrev pub restored : Saved → Engine E → Outcome (Result ℕ LoadError × Engine E)
  restored none s = returns (ok 0, s)
  restored (some (timestamp, ds)) s = loaded_of (restore_all clock 0 0 ds s)

  load-file_of :
      (o : Saved) (s : Engine E)
      → FitsSaved o
      → load_snapshot C clock (open_file (file_of C o)) s ≡ restored o s
  load-file_of none s h = unfold load_snapshot in refl
  load-file_of (some (timestamp, ds)) s h =
      load_snapshot-encode_snapshot C clock timestamp ds s h.0 h.1

module _ (C : Crc32) {D E : DashMap ValueEntry} (clock : ℕ → Clock) where
  -- After any number of ticks of the background task on a disk without a snapshot, each with a fault
  -- at any call or with none, and each of an engine that the format can hold, the file is loaded without an
  -- error: it gives the last dump that succeeded in full, or nothing if none did.
  pub load_snapshot-run_snapshotter :
      (ticks : List (Tick D)) (f : Files) (s : Engine E)
      → f.main ≡ none
      → All (λ t. FitsEngine t.3) ticks
      → load_snapshot C clock (open_file (run_snapshotter C ticks f).main) s
        ≡ restored C clock (last_saved ticks none) s
  load_snapshot-run_snapshotter ticks f s e h =
      ap (λ x. load_snapshot C clock (open_file x) s) (main-run_snapshotter C ticks f none e)
      ∙ load-file_of C clock (last_saved ticks none) s (last_saved-FitsSaved ticks none h tt)

  -- A dump of an engine that the format can hold, whose deadlines are fewer than 2^63 milliseconds away, loaded
  -- into a new engine by a clock with room for every time to live, answers the number of the dump, and
  -- then each key has the value that was visible at the instant of the dump, or none if none was; it has a
  -- deadline exactly if a whole millisecond of its time to live was left, and then it lies as many whole
  -- milliseconds behind an instant of that clock as were left.
  pub load_snapshot-dump_snapshot :
      (timestamp now : ℕ) (s : Engine D) (f : Files)
      → FitsEngine s
      → All (λ p. IsNear now p.1.expires_at) (D.entries s.map)
      → ((n : ℕ) → HasRoom (clock n))
      → (count : ℕ) × (s' : Engine E) × ((dump_snapshot C no_fault timestamp now s f).0 ≡ ok count)
        × (load_snapshot C clock
              (open_file (dump_snapshot C no_fault timestamp now s f).1.main)
              (new_engine E)
            ≡ returns (ok count, s'))
        × ((k : Bytes) → Holds clock (E.get k s'.map) (dumped now (view s now k)))
  unfolding dump_snapshot dump_entries new_engine view
  load_snapshot-dump_snapshot timestamp now s f fits near room =
      let ds = dump_entries now s in
      let h = dump_entries-FitsDumped now s fits in
      let all =
        restore_all-last_of clock ds 0 0 (new_engine E) (λ k. none) refl
          (All-map FitsDumped _ (λ d x. x.2) ds h.0) room (λ k. rw (E.get-empty k) tt) in
      (
        length ds,
        all.0,
        refl,
        load_snapshot-encode_snapshot C clock timestamp ds (new_engine E) h.0 h.1
            ∙ ap loaded_of (all.1 ∙ ap (λ n. returns (n, all.0)) (omega arith)),
        λ k. subst (Holds clock (E.get k all.0.map)) (last_of-dump_entries k now s near) (all.2 k),
      )
