-- ===== src/Storage/Aof/Rewriter.antt =====
-- storage/aof.rs: the background tasks of the log, `run_aof_rewriter` and `run_aof_fsync`. A round of
-- the first makes its temporary file anew, so none is kept between the rounds.
use zetdb.Prelude.{
  ℕ, ◌≤◌, ◌≡◌, ◌⊎◌, inl, inr, sym, ap, ◌∙◌, Bool, true, false, Option, none, some, List, [], ◌∷◌,
  ◌++◌, Bytes, All, length, ltb, arith, if◌then◌else◌, if_rule, Bool-cases, append-nil,
}
use zetdb.Domain.Errors.{Result, ok, err, returns}
use zetdb.Domain.Value.{ValueEntry}
use zetdb.Storage.DashMap.{DashMap}
use zetdb.Storage.Itoa.{Itoa}
use zetdb.Storage.Engine.{Engine, dump_entries, new_engine}
use zetdb.Storage.Engine.View.{view}
use zetdb.Storage.Aof.Entry.RoundTrip.{FitsKey, FitsValue}
use zetdb.Storage.Aof.Replay.{Clock, contents, replay_aof, replayed}
use zetdb.Storage.Aof.Writer.{
  AofWriter, Disk, working, Io, done, failed, ◌and_then◌, on_path, file_size, flush_if_needed,
  finalize_rewrite, write_batch,
}
use zetdb.Storage.Aof.Writer.Durable.{Grows, write_batch-Grows}
use zetdb.Storage.Aof.Writer.Failed.{finalize_rewrite_lem}
use zetdb.Storage.Aof.Rewrite.{rewrite_entries, write_tmp, rewrite_aof, replay_aof-rewrite_aof}
use zetdb.Storage.Snapshot.{LoadError}
use zetdb.Storage.Snapshot.Kept.{IsNear, Holds, dumped}
use zetdb.Storage.Snapshot.Restore.{HasRoom}
use zetdb.Storage.Snapshot.Disk.{
  Fault, no_fault, create_fails, write_fails, sync_fails, rename_fails,
}

-- What a round of the task meets: whether the size can be read, the fault of the dump, the instant, the
-- engine, and the disk of the rename.
pub record Round (D : DashMap ValueEntry) : Type 0 where
  pub size_fails : Bool
  pub fault : Fault
  pub now : ℕ
  pub engine : Engine D
  pub disk : Disk

abbrev no_file : Disk → Disk
no_file d = record d { rename_fails = true }

-- The rename of what the dump left; with no temporary file it fails.
unfoldable pub finish : Disk → Result ℕ LoadError × Option Bytes → AofWriter → AofWriter
unfolding finalize_rewrite
finish d (ok count, some rewritten) w = (finalize_rewrite d rewritten w).1
finish d (ok count, none) w = (finalize_rewrite (no_file d) [] w).1
finish d (err e, tmp) w = w

module _ {D : DashMap ValueEntry} where
  unfoldable pub rewrite_round : ℕ → Round D → AofWriter → AofWriter
  unfolding finish rewrite_aof file_size
  rewrite_round threshold_bytes r w =
      if r.size_fails
      then w
      else if ltb (file_size w) threshold_bytes
      then w
      else finish r.disk (rewrite_aof r.fault r.now r.engine none) w

  unfoldable pub run_aof_rewriter : ℕ → List (Round D) → AofWriter → AofWriter
  unfolding rewrite_round
  run_aof_rewriter threshold_bytes [] w = w
  run_aof_rewriter threshold_bytes (r ∷ rounds) w =
      run_aof_rewriter threshold_bytes rounds (rewrite_round threshold_bytes r w)

unfoldable pub run_aof_fsync : List Disk → AofWriter → AofWriter
run_aof_fsync [] w = w
run_aof_fsync (d ∷ ticks) w = run_aof_fsync ticks (flush_if_needed d w).1

module _ {D : DashMap ValueEntry} where
  on_path-rewritten :
      (threshold_bytes : ℕ) (r : Round D) (w : AofWriter) (disk_clock : ℕ → ℕ)
      → r.size_fails ≡ false
      → threshold_bytes ≤ file_size w
      → r.fault ≡ no_fault
      → r.disk ≡ working disk_clock
      → on_path (rewrite_round threshold_bytes r w) ≡ rewrite_entries (dump_entries r.now r.engine)
  unfolding rewrite_round finish rewrite_aof write_tmp
  on_path-rewritten threshold_bytes r w disk_clock size big fault disk =
      let reached : ltb (file_size w) threshold_bytes ≡ false = ground (arith, big) in
      let entries = rewrite_entries (dump_entries r.now r.engine) in
      rw (size, reached, fault, disk)
        (ap (λ (x : Io × AofWriter). on_path x.1) (finalize_rewrite_lem disk_clock entries w))

-- The path names the rewritten log, whole, or what it named with something added at its end.
abbrev pub IsAtomic : Bytes → AofWriter → AofWriter → Type 0
IsAtomic rewritten w w' = (on_path w' ≡ rewritten) ⊎ ((x : Bytes) × (on_path w' ≡ on_path w ++ x))

on_path-Grows :
    (w w' : AofWriter) → w.renamed ≡ none → Grows w w' → (x : Bytes) × (on_path w' ≡ on_path w ++ x)
on_path-Grows w w' e g = (g.0, rw (g.3, e) g.1)

finalize-IsAtomic :
    (d : Disk) (rewritten : Bytes) (w : AofWriter)
    → w.renamed ≡ none
    → IsAtomic rewritten w (finalize_rewrite d rewritten w).1
unfolding finalize_rewrite
finalize-IsAtomic d rewritten w e = renamed_or (write_batch d w) (write_batch-Grows d w)
  where
    renamed_or :
        (r : Io × AofWriter)
        → Grows w r.1
        → IsAtomic rewritten w
            (r and_then λ w1.
              if d.rename_fails
              then (failed, w1)
              else if d.open_fails
              then (failed, record w1 { renamed = some rewritten })
              else (
                done,
                record w1 { file = rewritten; synced = length rewritten; renamed = none },
              )).1
    renamed_or (failed, w1) g = inr (on_path-Grows w w1 e g)
    renamed_or (done, w1) g = elim (Bool-cases d.rename_fails) [
      | inl f ↦ rw f (inr (on_path-Grows w w1 e g))
      | inr f ↦ rw f (inl (ground arith))
    ]

finish-IsAtomic :
    (fault : Fault) (d : Disk) (count : ℕ) (buf : Bytes) (w : AofWriter)
    → w.renamed ≡ none
    → IsAtomic buf w (finish d (write_tmp fault count buf none) w)
unfolding finish write_tmp
finish-IsAtomic no_fault d count buf w e = finalize-IsAtomic d buf w e
finish-IsAtomic rename_fails d count buf w e = finalize-IsAtomic d buf w e
finish-IsAtomic create_fails d count buf w e = inr ([], sym (append-nil (on_path w)))
finish-IsAtomic (write_fails n) d count buf w e = inr ([], sym (append-nil (on_path w)))
finish-IsAtomic sync_fails d count buf w e = inr ([], sym (append-nil (on_path w)))

module _ {D : DashMap ValueEntry} where
  -- Whatever calls of a round fail, and after how many bytes, where the path named the open file before
  -- it: the path names the rewritten log, whole, or what it named with something added at its end.
  pub rewrite_round-IsAtomic :
      (threshold_bytes : ℕ) (r : Round D) (w : AofWriter)
      → w.renamed ≡ none
      → IsAtomic
          (rewrite_entries (dump_entries r.now r.engine))
          w
          (rewrite_round threshold_bytes r w)
  unfolding rewrite_round rewrite_aof
  rewrite_round-IsAtomic threshold_bytes r w e =
      let entries = dump_entries r.now r.engine in
      let same : IsAtomic (rewrite_entries entries) w w = inr ([], sym (append-nil (on_path w))) in
      if_rule (IsAtomic (rewrite_entries entries) w) r.size_fails same (
        if_rule (IsAtomic (rewrite_entries entries) w) (ltb (file_size w) threshold_bytes) same
          (finish-IsAtomic r.fault r.disk (length entries) (rewrite_entries entries) w e))

module _ (I : Itoa) {D E : DashMap ValueEntry} (clock : ℕ → Clock) where
  -- A round that finds the log at the threshold or above, with keys that are text below 64 KiB, values
  -- below 4 GiB and deadlines fewer than 2^63 milliseconds away, and in which no call fails: the log on
  -- the path is the dump in entries of SET, and a replay of it on a new engine, by a clock with room for
  -- every time to live, gives each key the value that was visible at the instant of the dump, or none if
  -- none was, with a deadline exactly if a whole millisecond of its time to live was left, and then as
  -- many whole milliseconds behind an instant of that clock as were left.
  pub replay_aof-rewrite_round :
      (threshold_bytes : ℕ) (r : Round D) (w : AofWriter) (disk_clock : ℕ → ℕ)
      → r.size_fails ≡ false
      → threshold_bytes ≤ file_size w
      → r.fault ≡ no_fault
      → r.disk ≡ working disk_clock
      → All (λ p. FitsKey p.0 × FitsValue p.1.bytes) (D.entries r.engine.map)
      → All (λ p. IsNear r.now p.1.expires_at) (D.entries r.engine.map)
      → ((n : ℕ) → HasRoom (clock n))
      → (count : ℕ) × (s' : Engine E) × (on_path (rewrite_round threshold_bytes r w)
          ≡ rewrite_entries (dump_entries r.now r.engine))
        × (replay_aof I clock
              (contents (on_path (rewrite_round threshold_bytes r w)))
              (new_engine E)
            ≡ some (returns (replayed count s')))
        × ((k : Bytes) → Holds clock (E.get k s'.map) (dumped r.now (view r.engine r.now k)))
  unfolding rewrite_aof write_tmp
  replay_aof-rewrite_round threshold_bytes r w disk_clock size big fault disk fits near room =
      let whole = replay_aof-rewrite_aof I {E = E} clock r.now r.engine none fits near room in
      (
        whole.0,
        whole.1,
        on_path-rewritten threshold_bytes r w disk_clock size big fault disk,
        ap (λ b. replay_aof I clock (contents b) (new_engine E))
              (on_path-rewritten threshold_bytes r w disk_clock size big fault disk)
            ∙ whole.3,
        whole.4,
      )
