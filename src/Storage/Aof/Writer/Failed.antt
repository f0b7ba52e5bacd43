-- ===== src/Storage/Aof/Writer/Failed.antt =====
-- storage/aof.rs: what is left of the log when a call has failed.
use zetdb.Prelude.{ℕ, ◌≡◌, refl, ◌∙◌, true, false, none, some, List, [], Bytes, length, arith}
use zetdb.Storage.Aof.Writer.{
  AofWriter, Disk, working, done, failed, write_batch, finalize_rewrite, on_path,
}
use zetdb.Storage.Aof.Writer.Durable.{Op, run_ops, run_ops-Grows}

-- On a disk that works a rewrite succeeds, and the log is the rewritten file alone: nothing that the
-- writer held is in it, also if it was appended after the dump that the file was made from.
pub finalize_rewrite_lem :
    (clock : ℕ → ℕ) (rewritten : Bytes) (w : AofWriter)
    → finalize_rewrite (working clock) rewritten w
      ≡ (done, record w { file = rewritten; synced = length rewritten; batch = []; renamed = none })
unfolding finalize_rewrite write_batch
finalize_rewrite_lem clock rewritten w = ground arith

-- Where the file cannot be opened again after the rename, the rewrite fails, and whatever is appended
-- and flushed afterwards, on any disk, the path names the rewritten file as it was: none of it is
-- there for a replay.
pub finalize_rewrite_detached :
    (d : Disk) (rewritten : Bytes) (w : AofWriter) (ops : List (Disk × Op))
    → d.batch_write ≡ none
    → d.rename_fails ≡ false
    → d.open_fails ≡ true
    → ((finalize_rewrite d rewritten w).0 ≡ failed)
      × (on_path (run_ops ops (finalize_rewrite d rewritten w).1) ≡ rewritten)
unfolding finalize_rewrite write_batch
finalize_rewrite_detached d rewritten w ops b r o =
    let w' = (finalize_rewrite d rewritten w).1 in
    let state : ((finalize_rewrite d rewritten w).0 ≡ failed) × (w'.renamed ≡ some rewritten) =
      ground (arith, b, r, o) in
    (state.0, rw ((run_ops-Grows ops w').3 ∙ state.1, on_path) refl)
