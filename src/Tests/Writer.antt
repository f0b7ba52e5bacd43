-- ===== src/Tests/Writer.antt =====
-- The writer of the log on disks that fail.
use zetdb.Prelude.{
  ℕ, zero, suc, ◌+◌, ◌≡◌, refl, true, none, some, List, [], ◌∷◌, ◌++◌, Bytes, length, ltb,
  if◌then◌else◌, arith,
}
use zetdb.Bytes.{codes}
use zetdb.Config.{FsyncPolicy}
use zetdb.Storage.Aof.Writer.{
  AofWriter, Disk, working, done, failed, aof_batch_size, append_raw, finalize_rewrite, on_path,
  contents,
}
use zetdb.Storage.Aof.Writer.Appends.{contents-append_raw}
use zetdb.Storage.Aof.Writer.Durable.{Op, run_ops}
use zetdb.Storage.Aof.Writer.Failed.{finalize_rewrite_detached}

unfoldable zeros : ℕ → Bytes
zeros zero = []
zeros (suc n) = 0 ∷ zeros n

length-zeros : (n : ℕ) → length (zeros n) ≡ n
unfolding zeros
length-zeros zero = refl
length-zeros (suc n) = omega (arith, length-zeros n)

abbrev writer : AofWriter
writer = record {
  file = b'a' ∷ [];
  synced = 1;
  batch = b'b' ∷ [];
  fsync_policy = FsyncPolicy.always;
  last_fsync = 0;
  renamed = none;
}

-- The write of a batch stops after three bytes.
abbrev torn : Disk
torn = record (working (λ j. j)) { batch_write = some 3 }

-- The file cannot be opened after the rename.
abbrev unopened : Disk
unopened = record (working (λ j. j)) { open_fails = true }

contents-append_raw_example :
    ((append_raw (working (λ j. j)) (codes "c") writer).0 ≡ done)
    × (contents (append_raw (working (λ j. j)) (codes "c") writer).1 ≡ (
        if ltb (length writer.batch + length (codes "c")) aof_batch_size
        then contents writer ++ codes "c"
        else (contents writer ++ codes "c") ++ codes "c"))
contents-append_raw_example = contents-append_raw (λ j. j) (codes "c") writer

abbrev ops : List (Disk × Op)
ops = (working (λ j. j), Op.append (codes "c")) ∷ (torn, Op.shutdown) ∷ []

finalize_rewrite_detached_example :
    ((finalize_rewrite unopened (codes "new") writer).0 ≡ failed)
    × (on_path (run_ops ops (finalize_rewrite unopened (codes "new") writer).1) ≡ codes "new")
finalize_rewrite_detached_example =
    finalize_rewrite_detached unopened (codes "new") writer ops refl refl refl
