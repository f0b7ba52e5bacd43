-- ===== src/Storage/Aof/Writer/Durable.antt =====
-- storage/aof.rs: what stays of the log whatever the disk does. The calls between two rewrites.
use zetdb.Prelude.{
  if_rule, ℕ, ◌-◌, ◌≤◌, ◌≡◌, refl, sym, ap, ◌∙◌, Option, none, some, List, [], ◌∷◌, ◌++◌,
  append_assoc, append-nil, Bytes, length, length-append, take, ltb, leb, arith, ◌&&◌, is_empty,
  Bool, if◌then◌else◌,
}
use zetdb.Domain.Value.{nanos_per_sec}
use zetdb.Config.{FsyncPolicy, always, everysec, no_sync, is_every_write, is_every_second}
use zetdb.Storage.Aof.Writer.{
  AofWriter, Disk, Io, done, failed, ◌and_then◌, aof_batch_size, write_all, sync_all, write_batch,
  sync_after_second, sync_by, flush_batch, append_raw, flush, flush_if_needed,
}

-- The file has grown at its end, no less of it is synced, and the path names what it did.
abbrev pub Grows : AofWriter → AofWriter → Type 0
Grows w w' =
    (x : Bytes) × (w'.file ≡ w.file ++ x)
    × (w.synced ≤ length w.file → (w.synced ≤ w'.synced) × (w'.synced ≤ length w'.file))
    × (w'.renamed ≡ w.renamed)

pub Grows-same : (w : AofWriter) → Grows w w
Grows-same w = ([], sym (append-nil w.file), λ h. omega (arith, h), refl)

Grows-trans : (u v w : AofWriter) → Grows u v → Grows v w → Grows u w
Grows-trans u v w g h = (
  g.0 ++ h.0,
  h.1 ∙ ap (λ f. f ++ h.0) g.1 ∙ append_assoc u.file g.0 h.0,
  λ s. let a = g.2 s in let b = h.2 a.1 in (omega (arith, a.0, b.0), b.1),
  h.3 ∙ g.3,
)

and_then-Grows :
    (w : AofWriter) (r : Io × AofWriter) (f : AofWriter → Io × AofWriter)
    → Grows w r.1
    → ((v : AofWriter) → Grows v (f v).1)
    → Grows w (r and_then f).1
and_then-Grows w (done, v) f g h = Grows-trans w v (f v).1 g (h v)
and_then-Grows w (failed, v) f g h = g

Grows-append : (w : AofWriter) (x : Bytes) → Grows w (record w { file = w.file ++ x })
Grows-append w x = (x, refl, λ h. omega (arith, h, length-append w.file x), refl)

write_all-Grows : (o : Option ℕ) (bs : Bytes) (w : AofWriter) → Grows w (write_all o bs w).1
write_all-Grows none bs w = Grows-append w bs
write_all-Grows (some n) bs w = Grows-append w (take n bs)

if-Grows :
    (w : AofWriter) (b : Bool) (x y : Io × AofWriter)
    → Grows w x.1
    → Grows w y.1
    → Grows w (if b then x else y).1
if-Grows w b x y g h = if_rule (λ (r : Io × AofWriter). Grows w r.1) b g h

-- A call that may be followed by another.
abbrev pub AlwaysGrows : (AofWriter → Io × AofWriter) → Type 0
AlwaysGrows f = (w : AofWriter) → Grows w (f w).1

sync_all-Grows : (d : Disk) → AlwaysGrows (sync_all d)
sync_all-Grows d w =
    if-Grows w d.sync_fails _ _ (Grows-same w)
      ([], sym (append-nil w.file), λ h. omega (arith, h), refl)

pub write_batch-Grows : (d : Disk) → AlwaysGrows (write_batch d)
unfolding write_batch
write_batch-Grows d w = if-Grows w (is_empty w.batch) _ _ (Grows-same w) (
    and_then-Grows w (write_all d.batch_write w.batch w) (λ v. (done, record v { batch = [] }))
      (write_all-Grows d.batch_write w.batch w) Grows-same)

sync_by-Grows : (p : FsyncPolicy) (d : Disk) → AlwaysGrows (sync_by p d)
unfolding sync_by sync_after_second
sync_by-Grows always d w = sync_all-Grows d w
sync_by-Grows everysec d w =
    if-Grows w (leb nanos_per_sec (d.clock 0 - w.last_fsync)) _ _
      (and_then-Grows w (sync_all d w) (λ v. (done, record v { last_fsync = d.clock 1 }))
        (sync_all-Grows d w) Grows-same)
      (Grows-same w)
sync_by-Grows no_sync d w = Grows-same w

flush_batch-Grows : (d : Disk) (entry : Bytes) → AlwaysGrows (flush_batch d entry)
unfolding flush_batch
flush_batch-Grows d entry w =
    let two =
      and_then-Grows w (write_batch d w) (write_all d.entry_write entry) (write_batch-Grows d w)
        (write_all-Grows d.entry_write entry) in
    and_then-Grows w (write_batch d w and_then write_all d.entry_write entry)
      (sync_by w.fsync_policy d) two (sync_by-Grows w.fsync_policy d)

append_raw-Grows : (d : Disk) (entry : Bytes) → AlwaysGrows (append_raw d entry)
unfolding append_raw
append_raw-Grows d entry w =
    let w' : AofWriter = record w { batch = w.batch ++ entry } in
    if-Grows w (ltb (length w'.batch) aof_batch_size) _ _ (Grows-same w)
      (flush_batch-Grows d entry w')

flush-Grows : (d : Disk) → AlwaysGrows (flush d)
unfolding flush
flush-Grows d w =
    and_then-Grows w (write_batch d w)
      (λ v. if is_every_write w.fsync_policy then sync_all d v else (done, v))
      (write_batch-Grows d w)
      (λ v. if-Grows v (is_every_write w.fsync_policy) _ _ (sync_all-Grows d v) (Grows-same v))

flush_if_needed-Grows : (d : Disk) → AlwaysGrows (flush_if_needed d)
unfolding flush_if_needed
flush_if_needed-Grows d w =
    let two =
      and_then-Grows w (write_batch d w) (sync_all d) (write_batch-Grows d w) (sync_all-Grows d) in
    if-Grows w (is_every_second w.fsync_policy && leb nanos_per_sec (d.clock 0 - w.last_fsync)) _ _
      (and_then-Grows w (write_batch d w and_then sync_all d)
        (λ v. (done, record v { last_fsync = d.clock 1 })) two Grows-same)
      (Grows-same w)

-- The calls of the sessions, of the background task and of the shutdown.
pub data Op : Type 0 where
  append : Bytes → Op
  tick : Op
  shutdown : Op

abbrev pub run_op : Disk → Op → AofWriter → AofWriter
run_op d (append entry) w = (append_raw d entry w).1
run_op d tick w = (flush_if_needed d w).1
run_op d shutdown w = (flush d w).1

abbrev pub run_ops : List (Disk × Op) → AofWriter → AofWriter
run_ops [] w = w
run_ops ((d, op) ∷ ops) w = run_ops ops (run_op d op w)

run_op-Grows : (d : Disk) (op : Op) (w : AofWriter) → Grows w (run_op d op w)
run_op-Grows d (append entry) w = append_raw-Grows d entry w
run_op-Grows d tick w = flush_if_needed-Grows d w
run_op-Grows d shutdown w = flush-Grows d w

-- Whatever calls fail, and after how many bytes, any sequence of appends and flushes leaves the file as
-- it was but for what it adds at its end, never takes back what is synced, and leaves the path alone.
pub run_ops-Grows : (ops : List (Disk × Op)) (w : AofWriter) → Grows w (run_ops ops w)
run_ops-Grows [] w = Grows-same w
run_ops-Grows ((d, op) ∷ ops) w =
    Grows-trans w (run_op d op w) (run_ops ops (run_op d op w)) (run_op-Grows d op w)
      (run_ops-Grows ops (run_op d op w))
