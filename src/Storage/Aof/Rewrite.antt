-- ===== src/Storage/Aof/Rewrite.antt =====
-- storage/aof.rs: `rewrite_aof`, and the replay of the log that it writes.
use mathlib.Core.Path.{subst}
use zetdb.Prelude.{
  ℕ, zero, suc, ◌+◌, ◌-◌, ◌/◌, ◌^◌, ◌<◌, ◌≡◌, refl, sym, ap, ◌∙◌, Bool, Option, none, some, List,
  [], ◌∷◌, ◌++◌, append_assoc, Bytes, All, length, take, arith, if◌then◌else◌, if_rule,
}
use zetdb.Prelude.Int.{ℤ, pos, negsuc, IsI64, of_word}
use zetdb.Domain.Errors.{Result, ok, err, Outcome, returns, panics, deadlocks, ◌>>=◌}
use zetdb.Domain.Value.{ValueEntry, is_expired_at, from_millis, nanos_per_milli}
use zetdb.Domain.Command.{Command}
use zetdb.Storage.DashMap.{DashMap}
use zetdb.Storage.Itoa.{Itoa}
use zetdb.Storage.Engine.{Engine, remaining_ms, dump_list, dump_entries, new_engine}
use zetdb.Storage.Engine.View.{view}
use zetdb.Storage.Aof.Entry.{
  cmd_set, set, encode_key, encode_value, encode_ttl, ttl_millis, to_aof_entry,
}
use zetdb.Storage.Aof.Entry.RoundTrip.{FitsKey, FitsValue, FitsLog, ttl_field, ttl_millis-eq}
use zetdb.Storage.Aof.Replay.{
  Clock, apply, replay_aof, contents, ReadFile, not_found, as_replayed, replayed, deadline_of,
}
use zetdb.Storage.Aof.Replay.Log.{log_of, apply_all, replay_aof-log_of}
use zetdb.Storage.Snapshot.{LoadError, io, restore}
use zetdb.Storage.Snapshot.Format.{Dumped}
use zetdb.Storage.Snapshot.RoundTrip.{restore_all}
use zetdb.Storage.Snapshot.Kept.{IsNear, Holds, dumped}
use zetdb.Storage.Snapshot.Restore.{
  HasRoom, restore_all-last_of, last_of-dump_entries, All-map, IsI64-of_word,
}
use zetdb.Storage.Snapshot.Disk.{
  Fault, no_fault, create_fails, write_fails, sync_fails, rename_fails,
}

-- A SET for each entry of the dump.
unfoldable pub rewrite_entries : List Dumped → Bytes
rewrite_entries [] = []
rewrite_entries ((k, v, ttl_ms) ∷ rest) =
    cmd_set ∷ (encode_key k ++ (encode_value v ++ (encode_ttl ttl_ms ++ rewrite_entries rest)))

-- The file `{path}.tmp` after the writes, and the result; the rename is left to the writer.
unfoldable pub write_tmp : Fault → ℕ → Bytes → Option Bytes → Result ℕ LoadError × Option Bytes
write_tmp create_fails count buf tmp = (err io, tmp)
write_tmp (write_fails n) count buf tmp = (err io, some (take n buf))
write_tmp sync_fails count buf tmp = (err io, some buf)
write_tmp rename_fails count buf tmp = (ok count, some buf)
write_tmp no_fault count buf tmp = (ok count, some buf)

module _ {D : DashMap ValueEntry} where
  unfoldable pub rewrite_aof :
      Fault → ℕ → Engine D → Option Bytes → Result ℕ LoadError × Option Bytes
  unfolding rewrite_entries write_tmp dump_entries
  rewrite_aof fault now s tmp =
      let entries = dump_entries now s in
      write_tmp fault (length entries) (rewrite_entries entries) tmp

-- What a dump says of a time to live.
abbrev IsDumpTtl : ℤ → Type 0
IsDumpTtl (pos zero) = ⊥
IsDumpTtl (pos (suc n)) = suc n < 2 ^ 63
IsDumpTtl (negsuc zero) = Unit
IsDumpTtl (negsuc (suc n)) = ⊥

abbrev duration_of : ℤ → Option ℕ
duration_of (pos zero) = none
duration_of (pos (suc n)) = some (from_millis (suc n))
duration_of (negsuc n) = none

-- The command that stores an entry.
abbrev command_of : Dumped → Command
command_of (k, v, t) = Command.set k v (duration_of t)

abbrev commands_of : List Dumped → List Command
commands_of [] = []
commands_of (d ∷ ds) = command_of d ∷ commands_of ds

abbrev FitsEntry : Dumped → Type 0
FitsEntry (k, v, t) = FitsKey k × FitsValue v × IsDumpTtl t

ttl_field-duration_of : (t : ℤ) → IsDumpTtl t → ttl_field (duration_of t) ≡ t
ttl_field-duration_of (pos zero) h = absurd h
ttl_field-duration_of (pos (suc n)) h = ap pos (omega arith)
ttl_field-duration_of (negsuc zero) h = refl
ttl_field-duration_of (negsuc (suc n)) h = absurd h

IsI64-IsDumpTtl : (t : ℤ) → IsDumpTtl t → IsI64 t
IsI64-IsDumpTtl (pos zero) h = absurd h
IsI64-IsDumpTtl (pos (suc n)) h = h
IsI64-IsDumpTtl (negsuc zero) h = omega arith
IsI64-IsDumpTtl (negsuc (suc n)) h = absurd h

FitsLog-command_of : (d : Dumped) → FitsEntry d → FitsLog (command_of d)
FitsLog-command_of (k, v, pos zero) h = absurd h.2
FitsLog-command_of (k, v, pos (suc n)) h = (h.0, h.1, omega (arith, h.2))
FitsLog-command_of (k, v, negsuc n) h = (h.0, h.1)

FitsLog-commands_of : (ds : List Dumped) → All FitsEntry ds → All FitsLog (commands_of ds)
FitsLog-commands_of [] h = tt
FitsLog-commands_of (d ∷ ds) h = (FitsLog-command_of d h.0, FitsLog-commands_of ds h.1)

-- The rewritten log is the log of those commands.
rewrite_entries-eq :
    (ds : List Dumped) → All FitsEntry ds → rewrite_entries ds ≡ log_of (commands_of ds)
unfolding rewrite_entries log_of to_aof_entry
rewrite_entries-eq [] h = refl
rewrite_entries-eq ((k, v, t) ∷ ds) h =
    let f = ttl_field-duration_of t h.0.2 in
    let m : ttl_millis (duration_of t) ≡ t =
      ttl_millis-eq (duration_of t) (subst IsI64 (sym f) (IsI64-IsDumpTtl t h.0.2)) ∙ f in
    rw m (
      ap (λ x. cmd_set ∷ x)
        (ap (λ x. encode_key k ++ (encode_value v ++ (encode_ttl t ++ x)))
            (rewrite_entries-eq ds h.1)
          ∙ ap (λ x. encode_key k ++ x)
              (sym (append_assoc (encode_value v) (encode_ttl t) (log_of (commands_of ds))))
          ∙ sym (
              append_assoc (encode_key k) (encode_value v ++ encode_ttl t)
                (log_of (commands_of ds)))))

bind_second :
    {A B C : Type 0} (o : Outcome A) (f : A → B × C)
    → (o >>= λ x. returns (f x).1) ≡ ((o >>= λ x. returns (f x)) >>= λ r. returns r.1)
bind_second (returns x) f = refl
bind_second panics f = refl
bind_second deadlocks f = refl

module _ (I : Itoa) {D : DashMap ValueEntry} where
  apply-restore :
      (clock : Clock) (s : Engine D) (k v : Bytes) (t : ℤ)
      → apply I clock s (set k v t) ≡ (restore clock s (k, v, t) >>= λ r. returns r.1)
  unfolding apply restore
  apply-restore clock s k v t = bind_second (deadline_of t (clock 0)) _

  after_restore :
      (clock : ℕ → Clock) (n loaded : ℕ) (ds : List Dumped) (o : Outcome (Bool × Engine D))
      → ((m : ℕ) (s : Engine D)
          → apply_all I clock (n + 1) (commands_of ds) s
            ≡ (restore_all clock (n + 1) m ds s >>= λ r. returns ((n + 1) + length ds, r.1)))
      → ((o >>= λ r. returns r.1) >>= apply_all I clock (n + 1) (commands_of ds)) ≡ (
          ◌>>=◌ {B = ℕ × Engine D}
            (elim o [
              | returns (stored, s') ↦
                  restore_all clock (n + 1) (if stored then loaded + 1 else loaded) ds s'
              | panics ↦ panics
              | deadlocks ↦ deadlocks
            ])
            (λ r. returns (n + suc (length ds), r.1)))
  after_restore clock n loaded ds (returns (b, s')) h =
      h (if b then loaded + 1 else loaded) s'
      ∙ ap
          (λ c. restore_all clock (n + 1) (if b then loaded + 1 else loaded) ds s' >>= λ r.
            returns (c, r.1))
          (omega arith)
  after_restore clock n loaded ds panics h = refl
  after_restore clock n loaded ds deadlocks h = refl

  -- The commands of a dump do what loading it does.
  apply_all-commands_of :
      (clock : ℕ → Clock) (ds : List Dumped) (n loaded : ℕ) (s : Engine D)
      → All FitsEntry ds
      → apply_all I clock n (commands_of ds) s
        ≡ (restore_all clock n loaded ds s >>= λ r. returns (n + length ds, r.1))
  unfolding apply_all restore_all
  apply_all-commands_of clock [] n loaded s h = ap (λ k. returns (k, s)) (omega arith)
  apply_all-commands_of clock ((k, v, t) ∷ ds) n loaded s h =
      rw (apply_all, restore_all, ttl_field-duration_of t h.0.2, apply-restore (clock n) s k v t)
        (after_restore clock n loaded ds (restore (clock n) s (k, v, t))
          (λ m s'. apply_all-commands_of clock ds (n + 1) m s' h.1))

IsDumpTtl-of_word :
    (x : ℤ)
    → IsI64 x
    → IsDumpTtl (elim x [ pos zero ↦ negsuc 0 | pos (suc n) ↦ pos (suc n) | negsuc n ↦ negsuc 0 ])
IsDumpTtl-of_word (pos zero) h = tt
IsDumpTtl-of_word (pos (suc n)) h = h
IsDumpTtl-of_word (negsuc n) h = tt

IsDumpTtl-remaining_ms : (d : Option ℕ) (now : ℕ) → IsDumpTtl (remaining_ms d now)
unfolding remaining_ms
IsDumpTtl-remaining_ms none now = tt
IsDumpTtl-remaining_ms (some exp) now =
    IsDumpTtl-of_word (of_word ((exp - now) / nanos_per_milli)) (IsI64-of_word _)

dump_list-FitsEntry :
    (now : ℕ) (l : List (Bytes × ValueEntry))
    → All (λ p. FitsKey p.0 × FitsValue p.1.bytes) l
    → All FitsEntry (dump_list now l)
unfolding dump_list
dump_list-FitsEntry now [] h = tt
dump_list-FitsEntry now ((k, v) ∷ l) h =
    let rest = dump_list-FitsEntry now l h.1 in
    if_rule (All FitsEntry) (is_expired_at v now) rest
      ((h.0.0, h.0.1, IsDumpTtl-remaining_ms v.expires_at now), rest)

abbrev pub log_file : Option Bytes → ReadFile
log_file none = not_found
log_file (some bs) = contents bs

module _ (I : Itoa) {D E : DashMap ValueEntry} (clock : ℕ → Clock) where
  -- The log that a rewrite of an engine leaves, with keys that are text below 64 KiB, values below 4 GiB
  -- and deadlines fewer than 2^63 milliseconds away, replayed on a new engine by a clock with room for every time to live, has as many entries as the rewrite answered, and then each
  -- key has the value that was visible at the instant of the rewrite, or none if none was; it has
  -- a deadline exactly if a whole millisecond of its time to live was left, and then it lies as many
  -- whole milliseconds behind an instant of that clock as were left.
  pub replay_aof-rewrite_aof :
      (now : ℕ) (s : Engine D) (tmp : Option Bytes)
      → All (λ p. FitsKey p.0 × FitsValue p.1.bytes) (D.entries s.map)
      → All (λ p. IsNear now p.1.expires_at) (D.entries s.map)
      → ((n : ℕ) → HasRoom (clock n))
      → (count : ℕ) × (s' : Engine E) × ((rewrite_aof no_fault now s tmp).0 ≡ ok count)
        × (replay_aof I clock (log_file (rewrite_aof no_fault now s tmp).1) (new_engine E)
            ≡ some (returns (replayed count s')))
        × ((k : Bytes) → Holds clock (E.get k s'.map) (dumped now (view s now k)))
  unfolding rewrite_aof write_tmp new_engine
  replay_aof-rewrite_aof now s tmp fits near room =
      let ds = dump_entries now s in
      let h : All FitsEntry (dump_entries now s) =
        unfold dump_entries in dump_list-FitsEntry now (D.entries s.map) fits in
      let all =
        restore_all-last_of clock ds 0 0 (new_engine E) (λ k. none) refl
          (All-map FitsEntry (λ d. IsI64 d.2) (λ d x. IsI64-IsDumpTtl d.2 x.2) ds h) room
          (λ k. rw (E.get-empty k) tt) in
      (
        length ds,
        all.0,
        refl,
        ap (λ b. replay_aof I clock (contents b) (new_engine E)) (rewrite_entries-eq ds h)
            ∙ replay_aof-log_of I clock (commands_of ds) (new_engine E) (FitsLog-commands_of ds h)
            ∙ ap (λ o. some (as_replayed o))
                (apply_all-commands_of I clock ds 0 0 (new_engine E) h
                  ∙ ap (λ o. o >>= λ r. returns (0 + length ds, r.1)) all.1
                  ∙ ap (λ n. returns (n, all.0)) (omega arith)),
        λ k. subst (Holds clock (E.get k all.0.map)) (last_of-dump_entries k now s near) (all.2 k),
      )
