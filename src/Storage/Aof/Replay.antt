-- ===== src/Storage/Aof/Replay.antt =====
-- storage/aof.rs: `replay_aof`. The source reads an entry and calls the engine as it goes; here an
-- entry is read whole (Entry.read_entry) and then applied, which comes to the same, since reading
-- asks the engine nothing. `clock i` is the clock of the entry with number `i`.
pub mod Total
pub mod Unlimited
pub mod Log
pub mod Torn
use zetdb.Prelude.{
  ℕ, zero, suc, ◌+◌, Bool, true, false, Option, none, some, List, [], ◌∷◌, Bytes, length,
}
use zetdb.Prelude.Int.{ℤ, pos, negsuc}
use zetdb.Domain.Errors.{Outcome, returns, panics, deadlocks, ◌>>=◌}
use zetdb.Domain.Value.{ValueEntry, new, add_duration, from_millis}
use zetdb.Storage.DashMap.{DashMap}
use zetdb.Storage.Itoa.{Itoa}
use zetdb.Storage.Engine
use zetdb.Storage.Engine.{Engine}
use zetdb.Storage.Aof.Entry.{Logged, set, del, incr, expire, flushdb, mset, read_entry}

abbrev pub Clock : Type 0
Clock = ℕ → ℕ

-- The deadline of a SET in the log: only a time to live above 0 makes one, counted from the replay.
unfoldable pub deadline_of : ℤ → ℕ → Outcome (Option ℕ)
unfolding add_duration
deadline_of (pos zero) now = returns none
deadline_of (pos (suc n)) now = do t ← add_duration now (from_millis (suc n)); returns (some t)
deadline_of (negsuc n) now = returns none

module _ {D : DashMap ValueEntry} where
  -- The pairs of an MSET; an error is logged and the loop goes on.
  unfoldable pub set_all : List (Bytes × Bytes) → ℕ → Clock → Engine D → Engine D
  set_all [] i clock s = s
  set_all ((k, v) ∷ rest) i clock s =
      set_all rest (i + 2) clock (Engine.set k (new (clock i) v) (clock (i + 1)) s).1

module _ (I : Itoa) {D : DashMap ValueEntry} where
  -- The call of the engine for one entry. What the engine answers is only logged.
  unfoldable pub apply : Clock → Engine D → Logged → Outcome (Engine D)
  apply clock s (set k v ttl_ms) = do
    deadline ← deadline_of ttl_ms (clock 0)
    let e : ValueEntry = record { bytes = v; expires_at = deadline; created_at = some (clock 1) }
    returns (Engine.set k e (clock 2) s).1
  apply clock s (del k) = returns (Engine.del k (clock 0) s).1
  apply clock s (incr k) = do (_, s') ← Engine.incr I k (clock 0) (clock 1) s; returns s'
  apply clock s (expire k seconds) = do
    (_, s') ← Engine.expire k seconds (clock 0) (clock 1) s
    returns s'
  apply clock s flushdb = returns (Engine.clear s)
  apply clock s (mset pairs) = returns (set_all pairs 0 clock s)

  -- The loop, with the number of entries replayed; `none` is no fuel left.
  unfoldable pub replay_loop :
      (ℕ → Clock) → ℕ → ℕ → Bytes → Engine D → Option (Outcome (ℕ × Engine D))
  replay_loop clock fuel n [] s = some (returns (n, s))
  replay_loop clock zero n (c ∷ r) s = none
  replay_loop clock (suc fuel) n (c ∷ r) s = elim (read_entry (c ∷ r)) [
    | none ↦ some (returns (n, s))
    | some (l, r') ↦ elim (apply (clock n) s l) [
      | returns s' ↦ replay_loop clock fuel (n + 1) r' s'
      | panics ↦ some panics
      | deadlocks ↦ some deadlocks
    ]
  ]

-- What `fs::read` returns.
pub data ReadFile : Type 0 where
  contents : Bytes → ReadFile
  not_found : ReadFile
  failed : ReadFile

pub data ReplayResult (S : Type 0) : Type 0 where
  replayed : ℕ → S → ReplayResult S
  io_error : S → ReplayResult S

abbrev pub as_replayed : {S : Type 0} → Outcome (ℕ × S) → Outcome (ReplayResult S)
as_replayed o = do (n, s) ← o; returns (replayed n s)

module _ (I : Itoa) {D : DashMap ValueEntry} where
  -- A round reads a byte at least, so as many rounds as there are bytes are enough.
  unfoldable pub replay_aof :
      (ℕ → Clock) → ReadFile → Engine D → Option (Outcome (ReplayResult (Engine D)))
  unfolding replay_loop
  replay_aof clock (contents data_bytes) s =
      elim (replay_loop I clock (length data_bytes) 0 data_bytes s) [
        | none ↦ none
        | some o ↦ some (as_replayed o)
      ]
  replay_aof clock not_found s = some (returns (replayed 0 s))
  replay_aof clock failed s = some (returns (io_error s))
