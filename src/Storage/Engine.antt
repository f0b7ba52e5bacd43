-- ===== src/Storage/Engine.antt =====
-- storage/engine.rs, storage/dashmap_engine.rs, storage/ttl.rs: the engine over the map of the crate.
-- Each operation is one atomic step. Where the source reads the clock, the instant is an argument, in
-- the order in which the source reads: `now`, `now'`, `now''`.
pub mod View
pub mod Reads
pub mod Evict
pub mod Capacity
pub mod Unlimited
pub mod Writes
use zetdb.Prelude.{
  ℕ, zero, suc, ◌+◌, ◌-◌, ◌/◌, ◌≤◌, ◌<◌, Bool, true, false, not, ◌&&◌, ◌||◌, Option, none, some,
  List, [], ◌∷◌, Bytes, arith, ltb, leb, ◌==◌, if◌then◌else◌, is_some,
}
use zetdb.Prelude.Int.{ℤ, pos, negsuc, of_word, suc_i64}
use zetdb.Bytes.Decimal.{parse_i64}
use zetdb.Bytes.Utf8.{from_utf8_lossy}
use zetdb.Domain.Errors.{
  EngineError, not_an_integer, out_of_memory, Result, ok, err, Outcome, returns, panics, deadlocks,
  ◌>>=◌,
}
use zetdb.Domain.Value.{
  ValueEntry, new, new_fast, is_expired_at, add_duration, from_secs, nanos_per_sec, nanos_per_milli,
}
use zetdb.Storage.DashMap.{DashMap}
use zetdb.Storage.Itoa.{Itoa}

-- `DashMapEngine`; `max_keys` 0 means no limit.
pub record Engine (D : DashMap ValueEntry) : Type 0 where
  pub map : D.Map
  pub max_keys : ℕ

-- `<` on `Option<Instant>`: `None` is least.
abbrev pub created_lt : Option ℕ → Option ℕ → Bool
created_lt o none = false
created_lt none (some b) = true
created_lt (some a) (some b) = ltb a b

abbrev pub is_none {ℓ} : {A : Type ℓ} → Option A → Bool
is_none none = true
is_none (some a) = false

-- The loop of `evict_one_if_needed`: the oldest of the first five live entries.
unfoldable pub sample : ℕ → List (Bytes × ValueEntry) → ℕ → Option Bytes → Option ℕ → Option Bytes
sample now [] sampled oldest_key oldest_time = oldest_key
sample now ((k, v) ∷ rest) sampled oldest_key oldest_time =
    let older = is_none oldest_key || created_lt v.created_at oldest_time in
    let key = (if older then some k else oldest_key) in
    let time = (if older then v.created_at else oldest_time) in
    let skipped = sample now rest sampled oldest_key oldest_time in
    let next = sample now rest (sampled + 1) key time in
    if is_expired_at v now then skipped else if leb 5 (sampled + 1) then key else next

-- The remaining milliseconds of a live entry in a dump; -1 is no deadline, and what is below one
-- millisecond.
unfoldable pub remaining_ms : Option ℕ → ℕ → ℤ
remaining_ms none now = negsuc 0
remaining_ms (some exp) now =
    let ms = of_word ((exp - now) / nanos_per_milli) in
    elim ms [ pos zero ↦ negsuc 0 | pos (suc n) ↦ pos (suc n) | negsuc n ↦ negsuc 0 ]

-- The calls `f(key, value, ttl_ms)` that `dump_entries` makes over an iteration.
unfoldable pub dump_list : ℕ → List (Bytes × ValueEntry) → List (Bytes × Bytes × ℤ)
unfolding remaining_ms is_expired_at
dump_list now [] = []
dump_list now ((k, v) ∷ rest) =
    let more = dump_list now rest in
    if is_expired_at v now then more else (k, v.bytes, remaining_ms v.expires_at now) ∷ more

unfoldable pub live_keys : ℕ → List (Bytes × ValueEntry) → List Bytes
live_keys now [] = []
live_keys now ((k, v) ∷ rest) =
    let more = live_keys now rest in if is_expired_at v now then more else k ∷ more

-- The tail of `ttl_secs`: -1 is no deadline, else the seconds that remain.
unfoldable pub remaining_secs : Option ℕ → ℕ → ℤ
remaining_secs none now = negsuc 0
remaining_secs (some exp) now =
    if leb exp now then negsuc 1 else of_word ((exp - now) / nanos_per_sec)

module _ (D : DashMap ValueEntry) where
  unfoldable pub new_engine : Engine D
  new_engine = record { map = D.empty; max_keys = 0 }

  unfoldable pub with_max_keys : ℕ → Engine D
  with_max_keys n = record { map = D.empty; max_keys = n }

module _ {D : DashMap ValueEntry} where
  -- `retain` asks the clock once for each entry: `clock v` is its answer.
  unfoldable pub sweep_expired : (ValueEntry → ℕ) → Engine D → Engine D
  sweep_expired clock s = record s { map = D.retain (λ v. not (is_expired_at v (clock v))) s.map }

  unfoldable pub remove_oldest : Option Bytes → Engine D → Engine D
  remove_oldest none s = s
  remove_oldest (some k) s = record s { map = D.remove k s.map }

  unfoldable pub evict_one_if_needed : ℕ → Engine D → Engine D
  evict_one_if_needed now s =
      if s.max_keys == 0 || ltb (D.len s.map) s.max_keys
      then s
      else remove_oldest (sample now (D.entries s.map) 0 none none) s

  unfoldable pub dump_entries : ℕ → Engine D → List (Bytes × Bytes × ℤ)
  unfolding dump_list
  dump_entries now s = dump_list now (D.entries s.map)

  unfoldable pub get_fast : Bytes → Engine D → Option Bytes
  get_fast k s = elim (D.get k s.map) [ none ↦ none | some e ↦ some e.bytes ]

  unfoldable pub set_fast_str : Bytes → Bytes → Engine D → Engine D
  set_fast_str k value s = record s { map = D.insert k (new_fast value) s.map }

  -- `self.map.remove_if(key, |_, v| v.is_expired())`
  unfoldable pub drop_expired : Bytes → ℕ → Engine D → Engine D
  drop_expired k now s = record s { map = (D.remove_if k (λ v. is_expired_at v now) s.map).1 }

  unfoldable pub get : Bytes → ℕ → ℕ → Engine D → Result (Option ValueEntry) EngineError × Engine D
  get k now now' s = elim (D.get k s.map) [
    | none ↦ (ok none, s)
    | some e ↦ if is_expired_at e now then (ok none, drop_expired k now' s) else (ok (some e), s)
  ]

  unfoldable pub set : Bytes → ValueEntry → ℕ → Engine D → Result (Unit {0}) EngineError × Engine D
  set k v now s =
      if ltb 0 s.max_keys && not (is_some (D.get k s.map))
      then (let s' = evict_one_if_needed now s in
          if leb s'.max_keys (D.len s'.map)
          then (err out_of_memory, s')
          else (ok tt, record s' { map = D.insert k v s'.map }))
      else (ok tt, record s { map = D.insert k v s.map })

  unfoldable pub del : Bytes → ℕ → Engine D → Result Bool EngineError × Engine D
  del k now s =
      let r = D.remove_if k (λ v. not (is_expired_at v now)) s.map in
      (ok (is_some r.0), record s { map = r.1 })

  -- A key with no entry: `vac` holds the entry while `len` and the eviction run.
  unfoldable pub incr_vacant : Bytes → ℕ → ℕ → Engine D → Outcome (Result ℤ EngineError × Engine D)
  incr_vacant k now now' s =
      let stored =
        λ (s' : Engine D). record s' { map = D.insert k (new now' (b'1' ∷ [])) s'.map } in
      if ltb 0 s.max_keys
      then (if D.reentrant
          then (if leb s.max_keys (D.len s.map)
              then (let s' = evict_one_if_needed now s in
                  returns (
                    if leb s'.max_keys (D.len s'.map)
                    then (err out_of_memory, s')
                    else (ok (pos 1), stored s')))
              else returns (ok (pos 1), stored s))
          else deadlocks)
      else returns (ok (pos 1), stored s)

  -- An entry that has expired is taken out first.
  unfoldable pub incr_expired : Bytes → ℕ → Engine D → Result ℤ EngineError × Engine D
  incr_expired k now' s =
      let s' = record s { map = D.remove k s.map } in
      if ltb 0 s'.max_keys && leb s'.max_keys (D.len s'.map)
      then (err out_of_memory, s')
      else (ok (pos 1), record s' { map = D.insert k (new now' (b'1' ∷ [])) s'.map })

  unfoldable pub exists : Bytes → ℕ → ℕ → Engine D → Bool × Engine D
  exists k now now' s = elim (D.get k s.map) [
    | none ↦ (false, s)
    | some e ↦ if is_expired_at e now then (false, drop_expired k now' s) else (true, s)
  ]

  unfoldable pub ttl_secs : Bytes → ℕ → ℕ → Engine D → ℤ × Engine D
  unfolding remaining_secs
  ttl_secs k now now' s = elim (D.get k s.map) [
    | none ↦ (negsuc 1, s)
    | some e ↦
        if is_expired_at e now
        then (negsuc 1, drop_expired k now' s)
        else (remaining_secs e.expires_at now', s)
  ]

  unfoldable pub expire : Bytes → ℕ → ℕ → ℕ → Engine D → Outcome (Bool × Engine D)
  unfolding add_duration
  expire k seconds now now' s = elim (D.get k s.map) [
    | none ↦ returns (false, s)
    | some e ↦ if is_expired_at e now then returns (false, drop_expired k now' s) else (do
      deadline ← add_duration now' (from_secs seconds)
      returns (true, record s { map = D.insert k (record e { expires_at = some deadline }) s.map }))
  ]

  unfoldable pub len : Engine D → ℕ
  len s = D.len s.map

  unfoldable pub clear : Engine D → Engine D
  clear s = record s { map = D.empty }

  unfoldable pub keys : ℕ → Engine D → List Bytes
  unfolding live_keys
  keys now s = live_keys now (D.entries s.map)

  -- One key of `mget`; it removes nothing.
  unfoldable pub peek : Bytes → ℕ → Engine D → Option ValueEntry
  peek k now s = elim (D.get k s.map) [
    | none ↦ none
    | some e ↦ if is_expired_at e now then none else some e
  ]

  unfoldable pub mget : List Bytes → ℕ → Engine D → List (Option ValueEntry)
  unfolding peek
  mget [] now s = []
  mget (k ∷ ks) now s = peek k now s ∷ mget ks now s

module _ (I : Itoa) {D : DashMap ValueEntry} where
  -- The value is parsed, and one is added with the wrap-around of a release build.
  unfoldable pub incr_live : Bytes → ValueEntry → Engine D → Result ℤ EngineError × Engine D
  incr_live k e s = elim (parse_i64 (from_utf8_lossy e.bytes)) [
    | none ↦ (err (not_an_integer k), s)
    | some n ↦ (
      ok (suc_i64 n),
      record s { map = D.insert k (record e { bytes = I.format (suc_i64 n) }) s.map },
    )
  ]

  -- `now` is read by `is_expired` or by the eviction, `now'` by `ValueEntry::new`.
  unfoldable pub incr : Bytes → ℕ → ℕ → Engine D → Outcome (Result ℤ EngineError × Engine D)
  incr k now now' s = elim (D.get k s.map) [
    | none ↦ incr_vacant k now now' s
    | some e ↦ returns (if is_expired_at e now then incr_expired k now' s else incr_live k e s)
  ]
