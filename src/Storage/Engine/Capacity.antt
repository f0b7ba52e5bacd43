-- ===== src/Storage/Engine/Capacity.antt =====
-- dashmap_engine.rs: the limit on the number of keys, over `set`, `incr` and the eviction.
use zetdb.Prelude.{
  ℕ, ◌+◌, ◌≤◌, ◌<◌, ◌≡◌, ◌↔◌, inl, inr, refl, true, Option, none, some, [], ◌∷◌, Bytes, arith,
  if◌then◌else◌, is_some, is_empty, Bool-cases, Option-cases,
}
use mathlib.Core.Path.{subst}
use zetdb.Prelude.Int.{ℤ, suc_i64}
use zetdb.Bytes.Decimal.{parse_i64}
use zetdb.Bytes.Utf8.{from_utf8_lossy}
use zetdb.Domain.Value.{ValueEntry, is_expired_at, new}
use zetdb.Domain.Errors.{EngineError, out_of_memory, Result, err, returns}
use zetdb.Storage.DashMap.{DashMap}
use zetdb.Storage.Itoa.{Itoa}
use zetdb.Storage.Engine.{
  Engine, sample, remove_oldest, evict_one_if_needed, set, incr_vacant, incr_expired, incr_live,
  incr,
}
use zetdb.Storage.Engine.Evict.{live_entries, sample-stored, sample-is_some, Chosen}

module _ (D : DashMap ValueEntry) where
  len_remove_stored :
      (k : Bytes) (m : D.Map) → is_some (D.get k m) ≡ true → D.len (D.remove k m) + 1 ≡ D.len m
  len_remove_stored k m h = ground (arith, D.len-remove k m)

module _ {D : DashMap ValueEntry} where
  -- The table holds at most `max_keys` keys, if there is a limit.
  abbrev pub IsBounded : Engine D → Type 0
  IsBounded s = 0 < s.max_keys → D.len s.map ≤ s.max_keys

  remove_oldest_len :
      (key : Option Bytes) (s : Engine D)
      → Chosen (λ k. is_some (D.get k s.map) ≡ true) key
      → D.len (remove_oldest key s).map + (if is_some key then 1 else 0) ≡ D.len s.map
  unfolding remove_oldest
  remove_oldest_len none s h = omega arith
  remove_oldest_len (some k) s h = len_remove_stored D k s.map h

  -- A full table loses one entry if one of its entries is live, and none otherwise.
  pub evict_len :
      (now : ℕ) (s : Engine D)
      → 0 < s.max_keys
      → s.max_keys ≤ D.len s.map
      → D.len (evict_one_if_needed now s).map
          + (if is_empty (live_entries now (D.entries s.map)) then 0 else 1)
        ≡ D.len s.map
  unfolding evict_one_if_needed
  evict_len now s p h =
      let key = sample now (D.entries s.map) 0 none none in
      ground (
        arith,
        sample-is_some now (D.entries s.map) 0 none,
        remove_oldest_len key s (sample-stored D s.map now),
      )

  max_keys-remove_oldest :
      (key : Option Bytes) (s : Engine D) → (remove_oldest key s).max_keys ≡ s.max_keys
  unfolding remove_oldest
  max_keys-remove_oldest none s = refl
  max_keys-remove_oldest (some k) s = refl

  pub max_keys-evict : (now : ℕ) (s : Engine D) → (evict_one_if_needed now s).max_keys ≡ s.max_keys
  unfolding evict_one_if_needed
  max_keys-evict now s =
      ground (arith, max_keys-remove_oldest (sample now (D.entries s.map) 0 none none) s)

  evict_keeps_len : (now : ℕ) (s : Engine D) → D.len (evict_one_if_needed now s).map ≤ D.len s.map
  unfolding evict_one_if_needed
  evict_keeps_len now s = ground (
    arith,
    remove_oldest_len (sample now (D.entries s.map) 0 none none) s (sample-stored D s.map now),
  )

  pub max_keys-set :
      (k : Bytes) (v : ValueEntry) (now : ℕ) (s : Engine D)
      → (set k v now s).1.max_keys ≡ s.max_keys
  unfolding set
  max_keys-set k v now s = ground (arith, max_keys-evict now s)

  -- `set` keeps the number of keys within the limit.
  pub set-IsBounded :
      (k : Bytes) (v : ValueEntry) (now : ℕ) (s : Engine D)
      → IsBounded s
      → IsBounded (set k v now s).1
  unfolding set
  set-IsBounded k v now s b p = ground (
    arith,
    b,
    max_keys-evict now s,
    evict_keeps_len now s,
    D.len-insert k v s.map,
    D.len-insert k v (evict_one_if_needed now s).map,
  )

  evict_idle : (now : ℕ) (s : Engine D) → D.len s.map < s.max_keys → evict_one_if_needed now s ≡ s
  unfolding evict_one_if_needed
  evict_idle now s h = ground arith

  -- `set` fails with `OutOfMemory` exactly if there is a limit, the key is new, the table is full and
  -- every entry in it has expired; in a table within its limit.
  pub set_out_of_memory :
      (k : Bytes) (v : ValueEntry) (now : ℕ) (s : Engine D)
      → IsBounded s
      → ((set k v now s).0 ≡ err out_of_memory) ↔ (
          (0 < s.max_keys)
          × (D.get k s.map ≡ none)
          × (D.len s.map ≡ s.max_keys)
          × (live_entries now (D.entries s.map) ≡ []))
  unfolding set
  set_out_of_memory k v now s b = (
    λ h. ground (arith, b, max_keys-evict now s, evict_len now s, evict_idle now s),
    λ h. ground (arith, b, max_keys-evict now s, evict_len now s),
  )

  incr_vacant-IsBounded :
      (k : Bytes) (now now' : ℕ) (s s' : Engine D) (r : Result ℤ EngineError)
      → incr_vacant k now now' s ≡ returns (r, s')
      → IsBounded s
      → IsBounded s'
  unfolding incr_vacant
  incr_vacant-IsBounded k now now' s s' r h b p =
      let one = new now' (b'1' ∷ []) in
      ground (
        arith,
        b,
        max_keys-evict now s,
        evict_keeps_len now s,
        D.len-insert k one s.map,
        D.len-insert k one (evict_one_if_needed now s).map,
      )

  incr_expired-IsBounded :
      (k : Bytes) (now' : ℕ) (s : Engine D) → IsBounded s → IsBounded (incr_expired k now' s).1
  unfolding incr_expired
  incr_expired-IsBounded k now' s b p =
      ground
        (arith, b, D.len-remove k s.map, D.len-insert k (new now' (b'1' ∷ [])) (D.remove k s.map))

  incr_live-IsBounded :
      (I : Itoa) (k : Bytes) (e : ValueEntry) (s : Engine D)
      → D.get k s.map ≡ some e
      → IsBounded s
      → IsBounded (incr_live I k e s).1
  unfolding incr_live
  incr_live-IsBounded I k e s h b p = elim (Option-cases (parse_i64 (from_utf8_lossy e.bytes))) [
    | inl bad ↦ ground (arith, b)
    | inr (n, good) ↦
        ground (arith, b, D.len-insert k (record e { bytes = I.format (suc_i64 n) }) s.map)
  ]

  -- INCR, if it returns, keeps the number of keys within the limit.
  pub incr-IsBounded :
      (I : Itoa) (k : Bytes) (now now' : ℕ) (s s' : Engine D) (r : Result ℤ EngineError)
      → incr I k now now' s ≡ returns (r, s')
      → IsBounded s
      → IsBounded s'
  unfolding incr
  incr-IsBounded I k now now' s s' r h b = elim (Option-cases (D.get k s.map)) [
    | inl e ↦ incr_vacant-IsBounded k now now' s s' r (ground arith) b
    | inr (v, e) ↦ elim (Bool-cases (is_expired_at v now)) [
      | inl old ↦ subst IsBounded (ground arith) (incr_expired-IsBounded k now' s b)
      | inr new ↦ subst IsBounded (ground arith) (incr_live-IsBounded I k v s e b)
    ]
  ]
