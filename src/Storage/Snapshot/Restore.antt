-- ===== src/Storage/Snapshot/Restore.antt =====
-- storage/snapshot.rs: what an engine holds after a dump has been loaded into it.
use mathlib.Core.Path.{subst}
use zetdb.Prelude.{
  if_rule, ℕ, zero, suc, ◌+◌, ◌*◌, ◌-◌, ◌/◌, ◌^◌, ◌≤◌, ◌≡◌, ◌⊎◌, refl, ap, ◌∙◌, inl, inr, true,
  false, Option, none, some, List, [], ◌∷◌, Bytes, All, length, arith, ltb, if◌then◌else◌,
  Bool-cases,
}
use zetdb.Prelude.Int.{ℤ, pos, negsuc, IsI64, of_word}
use zetdb.Bytes.{bytes_eq, bytes_eq_iff}
use zetdb.Domain.Errors.{ok, returns}
use zetdb.Domain.Value.{
  ValueEntry, is_expired_at, add_duration, instant_limit, nanos_per_milli, from_millis,
}
use zetdb.Storage.DashMap.{DashMap, lookup}
use zetdb.Storage.Engine
use zetdb.Storage.Engine.{Engine, remaining_ms, dump_list, dump_entries, new_engine}
use zetdb.Storage.Engine.View.{view, live}
use zetdb.Storage.Aof.Replay.{Clock, deadline_of}
use zetdb.Storage.Snapshot.Kept.{
  Kept, dumped, IsNear, Sets, Holds, millis_of, millis_of-remaining_ms,
}
use zetdb.Storage.Snapshot.Format.{Dumped}
use zetdb.Storage.Snapshot.{restore}
use zetdb.Storage.Snapshot.RoundTrip.{restore_all, FitsDumped}
use zetdb.Storage.Aof.Entry.RoundTrip.{FitsKey, FitsValue}

-- The last entry of a dump with the key, over what was there before.
unfoldable pub last_of : Bytes → List Dumped → Option Kept → Option Kept
last_of k [] o = o
last_of k ((j, v, t) ∷ ds) o = last_of k ds (if bytes_eq j k then some (v, millis_of t) else o)

-- A clock that leaves room for every time to live of a dump.
abbrev pub HasRoom : Clock → Type 0
HasRoom clock = clock 0 + 2 ^ 63 * nanos_per_milli ≤ instant_limit

deadline_cases :
    (t : ℤ) (now : ℕ)
    → IsI64 t
    → now + 2 ^ 63 * nanos_per_milli ≤ instant_limit
    → (d : Option ℕ) × (deadline_of t now ≡ returns d) × Sets now d (millis_of t)
unfolding deadline_of add_duration
deadline_cases (pos zero) now h room = (none, refl, tt)
deadline_cases (pos (suc n)) now h room =
    let fits : ltb (now + from_millis (suc n)) instant_limit ≡ true = ground arith in
    (some (now + from_millis (suc n)), rw fits refl, refl)
deadline_cases (negsuc n) now h room = (none, refl, tt)

module _ {D : DashMap ValueEntry} where
  set_unlimited :
      (k : Bytes) (e : ValueEntry) (now : ℕ) (s : Engine D)
      → s.max_keys ≡ 0
      → Engine.set k e now s ≡ (ok tt, record s { map = D.insert k e s.map })
  unfolding Engine.set
  set_unlimited k e now s h = ground (arith, h)

  -- An entry of a dump is stored where the keys have no limit.
  restore_unlimited :
      (clock : Clock) (s : Engine D) (k v : Bytes) (t : ℤ)
      → s.max_keys ≡ 0
      → IsI64 t
      → HasRoom clock
      → (e : ValueEntry) × (restore clock s (k, v, t)
          ≡ returns (true, record s { map = D.insert k e s.map }))
        × (e.bytes ≡ v)
        × Sets (clock 0) e.expires_at (millis_of t)
  unfolding restore
  restore_unlimited clock s k v t unlimited h room =
      let d = deadline_cases t (clock 0) h room in
      let e : ValueEntry = record { bytes = v; expires_at = d.0; created_at = some (clock 1) } in
      (e, rw (d.1, set_unlimited k e (clock 2) s unlimited) refl, refl, d.2)

  Holds-insert :
      (clock : ℕ → Clock) (j k v : Bytes) (left : Option ℕ) (e : ValueEntry) (s : Engine D)
      (o : Option Kept)
      → Holds clock (some e) (some (v, left))
      → Holds clock (D.get k s.map) o
      → Holds clock (D.get k (D.insert j e s.map)) (if bytes_eq j k then some (v, left) else o)
  Holds-insert clock j k v left e s o new old = elim (Bool-cases (bytes_eq j k)) [
    | inl same ↦ rw (D.get-insert j k e s.map, same) new
    | inr other ↦ rw (D.get-insert j k e s.map, other) old
  ]

  -- A dump is loaded in full where the keys have no limit, and each key then holds what the last entry
  -- of the dump with that key gives it.
  pub restore_all-last_of :
      (clock : ℕ → Clock) (ds : List Dumped) (i loaded : ℕ) (s : Engine D) (o : Bytes → Option Kept)
      → s.max_keys ≡ 0
      → All (λ d. IsI64 d.2) ds
      → ((n : ℕ) → HasRoom (clock n))
      → ((k : Bytes) → Holds clock (D.get k s.map) (o k))
      → (s' : Engine D) × (restore_all clock i loaded ds s ≡ returns (loaded + length ds, s'))
        × ((k : Bytes) → Holds clock (D.get k s'.map) (last_of k ds (o k)))
  unfolding restore_all last_of
  restore_all-last_of clock [] i loaded s o unlimited h room old =
      (s, ap (λ n. returns (n, s)) (omega arith), old)
  restore_all-last_of clock ((j, v, t) ∷ ds) i loaded s o unlimited h room old =
      let (e, stored_, bytes, deadline) =
        restore_unlimited (clock i) s j v t unlimited h.0 (room i) in
      let s1 : Engine D = record s { map = D.insert j e s.map } in
      let rest =
        restore_all-last_of clock ds (i + 1) (loaded + 1) s1
          (λ k. if bytes_eq j k then some (v, millis_of t) else o k) unlimited h.1 room
          (λ k. Holds-insert clock j k v (millis_of t) e s (o k) (bytes, (i, deadline)) (old k)) in
      (
        rest.0,
        rw (restore_all, stored_) (rest.1 ∙ ap (λ n. returns (n, rest.0)) (omega arith)),
        rest.2,
      )

module _ (k : Bytes) (now : ℕ) (g : Option ValueEntry)
    (near : (v : ValueEntry) → g ≡ some v → IsNear now v.expires_at) where
  -- The dump of an entry over what was there, which is what the dump keeps of `g` already or is not
  -- for this key.
  step :
      (j : Bytes) (v : ValueEntry) (o : Option Kept)
      → (j ≡ k → g ≡ some v)
      → is_expired_at v now ≡ false
      → (bytes_eq j k ≡ true) ⊎ (o ≡ dumped now (live now g))
      → (if bytes_eq j k then some (v.bytes, millis_of (remaining_ms v.expires_at now)) else o)
        ≡ dumped now (live now g)
  unfolding live
  step j v o h new e = elim (Bool-cases (bytes_eq j k)) [
    | inl same ↦
        let is_g : g ≡ some v = h (ground (arith, bytes_eq_iff j k, same)) in
        rw (same, is_g, new)
          (ap (λ l. some (v.bytes, l)) (millis_of-remaining_ms v.expires_at now (near v is_g)))
    | inr other ↦ elim e [ inl same ↦ absurd cc | inr old ↦ rw other old ]
  ]

  -- A key whose entries in the iteration are all `g` keeps that entry.
  last_of-dumped :
      (l : List (Bytes × ValueEntry)) (o : Option Kept)
      → All (λ p. p.0 ≡ k → g ≡ some p.1) l
      → o ≡ dumped now (live now g)
      → last_of k (dump_list now l) o ≡ dumped now (live now g)
  unfolding last_of dump_list
  last_of-dumped [] o h e = e
  last_of-dumped ((j, v) ∷ l) o h e = elim (Bool-cases (is_expired_at v now)) [
    | inl old ↦ rw old (last_of-dumped l o h.1 e)
    | inr new ↦ rw new (last_of-dumped l _ h.1 (step j v o h.0 new (inr e)))
  ]

  last_of-dump_list :
      (l : List (Bytes × ValueEntry))
      → All (λ p. p.0 ≡ k → g ≡ some p.1) l
      → lookup k l ≡ g
      → last_of k (dump_list now l) none ≡ dumped now (live now g)
  unfolding last_of dump_list live
  last_of-dump_list [] h e = ground (arith, e)
  last_of-dump_list ((j, v) ∷ l) h e = elim (Bool-cases (bytes_eq j k)) [
    | inl same ↦ elim (Bool-cases (is_expired_at v now)) [
      | inl old ↦
          rw old (last_of-dumped l none h.1 (ground (arith, h.0, bytes_eq_iff j k, same, old)))
      | inr new ↦ rw new (last_of-dumped l _ h.1 (step j v none h.0 new (inl same)))
    ]
    | inr other ↦ elim (Bool-cases (is_expired_at v now)) [
      | inl old ↦ rw old (last_of-dump_list l h.1 (rw other at e))
      | inr new ↦ rw (new, last_of, other) (last_of-dump_list l h.1 (rw other at e))
    ]
  ]

pub All-map :
    {A : Type 0} (P Q : A → Type 0) (f : (x : A) → P x → Q x) (xs : List A) → All P xs → All Q xs
All-map P Q f [] h = tt
All-map P Q f (x ∷ xs) h = (f x h.0, All-map P Q f xs h.1)

pub IsI64-of_word : (w : ℕ) → IsI64 (of_word w)
IsI64-of_word w = ground arith

IsI64-clamped :
    (x : ℤ)
    → IsI64 x
    → IsI64 (elim x [ pos zero ↦ negsuc 0 | pos (suc n) ↦ pos (suc n) | negsuc n ↦ negsuc 0 ])
IsI64-clamped (pos zero) h = omega arith
IsI64-clamped (pos (suc n)) h = h
IsI64-clamped (negsuc n) h = omega arith

IsI64-remaining_ms : (d : Option ℕ) (now : ℕ) → IsI64 (remaining_ms d now)
unfolding remaining_ms
IsI64-remaining_ms none now = omega arith
IsI64-remaining_ms (some exp) now =
    IsI64-clamped (of_word ((exp - now) / nanos_per_milli)) (IsI64-of_word _)

pub dump_list-FitsDumped :
    (now : ℕ) (l : List (Bytes × ValueEntry))
    → All (λ p. FitsKey p.0 × FitsValue p.1.bytes) l
    → All FitsDumped (dump_list now l)
unfolding dump_list
dump_list-FitsDumped now [] h = tt
dump_list-FitsDumped now ((k, v) ∷ l) h =
    let rest = dump_list-FitsDumped now l h.1 in
    if_rule (All FitsDumped) (is_expired_at v now) rest
      ((h.0.0, h.0.1, IsI64-remaining_ms v.expires_at now), rest)

pub length-dump_list :
    (now : ℕ) (l : List (Bytes × ValueEntry)) → length (dump_list now l) ≤ length l
unfolding dump_list
length-dump_list now [] = omega arith
length-dump_list now ((k, v) ∷ l) = ground (arith, length-dump_list now l)

All-lookup :
    (k : Bytes) (v : ValueEntry) (P : ValueEntry → Type 0) (l : List (Bytes × ValueEntry))
    → All (λ p. P p.1) l
    → lookup k l ≡ some v
    → P v
All-lookup k v P [] h e = absurd cc
All-lookup k v P ((j, x) ∷ l) h e = elim (Bool-cases (bytes_eq j k)) [
  | inl same ↦ let is_v : x ≡ v = ground (arith, e, same) in subst P is_v h.0
  | inr other ↦ All-lookup k v P l h.1 (rw other at e)
]

-- The last entry of a key in a dump is what the dump keeps of its visible entry.
pub last_of-dump_entries :
    {D : DashMap ValueEntry} (k : Bytes) (now : ℕ) (s : Engine D)
    → All (λ p. IsNear now p.1.expires_at) (D.entries s.map)
    → last_of k (dump_entries now s) none ≡ dumped now (view s now k)
unfolding dump_entries view
last_of-dump_entries {D} k now s near =
    last_of-dump_list k now (D.get k s.map)
      (λ v e. All-lookup k v _ (D.entries s.map) near (D.lookup-entries k s.map ∙ e))
      (D.entries s.map)
      (All-map _ _ (λ p x e. subst (λ j. D.get j s.map ≡ some p.1) e x) (D.entries s.map)
        (D.entries-get s.map))
      (D.lookup-entries k s.map)
