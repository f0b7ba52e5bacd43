-- ===== src/Storage/Engine/Writes.antt =====
-- dashmap_engine.rs: what the operations that write do to what a client sees.
use zetdb.Prelude.{
  ℕ, ◌+◌, ◌≤◌, ◌<◌, ◌≡◌, ◌⊎◌, ◌↔◌, inl, inr, not, true, false, Option, none, some, [], ◌∷◌, Bytes,
  arith, if◌then◌else◌, is_some, Bool-cases, Option-cases,
}
use zetdb.Prelude.Int.{ℤ, pos, suc_i64}
use zetdb.Bytes.{bytes_eq, bytes_eq_iff}
use zetdb.Bytes.Decimal.{parse_i64, show_int}
use zetdb.Bytes.Utf8.{from_utf8_lossy}
use zetdb.Domain.Errors.{not_an_integer, ok, err, returns, panics, deadlocks}
use zetdb.Domain.Value.{ValueEntry, is_expired_at, new, add_duration, from_secs, instant_limit}
use zetdb.Storage.DashMap.{DashMap}
use zetdb.Storage.Itoa.{Itoa}
use zetdb.Storage.Engine.{
  Engine, set, del, expire, incr, incr_vacant, incr_expired, incr_live, sweep_expired, drop_expired,
}
use zetdb.Storage.Engine.View.{live, view, view-drop_expired}

-- The visible entry once it has the deadline `d`.
abbrev pub with_deadline : ℕ → ℕ → Option ValueEntry → Option ValueEntry
with_deadline t d none = none
with_deadline t d (some e) = live t (some (record e { expires_at = some d }))

module _ {D : DashMap ValueEntry} where
  -- SET with no limit on the keys, or of a key that is in the table, succeeds; its key then has the
  -- new entry and every other key the one that it had.
  pub set_lem :
      (k : Bytes) (v : ValueEntry) (now : ℕ) (s : Engine D)
      → (s.max_keys ≡ 0) ⊎ (is_some (D.get k s.map) ≡ true)
      → ((set k v now s).0 ≡ ok tt)
        × ((t : ℕ) (j : Bytes)
            → view (set k v now s).1 t j ≡ (if bytes_eq k j then live t (some v) else view s t j))
  unfolding set view
  set_lem k v now s h = (ground arith, λ t j. ground (arith, D.get-insert k j v s.map))

  -- DEL answers whether its key had a visible entry; from then on the key has none, and every other
  -- key has what it had.
  pub del_lem :
      (k : Bytes) (now : ℕ) (s : Engine D)
      → ((del k now s).0 ≡ ok (is_some (view s now k)))
        × ((t : ℕ) (j : Bytes)
            → now ≤ t
            → view (del k now s).1 t j ≡ (if bytes_eq k j then none else view s t j))
  unfolding del view live is_expired_at
  del_lem k now s =
      let law = D.remove_if-eq k (λ v. not (is_expired_at v now)) s.map in
      (ground (arith, law), λ t j h. ground (arith, law, D.get-remove k j s.map, bytes_eq_iff k j))

  -- EXPIRE, with clock readings in order, answers whether its key has a visible entry, and then gives
  -- that the new deadline, if an
  -- `Instant` can hold it. Every other key has what it had.
  pub expire_lem :
      (k : Bytes) (seconds now now' : ℕ) (s : Engine D)
      → now ≤ now'
      → now' + from_secs seconds < instant_limit
      → (s' : Engine D) × (expire k seconds now now' s ≡ returns (is_some (view s now k), s'))
        × ((t : ℕ) (j : Bytes)
            → now' ≤ t
            → view s' t j ≡ (
                if bytes_eq k j
                then with_deadline t (now' + from_secs seconds) (view s now k)
                else view s t j))
  expire_lem k seconds now now' s later fits = elim (Option-cases (D.get k s.map)) [
    | inl e ↦ (
      s,
      unfold expire view live in ground arith,
      λ t j h. unfold view live in ground (arith, bytes_eq_iff k j),
    )
    | inr (v, e) ↦ elim (Bool-cases (is_expired_at v now)) [
      | inl old ↦ (
        drop_expired k now' s,
        unfold expire view live in ground arith,
        λ t j h.
            unfold view live is_expired_at in
            ground (arith, view-drop_expired s k j now' t, bytes_eq_iff k j),
      )
      | inr fresh ↦
          let v' = record v { expires_at = some (now' + from_secs seconds) } in
          (
            record s { map = D.insert k v' s.map },
            unfold expire add_duration view live in ground arith,
            λ t j h.
                unfold view live in ground (arith, D.get-insert k j v' s.map, bytes_eq_iff k j),
          )
    ]
  ]

  -- EXPIRE panics exactly if its key has a visible entry and an `Instant` cannot hold the deadline.
  pub expire_overflow :
      (k : Bytes) (seconds now now' : ℕ) (s : Engine D)
      → (expire k seconds now now' s ≡ panics)
        ↔ ((is_some (view s now k) ≡ true) × (instant_limit ≤ now' + from_secs seconds))
  unfolding expire view live add_duration
  expire_overflow k seconds now now' s = elim (Option-cases (D.get k s.map)) [
    | inl e ↦ (λ h. ground arith, λ h. ground arith)
    | inr (v, e) ↦ (λ h. ground arith, λ h. ground arith)
  ]

  -- The sweeper, which reads the clock at each entry, takes out every entry that had expired when it
  -- began, and keeps every entry that is live when it ends.
  pub sweep_expired_lem :
      (clock : ValueEntry → ℕ) (start stop : ℕ) (s : Engine D) (k : Bytes)
      → ((v : ValueEntry) → (start ≤ clock v) × (clock v ≤ stop))
      → ((v : ValueEntry)
          → D.get k (sweep_expired clock s).map ≡ some v
          → is_expired_at v start ≡ false)
        × (view (sweep_expired clock s) stop k ≡ view s stop k)
  unfolding sweep_expired
  sweep_expired_lem clock start stop s k between =
      let law = D.get-retain (λ v. not (is_expired_at v (clock v))) k s.map in
      (
        λ v h. unfold is_expired_at in ground (arith, law, between v),
        elim (Option-cases (D.get k s.map)) [
          | inl e ↦ unfold view live in ground (arith, law)
          | inr (v, e) ↦ unfold view live is_expired_at in ground (arith, law, between v)
        ],
      )

module _ (I : Itoa) {D : DashMap ValueEntry} where
  -- INCR of a visible entry that holds an integer answers its successor, keeps the deadline and the
  -- creation time, and stores what a later INCR reads as that successor.
  pub incr_integer :
      (k : Bytes) (now now' : ℕ) (s : Engine D) (e : ValueEntry) (n : ℤ)
      → view s now k ≡ some e
      → parse_i64 (from_utf8_lossy e.bytes) ≡ some n
      → (s' : Engine D) × (incr I k now now' s ≡ returns (ok (suc_i64 n), s'))
        × ((j : Bytes)
            → D.get j s'.map ≡ (
                if bytes_eq k j
                then some (record e { bytes = show_int (suc_i64 n) })
                else D.get j s.map))
  unfolding incr incr_live view live
  incr_integer k now now' s e n h p = (
    record s { map = D.insert k (record e { bytes = I.format (suc_i64 n) }) s.map },
    ground arith,
    λ j. ground (
      arith,
      D.get-insert k j (record e { bytes = I.format (suc_i64 n) }) s.map,
      I.format-eq (suc_i64 n),
    ),
  )

  -- INCR of a visible entry that holds no integer is refused and changes nothing.
  pub incr_not_integer :
      (k : Bytes) (now now' : ℕ) (s : Engine D) (e : ValueEntry)
      → view s now k ≡ some e
      → parse_i64 (from_utf8_lossy e.bytes) ≡ none
      → incr I k now now' s ≡ returns (err (not_an_integer k), s)
  unfolding incr incr_live view live
  incr_not_integer k now now' s e h p = ground arith

  -- INCR of a key with no visible entry starts it at 1, if there is no limit on the keys.
  pub incr_absent :
      (k : Bytes) (now now' : ℕ) (s : Engine D)
      → view s now k ≡ none
      → s.max_keys ≡ 0
      → (s' : Engine D) × (incr I k now now' s ≡ returns (ok (pos 1), s'))
        × ((j : Bytes)
            → D.get j s'.map
              ≡ (if bytes_eq k j then some (new now' (b'1' ∷ [])) else D.get j s.map))
  incr_absent k now now' s h unlimited =
      let one = new now' (b'1' ∷ []) in
      elim (Option-cases (D.get k s.map)) [
        | inl e ↦ (
          record s { map = D.insert k one s.map },
          unfold incr incr_vacant in ground arith,
          λ j. D.get-insert k j one s.map,
        )
        | inr (v, e) ↦ (
          record s { map = D.insert k one (D.remove k s.map) },
          unfold incr incr_expired view live in ground arith,
          λ j. ground (arith, D.get-insert k j one (D.remove k s.map), D.get-remove k j s.map),
        )
      ]

  -- INCR never returns exactly if there is a limit on the keys, its key is not in the table, and the
  -- map's `len` waits for the entry that `incr` holds.
  pub incr_deadlock :
      (k : Bytes) (now now' : ℕ) (s : Engine D)
      → (incr I k now now' s ≡ deadlocks)
        ↔ ((0 < s.max_keys) × (D.get k s.map ≡ none) × (D.reentrant ≡ false))
  unfolding incr incr_vacant
  incr_deadlock k now now' s = elim (Option-cases (D.get k s.map)) [
    | inl e ↦ (λ h. ground arith, λ h. ground arith)
    | inr (v, e) ↦ (λ h. ground arith, λ h. ground arith)
  ]
