-- ===== src/Application/Dictionary/Operations.antt =====
-- dashmap_engine.rs, and the loops of MSET: what the operations do to the dictionary that the engine
-- stands for.
use zetdb.Prelude.{
  ap, ◌∙◌, Option, ℕ, ◌+◌, ◌≡◌, refl, not, none, some, List, [], ◌∷◌, Bytes, All, arith, inl, inr,
  if◌then◌else◌, is_some, Option-cases,
}
use zetdb.Prelude.Int.{ℤ, pos, negsuc, suc_i64}
use zetdb.Bytes.{bytes_eq_iff}
use zetdb.Bytes.Decimal.{parse_i64, show_int, show_nat}
use zetdb.Bytes.Utf8.{from_utf8_lossy}
use zetdb.Domain.Errors.{EngineError, Result, ok, err, returns, not_an_integer}
use zetdb.Domain.Value.{ValueEntry, is_expired_at, new}
use zetdb.Storage.DashMap.{DashMap, lookup}
use zetdb.Storage.Itoa.{Itoa}
use zetdb.Storage.Engine
use zetdb.Storage.Engine.{Engine}
use zetdb.Storage.Aof.Replay.{set_all}
use zetdb.Protocol.Response.{Response}
use zetdb.Application.Dispatch.{data_of, Clock, datas, value_reply, incr_reply, mset}
use zetdb.Application.Replies.{mset_step}
use zetdb.Application.Dictionary.{
  Dictionary, nothing_stored, updated, updated_all, counted, incr_to, incr_answer, values,
  Represents, elem,
}

elem-live_keys :
    (k : Bytes) (now : ℕ) (l : List (Bytes × ValueEntry))
    → All (λ p. p.1.expires_at ≡ none) l
    → elem k (Engine.live_keys now l) ≡ is_some (lookup k l)
unfolding Engine.live_keys is_expired_at
elem-live_keys k now [] h = refl
elem-live_keys k now ((j, v) ∷ l) h = ground (arith, elem-live_keys k now l h.1, h.0)

is_some-data_of : (o : Option ValueEntry) → is_some o ≡ is_some (data_of o)
is_some-data_of none = refl
is_some-data_of (some e) = refl

module _ {D : DashMap ValueEntry} where
  forever-entries :
      (s : Engine D) (d : Dictionary)
      → Represents s d
      → (l : List (Bytes × ValueEntry)) → All (λ p. D.get p.0 s.map ≡ some p.1) l
      → All (λ p. p.1.expires_at ≡ none) l
  forever-entries s d h [] a = tt
  forever-entries s d h (p ∷ l) a = (h.2 p.0 p.1 a.0, forever-entries s d h l a.1)

  pub put-Represents :
      (k : Bytes) (e : ValueEntry) (s : Engine D) (d : Dictionary)
      → Represents s d
      → e.expires_at ≡ none
      → Represents {D = D} (record s { map = D.insert k e s.map }) (updated k (some e.bytes) d)
  put-Represents k e s d (unlimited, values, forever) f = (
    unlimited,
    λ j. ground (arith, D.get-insert k j e s.map, values j),
    λ j x g. ground (arith, D.get-insert k j e s.map, forever j x),
  )

  set_unlimited :
      (k : Bytes) (e : ValueEntry) (now : ℕ) (s : Engine D)
      → s.max_keys ≡ 0
      → Engine.set k e now s ≡ (ok tt, record s { map = D.insert k e s.map })
  unfolding Engine.set
  set_unlimited k e now s h = ground arith

  pub set-Represents :
      (k : Bytes) (e : ValueEntry) (now : ℕ) (s : Engine D) (d : Dictionary)
      → Represents s d
      → e.expires_at ≡ none
      → ((Engine.set k e now s).0 ≡ ok tt)
        × Represents (Engine.set k e now s).1 (updated k (some e.bytes) d)
  set-Represents k e now s d h f =
      rw (set_unlimited k e now s h.0) (refl, put-Represents k e s d h f)

  pub del-Represents :
      (k : Bytes) (now : ℕ) (s : Engine D) (d : Dictionary)
      → Represents s d
      → ((Engine.del k now s).0 ≡ ok (is_some (d k)))
        × Represents (Engine.del k now s).1 (updated k none d)
  unfolding Engine.del is_expired_at
  del-Represents k now s d (unlimited, values, forever) =
      let law = D.remove_if-eq k (λ v. not (is_expired_at v now)) s.map in
      elim (Option-cases (D.get k s.map)) [
        | inl e ↦ (
          ground (arith, law, values k),
          (
            unlimited,
            λ j. ground (arith, law, values j, bytes_eq_iff k j),
            λ j x g. ground (arith, law, forever j x),
          ),
        )
        | inr (v, e) ↦ (
          ground (arith, law, values k, forever k v),
          (
            unlimited,
            λ j. ground (arith, law, values j, D.get-remove k j s.map, forever k v),
            λ j x g. ground (arith, law, forever j x, D.get-remove k j s.map, forever k v),
          ),
        )
      ]

  pub clear-Represents :
      (s : Engine D) (d : Dictionary) → Represents s d → Represents (Engine.clear s) nothing_stored
  unfolding Engine.clear
  clear-Represents s d h = (h.0, λ j. rw (D.get-empty j), λ j x g. ground (arith, D.get-empty j))

  pub get-Represents :
      (k : Bytes) (now now' : ℕ) (s : Engine D) (d : Dictionary)
      → Represents s d
      → (value_reply (Engine.get k now now' s).0 ≡ Response.value (d k))
        × ((Engine.get k now now' s).1 ≡ s)
  unfolding Engine.get is_expired_at
  get-Represents k now now' s d (unlimited, values, forever) = elim (Option-cases (D.get k s.map)) [
    | inl e ↦ (ground (arith, values k), ground arith)
    | inr (v, e) ↦ (ground (arith, values k, forever k v), ground (arith, forever k v))
  ]

  pub exists-Represents :
      (k : Bytes) (now now' : ℕ) (s : Engine D) (d : Dictionary)
      → Represents s d
      → ((Engine.exists k now now' s).0 ≡ is_some (d k)) × ((Engine.exists k now now' s).1 ≡ s)
  unfolding Engine.exists is_expired_at
  exists-Represents k now now' s d (unlimited, values, forever) =
      elim (Option-cases (D.get k s.map)) [
        | inl e ↦ (ground (arith, values k), ground arith)
        | inr (v, e) ↦ (ground (arith, values k, forever k v), ground (arith, forever k v))
      ]

  pub ttl_secs-Represents :
      (k : Bytes) (now now' : ℕ) (s : Engine D) (d : Dictionary)
      → Represents s d
      → ((Engine.ttl_secs k now now' s).0 ≡ (if is_some (d k) then negsuc 0 else negsuc 1))
        × ((Engine.ttl_secs k now now' s).1 ≡ s)
  unfolding Engine.ttl_secs Engine.remaining_secs is_expired_at
  ttl_secs-Represents k now now' s d (unlimited, values, forever) =
      elim (Option-cases (D.get k s.map)) [
        | inl e ↦ (ground (arith, values k), ground arith)
        | inr (v, e) ↦ (ground (arith, values k, forever k v), ground (arith, forever k v))
      ]

  pub mget-Represents :
      (ks : List Bytes) (now : ℕ) (s : Engine D) (d : Dictionary)
      → Represents s d
      → datas (Engine.mget ks now s) ≡ values d ks
  unfolding Engine.mget Engine.peek is_expired_at
  mget-Represents [] now s d h = refl
  mget-Represents (k ∷ ks) now s d h =
      let ih = mget-Represents ks now s d h in
      elim (Option-cases (D.get k s.map)) [
        | inl e ↦ ground (arith, ih, h.1 k)
        | inr (v, e) ↦ ground (arith, ih, h.1 k, h.2 k v)
      ]

  pub elem-keys :
      (now : ℕ) (s : Engine D) (d : Dictionary)
      → Represents s d
      → (k : Bytes) → elem k (Engine.keys now s) ≡ is_some (d k)
  unfolding Engine.keys
  elem-keys now s d h k =
      elem-live_keys k now (D.entries s.map)
        (forever-entries s d h (D.entries s.map) (D.entries-get s.map))
      ∙ ap is_some (D.lookup-entries k s.map)
      ∙ is_some-data_of (D.get k s.map)
      ∙ ap is_some (h.1 k)

  pub set_all-Represents :
      (pairs : List (Bytes × Bytes)) (i : ℕ) (clock : Clock) (s : Engine D) (d : Dictionary)
      → Represents s d
      → Represents (set_all pairs i clock s) (updated_all pairs d)
  unfolding set_all
  set_all-Represents [] i clock s d h = h
  set_all-Represents ((k, v) ∷ rest) i clock s d h =
      let e = new (clock i) v in
      set_all-Represents rest (i + 2) clock (Engine.set k e (clock (i + 1)) s).1
        (updated k (some v) d) (unfold new in (set-Represents k e (clock (i + 1)) s d h refl).1)

  pub mset-Represents :
      (pairs : List (Bytes × Bytes)) (i : ℕ) (clock : Clock) (s : Engine D) (d : Dictionary)
      → Represents s d
      → ((mset pairs i clock s).0 ≡ ok tt)
        × Represents (mset pairs i clock s).1 (updated_all pairs d)
  mset-Represents [] i clock s d h = unfold mset in (refl, h)
  mset-Represents ((k, v) ∷ rest) i clock s d h =
      let e = new (clock i) v in
      rw (mset_step k v rest i clock s h.0) (
        mset-Represents rest (i + 2) clock (Engine.set k e (clock (i + 1)) s).1
          (updated k (some v) d) (unfold new in (set-Represents k e (clock (i + 1)) s d h refl).1))

one_counted : show_int (suc_i64 (pos 0)) ≡ b'1' ∷ []
unfolding show_nat show_int
one_counted = refl

module _ (I : Itoa) {D : DashMap ValueEntry} where
  -- INCR returns, with the reply of the dictionary's INCR and an engine that stands for its outcome.
  pub incr-Represents :
      (k : Bytes) (now now' : ℕ) (s : Engine D) (d : Dictionary)
      → Represents s d
      → (r : Result ℤ EngineError) × (s' : Engine D) × (Engine.incr I k now now' s
          ≡ returns (r, s'))
        × (incr_reply r ≡ incr_answer k (counted (d k)))
        × Represents s' (incr_to k (counted (d k)) d)
  unfolding Engine.incr Engine.incr_vacant Engine.incr_live is_expired_at
  incr-Represents k now now' s d h = elim (Option-cases (D.get k s.map)) [
    | inl e ↦
        let one = new now' (b'1' ∷ []) in
        let start : counted (d k) ≡ some (pos 0) = ground (arith, h.1 k) in
        (
          ok (pos 1),
          record s { map = D.insert k one s.map },
          ground (arith, h.0),
          rw start refl,
          rw (start, one_counted) (unfold new in put-Represents k one s d h refl),
        )
    | inr (v, e) ↦ elim (Option-cases (parse_i64 (from_utf8_lossy v.bytes))) [
      | inl f ↦
          let start : counted (d k) ≡ none = ground (arith, h.1 k) in
          (err (not_an_integer k), s, ground (arith, h.2 k v), rw start refl, rw start h)
      | inr (n, f) ↦
          let start : counted (d k) ≡ some n = ground (arith, h.1 k) in
          let v' = record v { bytes = I.format (suc_i64 n) } in
          (
            ok (suc_i64 n),
            record s { map = D.insert k v' s.map },
            ground (arith, h.2 k v),
            rw start refl,
            rw (start, ← I.format-eq (suc_i64 n)) (put-Represents k v' s d h (h.2 k v e)),
          )
    ]
  ]
