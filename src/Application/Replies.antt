-- ===== src/Application/Replies.antt =====
-- application/dispatcher.rs: what a client reads back after it has written.
use zetdb.Prelude.{
  ℕ, ◌+◌, ◌<◌, ◌≡◌, refl, ap, ◌∙◌, inl, Option, none, some, List, [], ◌∷◌, Bytes, if◌then◌else◌,
  arith, ltb,
}
use zetdb.Bytes.{bytes_eq}
use zetdb.Domain.Errors.{Result, returns}
use zetdb.Domain.Value.{ValueEntry, new, with_ttl, add_duration, is_expired_at, instant_limit}
use zetdb.Domain.Command.{Command}
use zetdb.Storage.DashMap.{DashMap}
use zetdb.Storage.Itoa.{Itoa}
use zetdb.Storage.Engine
use zetdb.Storage.Engine.{Engine}
use zetdb.Storage.Engine.View.{live, view}
use zetdb.Storage.Engine.Reads.{get_lem}
use zetdb.Storage.Engine.Capacity.{max_keys-set}
use zetdb.Storage.Engine.Writes.{set_lem}
use zetdb.Protocol.Response.{Response}
use zetdb.Application.Info.{Counters}
use zetdb.Application.Dispatch.{Clock, entry_of, mset, dispatch, data_of, value_reply}

-- The value of the last pair with the key `j`.
abbrev pub last_value : Bytes → List (Bytes × Bytes) → Option Bytes → Option Bytes
last_value j [] before = before
last_value j ((k, v) ∷ rest) before = last_value j rest (if bytes_eq k j then some v else before)

module _ (I : Itoa) {D : DashMap ValueEntry} (m : Counters) where
  dispatch_get :
      (clock : Clock) (s : Engine D) (k : Bytes)
      → (s' : Engine D) × (dispatch I m clock s (Command.get k)
          ≡ returns (Response.value (data_of (view s (clock 0) k)), s'))
  unfolding dispatch
  dispatch_get clock s k = (
    (Engine.get k (clock 0) (clock 1) s).1,
    ap (λ r. returns (value_reply r, (Engine.get k (clock 0) (clock 1) s).1))
        (get_lem s k (clock 0) (clock 1)).0,
  )

  -- SET with a time to live on an engine with no limit on the keys, if an `Instant` can hold the
  -- deadline: it answers OK, and a later GET of the key answers the value exactly while the deadline
  -- has not come; a GET of another key answers what it would have answered.
  pub dispatch-set-get :
      (clock : Clock) (s : Engine D) (k v : Bytes) (dur : ℕ)
      → s.max_keys ≡ 0
      → clock 0 + dur < instant_limit
      → (s1 : Engine D) × (dispatch I m clock s (Command.set k v (some dur))
          ≡ returns (Response.ok, s1))
        × ((later : Clock) (j : Bytes)
            → (s2 : Engine D) × (dispatch I m later s1 (Command.get j)
                ≡ returns (
                  Response.value (
                      if bytes_eq k j
                      then (if ltb (later 0) (clock 0 + dur) then some v else none)
                      else data_of (view s (later 0) j)),
                  s2,
                )))
  dispatch-set-get clock s k v dur unlimited fits =
      let e : ValueEntry = record {
        bytes = v;
        expires_at = some (clock 0 + dur);
        created_at = some (clock 1);
      } in
      let (done, seen) = set_lem k e (clock 2) s (inl unlimited) in
      let s1 = (Engine.set k e (clock 2) s).1 in
      (
        s1,
        unfold dispatch entry_of with_ttl add_duration in ground (arith, done),
        λ later j.
            let (s2, answer) = dispatch_get later s1 j in
            (s2, answer ∙ unfold live is_expired_at in ground (arith, seen (later 0) j)),
      )

module _ {D : DashMap ValueEntry} where
  pub mset_step :
      (k v : Bytes) (rest : List (Bytes × Bytes)) (i : ℕ) (clock : Clock) (s : Engine D)
      → s.max_keys ≡ 0
      → mset ((k, v) ∷ rest) i clock s
        ≡ mset rest (i + 2) clock (Engine.set k (new (clock i) v) (clock (i + 1)) s).1
  unfolding mset
  mset_step k v rest i clock s h =
      rw ((set_lem k (new (clock i) v) (clock (i + 1)) s (inl h)).0, mset)

  set_value :
      (k v : Bytes) (now now' : ℕ) (s : Engine D) (t : ℕ) (j : Bytes)
      → s.max_keys ≡ 0
      → data_of (view (Engine.set k (new now v) now' s).1 t j)
        ≡ (if bytes_eq k j then some v else data_of (view s t j))
  unfolding new live is_expired_at
  set_value k v now now' s t j h = ground (arith, (set_lem k (new now v) now' s (inl h)).1 t j)

  -- MSET on an engine with no limit on the keys succeeds; then each key has the value of the last
  -- pair that names it, with no deadline, and a key in no pair has what it had.
  pub mset_lem :
      (pairs : List (Bytes × Bytes)) (i : ℕ) (clock : Clock) (s : Engine D) (t : ℕ) (j : Bytes)
      → s.max_keys ≡ 0
      → ((mset pairs i clock s).0 ≡ Result.ok tt)
        × (data_of (view (mset pairs i clock s).1 t j) ≡ last_value j pairs (data_of (view s t j)))
  mset_lem [] i clock s t j unlimited = unfold mset in (refl, refl)
  mset_lem ((k, v) ∷ rest) i clock s t j unlimited =
      let e = new (clock i) v in
      let s1 = (Engine.set k e (clock (i + 1)) s).1 in
      let ih =
        mset_lem rest (i + 2) clock s1 t j (max_keys-set k e (clock (i + 1)) s ∙ unlimited) in
      rw (mset_step k v rest i clock s unlimited) (
        ih.0,
        ih.1 ∙ ap (last_value j rest) (set_value k v (clock i) (clock (i + 1)) s t j unlimited),
      )
