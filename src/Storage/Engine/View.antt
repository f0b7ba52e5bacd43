-- ===== src/Storage/Engine/View.antt =====
-- What a client can see of the engine: at an instant, the entry of each key that has not expired.
use zetdb.Prelude.{ℕ, ◌≤◌, ◌≡◌, true, Option, none, some, Bytes, arith, if◌then◌else◌}
use zetdb.Bytes.{bytes_eq_iff}
use zetdb.Domain.Value.{ValueEntry, is_expired_at}
use zetdb.Storage.DashMap.{DashMap}
use zetdb.Storage.Engine.{Engine, drop_expired}

-- The part of a stored entry that is visible at `t`.
unfoldable pub live : ℕ → Option ValueEntry → Option ValueEntry
live t none = none
live t (some v) = if is_expired_at v t then none else some v

module _ {D : DashMap ValueEntry} where
  unfoldable pub view : Engine D → ℕ → Bytes → Option ValueEntry
  unfolding live
  view s t k = live t (D.get k s.map)

-- What has expired stays expired.
pub live_later :
    (t t' : ℕ) (v : ValueEntry) → t ≤ t' → is_expired_at v t ≡ true → live t' (some v) ≡ none
unfolding live is_expired_at
live_later t t' v h e = ground arith

module _ {D : DashMap ValueEntry} where
  -- To take out an expired entry changes nothing that a client can see from then on.
  pub view-drop_expired :
      (s : Engine D) (k j : Bytes) (now t : ℕ)
      → now ≤ t
      → view (drop_expired k now s) t j ≡ view s t j
  unfolding view drop_expired is_expired_at
  view-drop_expired s k j now t h = ground (
    arith,
    D.remove_if-eq k (λ v. is_expired_at v now) s.map,
    D.get-remove k j s.map,
    bytes_eq_iff k j,
  )
