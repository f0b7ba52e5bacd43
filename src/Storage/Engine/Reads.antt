-- ===== src/Storage/Engine/Reads.antt =====
-- dashmap_engine.rs: the operations that only read, and drop what they find expired.
use mathlib.Core.Path.{subst}
use zetdb.Prelude.{
  ◌-◌, ◌/◌, inl, inr, Option-cases, ℕ, ◌≤◌, ◌<◌, ◌≡◌, refl, Option, none, some, Bytes, arith, leb,
  if◌then◌else◌, is_some,
}
use zetdb.Prelude.Int.{ℤ, pos, negsuc}
use zetdb.Domain.Errors.{ok}
use zetdb.Domain.Value.{ValueEntry, nanos_per_sec, instant_limit}
use zetdb.Storage.DashMap.{DashMap}
use zetdb.Storage.Engine.{Engine, get, exists, ttl_secs, remaining_secs}
use zetdb.Storage.Engine.View.{live, view, view-drop_expired}

abbrev pub FitsDeadline : Option ℕ → Type 0
FitsDeadline none = Unit
FitsDeadline (some exp) = exp < instant_limit

abbrev pub deadline_left : Option ℕ → ℕ → ℤ
deadline_left none now = negsuc 0
deadline_left (some exp) now = if leb exp now then negsuc 1 else pos ((exp - now) / nanos_per_sec)

remaining_secs-eq :
    (o : Option ℕ) (now : ℕ) → FitsDeadline o → remaining_secs o now ≡ deadline_left o now
unfolding remaining_secs
remaining_secs-eq none now h = refl
remaining_secs-eq (some exp) now h = ground arith

-- The deadlines that `add_duration` lets into the table.
abbrev pub Fits : Option ValueEntry → Type 0
Fits none = Unit
Fits (some e) = FitsDeadline e.expires_at

-- What TTL promises: -2 for no key, -1 for no deadline, else the whole seconds that remain.
abbrev pub ttl_of : Option ValueEntry → ℕ → ℤ
ttl_of none now = negsuc 1
ttl_of (some e) now = deadline_left e.expires_at now

module _ {D : DashMap ValueEntry} (s : Engine D) (k : Bytes) (now now' : ℕ) where
  -- GET returns the visible entry of its key, and from the second reading on, every key has the
  -- visible entry that it had before.
  pub get_lem :
      ((get k now now' s).0 ≡ ok (view s now k))
      × ((t : ℕ) (j : Bytes) → now' ≤ t → view (get k now now' s).1 t j ≡ view s t j)
  unfolding get view live
  get_lem = (ground arith, λ t j h. ground (arith, view-drop_expired s k j now' t))

  -- EXISTS answers whether the key has a visible entry, and changes no visible entry.
  pub exists_lem :
      ((exists k now now' s).0 ≡ is_some (view s now k))
      × ((t : ℕ) (j : Bytes) → now' ≤ t → view (exists k now now' s).1 t j ≡ view s t j)
  unfolding exists view live
  exists_lem = (ground arith, λ t j h. ground (arith, view-drop_expired s k j now' t))

  -- TTL answers -2, -1 or the whole seconds that remain of the visible entry's deadline, if that
  -- deadline is one that an `Instant` can hold, and changes no visible entry.
  pub ttl_secs_lem :
      Fits (D.get k s.map)
      → ((ttl_secs k now now' s).0 ≡ ttl_of (view s now k) now')
        × ((t : ℕ) (j : Bytes) → now' ≤ t → view (ttl_secs k now now' s).1 t j ≡ view s t j)
  unfolding ttl_secs view live
  ttl_secs_lem f = (answer, λ t j h. ground (arith, view-drop_expired s k j now' t))
    where
      answer : (ttl_secs k now now' s).0 ≡ ttl_of (view s now k) now'
      answer = elim (Option-cases (D.get k s.map)) [
        | inl e ↦ ground arith
        | inr (v, e) ↦ ground (arith, remaining_secs-eq v.expires_at now' (subst Fits e f))
      ]
