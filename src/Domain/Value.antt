-- ===== src/Domain/Value.antt =====
-- domain/value.rs, and the clock: an `Instant` and a `Duration` are numbers of nanoseconds.
use zetdb.Prelude.{
  ℕ, ◌+◌, ◌*◌, ◌^◌, Bool, false, Option, none, some, Bytes, leb, ltb, if◌then◌else◌,
}
use zetdb.Domain.Errors.{Outcome, returns, panics, ◌>>=◌}

abbrev pub nanos_per_sec : ℕ
nanos_per_sec = 10 ^ 9

abbrev pub nanos_per_milli : ℕ
nanos_per_milli = 10 ^ 6

-- `Duration::from_secs`, `Duration::from_millis`
abbrev pub from_secs : ℕ → ℕ
from_secs s = s * nanos_per_sec

abbrev pub from_millis : ℕ → ℕ
from_millis ms = ms * nanos_per_milli

-- The first `Instant` that Linux cannot represent: its seconds are an `i64`.
abbrev pub instant_limit : ℕ
instant_limit = 2 ^ 63 * nanos_per_sec

-- `Instant + Duration` panics where the sum cannot be represented.
unfoldable pub add_duration : ℕ → ℕ → Outcome ℕ
add_duration t d = if ltb (t + d) instant_limit then returns (t + d) else panics

pub record ValueEntry : Type 0 where
  pub bytes : Bytes
  pub expires_at : Option ℕ
  pub created_at : Option ℕ

-- `now` is what `Instant::now()` returns at the call.
unfoldable pub new : ℕ → Bytes → ValueEntry
new now bytes = record { bytes = bytes; expires_at = none; created_at = some now }

-- The source reads the clock twice: for the deadline, then for the creation time.
unfoldable pub with_ttl : ℕ → ℕ → Bytes → ℕ → Outcome ValueEntry
unfolding add_duration
with_ttl now now' bytes ttl = do
  deadline ← add_duration now ttl
  returns (record { bytes = bytes; expires_at = some deadline; created_at = some now' })

unfoldable pub new_fast : Bytes → ValueEntry
new_fast bytes = record { bytes = bytes; expires_at = none; created_at = none }

abbrev pub expired_by : Option ℕ → ℕ → Bool
expired_by none now = false
expired_by (some t) now = leb t now

-- `is_expired_at`, and `is_expired` with the instant that it reads.
unfoldable pub is_expired_at : ValueEntry → ℕ → Bool
is_expired_at e now = expired_by e.expires_at now
