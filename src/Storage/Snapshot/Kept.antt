-- ===== src/Storage/Snapshot/Kept.antt =====
-- storage/snapshot.rs and storage/dashmap_engine.rs: what is to be kept of an entry by a dump, and when an
-- entry holds it.
use zetdb.Prelude.{
  ◌<◌, ℕ, zero, suc, ◌+◌, ◌*◌, ◌-◌, ◌/◌, ◌^◌, ◌≡◌, refl, ap, ◌∙◌, false, Option, none, some, Bytes,
  arith, ltb, if◌then◌else◌,
}
use zetdb.Prelude.Int.{ℤ, pos, negsuc, of_word}
use zetdb.Domain.Value.{ValueEntry, nanos_per_milli, from_millis}
use zetdb.Storage.Engine.{remaining_ms}
use zetdb.Storage.Aof.Replay.{Clock}

-- A value, and how many whole milliseconds its deadline is away, if it has one.
abbrev pub Kept : Type 0
Kept = Bytes × Option ℕ

-- The whole milliseconds from `now` to a deadline, if there is one that is a millisecond away.
abbrev pub time_left : ℕ → Option ℕ → Option ℕ
time_left now none = none
time_left now (some exp) =
    if ltb (exp - now) nanos_per_milli then none else some ((exp - now) / nanos_per_milli)

-- What is to be kept of an entry at `now`.
abbrev pub dumped : ℕ → Option ValueEntry → Option Kept
dumped now none = none
dumped now (some e) = some (e.bytes, time_left now e.expires_at)

-- A deadline that is fewer than 2^63 milliseconds away.
abbrev pub IsNear : ℕ → Option ℕ → Type 0
IsNear now none = Unit
IsNear now (some exp) = exp - now < 2 ^ 63 * nanos_per_milli

-- A deadline that is so many milliseconds behind `now`, or none.
abbrev pub Sets : ℕ → Option ℕ → Option ℕ → Type 0
Sets now none none = Unit
Sets now none (some ms) = ⊥
Sets now (some exp) none = ⊥
Sets now (some exp) (some ms) = exp ≡ now + from_millis ms

-- What is stored under a key is what was to be kept, with a deadline that is as far behind one of the instants
-- of the clock.
abbrev pub Holds : (ℕ → Clock) → Option ValueEntry → Option Kept → Type 0
Holds clock none none = Unit
Holds clock none (some x) = ⊥
Holds clock (some e) none = ⊥
Holds clock (some e) (some (v, left)) =
    (e.bytes ≡ v) × ((n : ℕ) × Sets (clock n 0) e.expires_at left)

-- What the time to live in a dump stands for.
abbrev pub millis_of : ℤ → Option ℕ
millis_of (pos zero) = none
millis_of (pos (suc n)) = some (suc n)
millis_of (negsuc n) = none

of_word-small : (n : ℕ) → n < 2 ^ 63 → of_word n ≡ pos n
of_word-small n h = ground arith

millis_of-clamped :
    (n : ℕ)
    → n < 2 ^ 63
    → millis_of
        (elim (of_word n) [ pos zero ↦ negsuc 0 | pos (suc m) ↦ pos (suc m) | negsuc m ↦ negsuc 0 ])
      ≡ (if ltb n 1 then none else some n)
millis_of-clamped zero h = refl
millis_of-clamped (suc n) h =
    let large : ltb (suc n) 1 ≡ false = ground arith in rw (of_word-small (suc n) h, large) refl

pub millis_of-remaining_ms :
    (d : Option ℕ) (now : ℕ) → IsNear now d → millis_of (remaining_ms d now) ≡ time_left now d
unfolding remaining_ms
millis_of-remaining_ms none now h = refl
millis_of-remaining_ms (some exp) now h =
    let d = exp - now in
    let q = (exp - now) / nanos_per_milli in
    let same : ltb q 1 ≡ ltb d nanos_per_milli = ground arith in
    millis_of-clamped q (omega (arith, h)) ∙ ap (λ b. if b then none else some q) same
