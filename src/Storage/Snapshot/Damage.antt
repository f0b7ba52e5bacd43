-- ===== src/Storage/Snapshot/Damage.antt =====
-- storage/snapshot.rs: the files that `load_snapshot` refuses.
use zetdb.Prelude.{
  ℕ, ◌-◌, ◌≤◌, ◌≡◌, refl, ap, ◌∙◌, inl, inr, true, some, Bytes, length, take, drop, get_elem?,
  arith, ltb, ◌==◌, Bool-cases, Option-cases,
}
use zetdb.Bytes.{bytes_eq}
use zetdb.Bytes.Endian.{from_le_bytes}
use zetdb.Domain.Errors.{err, returns}
use zetdb.Domain.Value.{ValueEntry}
use zetdb.Storage.DashMap.{DashMap}
use zetdb.Storage.Engine.{Engine}
use zetdb.Storage.Aof.Replay.{Clock, contents}
use zetdb.Storage.Snapshot.Crc.{Crc32}
use zetdb.Storage.Snapshot.Format.{magic, version}
use zetdb.Storage.Snapshot.{
  LoadError, too_short, invalid_magic, unsupported_version, crc_mismatch, load_bytes, load_snapshot,
}

-- A file that is long enough, with the magic bytes, the version and the checksum of what stands before
-- its last four bytes.
abbrev pub IsSnapshot : Crc32 → Bytes → Type 0
IsSnapshot C file =
    (22 ≤ length file)
    × (bytes_eq (take 4 file) magic ≡ true)
    × (get_elem? file 4 ≡ some version)
    × (from_le_bytes (take 4 (drop (length file - 4) file)) ≡ C.hash (take (length file - 4) file))

module _ (C : Crc32) {D : DashMap ValueEntry} (clock : ℕ → Clock) where
  -- A file that fails any of the checks is refused with an error, and the engine is as it was.
  pub load_snapshot_damaged :
      (file : Bytes) (s : Engine D)
      → ¬ (IsSnapshot C file)
      → (e : LoadError) × (load_snapshot C clock (contents file) s ≡ returns (err e, s))
  unfolding load_snapshot
  load_snapshot_damaged file s h = elim (Option-cases (get_elem? file 4)) [
    | inl e ↦ (too_short, rw (load_bytes, e) refl)
    | inr x ↦ elim (Bool-cases (ltb (length file) 22)) [
      | inl short ↦ (too_short, rw (load_bytes, x.1, short) refl)
      | inr long ↦ elim (Bool-cases (bytes_eq (take 4 file) magic)) [
        | inr m ↦ (invalid_magic, rw (load_bytes, x.1, long, m) refl)
        | inl m ↦ elim (Bool-cases (x.0 == version)) [
          | inr v ↦ (unsupported_version x.0, rw (load_bytes, x.1, long, m, v) refl)
          | inl v ↦ elim (Bool-cases (stored == C.hash payload)) [
            | inr c ↦ (crc_mismatch, rw (load_bytes, x.1, long, m, v, c) refl)
            | inl c ↦ absurd (h (ground arith, m, x.1 ∙ ap some (ground arith), ground arith))
          ]
        ]
      ]
    ]
  ]
    where
      payload : Bytes
      payload = take (length file - 4) file

      stored : ℕ
      stored = from_le_bytes (take 4 (drop (length file - 4) file))
