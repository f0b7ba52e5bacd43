-- ===== src/Storage/Snapshot.antt =====
-- storage/snapshot.rs: the format of a snapshot, `dump_snapshot` and `load_snapshot`. A mapped file and
-- one that is read hold the same bytes, so both are the `contents` of a file here.
pub mod Crc
pub mod Format
pub mod RoundTrip
pub mod Kept
pub mod Restore
pub mod Disk
pub mod Restart
pub mod Damage
use zetdb.Prelude.{
  ℕ, zero, suc, ◌+◌, ◌-◌, ◌%◌, ◌^◌, Bool, true, false, Option, none, some, List, [], ◌∷◌, ◌++◌,
  Bytes, length, take, drop, get_elem?, ltb, ◌==◌, if◌then◌else◌,
}
use zetdb.Prelude.Int.{ℤ}
use zetdb.Prelude.Int.{of_word}
use zetdb.Bytes.{bytes_eq, codes}
use zetdb.Bytes.Endian.{to_le_bytes, from_le_bytes}
use zetdb.Domain.Errors.{Result, ok, err, Outcome, returns, panics, deadlocks, ◌>>=◌}
use zetdb.Domain.Value.{ValueEntry}
use zetdb.Storage.DashMap.{DashMap}
use zetdb.Storage.Engine
use zetdb.Storage.Engine.{Engine, dump_entries}
use zetdb.Storage.Aof.Replay.{Clock, deadline_of, ReadFile, contents, not_found, failed}
use Crc.{Crc32}
use Format.{magic, version, header_size, crc_size, Dumped, read_dumped}

-- The errors of `load_snapshot`.
pub data LoadError : Type 0 where
  too_short : LoadError
  invalid_magic : LoadError
  unsupported_version : ℕ → LoadError
  crc_mismatch : LoadError
  io : LoadError

module _ {D : DashMap ValueEntry} where
  -- The call of `engine.set` for one entry, and whether it counts as loaded.
  unfoldable pub restore : Clock → Engine D → Dumped → Outcome (Bool × Engine D)
  restore clock s (k, v, ttl_ms) = do
    deadline ← deadline_of ttl_ms (clock 0)
    let e : ValueEntry = record { bytes = v; expires_at = deadline; created_at = some (clock 1) }
    let r = Engine.set k e (clock 2) s
    returns (elim r.0 [ ok _ ↦ true | err _ ↦ false ], r.1)

  -- The loop over the entries that the header counts.
  unfoldable pub load_entries : (ℕ → Clock) → ℕ → ℕ → ℕ → Bytes → Engine D → Outcome (ℕ × Engine D)
  load_entries clock zero i loaded rest s = returns (loaded, s)
  load_entries clock (suc count) i loaded rest s = elim (read_dumped rest) [
    | none ↦ returns (loaded, s)
    | some (d, rest') ↦ elim (restore (clock i) s d) [
      | returns (stored, s') ↦
          load_entries clock count (i + 1) (if stored then loaded + 1 else loaded) rest' s'
      | panics ↦ panics
      | deadlocks ↦ deadlocks
    ]
  ]

abbrev pub loaded_of : {S : Type 0} → Outcome (ℕ × S) → Outcome (Result ℕ LoadError × S)
loaded_of o = do (n, s) ← o; returns (ok n, s)

module _ (C : Crc32) {D : DashMap ValueEntry} (clock : ℕ → Clock) where
  -- The checks of the header and of the checksum, in their order.
  unfoldable pub load_bytes : Bytes → Engine D → Outcome (Result ℕ LoadError × Engine D)
  unfolding load_entries
  load_bytes data_bytes s =
      let payload_end = length data_bytes - crc_size in
      let payload = take payload_end data_bytes in
      let stored_crc = from_le_bytes (take 4 (drop payload_end data_bytes)) in
      let count = from_le_bytes (take 4 (drop 6 data_bytes)) in
      let entries = loaded_of (load_entries clock count 0 0 (drop header_size payload) s) in
      elim (get_elem? data_bytes 4) [
        | none ↦ returns (err too_short, s)
        | some v ↦
            if ltb (length data_bytes) (header_size + crc_size)
            then returns (err too_short, s)
            else if bytes_eq (take 4 data_bytes) magic
            then (if v == version
                then (if stored_crc == C.hash payload
                    then entries
                    else returns (err crc_mismatch, s))
                else returns (err (unsupported_version v), s))
            else returns (err invalid_magic, s)
      ]

  unfoldable pub load_snapshot : ReadFile → Engine D → Outcome (Result ℕ LoadError × Engine D)
  unfolding load_bytes
  load_snapshot (contents data_bytes) s = load_bytes data_bytes s
  load_snapshot not_found s = returns (ok 0, s)
  load_snapshot failed s = returns (err io, s)
