-- ===== src/Storage/Snapshot/Crc.antt =====
-- The `crc32fast` crate: the checksum of a byte string, which is a 32-bit word.
use zetdb.Prelude.{ℕ, ◌%◌, ◌^◌, ◌<◌, Bytes, length, arith}

pub record Crc32 : Type 0 where
  pub hash : Bytes → ℕ
  pub hash-lt : (s : Bytes) → hash s < 2 ^ 32

-- A function with the law of the interface.
abbrev pub length_crc : Crc32
length_crc = record { hash = λ s. length s % 2 ^ 32; hash-lt = λ s. omega arith }
