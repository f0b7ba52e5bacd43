-- ===== src/Storage/Snapshot/Format.antt =====
-- storage/snapshot.rs: the format of a snapshot.
use zetdb.Prelude.{ℕ, ◌%◌, ◌^◌, Option, some, List, [], ◌∷◌, ◌++◌, Bytes, length}
use zetdb.Prelude.Int.{ℤ, of_word}
use zetdb.Bytes.{codes}
use zetdb.Bytes.Endian.{to_le_bytes}
use zetdb.Storage.Aof.Entry.{
  encode_key, encode_value, encode_ttl, read_word, read_key, read_value, ◌>>=◌,
}
use zetdb.Storage.Snapshot.Crc.{Crc32}

abbrev pub magic : Bytes
magic = codes "ZDB1"

abbrev pub version : ℕ
version = 1

abbrev pub header_size : ℕ
header_size = 18

abbrev pub crc_size : ℕ
crc_size = 4

-- What the engine passes to the dump: the key, the value and the milliseconds that remain.
abbrev pub Dumped : Type 0
Dumped = Bytes × Bytes × ℤ

unfoldable pub encode_entries : List Dumped → Bytes
unfolding encode_key encode_value encode_ttl
encode_entries [] = []
encode_entries ((k, v, ttl_ms) ∷ rest) =
    encode_key k ++ (encode_value v ++ (encode_ttl ttl_ms ++ encode_entries rest))

-- The header, with the number of entries filled in.
unfoldable pub encode_header : ℕ → ℕ → Bytes
encode_header count timestamp =
    magic ++ (version ∷ 0 ∷ (to_le_bytes 4 (count % 2 ^ 32) ++ to_le_bytes 8 (timestamp % 2 ^ 64)))

unfoldable pub encode_payload : ℕ → List Dumped → Bytes
unfolding encode_header encode_entries
encode_payload timestamp entries =
    encode_header (length entries) timestamp ++ encode_entries entries

module _ (C : Crc32) where
  unfoldable pub encode_snapshot : ℕ → List Dumped → Bytes
  unfolding encode_payload
  encode_snapshot timestamp entries =
      let payload = encode_payload timestamp entries in payload ++ to_le_bytes 4 (C.hash payload)

-- One entry, or `none` where the payload ends inside it.
unfoldable pub read_dumped : Bytes → Option (Dumped × Bytes)
read_dumped rest = do
  (k, r1) ← read_key rest
  (v, r2) ← read_value r1
  (w, r3) ← read_word 8 r2
  some ((k, v, of_word w), r3)
