-- ===== src/Storage/Snapshot/RoundTrip.antt =====
-- storage/snapshot.rs: `load_snapshot` reads back what `dump_snapshot` wrote.
use zetdb.Prelude.{
  ℕ, ◌+◌, ◌-◌, ◌%◌, ◌^◌, ◌≤◌, ◌<◌, ◌≡◌, refl, sym, ap, ◌∙◌, Bool, true, false, some, List, [], ◌∷◌,
  ◌++◌, append_assoc, append-nil, Bytes, length, length-append, take, drop, take-length-append,
  drop-length-append, drop-drop, get_elem?, All, arith, ltb, ◌==◌, if◌then◌else◌,
}
use zetdb.Prelude.Int.{ℤ, IsI64, to_word, of_word-to_word, to_word-lt}
use zetdb.Bytes.{bytes_eq}
use zetdb.Bytes.Endian.{to_le_bytes, from_le_bytes, length-to_le_bytes, from_le_bytes-to_le_bytes}
use zetdb.Domain.Errors.{Outcome, returns, panics, deadlocks}
use zetdb.Domain.Value.{ValueEntry}
use zetdb.Storage.DashMap.{DashMap}
use zetdb.Storage.Engine.{Engine}
use zetdb.Storage.Aof.Entry.{encode_value, encode_ttl, read_word}
use zetdb.Storage.Aof.Entry.RoundTrip.{
  FitsKey, FitsValue, read_word-append, read_key-encode_key, read_value-encode_value,
}
use zetdb.Storage.Aof.Replay.{Clock, contents}
use zetdb.Storage.Snapshot.Format.{
  Dumped, magic, version, encode_entries, encode_header, encode_payload, encode_snapshot,
  read_dumped,
}
use zetdb.Storage.Snapshot.{restore, load_entries, loaded_of, load_bytes, load_snapshot}
use zetdb.Storage.Snapshot.Crc.{Crc32}

-- An entry that the format can hold.
abbrev pub FitsDumped : Dumped → Type 0
FitsDumped (k, v, ttl_ms) = FitsKey k × FitsValue v × IsI64 ttl_ms

read_ttl_ms : (t : ℤ) (rest : Bytes) → read_word 8 (encode_ttl t ++ rest) ≡ some (to_word t, rest)
unfolding encode_ttl
read_ttl_ms t rest = read_word-append 8 (to_word t) rest (to_word-lt t)

pub read_dumped-encode_entries :
    (d : Dumped) (ds : List Dumped)
    → FitsDumped d
    → read_dumped (encode_entries (d ∷ ds)) ≡ some (d, encode_entries ds)
unfolding read_dumped encode_entries
read_dumped-encode_entries (k, v, t) ds h =
    rw
      (
        read_key-encode_key k (encode_value v ++ (encode_ttl t ++ encode_entries ds)) h.0,
        read_value-encode_value v (encode_ttl t ++ encode_entries ds) h.1,
        read_ttl_ms t (encode_entries ds),
        of_word-to_word t h.2,
      )
      refl

module _ {D : DashMap ValueEntry} (clock : ℕ → Clock) where
  -- The entries stored one after the other, and how many were.
  unfoldable pub restore_all : ℕ → ℕ → List Dumped → Engine D → Outcome (ℕ × Engine D)
  restore_all i loaded [] s = returns (loaded, s)
  restore_all i loaded (d ∷ ds) s = elim (restore (clock i) s d) [
    | returns (stored, s') ↦ restore_all (i + 1) (if stored then loaded + 1 else loaded) ds s'
    | panics ↦ panics
    | deadlocks ↦ deadlocks
  ]

  continue :
      (o : Outcome (Bool × Engine D)) (count i loaded : ℕ) (ds : List Dumped)
      → ((n : ℕ) (s : Engine D)
          → load_entries clock count (i + 1) n (encode_entries ds) s ≡ restore_all (i + 1) n ds s)
      → ◌≡◌ {A = Outcome (ℕ × Engine D)}
          (elim o [
            | returns (stored, s') ↦
                load_entries clock count
                  (i + 1)
                  (if stored then loaded + 1 else loaded)
                  (encode_entries ds)
                  s'
            | panics ↦ panics
            | deadlocks ↦ deadlocks
          ])
          (elim o [
            | returns (stored, s') ↦
                restore_all (i + 1) (if stored then loaded + 1 else loaded) ds s'
            | panics ↦ panics
            | deadlocks ↦ deadlocks
          ])
  continue (returns (stored, s')) count i loaded ds h = h (if stored then loaded + 1 else loaded) s'
  continue panics count i loaded ds h = refl
  continue deadlocks count i loaded ds h = refl

  load_entries-encode_entries :
      (ds : List Dumped) (i loaded : ℕ) (s : Engine D)
      → All FitsDumped ds
      → load_entries clock (length ds) i loaded (encode_entries ds) s ≡ restore_all i loaded ds s
  unfolding load_entries restore_all
  load_entries-encode_entries [] i loaded s h = refl
  load_entries-encode_entries (d ∷ ds) i loaded s h =
      rw (load_entries, read_dumped-encode_entries d ds h.0)
        (continue (restore (clock i) s d) (length ds) i loaded ds
          (λ n s'. load_entries-encode_entries ds (i + 1) n s' h.1))

take_congr : (n m : ℕ) (s : Bytes) → n ≡ m → take n s ≡ take m s
take_congr n m s e = ap (λ k. take k s) e

take_word : (w v : ℕ) (rest : Bytes) → take w (to_le_bytes w v ++ rest) ≡ to_le_bytes w v
take_word w v rest =
    take_congr w (length (to_le_bytes w v)) (to_le_bytes w v ++ rest) (sym (length-to_le_bytes w v))
    ∙ take-length-append (to_le_bytes w v) rest

drop_word : (w v : ℕ) (rest : Bytes) → drop w (to_le_bytes w v ++ rest) ≡ rest
drop_word w v rest =
    ap (λ k. drop k (to_le_bytes w v ++ rest)) (sym (length-to_le_bytes w v))
    ∙ drop-length-append (to_le_bytes w v) rest

-- The payload and the checksum behind it.
module _ (payload : Bytes) (crc : ℕ) where
  payload_end : length (payload ++ to_le_bytes 4 crc) - 4 ≡ length payload
  payload_end = omega (arith, length-append payload (to_le_bytes 4 crc), length-to_le_bytes 4 crc)

  take-payload :
      take (length (payload ++ to_le_bytes 4 crc) - 4) (payload ++ to_le_bytes 4 crc) ≡ payload
  take-payload =
      take_congr _ _ (payload ++ to_le_bytes 4 crc) payload_end
      ∙ take-length-append payload (to_le_bytes 4 crc)

  stored_crc :
      crc < 2 ^ 32
      → from_le_bytes
          (take 4 (drop (length (payload ++ to_le_bytes 4 crc) - 4) (payload ++ to_le_bytes 4 crc)))
        ≡ crc
  stored_crc h =
      ap (λ k. from_le_bytes (take 4 (drop k (payload ++ to_le_bytes 4 crc)))) payload_end
      ∙ ap (λ s. from_le_bytes (take 4 s)) (drop-length-append payload (to_le_bytes 4 crc))
      ∙ ap (λ s. from_le_bytes (take 4 s)) (sym (append-nil (to_le_bytes 4 crc)))
      ∙ ap from_le_bytes (take_word 4 crc [])
      ∙ from_le_bytes-to_le_bytes 4 crc h

module _ (n t : ℕ) (entries : Bytes) where
  header_entries : drop 18 (encode_header n t ++ entries) ≡ entries
  unfolding encode_header
  header_entries =
      let c = to_le_bytes 4 (n % 2 ^ 32) in
      let u = to_le_bytes 8 (t % 2 ^ 64) in
      ap (drop 12) (append_assoc c u entries)
      ∙ sym (drop-drop 8 4 (c ++ (u ++ entries)))
      ∙ ap (drop 8) (drop_word 4 (n % 2 ^ 32) (u ++ entries))
      ∙ drop_word 8 (t % 2 ^ 64) entries

  header_count :
      (crc : Bytes)
      → take 4 (drop 6 ((encode_header n t ++ entries) ++ crc)) ≡ to_le_bytes 4 (n % 2 ^ 32)
  unfolding encode_header
  header_count crc =
      let c = to_le_bytes 4 (n % 2 ^ 32) in
      let u = to_le_bytes 8 (t % 2 ^ 64) in
      ap (take 4)
        (ap (λ x. x ++ crc) (append_assoc c u entries) ∙ append_assoc c (u ++ entries) crc)
      ∙ take_word 4 (n % 2 ^ 32) ((u ++ entries) ++ crc)

  length-header : length (encode_header n t) ≡ 18
  unfolding encode_header
  length-header =
      let c = to_le_bytes 4 (n % 2 ^ 32) in
      let u = to_le_bytes 8 (t % 2 ^ 64) in
      omega (
        arith,
        length-append c u,
        length-to_le_bytes 4 (n % 2 ^ 32),
        length-to_le_bytes 8 (t % 2 ^ 64),
      )

module _ (C : Crc32) {D : DashMap ValueEntry} (clock : ℕ → Clock) where
  -- A file whose checks hold is loaded entry by entry.
  load_checked :
      (file : Bytes) (n : ℕ) (entries : Bytes) (s : Engine D)
      → get_elem? file 4 ≡ some version
      → 22 ≤ length file
      → bytes_eq (take 4 file) magic ≡ true
      → from_le_bytes (take 4 (drop (length file - 4) file)) ≡ C.hash (take (length file - 4) file)
      → from_le_bytes (take 4 (drop 6 file)) ≡ n
      → drop 18 (take (length file - 4) file) ≡ entries
      → load_bytes C clock file s ≡ loaded_of (load_entries clock n 0 0 entries s)
  unfolding load_bytes
  load_checked file n entries s v long m crc count es =
      let short : ltb (length file) 22 ≡ false = ground arith in
      let same : (C.hash (take (length file - 4) file) == C.hash (take (length file - 4) file))
          ≡ true =
        ground arith in
      rw (load_bytes, v, short, m, crc, same, count, es) refl

  -- What a dump wrote, if the format can hold the entries, is loaded: the entries are stored in their
  -- order, and nothing else.
  pub load_snapshot-encode_snapshot :
      (timestamp : ℕ) (ds : List Dumped) (s : Engine D)
      → All FitsDumped ds
      → length ds < 2 ^ 32
      → load_snapshot C clock (contents (encode_snapshot C timestamp ds)) s
        ≡ loaded_of (restore_all clock 0 0 ds s)
  unfolding load_snapshot encode_snapshot encode_payload bytes_eq
  load_snapshot-encode_snapshot timestamp ds s fits few =
      let payload = encode_header (length ds) timestamp ++ encode_entries ds in
      let crc = C.hash payload in
      load_checked (payload ++ to_le_bytes 4 crc) (length ds) (encode_entries ds) s refl
        (omega (
          arith,
          length-append payload (to_le_bytes 4 crc),
          length-append (encode_header (length ds) timestamp) (encode_entries ds),
          length-header (length ds) timestamp (encode_entries ds),
          length-to_le_bytes 4 crc,
        ))
        refl
        (stored_crc payload crc (C.hash-lt payload) ∙ ap C.hash (sym (take-payload payload crc)))
        (ap from_le_bytes
            (header_count (length ds) timestamp (encode_entries ds) (to_le_bytes 4 crc))
          ∙ from_le_bytes-to_le_bytes 4 (length ds % 2 ^ 32) (omega arith)
          ∙ omega (arith, few))
        (ap (drop 18) (take-payload payload crc)
          ∙ header_entries (length ds) timestamp (encode_entries ds))
      ∙ ap loaded_of (load_entries-encode_entries clock ds 0 0 s fits)
