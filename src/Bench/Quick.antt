-- ===== src/Bench/Quick.antt =====
-- bin/pipeline_quick.rs: the batches that a client types, and how it reads the replies: it counts their
-- line ends until it has one for each command. The batches of bin/pipeline.rs are the same lines.
pub mod Typed
pub mod Reads
pub mod Newlines
pub mod Fast
use zetdb.Prelude.{
  ℕ, zero, suc, ◌+◌, ◌*◌, ◌%◌, Bool, true, false, Option, none, some, List, [], ◌∷◌, ◌++◌, Bytes,
  is_empty, leb, ◌==◌, if◌then◌else◌,
}
use zetdb.Prelude.Int.{pos}
use zetdb.Bytes.{codes, crlf}
use zetdb.Storage.Itoa.{Itoa}
use zetdb.Observability.Metrics.{add_word}

-- The batches that are sent before the replies are read.
abbrev pub batches_per_round : ℕ
batches_per_round = 4

module _ (I : Itoa) where
  -- The line of one command: SET, or GET.
  unfoldable pub command_line : Bool → ℕ → Bytes
  command_line true key_counter =
      let k_str = I.format (pos key_counter) in
      codes "SET pipe:" ++ (k_str ++ (codes " val:" ++ (k_str ++ crlf)))
  command_line false key_counter =
      codes "GET pipe:" ++ (I.format (pos (key_counter % 1000)) ++ crlf)

  -- A batch, with the counter behind it.
  unfoldable pub build_batch : Bool → ℕ → ℕ → Bytes × ℕ
  unfolding command_line
  build_batch is_set zero key_counter = ([], key_counter)
  build_batch is_set (suc n) key_counter =
      let rest = build_batch is_set n (add_word key_counter 1) in
      (command_line is_set key_counter ++ rest.0, rest.1)

  -- The batches that are written at once.
  unfoldable pub build_batches : Bool → ℕ → ℕ → ℕ → Bytes × ℕ
  unfolding build_batch
  build_batches is_set pipeline_size zero key_counter = ([], key_counter)
  build_batches is_set pipeline_size (suc n) key_counter =
      let single_batch = build_batch is_set pipeline_size key_counter in
      let rest = build_batches is_set pipeline_size n single_batch.1 in
      (single_batch.0 ++ rest.0, rest.1)

-- The line ends in what was read.
unfoldable pub newlines : Bytes → ℕ
newlines [] = 0
newlines (b ∷ s) = (if b == b'\n' then 1 else 0) + newlines s

-- The loop of reads over what the socket returns; `none` is a client that stops, since the socket is closed or has
-- nothing more to return. `read_pos` stays 0: the branch of leftover data is never taken.
unfoldable pub read_replies : ℕ → ℕ → List Bytes → Option (List Bytes)
unfolding newlines
read_replies total_responses responses_received [] =
    if leb total_responses responses_received then some [] else none
read_replies total_responses responses_received (chunk ∷ more) =
    let rest = read_replies total_responses (responses_received + newlines chunk) more in
    if leb total_responses responses_received
    then some (chunk ∷ more)
    else if is_empty chunk
    then none
    else rest
