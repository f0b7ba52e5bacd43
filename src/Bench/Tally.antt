-- ===== src/Bench/Tally.antt =====
-- bin/pipeline_quick.rs: how a client counts its operations. `total_ops` is added to in whole blocks, and once
-- more for what is left when the client stops.
use zetdb.Prelude.{
  ℕ, zero, suc, ◌+◌, ◌*◌, ◌%◌, ◌^◌, ◌<◌, ◌≡◌, ◌⊎◌, inl, inr, refl, ◌==◌, if◌then◌else◌, arith,
}
use native.Mathlib.Decide.{dec_lt}
use zetdb.Observability.Metrics.{add_word}

abbrev pub block : ℕ
block = 10000

-- `local_count`, and what the client has added to `total_ops`.
pub record Tally : Type 0 where
  pub local_count : ℕ
  pub total_ops : ℕ

abbrev pub fresh : Tally
fresh = record { local_count = 0; total_ops = 0 }

-- A round of `step` operations.
unfoldable pub count_round : ℕ → Tally → Tally
count_round step t =
    let count = add_word t.local_count step in
    if count % block == 0
    then record { local_count = count; total_ops = add_word t.total_ops block }
    else record t { local_count = count }

unfoldable pub count_rounds : ℕ → ℕ → Tally → Tally
unfolding count_round
count_rounds step zero t = t
count_rounds step (suc n) t = count_rounds step n (count_round step t)

-- What a client has added when it stops.
unfoldable pub reported : Tally → ℕ
reported t = add_word t.total_ops (t.local_count % block)

-- Every operation but those of the block that is begun has been added, and that block is begun by whole
-- rounds.
record IsExact (step : ℕ) (t : Tally) : Type 0 where
  added : t.total_ops + t.local_count % block ≡ t.local_count
  rounds_of_block : ℕ
  begun : t.local_count % block ≡ rounds_of_block * step

round_fits :
    (step m j : ℕ)
    → m * step ≡ block
    → j * step < block
    → (j * step + step < block) ⊎ (j * step + step ≡ block)
round_fits step m j e l = elim (dec_lt j m) [ yes h ↦ grind arith | no h ↦ absurd (grind arith) ]

count_round-IsExact :
    (step m : ℕ) (t : Tally)
    → 0 < step
    → m * step ≡ block
    → t.local_count + step < 2 ^ 64
    → IsExact step t
    → IsExact step (count_round step t) × ((count_round step t).local_count ≡ t.local_count + step)
unfolding count_round
count_round-IsExact step m t pos whole fits exact =
    let j = exact.rounds_of_block in
    let next : (j + 1) * step ≡ j * step + step = grind arith in
    elim (round_fits step m j whole (omega (arith, exact.begun))) [
      | inl more ↦ (
        record {
          added = ground (arith, exact.added, exact.begun, more);
          rounds_of_block = j + 1;
          begun = ground (arith, exact.begun, more, next);
        },
        ground arith,
      )
      | inr full ↦ (
        record {
          added = ground (arith, exact.added, exact.begun, full);
          rounds_of_block = 0;
          begun = ground (arith, exact.begun, full);
        },
        ground arith,
      )
    ]

count_rounds-IsExact :
    (step m n : ℕ) (t : Tally)
    → 0 < step
    → m * step ≡ block
    → t.local_count + n * step < 2 ^ 64
    → IsExact step t
    → IsExact step (count_rounds step n t)
      × ((count_rounds step n t).local_count ≡ t.local_count + n * step)
unfolding count_rounds
count_rounds-IsExact step m zero t pos whole fits exact = (exact, grind arith)
count_rounds-IsExact step m (suc n) t pos whole fits exact =
    let next : suc n * step ≡ step + n * step = grind arith in
    let one = count_round-IsExact step m t pos whole (omega (arith, next)) exact in
    let more =
      count_rounds-IsExact step m n (count_round step t) pos whole (omega (arith, one.1, next))
        one.0 in
    (more.0, omega (arith, more.1, one.1, next))

-- Where the operations of a round divide a block, a client that does any number of rounds, with fewer than
-- 2^64 operations, reports each operation once.
pub reported-count_rounds :
    (step m n : ℕ)
    → 0 < step
    → m * step ≡ block
    → n * step < 2 ^ 64
    → reported (count_rounds step n fresh) ≡ n * step
unfolding reported
reported-count_rounds step m n pos whole fits =
    let start : IsExact step fresh = record {
      added = refl;
      rounds_of_block = 0;
      begun = grind arith;
    } in
    let all = count_rounds-IsExact step m n fresh pos whole (omega arith) start in
    omega (arith, all.0.added, all.1, fits)
