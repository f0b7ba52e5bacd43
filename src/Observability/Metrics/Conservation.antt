-- ===== src/Observability/Metrics/Conservation.antt =====
-- observability/metrics.rs: what a thread reads after it has counted.
use zetdb.Prelude.{
  ℕ, Bool, suc, ◌%◌, ◌^◌, ◌≡◌, refl, ap, ◌∙◌, true, false, List, [], ◌∷◌, length, ltb, ◌==◌,
  if◌then◌else◌, arith, inl, inr, Bool-cases,
}
use zetdb.Domain.Command.{CommandType}
use zetdb.Observability.Metrics.{
  Thread, add_word, sub_word, index, record_command, command_count, total_commands, flushed,
  flush_all,
}

-- What the thread reads for a type: the sum of its own counter and of the one of the process.
abbrev sum_of : (ℕ → ℕ) → (ℕ → ℕ) → ℕ → ℕ
sum_of g l i = add_word (g i) (l i)

kept : (g n : ℕ) → add_word (add_word g 64) (sub_word (add_word n 1) 64) ≡ add_word (add_word g n) 1
kept g n = omega arith

counted : (g n : ℕ) → add_word g (add_word n 1) ≡ add_word (add_word g n) 1
counted g n = omega arith

-- A command that is recorded adds one to the total that the thread reads and one to the count of its
-- type, modulo 2^64, and no other count changes, whether the batch is flushed or not.
pub record_command_lem :
    (cmd : CommandType) (t : Thread)
    → (total_commands (record_command cmd t) ≡ add_word (total_commands t) 1)
      × ((c : CommandType)
          → command_count c (record_command cmd t)
            ≡ (if index c == index cmd then add_word (command_count c t) 1 else command_count c t))
unfolding record_command total_commands command_count
record_command_lem cmd (g, l) = elim (Bool-cases (add_word l.commands_total 1 % 64 == 0)) [
  | inl e ↦ rw e (
    kept g.commands_total l.commands_total,
    λ c. elim (Bool-cases (index c == index cmd)) [
      | inl same ↦ rw same (kept (g.commands_by_type (index c)) (l.commands_by_type (index c)))
      | inr other ↦ rw other refl
    ],
  )
  | inr e ↦ rw e (
    counted g.commands_total l.commands_total,
    λ c. elim (Bool-cases (index c == index cmd)) [
      | inl same ↦ rw same (counted (g.commands_by_type (index c)) (l.commands_by_type (index c)))
      | inr other ↦ rw other refl
    ],
  )
]

-- The commands of a thread, one after the other.
abbrev pub record_commands : List CommandType → Thread → Thread
record_commands [] t = t
record_commands (cmd ∷ cmds) t = record_commands cmds (record_command cmd t)

-- How many of them have the type.
abbrev pub occurrences : CommandType → List CommandType → ℕ
occurrences c [] = 0
occurrences c (cmd ∷ cmds) =
    if index c == index cmd then suc (occurrences c cmds) else occurrences c cmds

more : (x n : ℕ) → add_word (add_word x 1) n ≡ add_word x (suc n)
more x n = omega arith

total-record_commands :
    (cmds : List CommandType) (t : Thread)
    → total_commands (record_commands cmds t) ≡ add_word (total_commands t) (length cmds)
unfolding total_commands
total-record_commands [] (g, l) = omega arith
total-record_commands (cmd ∷ cmds) t =
    total-record_commands cmds (record_command cmd t)
    ∙ ap (λ x. add_word x (length cmds)) (record_command_lem cmd t).0
    ∙ more (total_commands t) (length cmds)

count-record_commands :
    (c : CommandType) (cmds : List CommandType) (t : Thread)
    → command_count c (record_commands cmds t) ≡ add_word (command_count c t) (occurrences c cmds)
unfolding command_count
count-record_commands c [] (g, l) = omega arith
count-record_commands c (cmd ∷ cmds) t =
    count-record_commands c cmds (record_command cmd t)
    ∙ ap (λ x. add_word x (occurrences c cmds)) ((record_command_lem cmd t).1 c)
    ∙ one (index c == index cmd) (command_count c t) (occurrences c cmds)
  where
    one :
        (b : Bool) (x n : ℕ)
        → add_word (if b then add_word x 1 else x) n ≡ add_word x (if b then suc n else n)
    one true x n = more x n
    one false x n = refl

index-lt : (c : CommandType) → ltb (index c) 14 ≡ true
unfolding index
index-lt CommandType.ping = refl
index-lt CommandType.get = refl
index-lt CommandType.set = refl
index-lt CommandType.del = refl
index-lt CommandType.incr = refl
index-lt CommandType.info = refl
index-lt CommandType.db_size = refl
index-lt CommandType.exists = refl
index-lt CommandType.ttl = refl
index-lt CommandType.expire = refl
index-lt CommandType.flush_db = refl
index-lt CommandType.keys = refl
index-lt CommandType.mget = refl
index-lt CommandType.mset = refl

flushed_lem : (g n : ℕ) → flushed g n % 2 ^ 64 ≡ add_word g n
flushed_lem g n = ground arith

-- After any commands of a thread and `flush_all`, the counters of the process have, on top of what the
-- thread read before, the number of the commands and for each type the number of its commands,
-- modulo 2^64.
pub flush_all-record_commands :
    (cmds : List CommandType) (t : Thread)
    → ((flush_all (record_commands cmds t)).0.commands_total % 2 ^ 64
        ≡ add_word (total_commands t) (length cmds))
      × ((c : CommandType)
          → (flush_all (record_commands cmds t)).0.commands_by_type (index c) % 2 ^ 64
            ≡ add_word (command_count c t) (occurrences c cmds))
unfolding flush_all total_commands command_count
flush_all-record_commands cmds t =
    let after = record_commands cmds t in
    (
      flushed_lem after.0.commands_total after.1.commands_total ∙ total-record_commands cmds t,
      λ c. rw (index-lt c) (
          flushed_lem (after.0.commands_by_type (index c)) (after.1.commands_by_type (index c))
          ∙ count-record_commands c cmds t),
    )
