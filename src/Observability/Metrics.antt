-- ===== src/Observability/Metrics.antt =====
-- observability/metrics.rs: the counters of a thread and those of the process. A counter is a word of
-- 64 bits; what the source adds or subtracts without a check wraps around, as in a release build and
-- in the operations of `AtomicU64`.
pub mod Conservation
use zetdb.Prelude.{ℕ, zero, suc, ◌+◌, ◌-◌, ◌%◌, ◌^◌, List, [], ◌∷◌, ltb, ◌==◌, if◌then◌else◌}
use zetdb.Domain.Command.{CommandType}

abbrev pub add_word : ℕ → ℕ → ℕ
add_word a b = (a + b) % 2 ^ 64

abbrev pub sub_word : ℕ → ℕ → ℕ
sub_word a b = (a + (2 ^ 64 - b)) % 2 ^ 64

abbrev pub flush_batch : ℕ
flush_batch = 64

-- `cmd as usize`
unfoldable pub index : CommandType → ℕ
index CommandType.ping = 0
index CommandType.get = 1
index CommandType.set = 2
index CommandType.del = 3
index CommandType.incr = 4
index CommandType.info = 5
index CommandType.db_size = 6
index CommandType.exists = 7
index CommandType.ttl = 8
index CommandType.expire = 9
index CommandType.flush_db = 10
index CommandType.keys = 11
index CommandType.mget = 12
index CommandType.mset = 13

pub record LocalCounters : Type 0 where
  pub commands_total : ℕ
  pub commands_by_type : ℕ → ℕ
  pub keyspace_hits : ℕ
  pub keyspace_misses : ℕ
  pub errors_total : ℕ

pub record Metrics : Type 0 where
  pub commands_total : ℕ
  pub commands_by_type : ℕ → ℕ
  pub connections_total : ℕ
  pub connections_active : ℕ
  pub keyspace_hits : ℕ
  pub keyspace_misses : ℕ
  pub errors_total : ℕ

abbrev zeros : ℕ → ℕ
zeros i = 0

-- `LocalCounters::default()`
abbrev pub default : LocalCounters
default = record {
  commands_total = 0;
  commands_by_type = zeros;
  keyspace_hits = 0;
  keyspace_misses = 0;
  errors_total = 0;
}

-- What `metrics()` starts from.
abbrev pub initial : Metrics
initial = record {
  commands_total = 0;
  commands_by_type = zeros;
  connections_total = 0;
  connections_active = 0;
  keyspace_hits = 0;
  keyspace_misses = 0;
  errors_total = 0;
}

-- The counters that a thread works on: its own and those of the process.
abbrev pub Thread : Type 0
Thread = Metrics × LocalCounters

-- One cell of an array.
abbrev pub update : ℕ → (ℕ → ℕ) → (ℕ → ℕ) → ℕ → ℕ
update i f a j = if j == i then f (a j) else a j

unfoldable pub record_command : CommandType → Thread → Thread
unfolding index
record_command cmd (g, l) =
    let i = index cmd in
    let total = add_word l.commands_total 1 in
    let by_type = update i (λ n. add_word n 1) l.commands_by_type in
    if total % flush_batch == 0
    then (
      record g {
        commands_total = add_word g.commands_total flush_batch;
        commands_by_type = update i (λ n. add_word n flush_batch) g.commands_by_type;
      },
      record l {
        commands_total = sub_word total flush_batch;
        commands_by_type = update i (λ n. sub_word n flush_batch) by_type;
      },
    )
    else (g, record l { commands_total = total; commands_by_type = by_type })

unfoldable pub command_count : CommandType → Thread → ℕ
unfolding index
command_count cmd (g, l) =
    add_word (g.commands_by_type (index cmd)) (l.commands_by_type (index cmd))

unfoldable pub total_commands : Thread → ℕ
total_commands (g, l) = add_word g.commands_total l.commands_total

-- `record_hit`, `record_miss` and `record_error` write this out, each for its own field: the new
-- counter of the process and of the thread.
unfoldable pub record_one : ℕ → ℕ → ℕ × ℕ
record_one global_count local_count =
    let n = add_word local_count 1 in
    if n % flush_batch == 0
    then (add_word global_count flush_batch, sub_word n flush_batch)
    else (global_count, n)

unfoldable pub record_hit : Thread → Thread
unfolding record_one
record_hit (g, l) =
    let r = record_one g.keyspace_hits l.keyspace_hits in
    (record g { keyspace_hits = r.0 }, record l { keyspace_hits = r.1 })

unfoldable pub record_miss : Thread → Thread
unfolding record_one
record_miss (g, l) =
    let r = record_one g.keyspace_misses l.keyspace_misses in
    (record g { keyspace_misses = r.0 }, record l { keyspace_misses = r.1 })

unfoldable pub record_error : Thread → Thread
unfolding record_one
record_error (g, l) =
    let r = record_one g.errors_total l.errors_total in
    (record g { errors_total = r.0 }, record l { errors_total = r.1 })

unfoldable pub connection_opened : Metrics → Metrics
connection_opened g = record g {
  connections_total = add_word g.connections_total 1;
  connections_active = add_word g.connections_active 1;
}

unfoldable pub connection_closed : Metrics → Metrics
connection_closed g = record g { connections_active = sub_word g.connections_active 1 }

-- What `flush_all` adds for one counter: nothing where the thread has counted nothing.
abbrev pub flushed : ℕ → ℕ → ℕ
flushed global_count local_count =
    if ltb 0 local_count then add_word global_count local_count else global_count

unfoldable pub flush_all : Thread → Thread
flush_all (g, l) = (
  record g {
    commands_total = flushed g.commands_total l.commands_total;
    commands_by_type = λ i.
        if ltb i 14
        then flushed (g.commands_by_type i) (l.commands_by_type i)
        else g.commands_by_type i;
    keyspace_hits = flushed g.keyspace_hits l.keyspace_hits;
    keyspace_misses = flushed g.keyspace_misses l.keyspace_misses;
    errors_total = flushed g.errors_total l.errors_total;
  },
  record {
    commands_total = 0;
    commands_by_type = λ i. if ltb i 14 then 0 else l.commands_by_type i;
    keyspace_hits = 0;
    keyspace_misses = 0;
    errors_total = 0;
  },
)
