-- ===== src/Server/Tcp.antt =====
-- server/tcp.rs: `run_server_with_listener`, its accept loop as steps of a state machine and its drain
-- loop. A session that panics takes its task down before the counter is decremented.
pub mod Limit
pub mod Drain
pub mod Run
use zetdb.Prelude.{
  ℕ, zero, suc, ◌+◌, ◌-◌, ◌<◌, ◌≡◌, Bool, true, false, ◌&&◌, Option, none, some, List, [], ◌∷◌, ltb,
  leb, ◌==◌, if◌then◌else◌,
}

-- `active_conns`, and the tasks: those that run and those that have panicked.
pub record Server : Type 0 where
  pub active_conns : ℕ
  pub running : ℕ
  pub panicked : ℕ

abbrev pub start : Server
start = record { active_conns = 0; running = 0; panicked = 0 }

abbrev pub is_full : ℕ → Server → Bool
is_full max_conns s = ltb 0 max_conns && leb max_conns s.active_conns

-- A connection that is accepted: whether a session is spawned for it, and the state.
unfoldable pub accept : ℕ → Server → Bool × Server
accept max_conns s =
    if is_full max_conns s
    then (false, s)
    else (true, record s { active_conns = s.active_conns + 1; running = s.running + 1 })

-- What happens to the server: a connection, the end of a session, and a panic in one.
pub data Step (max_conns : ℕ) : Server → Server → Type 0 where
  accepted : (s : Server) → Step max_conns s (accept max_conns s).1
  finished :
      (s : Server)
      → 0 < s.running
      → Step max_conns s (record s { active_conns = s.active_conns - 1; running = s.running - 1 })
  panicked :
      (s : Server)
      → 0 < s.running
      → Step max_conns s (record s { running = s.running - 1; panicked = s.panicked + 1 })

pub data Reach (max_conns : ℕ) : Server → Type 0 where
  starts : Reach max_conns start
  steps : (s t : Server) → Reach max_conns s → Step max_conns s t → Reach max_conns t

abbrev pub drain_timeout_ms : ℕ
drain_timeout_ms = 5000

abbrev pub drain_poll_interval_ms : ℕ
drain_poll_interval_ms = 50

pub data Drained : Type 0 where
  all_drained : Drained
  timed_out : ℕ → Drained

-- The loop that waits for the sessions, over what it reads in each round: the counter, and the
-- milliseconds since it began. `none` is that it has not ended yet.
unfoldable pub drain : List (ℕ × ℕ) → Option Drained
drain [] = none
drain ((remaining, elapsed) ∷ rounds) =
    let later = drain rounds in
    if remaining == 0
    then some all_drained
    else if ltb drain_timeout_ms elapsed
    then some (timed_out remaining)
    else later
