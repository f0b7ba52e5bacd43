-- ===== src/Server/Tcp/Run.antt =====
-- server/tcp.rs: a run of `run_server_with_listener`, from the listener to the flush of the log, and the
-- two functions that call it.
use zetdb.Prelude.{
  ℕ, ◌+◌, ◌-◌, ◌≤◌, ◌≡◌, refl, Bool, true, Option, none, some, List, [], ◌∷◌, ◌++◌, All, length,
  is_some, ◌==◌, if◌then◌else◌, arith, Bool-cases, inl, inr,
}
use zetdb.Domain.Errors.{Result, ok, err}
use zetdb.Config.{Config}
use zetdb.Storage.Aof.Writer.{AofWriter, Disk, working, contents, flush}
use zetdb.Storage.Aof.Writer.Appends.{flush_lem}
use zetdb.Server.Tcp.{
  Server, start, accept, accepted, finished, panicked, Reach, starts, steps, Drained, drain,
}
use zetdb.Server.Tcp.Drain.{IsPaced, drain_ends}

-- What the loop waits for, and what the sessions do meanwhile.
pub data Event : Type 0 where
  connection accept_error session_finished session_panicked shutdown : Event

-- An end that no session is left for does not happen.
unfoldable pub finish : Server → Server
finish s =
    if s.running == 0
    then s
    else record s { active_conns = s.active_conns - 1; running = s.running - 1 }

unfoldable pub panic : Server → Server
panic s =
    if s.running == 0 then s else record s { running = s.running - 1; panicked = s.panicked + 1 }

pub data Ended : Type 0 where
  waits : Server → Ended
  broken : Ended
  signalled : Server → Ended

unfoldable pub accept_loop : ℕ → List Event → Server → Ended
unfolding accept finish panic
accept_loop max_conns [] s = waits s
accept_loop max_conns (connection ∷ events) s = accept_loop max_conns events (accept max_conns s).1
accept_loop max_conns (accept_error ∷ events) s = broken
accept_loop max_conns (session_finished ∷ events) s = accept_loop max_conns events (finish s)
accept_loop max_conns (session_panicked ∷ events) s = accept_loop max_conns events (panic s)
accept_loop max_conns (shutdown ∷ events) s = signalled s

pub data ServerError : Type 0 where
  io : ServerError

abbrev pub flush_log : Disk → Option AofWriter → Option AofWriter
flush_log d none = none
flush_log d (some w) = some (flush d w).1

-- What the caller gets, and the log as it then is; `none` is that the server still runs. The log is
-- taken as the sessions have left it.
abbrev pub Served : Type 0
Served = Option (Result (Unit {0}) ServerError × Option AofWriter)

unfoldable pub run_server_with_listener :
    ℕ → Bool → List Event → List (ℕ × ℕ) → Disk → Option AofWriter → Served
unfolding accept_loop drain
run_server_with_listener max_conns has_addr events rounds d aof =
    if has_addr
    then (elim (accept_loop max_conns events start) [
      | waits s ↦ none
      | broken ↦ some (err io, aof)
      | signalled s ↦ elim (drain rounds) [ none ↦ none | some _ ↦ some (ok tt, flush_log d aof) ]
    ])
    else some (err io, aof)

unfoldable pub run_server_with_shutdown :
    Config → Bool → Bool → List Event → List (ℕ × ℕ) → Disk → Option AofWriter → Served
unfolding run_server_with_listener
run_server_with_shutdown config is_bound has_addr events rounds d aof =
    if is_bound
    then run_server_with_listener config.max_connections has_addr events rounds d aof
    else some (err io, aof)

-- The channel of `run_server` never signals.
abbrev pub without_signal : List Event → List Event
without_signal [] = []
without_signal (shutdown ∷ events) = without_signal events
without_signal (connection ∷ events) = connection ∷ without_signal events
without_signal (accept_error ∷ events) = accept_error ∷ without_signal events
without_signal (session_finished ∷ events) = session_finished ∷ without_signal events
without_signal (session_panicked ∷ events) = session_panicked ∷ without_signal events

unfoldable pub run_server :
    Config → Bool → Bool → List Event → List (ℕ × ℕ) → Disk → Option AofWriter → Served
unfolding run_server_with_shutdown
run_server config is_bound has_addr events rounds d aof =
    run_server_with_shutdown config is_bound has_addr (without_signal events) rounds d aof

-- An event that the loop goes on after.
abbrev pub IsOrdinary : Event → Type 0
IsOrdinary connection = Unit
IsOrdinary accept_error = ⊥
IsOrdinary session_finished = Unit
IsOrdinary session_panicked = Unit
IsOrdinary shutdown = ⊥

finish-Reach : (max_conns : ℕ) (s : Server) → Reach max_conns s → Reach max_conns (finish s)
unfolding finish
finish-Reach max_conns s r = elim (Bool-cases (s.running == 0)) [
  | inl e ↦ rw e r
  | inr e ↦ rw e (steps s _ r (finished s (ground (arith, e))))
]

panic-Reach : (max_conns : ℕ) (s : Server) → Reach max_conns s → Reach max_conns (panic s)
unfolding panic
panic-Reach max_conns s r = elim (Bool-cases (s.running == 0)) [
  | inl e ↦ rw e r
  | inr e ↦ rw e (steps s _ r (panicked s (ground (arith, e))))
]

accept_loop-ordinary :
    (max_conns : ℕ) (before after : List Event) (s : Server)
    → All IsOrdinary before
    → Reach max_conns s
    → (t : Server) × (accept_loop max_conns (before ++ after) s ≡ accept_loop max_conns after t)
      × Reach max_conns t
unfolding accept_loop
accept_loop-ordinary max_conns [] after s h r = (s, refl, r)
accept_loop-ordinary max_conns (connection ∷ before) after s h r =
    accept_loop-ordinary max_conns before after (accept max_conns s).1 h.1
      (steps s (accept max_conns s).1 r (accepted s))
accept_loop-ordinary max_conns (session_finished ∷ before) after s h r =
    accept_loop-ordinary max_conns before after (finish s) h.1 (finish-Reach max_conns s r)
accept_loop-ordinary max_conns (session_panicked ∷ before) after s h r =
    accept_loop-ordinary max_conns before after (panic s) h.1 (panic-Reach max_conns s r)
accept_loop-ordinary max_conns (accept_error ∷ before) after s h r = absurd h.0
accept_loop-ordinary max_conns (shutdown ∷ before) after s h r = absurd h.0

-- A server with an address, in which no connection fails before the signal: once the signal is there,
-- whatever comes after it, and with rounds of the wait that sleep as they should, 102 at least, it
-- ends without an error. On a disk that works the log, with what was appended and not yet
-- written, is then in its file, and the batch is empty.
pub run_server-shutdown :
    (max_conns : ℕ) (before after : List Event) (rounds : List (ℕ × ℕ)) (clock : ℕ → ℕ)
    (w : AofWriter)
    → All IsOrdinary before
    → IsPaced 0 rounds
    → 102 ≤ length rounds
    → (w' : AofWriter) × (run_server_with_listener max_conns true
          (before ++ shutdown ∷ after)
          rounds
          (working clock)
          (some w)
        ≡ some (ok tt, some w'))
      × (w'.file ≡ contents w)
      × (w'.batch ≡ [])
unfolding run_server_with_listener
run_server-shutdown max_conns before after rounds clock w h paced enough =
    let loop = accept_loop-ordinary max_conns before (shutdown ∷ after) start h starts in
    let flushed = flush_lem clock w in
    (
      (flush (working clock) w).1,
      rw loop.1 (drained (drain rounds) (drain_ends rounds paced enough)),
      flushed.1,
      flushed.2,
    )
  where
    drained :
        (o : Option Drained)
        → is_some o ≡ true
        → ◌≡◌ {A = Served}
            (elim o [ none ↦ none | some _ ↦ some (ok tt, flush_log (working clock) (some w)) ])
            (some (ok tt, some (flush (working clock) w).1))
    drained none e = cc
    drained (some x) e = refl
