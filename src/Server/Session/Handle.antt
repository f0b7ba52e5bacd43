-- ===== src/Server/Session/Handle.antt =====
-- server/session.rs: `handle_session`, which chooses between the two sessions, and
-- `handle_session_full` and `handle_session_fast` over all that the socket returns.
use zetdb.Prelude.{
  arith, ◌≡◌, refl, Bool, true, false, not, ◌&&◌, Option, none, some, List, [], ◌∷◌, ◌++◌, is_some,
  if_rule, if◌then◌else◌,
}
use zetdb.Domain.Errors.{Outcome, returns, panics, deadlocks, ◌>>=◌}
use zetdb.Domain.Value.{ValueEntry}
use zetdb.Storage.DashMap.{DashMap}
use zetdb.Storage.Itoa.{Itoa}
use zetdb.Protocol.Memchr.{Memchr, Memchr2}
use zetdb.Observability.Metrics.{connection_opened, connection_closed}
use zetdb.Server.Session.{Env, Session, Event, process_batch, turn, run_turns}
use zetdb.Storage.Engine.Unlimited.{FreesRun, Ends, bind-Frees, Ends-FreesRun}
use zetdb.Server.Session.Unlimited.{
  IsFree, process_batch-FreesRun, process_batch_fast-FreesRun, run_turns-FreesRun,
}
use zetdb.Server.Session.Progress.{process_batch_ends}
use zetdb.Server.Session.Fast.{process_batch_fast, process_batch_fast_ends}

module _ {D : DashMap ValueEntry} (metrics_enabled : Bool) where
  abbrev opened : Session D → Session D
  opened s =
      if metrics_enabled
      then record s { thread = (connection_opened s.thread.0, s.thread.1) }
      else s

  abbrev closed : Session D → Session D
  closed s =
      if metrics_enabled
      then record s { thread = (connection_closed s.thread.0, s.thread.1) }
      else s

abbrev pub then_close :
    {D : DashMap ValueEntry}
    → Bool
    → Option (Outcome (Bool × Session D))
    → Option (Outcome (Session D))
then_close metrics_enabled none = none
then_close metrics_enabled (some o) = some (o >>= λ r. returns (closed metrics_enabled r.1))

module _ (I : Itoa) (M : Memchr) (M2 : Memchr2) {D : DashMap ValueEntry} (metrics_enabled : Bool)
    (use_write_timeout : Bool) (env : Env) where
  unfoldable pub handle_session : List Event → Session D → Option (Outcome (Session D))
  unfolding run_turns process_batch process_batch_fast
  handle_session events s =
      let s0 = opened metrics_enabled s in
      if not (is_some s.aof) && not metrics_enabled && not use_write_timeout
      then then_close metrics_enabled (run_turns (process_batch_fast I M M2 env) events s0)
      else then_close metrics_enabled
          (run_turns (process_batch I M M2 metrics_enabled env) events s0)

module _ {D : DashMap ValueEntry} (process : Session D → Option (Outcome (Session D))) where
  turn_ends :
      ((s : Session D) → is_some (process s) ≡ true)
      → (event : Event) (s : Session D) → is_some (turn process event s) ≡ true
  unfolding turn
  turn_ends h (none, written) s = refl
  turn_ends h (some bytes, written) s =
      ground (arith, h (record s { read_buf = s.read_buf ++ bytes }))

  after_turn :
      (events : List Event) (r : Option (Outcome (Bool × Session D)))
      → is_some r ≡ true
      → ((s' : Session D) → is_some (run_turns process events s') ≡ true)
      → ◌≡◌ {A = Bool}
          (is_some {A = Outcome (Bool × Session D)} (elim r [
            | none ↦ none
            | some panics ↦ some panics
            | some deadlocks ↦ some deadlocks
            | some (returns (open_, s')) ↦
                if open_ then run_turns process events s' else some (returns (false, s'))
          ]))
          true
  after_turn events none e h = e
  after_turn events (some panics) e h = refl
  after_turn events (some deadlocks) e h = refl
  after_turn events (some (returns (true, s'))) e h = h s'
  after_turn events (some (returns (false, s'))) e h = refl

  run_turns_ends :
      ((s : Session D) → is_some (process s) ≡ true)
      → (events : List Event) (s : Session D) → is_some (run_turns process events s) ≡ true
  unfolding run_turns
  run_turns_ends h [] s = refl
  run_turns_ends h (event ∷ events) s =
      after_turn events (turn process event s) (turn_ends h event s) (run_turns_ends h events)

then_close_ends :
    {D : DashMap ValueEntry} (b : Bool) (o : Option (Outcome (Bool × Session D)))
    → is_some o ≡ true
    → is_some (then_close b o) ≡ true
then_close_ends b none h = h
then_close_ends b (some o) h = refl

closed-FreesRun :
    {D : DashMap ValueEntry} (b : Bool) (o : Option (Outcome (Bool × Session D)))
    → FreesRun (λ r. IsFree r.1) o
    → FreesRun (λ t. Unit {0}) (then_close b o)
closed-FreesRun b none h = tt
closed-FreesRun b (some o) h =
    bind-Frees (λ r. IsFree r.1) (λ t. Unit {0}) o (λ r. returns (closed b r.1)) h (λ r e. tt)

module _ (I : Itoa) (M : Memchr) (M2 : Memchr2) {D : DashMap ValueEntry} (metrics_enabled : Bool)
    (use_write_timeout : Bool) (env : Env) where
  handle_session-is_some :
      (events : List Event) (s : Session D)
      → is_some (handle_session I M M2 metrics_enabled use_write_timeout env events s) ≡ true
  unfolding handle_session
  handle_session-is_some events s =
      if_rule {A = Option (Outcome (Session D))} (λ o. is_some o ≡ true)
        (not (is_some s.aof) && not metrics_enabled && not use_write_timeout)
        (then_close_ends metrics_enabled _ (
          run_turns_ends (process_batch_fast I M M2 env) (process_batch_fast_ends I M M2 env) events
            (opened metrics_enabled s)))
        (then_close_ends metrics_enabled _ (
          run_turns_ends (process_batch I M M2 metrics_enabled env)
            (process_batch_ends I M M2 metrics_enabled env) events (opened metrics_enabled s)))

  opened-IsFree : (s : Session D) → IsFree s → IsFree (opened metrics_enabled s)
  opened-IsFree s h =
      if_rule {A = Session D} IsFree metrics_enabled
        {x = record s { thread = (connection_opened s.thread.0, s.thread.1) }} {y = s} h h

  handle_session-FreesRun :
      (events : List Event) (s : Session D)
      → IsFree s
      → FreesRun
          (λ t. Unit {0})
          (handle_session I M M2 metrics_enabled use_write_timeout env events s)
  unfolding handle_session
  handle_session-FreesRun events s h =
      if_rule (FreesRun {A = Session D} (λ t. Unit {0}))
        (not (is_some s.aof) && not metrics_enabled && not use_write_timeout)
        (closed-FreesRun metrics_enabled _ (
          run_turns-FreesRun (process_batch_fast I M M2 env)
            (process_batch_fast-FreesRun I M M2 env) events (opened metrics_enabled s)
            (opened-IsFree s h)))
        (closed-FreesRun metrics_enabled _ (
          run_turns-FreesRun (process_batch I M M2 metrics_enabled env)
            (process_batch-FreesRun I M M2 metrics_enabled env) events (opened metrics_enabled s)
            (opened-IsFree s h)))

  -- A session of either kind, on an engine with no limit on the keys, as the server makes it, returns or panics
  -- whatever the client sends and the socket returns: it does not go round its loops for ever, and it
  -- does not wait for a lock of the engine that it holds itself.
  pub handle_session-Ends :
      (events : List Event) (s : Session D)
      → s.engine.max_keys ≡ 0
      → Ends (handle_session I M M2 metrics_enabled use_write_timeout env events s)
  handle_session-Ends events s h =
      Ends-FreesRun (λ t. Unit {0})
        (handle_session I M M2 metrics_enabled use_write_timeout env events s)
        (handle_session-FreesRun events s h) (handle_session-is_some events s)
