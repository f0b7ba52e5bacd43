-- ===== src/Server/Session/Unlimited.antt =====
-- server/session.rs: a session of an engine with no limit on the keys, as the server makes it, never waits
-- for a lock of the engine.
use zetdb.Prelude.{
  ℕ, zero, suc, Bool, true, false, Option, none, some, List, [], ◌∷◌, ◌++◌, Bytes, length, drop,
  leb, ltb, is_empty, if_rule, if◌then◌else◌,
}
use zetdb.Domain.Errors.{Result, ok, err, Outcome, returns, panics, deadlocks, ◌>>=◌}
use zetdb.Domain.Value.{ValueEntry}
use zetdb.Domain.Command.{Command}
use zetdb.Storage.DashMap.{DashMap}
use zetdb.Storage.Itoa.{Itoa}
use zetdb.Storage.Engine.{Engine, set_fast_str}
use zetdb.Storage.Engine.Unlimited.{Frees, FreesRun, bind-Frees, IsUnlimited}
use zetdb.Protocol.Memchr.{Memchr, Memchr2}
use zetdb.Protocol.Scan
use zetdb.Protocol.Scan.{ParseError, FrameResult, complete, incomplete, skip, empty_command}
use zetdb.Protocol.Inline.{try_parse_frame}
use zetdb.Protocol.Borrowed.{parse_inline_borrowed}
use zetdb.Application.Info.{counters_of}
use zetdb.Application.Dispatch.{dispatch}
use zetdb.Application.Buffer.{dispatch_to_buffer}
use zetdb.Application.Fast.{dispatch_fast}
use zetdb.Application.Unlimited.{dispatch-IsUnlimited, dispatch_to_buffer-IsUnlimited}
use zetdb.Server.Session.{
  Env, Session, Event, Round, goes_on, ends, advance, resp_command_step, inline_command_step,
  refuse_frame, skip_frame, round_of, loop, resp_round, inline_round, starts_resp, process_batch,
  turn, run_turns, max_read_buf, max_write_buf,
}
use zetdb.Server.Session.Fast.{
  Scanning, fast_command_step, fast_round_of, fast_round, close_scan, process_batch_fast,
}

advance-Frees : (n : ℕ) (buf : Bytes) → Frees (λ rest. Unit {0}) (advance n buf)
advance-Frees n buf =
    if_rule (Frees (λ rest. Unit {0})) (leb n (length buf)) {x = returns (drop n buf)} {y = panics}
      tt tt

-- A round that ends, or goes on without waiting for ever.
abbrev FreesRound : {S : Type 0} → (S → Type 0) → Round S → Type 0
FreesRound P (goes_on o) = Frees P o
FreesRound P ends = Unit

module _ {S : Type 0} (P : S → Type 0) (round : S → Round S) where
  next-FreesRun :
      (fuel : ℕ) (s : S) (r : Round S)
      → ((s' : S) → P s' → FreesRun P (loop round fuel s'))
      → P s
      → FreesRound P r
      → FreesRun P (elim r [
        | ends ↦ some (returns s)
        | goes_on (returns s') ↦ loop round fuel s'
        | goes_on panics ↦ some panics
        | goes_on deadlocks ↦ some deadlocks
      ])
  next-FreesRun fuel s ends ih h g = h
  next-FreesRun fuel s (goes_on (returns s')) ih h g = ih s' g
  next-FreesRun fuel s (goes_on panics) ih h g = tt
  next-FreesRun fuel s (goes_on deadlocks) ih h g = g

  loop-FreesRun :
      ((s : S) → P s → FreesRound P (round s))
      → (fuel : ℕ) (s : S) → P s
      → FreesRun P (loop round fuel s)
  unfolding loop
  loop-FreesRun f zero s h = tt
  loop-FreesRun f (suc fuel) s h = next-FreesRun fuel s (round s) (loop-FreesRun f fuel) h (f s h)

module _ {D : DashMap ValueEntry} where
  abbrev pub IsFree : Session D → Type 0
  IsFree s = IsUnlimited s.engine

module _ (I : Itoa) (M : Memchr) (M2 : Memchr2) {D : DashMap ValueEntry} (metrics_enabled : Bool)
    (env : Env) where
  resp_step-IsFree :
      (k : ℕ) (c : Command) (s : Session D)
      → IsFree s
      → Frees IsFree (resp_command_step I metrics_enabled env k c s)
  unfolding resp_command_step
  resp_step-IsFree k c s h =
      bind-Frees (λ rest. Unit {0}) IsFree (advance k s.read_buf) _ (advance-Frees k s.read_buf)
        λ rest u.
          bind-Frees (λ x. IsUnlimited x.1) IsFree
            (dispatch I (counters_of (env.uptime_secs s.commands) s.thread) (env.clock s.commands)
              s.engine c)
            _ (dispatch-IsUnlimited I _ (env.clock s.commands) s.engine c h) (λ x e. e)

  inline_step-IsFree :
      (k : ℕ) (c : Command) (s : Session D)
      → IsFree s
      → Frees IsFree (inline_command_step I metrics_enabled env k c s)
  unfolding inline_command_step
  inline_step-IsFree k c s h =
      bind-Frees (λ rest. Unit {0}) IsFree (advance k s.read_buf) _ (advance-Frees k s.read_buf)
        λ rest u.
          bind-Frees (λ x. IsUnlimited x.1) IsFree
            (dispatch_to_buffer I (counters_of (env.uptime_secs s.commands) s.thread)
              (env.clock s.commands) false s.engine c)
            _ (dispatch_to_buffer-IsUnlimited I _ (env.clock s.commands) false s.engine c h)
            (λ x e. e)

  round_of-IsFree :
      (is_resp : Bool) (step : ℕ → Command → Session D → Outcome (Session D))
      (r : Result FrameResult ParseError) (s : Session D)
      → ((k : ℕ) (c : Command) → Frees IsFree (step k c s))
      → IsFree s
      → FreesRound IsFree (round_of I M is_resp step r s)
  unfolding round_of refuse_frame skip_frame
  round_of-IsFree is_resp step (ok (complete k c)) s f h = f k c
  round_of-IsFree is_resp step (ok incomplete) s f h = tt
  round_of-IsFree is_resp step (ok (skip k)) s f h =
      bind-Frees (λ rest. Unit {0}) IsFree (advance k s.read_buf) _ (advance-Frees k s.read_buf)
        (λ rest u. h)
  round_of-IsFree is_resp step (err (Scan.syntax_error m)) s f h = h
  round_of-IsFree is_resp step (err (Scan.unknown_command m)) s f h = h
  round_of-IsFree is_resp step (err empty_command) s f h = tt

  resp_loop-FreesRun :
      (fuel : ℕ) (s : Session D)
      → IsFree s
      → FreesRun IsFree (loop (resp_round I M M2 metrics_enabled env) fuel s)
  unfolding resp_round
  resp_loop-FreesRun = loop-FreesRun IsFree (resp_round I M M2 metrics_enabled env) λ s h.
      round_of-IsFree true (resp_command_step I metrics_enabled env) (try_parse_frame M s.read_buf)
        s (λ k c. resp_step-IsFree k c s h) h

  pub process_batch-FreesRun :
      (s : Session D) → IsFree s → FreesRun IsFree (process_batch I M M2 metrics_enabled env s)
  unfolding process_batch inline_round
  process_batch-FreesRun s h =
      if_rule (FreesRun IsFree) (starts_resp s.read_buf)
        (resp_loop-FreesRun (suc (length s.read_buf)) s h)
        (loop-FreesRun IsFree (inline_round I M M2 metrics_enabled env)
          (λ s' h'.
            round_of-IsFree false (inline_command_step I metrics_enabled env)
              (parse_inline_borrowed M2 s'.read_buf) s' (λ k c. inline_step-IsFree k c s' h') h')
          (suc (length s.read_buf)) s h)

dispatch_fast-IsUnlimited :
    {D : DashMap ValueEntry} (s : Engine D) (c : Command)
    → IsUnlimited s
    → IsUnlimited (dispatch_fast s c).1
unfolding dispatch_fast set_fast_str
dispatch_fast-IsUnlimited s (Command.set k v ttl) h = h
dispatch_fast-IsUnlimited s _ h = h

module _ (I : Itoa) (M : Memchr) (M2 : Memchr2) {D : DashMap ValueEntry} where
  abbrev IsFreeScan : Scanning D → Type 0
  IsFreeScan t = IsFree t.1

  fast_round_of-IsFree :
      (r : Result FrameResult ParseError) (t : Scanning D)
      → IsFreeScan t
      → FreesRound IsFreeScan (fast_round_of I M M2 r t)
  unfolding fast_round_of fast_command_step refuse_frame
  fast_round_of-IsFree (ok (complete k c)) (offset, s) h = dispatch_fast-IsUnlimited s.engine c h
  fast_round_of-IsFree (ok incomplete) (offset, s) h = tt
  fast_round_of-IsFree (ok (skip k)) (offset, s) h = h
  fast_round_of-IsFree (err (Scan.syntax_error m)) (offset, s) h = h
  fast_round_of-IsFree (err (Scan.unknown_command m)) (offset, s) h = h
  fast_round_of-IsFree (err empty_command) (offset, s) h = tt

  fast_round-IsFree : (t : Scanning D) → IsFreeScan t → FreesRound IsFreeScan (fast_round I M M2 t)
  unfolding fast_round
  fast_round-IsFree (offset, s) h =
      if_rule (FreesRound IsFreeScan) (leb offset (length s.read_buf)) {y = goes_on panics}
        (fast_round_of-IsFree (parse_inline_borrowed M2 (drop offset s.read_buf)) (offset, s) h) tt

  scanned-FreesRun :
      (o : Option (Outcome (Scanning D)))
      → FreesRun IsFreeScan o
      → FreesRun {A = Session D} IsFree
          (elim o [ none ↦ none | some o' ↦ some (o' >>= close_scan) ])
  scanned-FreesRun none h = tt
  scanned-FreesRun (some o) h = bind-Frees IsFreeScan IsFree o _ h λ (offset, s) e.
      bind-Frees (λ rest. Unit {0}) IsFree (advance offset s.read_buf) _
        (advance-Frees offset s.read_buf) (λ rest u. e)

  pub process_batch_fast-FreesRun :
      (env : Env) (s : Session D) → IsFree s → FreesRun IsFree (process_batch_fast I M M2 env s)
  unfolding process_batch_fast
  process_batch_fast-FreesRun env s h =
      if_rule (FreesRun IsFree) (starts_resp s.read_buf)
        (resp_loop-FreesRun I M M2 false env (suc (length s.read_buf)) s h)
        (scanned-FreesRun (loop (fast_round I M M2) (suc (length s.read_buf)) (0, s)) (
          loop-FreesRun IsFreeScan (fast_round I M M2) fast_round-IsFree (suc (length s.read_buf))
            (0, s) h))

module _ {D : DashMap ValueEntry} (process : Session D → Option (Outcome (Session D)))
    (frees : (s : Session D) → IsFree s → FreesRun IsFree (process s)) where
  abbrev pub IsFreeTurn : Bool × Session D → Type 0
  IsFreeTurn r = IsFree r.1

  processed-FreesRun :
      (written : Bool) (o : Option (Outcome (Session D)))
      → FreesRun IsFree o
      → FreesRun {A = Bool × Session D} IsFreeTurn (elim o [
        | none ↦ none
        | some o' ↦ some (do
          s1 ← o'
          returns (
              if ltb max_write_buf (length s1.write_buf)
              then (false, s1)
              else if is_empty s1.write_buf
              then (true, s1)
              else if written
              then (true, record s1 { output = s1.output ++ s1.write_buf; write_buf = [] })
              else (false, s1)))
      ])
  processed-FreesRun written none h = tt
  processed-FreesRun written (some o) h = bind-Frees IsFree IsFreeTurn o _ h λ s e.
      if_rule IsFreeTurn (ltb max_write_buf (length s.write_buf)) e
        (if_rule IsFreeTurn (is_empty s.write_buf) e (if_rule IsFreeTurn written e e))

  turn-FreesRun :
      (event : Event) (s : Session D) → IsFree s → FreesRun IsFreeTurn (turn process event s)
  unfolding turn
  turn-FreesRun (none, written) s h = h
  turn-FreesRun (some bs, written) s h =
      let s0 : Session D = record s { read_buf = s.read_buf ++ bs } in
      if_rule (FreesRun IsFreeTurn) (is_empty bs) {x = some (returns (false, s))} h (
        if_rule (FreesRun IsFreeTurn) (ltb max_read_buf (length s0.read_buf))
          {x = some (returns (false, s0))} h (processed-FreesRun written (process s0) (frees s0 h)))

  after_turn-FreesRun :
      (events : List Event) (r : Option (Outcome (Bool × Session D)))
      → FreesRun IsFreeTurn r
      → ((s' : Session D) → IsFree s' → FreesRun IsFreeTurn (run_turns process events s'))
      → FreesRun {A = Bool × Session D} IsFreeTurn (elim r [
        | none ↦ none
        | some panics ↦ some panics
        | some deadlocks ↦ some deadlocks
        | some (returns (open_, s')) ↦
            if open_ then run_turns process events s' else some (returns (false, s'))
      ])
  after_turn-FreesRun events none h ih = tt
  after_turn-FreesRun events (some panics) h ih = tt
  after_turn-FreesRun events (some deadlocks) h ih = h
  after_turn-FreesRun events (some (returns (true, s'))) h ih = ih s' h
  after_turn-FreesRun events (some (returns (false, s'))) h ih = h

  pub run_turns-FreesRun :
      (events : List Event) (s : Session D)
      → IsFree s
      → FreesRun IsFreeTurn (run_turns process events s)
  unfolding run_turns
  run_turns-FreesRun [] s h = h
  run_turns-FreesRun (event ∷ events) s h =
      after_turn-FreesRun events (turn process event s) (turn-FreesRun event s h)
        (run_turns-FreesRun events)
