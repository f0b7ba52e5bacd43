-- ===== src/Server/Session.antt =====
-- server/session.rs: a session, with the loops over the frames of its read buffer. The calls of the
-- socket are given as what they return. `write_buf` is what has not been sent, `output` what has.
pub mod Progress
pub mod Frames
pub mod Wire
pub mod Lines
pub mod Logged
pub mod Meaning
pub mod Sent
pub mod Turns
pub mod Pieces
pub mod Fast
pub mod Unlimited
pub mod Handle
use zetdb.Prelude.{
  ℕ, zero, suc, ◌+◌, ◌*◌, ◌≤◌, Bool, true, false, not, ◌&&◌, Option, none, some, List, [], ◌∷◌,
  ◌++◌, Bytes, length, drop, is_empty, is_some, ltb, leb, ◌==◌, if◌then◌else◌,
}
use zetdb.Bytes.{codes}
use zetdb.Domain.Errors.{Result, ok, err, Outcome, returns, panics, deadlocks, ◌>>=◌}
use zetdb.Domain.Value.{ValueEntry}
use zetdb.Domain.Command.{Command, CommandType, is_write, command_type}
use zetdb.Storage.DashMap.{DashMap}
use zetdb.Storage.Itoa.{Itoa}
use zetdb.Storage.Engine.{Engine}
use zetdb.Storage.Aof.Entry.{to_aof_entry}
use zetdb.Storage.Aof.Writer.{AofWriter, Disk, append_raw}
use zetdb.Protocol.Memchr.{Memchr, Memchr2}
use zetdb.Protocol.Response.{
  Response, ResponseError, value, error, syntax_error, unknown_command, is_success, write_to_impl,
}
use zetdb.Protocol.Scan
use zetdb.Protocol.Scan.{ParseError, FrameResult, complete, incomplete, skip, empty_command}
use zetdb.Protocol.Inline.{try_parse_frame}
use zetdb.Protocol.Borrowed.{parse_inline_borrowed}
use zetdb.Observability.Metrics.{
  Thread, record_command, command_count, record_hit, record_miss, record_error,
}
use zetdb.Application.Info.{counters_of}
use zetdb.Application.Dispatch.{Clock, dispatch}
use zetdb.Application.Buffer.{dispatch_to_buffer}

abbrev pub max_read_buf : ℕ
max_read_buf = 1024 * 1024

abbrev pub max_write_buf : ℕ
max_write_buf = 1024 * 1024

-- What the clocks show to the command with a number, and what the disk does to its append.
pub record Env : Type 0 where
  pub clock : ℕ → Clock
  pub disk : ℕ → Disk
  pub uptime_secs : ℕ → ℕ

-- `commands` is how many commands have been dispatched.
pub record Session (D : DashMap ValueEntry) : Type 0 where
  pub read_buf : Bytes
  pub write_buf : Bytes
  pub output : Bytes
  pub engine : Engine D
  pub aof : Option AofWriter
  pub thread : Thread
  pub commands : ℕ

-- `buf.advance(n)` panics past the end.
abbrev pub advance : ℕ → Bytes → Outcome Bytes
advance n buf = if leb n (length buf) then returns (drop n buf) else panics

-- The entry of the log for a command.
unfoldable pub aof_entry_of : Option AofWriter → Command → Option Bytes
unfolding is_write to_aof_entry
aof_entry_of aof c = if is_some aof && is_write c then to_aof_entry c else none

unfoldable pub append_entry : Option Bytes → Bool → Disk → Option AofWriter → Option AofWriter
unfolding append_raw
append_entry (some entry) true d (some w) = some (append_raw d entry w).1
append_entry (some entry) false d (some w) = some w
append_entry (some entry) b d none = none
append_entry none b d aof = aof

abbrev pub record_lookup : CommandType → Response → Thread → Thread
record_lookup CommandType.get (value (some _)) t = record_hit t
record_lookup CommandType.get (value none) t = record_miss t
record_lookup _ _ t = t

-- The metrics of the RESP loop.
unfoldable pub record_response : Bool → CommandType → Response → Thread → Thread
record_response false ct response t = t
record_response true ct response t =
    let t' = record_lookup ct response (record_command ct t) in
    if is_success response then t' else record_error t'

module _ (M : Memchr) where
  unfoldable pub skip_to_newline : Bytes → Bytes
  skip_to_newline buf = elim (M.memchr b'\n' buf) [ none ↦ [] | some pos ↦ drop (pos + 1) buf ]

abbrev pub syntax_reply : Response
syntax_reply = error (syntax_error (codes "syntax error"))

abbrev pub unknown_reply : Response
unknown_reply = error (unknown_command (codes "unknown command"))

module _ (I : Itoa) {D : DashMap ValueEntry} (metrics_enabled : Bool) (env : Env) where
  -- A complete frame of the RESP loop.
  unfoldable pub resp_command_step : ℕ → Command → Session D → Outcome (Session D)
  resp_command_step consumed c s = do
    rest ← advance consumed s.read_buf
    let i = s.commands
    let entry = aof_entry_of s.aof c
    let m = counters_of (env.uptime_secs i) s.thread
    (response, engine') ← dispatch I m (env.clock i) s.engine c
    returns (record s {
      read_buf = rest;
      write_buf = s.write_buf ++ write_to_impl I true response;
      engine = engine';
      aof = append_entry entry (is_success response) (env.disk i) s.aof;
      thread = record_response metrics_enabled (command_type c) response s.thread;
      commands = i + 1;
    })

  -- A complete line of the inline loop: the entry is appended whatever the reply is.
  unfoldable pub inline_command_step : ℕ → Command → Session D → Outcome (Session D)
  inline_command_step consumed c s = do
    rest ← advance consumed s.read_buf
    let i = s.commands
    let entry = aof_entry_of s.aof c
    let m = counters_of (env.uptime_secs i) s.thread
    (bytes, engine') ← dispatch_to_buffer I m (env.clock i) false s.engine c
    returns (record s {
      read_buf = rest;
      write_buf = s.write_buf ++ bytes;
      engine = engine';
      aof = append_entry entry true (env.disk i) s.aof;
      thread = if metrics_enabled then record_command (command_type c) s.thread else s.thread;
      commands = i + 1;
    })

module _ (I : Itoa) (M : Memchr) {D : DashMap ValueEntry} where
  -- A frame that is refused: what stands before the next newline is dropped.
  unfoldable pub refuse_frame : Bool → Response → Session D → Session D
  refuse_frame is_resp response s = record s {
    read_buf = skip_to_newline M s.read_buf;
    write_buf = s.write_buf ++ write_to_impl I is_resp response;
  }

  unfoldable pub skip_frame : ℕ → Session D → Outcome (Session D)
  skip_frame consumed s = do
    rest ← advance consumed s.read_buf
    returns (record s { read_buf = rest })

-- One round of a loop: it goes on with a session, or it ends.
pub data Round (S : Type 0) : Type 0 where
  goes_on : Outcome S → Round S
  ends : Round S

module _ (I : Itoa) (M : Memchr) {D : DashMap ValueEntry} where
  -- What both loops do with the answer of their parser.
  unfoldable pub round_of :
      Bool
      → (ℕ → Command → Session D → Outcome (Session D))
      → Result FrameResult ParseError
      → Session D
      → Round (Session D)
  unfolding refuse_frame skip_frame
  round_of is_resp step (ok (complete consumed c)) s = goes_on (step consumed c s)
  round_of is_resp step (ok (skip consumed)) s = goes_on (skip_frame I M consumed s)
  round_of is_resp step (ok incomplete) s = ends
  round_of is_resp step (err (Scan.syntax_error _)) s =
      goes_on (returns (refuse_frame I M is_resp syntax_reply s))
  round_of is_resp step (err (Scan.unknown_command _)) s =
      goes_on (returns (refuse_frame I M is_resp unknown_reply s))
  round_of is_resp step (err empty_command) s = ends

-- A loop of rounds; `none` is no fuel left.
unfoldable pub loop : {S : Type 0} → (S → Round S) → ℕ → S → Option (Outcome S)
loop round zero s = none
loop round (suc fuel) s = elim (round s) [
  | ends ↦ some (returns s)
  | goes_on (returns s') ↦ loop round fuel s'
  | goes_on panics ↦ some panics
  | goes_on deadlocks ↦ some deadlocks
]

abbrev pub starts_resp : Bytes → Bool
starts_resp [] = false
starts_resp (b ∷ rest) = b == b'*'

-- What the socket returned for a read, and whether the write after it succeeds.
abbrev pub Event : Type 0
Event = Option Bytes × Bool

module _ (I : Itoa) (M : Memchr) (M2 : Memchr2) {D : DashMap ValueEntry} (metrics_enabled : Bool)
    (env : Env) where
  unfoldable pub resp_round : Session D → Round (Session D)
  unfolding round_of
  resp_round s =
      round_of I M true (resp_command_step I metrics_enabled env) (try_parse_frame M s.read_buf) s

  unfoldable pub inline_round : Session D → Round (Session D)
  unfolding round_of
  inline_round s =
      round_of I M false (inline_command_step I metrics_enabled env)
        (parse_inline_borrowed M2 s.read_buf) s

  -- The frames of a batch; the protocol is chosen by the first byte.
  unfoldable pub process_batch : Session D → Option (Outcome (Session D))
  unfolding resp_round inline_round loop
  process_batch s =
      let fuel = suc (length s.read_buf) in
      if starts_resp s.read_buf then loop resp_round fuel s else loop inline_round fuel s

module _ {D : DashMap ValueEntry} (process : Session D → Option (Outcome (Session D))) where
  -- One turn of a session, whose frames `process` handles; `false` is that the session ends. A read of
  -- no bytes, an error and a timeout are `none`.
  unfoldable pub turn : Event → Session D → Option (Outcome (Bool × Session D))
  turn (none, written) s = some (returns (false, s))
  turn (some bytes, written) s =
      let s0 = record s { read_buf = s.read_buf ++ bytes } in
      if is_empty bytes
      then some (returns (false, s))
      else if ltb max_read_buf (length s0.read_buf)
      then some (returns (false, s0))
      else elim (process s0) [
        | none ↦ none
        | some o ↦ some (do
          s1 ← o
          returns (
              if ltb max_write_buf (length s1.write_buf)
              then (false, s1)
              else if is_empty s1.write_buf
              then (true, s1)
              else if written
              then (true, record s1 { output = s1.output ++ s1.write_buf; write_buf = [] })
              else (false, s1)))
      ]

  -- The turns of a session, until it ends or the events do; `true` is that it has not ended.
  unfoldable pub run_turns : List Event → Session D → Option (Outcome (Bool × Session D))
  unfolding turn
  run_turns [] s = some (returns (true, s))
  run_turns (event ∷ events) s = elim (turn event s) [
    | none ↦ none
    | some panics ↦ some panics
    | some deadlocks ↦ some deadlocks
    | some (returns (open_, s')) ↦
        let rest = run_turns events s' in if open_ then rest else some (returns (false, s'))
  ]
