-- ===== src/Tests/Server.antt =====
-- The sessions, the accept loop and the counters at concrete inputs.
use mathlib.Core.Path.{subst}
use zetdb.Prelude.{
  zero, suc, ◌*◌, ℕ, ◌+◌, ◌%◌, ◌^◌, ◌≡◌, refl, none, some, true, List, [], ◌∷◌, ◌++◌, Bytes, length,
  take, drop, arith,
}
use zetdb.Bytes.{codes, crlf}
use zetdb.Bytes.Decimal.{show_nat}
use zetdb.Domain.Command.{Command, CommandType}
use zetdb.Storage.Itoa.{display_itoa}
use zetdb.Storage.Table.{table}
use zetdb.Domain.Value.{ValueEntry}
use zetdb.Protocol.Memchr.{scalar, scalar2}
use zetdb.Observability.Metrics.{
  add_word, default, initial, index, total_commands, command_count, flush_all,
}
use zetdb.Observability.Metrics.Conservation.{
  record_commands, occurrences, flush_all-record_commands,
}
use zetdb.Server.Session.{Env, Session}
use zetdb.Storage.Aof.Writer.{AofWriter, working, contents}
use zetdb.Config.{FsyncPolicy}
use zetdb.Domain.Errors.{ok}
use zetdb.Server.Tcp.Run.{Event, run_server_with_listener, run_server-shutdown}
use zetdb.Server.Session.Frames.{with_buf}
use zetdb.Server.Session.Wire.{wires, replied, served}
use zetdb.Server.Session.Sent.{sent}
use zetdb.Server.Session.Turns.{feed}
use zetdb.Storage.Engine.Unlimited.{Ends}
use zetdb.Server.Session.Handle.{handle_session, handle_session-Ends}
use zetdb.Server.Session.Pieces.{feed-wires}
use zetdb.Server.Tcp.{Server, start, accept, accepted, panicked, Reach, starts, steps}
use zetdb.Server.Tcp.Limit.{IsCounted, Reach-IsCounted}
use zetdb.Server.Tcp.Drain.{IsPaced}
use zetdb.Server.Session.Lines.{Typed}
use zetdb.Tests.Data.{hits, store}
use zetdb.Bytes.{bytes_eq}
use zetdb.Bytes.Decimal.{show_int}
use zetdb.Domain.Value.{is_expired_at}
use zetdb.Domain.Errors.{returns}
use zetdb.Storage.Engine
use zetdb.Protocol.Response.{Response, write_to_impl, write_integer}
use zetdb.Application.Dispatch.{dispatch, flag_reply}
use zetdb.Tests.Lines.{get_line}

abbrev pub env : Env
env = record { clock = λ i j. i + j; disk = λ i. working (λ j. i + j); uptime_secs = λ i. 1 }

abbrev pub session : Session (table ValueEntry)
session = record {
  read_buf = [];
  write_buf = [];
  output = [];
  engine = store;
  aof = none;
  thread = (initial, default);
  commands = 0;
}

-- A frame with an unknown command and a line without an end.
abbrev garbage : Session (table ValueEntry)
garbage = with_buf (codes "*1" ++ (crlf ++ codes "$1")) session

-- Two reads, of which the second ends the session, with metrics on.
handle_session-Ends_example : Ends (
    handle_session display_itoa scalar scalar2 true true env
      ((some (codes "$1" ++ crlf), true) ∷ (none, true) ∷ [])
      garbage)
handle_session-Ends_example =
    handle_session-Ends display_itoa scalar scalar2 true true env
      ((some (codes "$1" ++ crlf), true) ∷ (none, true) ∷ []) garbage refl

abbrev two_commands : List Command
two_commands = Command.del hits ∷ Command.ping ∷ []

-- The bytes of both commands, cut inside the first.
abbrev two_pieces : List Bytes
two_pieces = take 9 (wires two_commands) ∷ drop 9 (wires two_commands) ∷ []

abbrev after_del : Session (table ValueEntry)
after_del =
    let r = Engine.del hits 0 store in
    replied display_itoa true env (Command.del hits) (with_buf [] session) (flag_reply r.0, r.1)

abbrev after_ping : Session (table ValueEntry)
after_ping = replied display_itoa true env Command.ping after_del (Response.pong, after_del.engine)

two_commands-served :
    served display_itoa true env two_commands (with_buf [] session) ≡ returns after_ping
unfolding dispatch
two_commands-served = refl

feed-wires_example :
    feed display_itoa scalar scalar2 true env two_pieces (with_buf [] session)
    ≡ some (returns (true, sent after_ping))
unfolding show_nat write_to_impl Engine.del write_integer show_int bytes_eq is_expired_at
feed-wires_example =
    feed-wires display_itoa scalar scalar2 true env two_pieces two_commands session after_ping
      ((tt, (omega arith, tt)), ((tt, tt), tt)) (omega arith, (omega arith, tt))
      ((omega arith, omega arith), ((omega arith, omega arith), tt)) refl refl two_commands-served
      (omega arith)

abbrev three_types : List CommandType
three_types = CommandType.get ∷ CommandType.set ∷ CommandType.get ∷ []

flush_all-record_commands_example :
    ((flush_all (record_commands three_types (initial, default))).0.commands_total % 2 ^ 64
      ≡ add_word (total_commands (initial, default)) (length three_types))
    × ((c : CommandType)
        → (flush_all (record_commands three_types (initial, default))).0.commands_by_type (index c)
            % 2 ^ 64
          ≡ add_word (command_count c (initial, default)) (occurrences c three_types))
flush_all-record_commands_example = flush_all-record_commands three_types (initial, default)

-- A limit of one connection, whose session panics.
abbrev one_open : Server
one_open = record { active_conns = 1; running = 1; panicked = 0 }

abbrev one_lost : Server
one_lost = record { active_conns = 1; running = 0; panicked = 1 }

-- It is reached.
one_lost-Reach : Reach 1 one_lost
unfolding accept
one_lost-Reach =
    steps one_open one_lost (steps start one_open starts (accepted start))
      (panicked one_open (omega arith))

Reach-IsCounted_example : IsCounted 1 one_lost
Reach-IsCounted_example = Reach-IsCounted 1 one_lost one_lost-Reach

abbrev rounds_from : ℕ → ℕ → List (ℕ × ℕ)
rounds_from zero t = []
rounds_from (suc n) t = (1, t) ∷ rounds_from n (t + 50)

rounds_from-IsPaced : (n k : ℕ) → IsPaced k (rounds_from n (k * 50))
rounds_from-IsPaced zero k = tt
rounds_from-IsPaced (suc n) k = (
  omega arith,
  subst (λ t. IsPaced (k + 1) (rounds_from n t)) (omega arith) (rounds_from-IsPaced n (k + 1)),
)

abbrev get_typed : Typed
get_typed = (get_line, Command.get (codes "k"))

abbrev busy_writer : AofWriter
busy_writer = record {
  file = codes "a";
  synced = 1;
  batch = codes "b";
  fsync_policy = FsyncPolicy.everysec;
  last_fsync = 0;
  renamed = none;
}

-- A session that never ends.
run_server-shutdown_example :
    (w' : AofWriter) × (run_server_with_listener 1 true
        (Event.connection ∷ Event.shutdown ∷ [])
        (rounds_from 102 0)
        (working (λ j. j))
        (some busy_writer)
      ≡ some (ok tt, some w'))
    × (w'.file ≡ contents busy_writer)
    × (w'.batch ≡ [])
run_server-shutdown_example =
    run_server-shutdown 1 (Event.connection ∷ []) [] (rounds_from 102 0) (λ j. j) busy_writer
      (tt, tt) (rounds_from-IsPaced 102 0) (omega arith)
