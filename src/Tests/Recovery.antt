-- ===== src/Tests/Recovery.antt =====
-- A session with a log, and the replay of what it logged.
use zetdb.Prelude.{ℕ, ◌+◌, ◌≡◌, refl, true, none, some, List, [], ◌∷◌, Bytes, take, drop, arith}
use zetdb.Bytes.Decimal.{show_nat, show_int}
use zetdb.Bytes.Utf8.{from_utf8_lossy}
use zetdb.Bytes.Endian.{to_le_bytes}
use zetdb.Config.{FsyncPolicy}
use zetdb.Domain.Errors.{returns}
use zetdb.Domain.Value.{ValueEntry}
use zetdb.Domain.Command.{Command}
use zetdb.Storage.Itoa.{display_itoa}
use zetdb.Storage.Table.{table}
use zetdb.Storage.Engine
use zetdb.Storage.Engine.{new_engine}
use zetdb.Storage.Aof.Entry.{to_aof_entry, encode_key}
use zetdb.Storage.Aof.Replay.{Clock, ReadFile, as_replayed, replay_aof}
use zetdb.Storage.Aof.Replay.Log.{log_of, apply_all}
use zetdb.Storage.Aof.Writer.{AofWriter, working, flush}
use zetdb.Protocol.Memchr.{scalar, scalar2}
use zetdb.Protocol.Response.{Response, write_to_impl, write_integer}
use zetdb.Bytes.{bytes_eq}
use zetdb.Domain.Value.{is_expired_at}
use zetdb.Application.Dispatch.{dispatch, flag_reply}
use zetdb.Server.Session.{Session}
use zetdb.Server.Session.Frames.{with_buf}
use zetdb.Server.Session.Wire.{wires, replied, served}
use zetdb.Server.Session.Sent.{sent}
use zetdb.Server.Session.Turns.{feed}
use zetdb.Server.Session.Pieces.{feed-wires}
use zetdb.Server.Session.Logged.{succeeded_of, replay_aof-feed}
use zetdb.Tests.Data.{hits, store}
use zetdb.Tests.Server.{env, session}

abbrev pub new_log : AofWriter
new_log = record {
  file = [];
  synced = 0;
  batch = [];
  fsync_policy = FsyncPolicy.everysec;
  last_fsync = 0;
  renamed = none;
}

abbrev logging : Session (table ValueEntry)
logging = record session { aof = some new_log }

abbrev del_ping : List Command
del_ping = Command.del hits ∷ Command.ping ∷ []

-- The bytes of both commands, cut inside the first.
abbrev pieces : List Bytes
pieces = take 9 (wires del_ping) ∷ drop 9 (wires del_ping) ∷ []

abbrev after_del : Session (table ValueEntry)
after_del =
    let r = Engine.del hits 0 store in
    replied display_itoa true env (Command.del hits) (with_buf [] logging) (flag_reply r.0, r.1)

abbrev after_ping : Session (table ValueEntry)
after_ping = replied display_itoa true env Command.ping after_del (Response.pong, after_del.engine)

del_ping-served : served display_itoa true env del_ping (with_buf [] logging) ≡ returns after_ping
unfolding dispatch
del_ping-served = refl

del_ping-feed :
    feed display_itoa scalar scalar2 true env pieces (with_buf [] logging)
    ≡ some (returns (true, sent after_ping))
unfolding show_nat write_to_impl Engine.del write_integer show_int bytes_eq is_expired_at
del_ping-feed =
    feed-wires display_itoa scalar scalar2 true env pieces del_ping logging after_ping
      ((tt, (omega arith, tt)), ((tt, tt), tt)) (omega arith, (omega arith, tt))
      ((omega arith, omega arith), ((omega arith, omega arith), tt)) refl refl del_ping-served
      (omega arith)

abbrev pub ticks : ℕ → Clock
ticks i j = i + j

replay_aof-feed_example :
    (w' : AofWriter) × ((sent after_ping).aof ≡ some w')
    × (replay_aof display_itoa ticks
          (ReadFile.contents (flush (working (λ j. j)) w').1.file)
          (new_engine (table ValueEntry))
        ≡ some (
            as_replayed (
              apply_all display_itoa ticks 0
                (succeeded_of display_itoa true env del_ping (with_buf [] logging))
                (new_engine (table ValueEntry)))))
unfolding show_nat log_of to_aof_entry encode_key to_le_bytes
replay_aof-feed_example =
    replay_aof-feed display_itoa scalar scalar2 true env pieces del_ping logging (sent after_ping)
      new_log (λ j. j) ticks (new_engine (table ValueEntry))
      ((tt, (omega arith, tt)), ((tt, tt), tt))
      ((omega arith, unfold from_utf8_lossy in refl), (tt, tt)) (omega arith, (omega arith, tt))
      refl refl refl (omega arith) del_ping-feed
