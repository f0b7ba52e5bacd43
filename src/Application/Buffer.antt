-- ===== src/Application/Buffer.antt =====
-- application/dispatcher.rs: `dispatch_to_buffer`. The result is what it appends to the buffer.
pub mod Refines
use zetdb.Prelude.{
  ℕ, zero, suc, ◌+◌, ◌≡◌, refl, Bool, true, false, Option, none, some, List, [], ◌∷◌, ◌++◌, Bytes,
  length, if◌then◌else◌, arith,
}
use zetdb.Prelude.Int.{ℤ, pos, of_word}
use zetdb.Bytes.{codes, crlf}
use zetdb.Domain.Errors.{EngineError, display, Result, Outcome, returns, panics, deadlocks, ◌>>=◌}
use zetdb.Domain.Value.{ValueEntry}
use zetdb.Domain.Command.{Command}
use zetdb.Storage.DashMap.{DashMap}
use zetdb.Storage.Itoa.{Itoa}
use zetdb.Storage.Engine
use zetdb.Storage.Engine.{Engine}
use zetdb.Protocol.Response.{
  Response, null_bulk, bulk, item, items, write_value, write_integer, write_array, write_to_impl,
  is_success, error_text,
}
use zetdb.Application.Info.{Counters, info_text}
use zetdb.Application.Dispatch.{Clock, entry_of, flag, datas, key_items, mset, dispatch}

abbrev ok_line : Bytes
ok_line = codes "+OK" ++ crlf

abbrev internal_line : Bytes
internal_line = codes "-ERR internal" ++ crlf

abbrev type_line : Bytes
type_line = codes "-ERR type" ++ crlf

module _ (I : Itoa) (is_resp : Bool) where
  unfoldable pub write_get : Result (Option ValueEntry) EngineError → Bytes
  write_get (Result.ok (some e)) = write_value I is_resp e.bytes
  write_get (Result.ok none) = null_bulk
  write_get (Result.err _) = internal_line

module _ (I : Itoa) where
  unfoldable pub write_flag : Result Bool EngineError → Bytes
  write_flag (Result.ok b) = write_integer I (flag b)
  write_flag (Result.err _) = internal_line

  unfoldable pub write_incr : Result ℤ EngineError → Bytes
  write_incr (Result.ok n) = write_integer I n
  write_incr (Result.err _) = type_line

unfoldable pub write_set : Result (Unit {0}) EngineError → Bytes
write_set (Result.ok _) = ok_line
write_set (Result.err _) = internal_line

unfoldable pub write_mset : Result (Unit {0}) EngineError → Bytes
write_mset (Result.ok _) = ok_line
write_mset (Result.err e) = codes "-ERR internal: " ++ (display e ++ crlf)

module _ (I : Itoa) {D : DashMap ValueEntry} (m : Counters) (clock : Clock) (is_resp : Bool) where
  unfoldable pub dispatch_to_buffer : Engine D → Command → Outcome (Bytes × Engine D)
  unfolding write_get write_flag write_incr write_set write_mset
  dispatch_to_buffer s (Command.get k) =
      let r = Engine.get k (clock 0) (clock 1) s in returns (write_get I is_resp r.0, r.1)
  dispatch_to_buffer s (Command.set k value ttl) = do
    (e, read) ← entry_of value ttl clock
    let r = Engine.set k e (clock read) s
    returns (write_set r.0, r.1)
  dispatch_to_buffer s Command.ping = returns (codes "+PONG" ++ crlf, s)
  dispatch_to_buffer s (Command.del k) =
      let r = Engine.del k (clock 0) s in returns (write_flag I r.0, r.1)
  dispatch_to_buffer s (Command.incr k) = do
    (r, s') ← Engine.incr I k (clock 0) (clock 1) s
    returns (write_incr I r, s')
  dispatch_to_buffer s Command.info =
      returns (write_value I is_resp (info_text m (Engine.len s)), s)
  dispatch_to_buffer s Command.db_size = returns (write_integer I (of_word (Engine.len s)), s)
  dispatch_to_buffer s (Command.exists k) =
      let r = Engine.exists k (clock 0) (clock 1) s in returns (write_integer I (flag r.0), r.1)
  dispatch_to_buffer s (Command.ttl k) =
      let r = Engine.ttl_secs k (clock 0) (clock 1) s in returns (write_integer I r.0, r.1)
  dispatch_to_buffer s (Command.expire k seconds) = do
    (b, s') ← Engine.expire k seconds (clock 0) (clock 1) s
    returns (write_integer I (flag b), s')
  dispatch_to_buffer s Command.flush_db = returns (ok_line, Engine.clear s)
  dispatch_to_buffer s Command.keys =
      returns (write_array I (key_items (Engine.keys (clock 0) s)), s)
  dispatch_to_buffer s (Command.mget ks) =
      returns (write_array I (datas (Engine.mget ks (clock 0) s)), s)
  dispatch_to_buffer s (Command.mset pairs) =
      let r = mset pairs 0 clock s in returns (write_mset r.0, r.1)
