-- ===== src/Application/Borrowed.antt =====
-- application/dispatcher_borrowed.rs: `dispatch_borrowed_to_buffer`. The result is what it appends to
-- the buffer, with the engine and the counters.
pub mod Agreement
use zetdb.Prelude.{
  ℕ, zero, suc, ◌+◌, ◌<◌, ◌^◌, ◌≡◌, refl, ap, ◌∙◌, Bool, true, false, Option, none, some, List, [],
  ◌∷◌, ◌++◌, Bytes, length, if◌then◌else◌, arith,
}
use zetdb.Prelude.Int.{ℤ, pos, negsuc}
use zetdb.Bytes.{bytes_eq, bytes_eq_iff, codes, crlf}
use zetdb.Bytes.Utf8.{from_utf8_lossy, IsUtf8}
use zetdb.Domain.Errors.{EngineError, Result, Outcome, returns, panics, deadlocks, ◌>>=◌}
use zetdb.Domain.Value.{ValueEntry, new}
use zetdb.Domain.Command.{Command}
use zetdb.Storage.DashMap.{DashMap}
use zetdb.Storage.Itoa.{Itoa}
use zetdb.Storage.Engine
use zetdb.Storage.Engine.{Engine}
use zetdb.Protocol.Response.{write_value, write_integer, write_array}
use zetdb.Observability.Metrics.{Thread, flush_all}
use zetdb.Application.Info.{Counters, counters_of, info_text}
use zetdb.Application.Dispatch.{Clock, entry_of, flag, data_of, key_items}
use zetdb.Application.Buffer.{write_get, write_flag, write_incr, write_set, dispatch_to_buffer}

-- `std::str::from_utf8(key).unwrap_or("")`
unfoldable pub key_str : Bytes → Bytes
key_str key = if bytes_eq (from_utf8_lossy key) key then key else []

-- The keys or values of an inline reply, with a space between them.
abbrev pub spaced : Bytes → List (Option Bytes) → Bytes
spaced between [] = crlf
spaced between (none ∷ xs) = between ++ (codes "(nil)" ++ spaced (codes " ") xs)
spaced between (some d ∷ xs) = between ++ (d ++ spaced (codes " ") xs)

abbrev pub write_items : Itoa → Bool → List (Option Bytes) → Bytes
write_items I is_resp xs = if is_resp then write_array I xs else spaced [] xs

abbrev pub value_of : Result (Option ValueEntry) EngineError → Option Bytes
value_of (Result.ok o) = data_of o
value_of (Result.err e) = none

module _ {D : DashMap ValueEntry} where
  -- The loop of MGET calls `get`, which takes expired entries out.
  unfoldable pub mget_each : List Bytes → ℕ → Clock → Engine D → List (Option Bytes) × Engine D
  unfolding key_str
  mget_each [] i clock s = ([], s)
  mget_each (k ∷ ks) i clock s =
      let r = Engine.get (key_str k) (clock i) (clock (i + 1)) s in
      let rest = mget_each ks (i + 2) clock r.1 in (value_of r.0 ∷ rest.0, rest.1)

  -- The loop of MSET goes on after an error.
  unfoldable pub mset_each : List (Bytes × Bytes) → ℕ → Clock → Engine D → Engine D
  unfolding key_str
  mset_each [] i clock s = s
  mset_each ((k, v) ∷ rest) i clock s =
      mset_each rest (i + 2) clock (Engine.set (key_str k) (new (clock i) v) (clock (i + 1)) s).1

abbrev pub write_ttl : Itoa → ℤ → Bytes
write_ttl I (negsuc (suc zero)) = codes ":-2" ++ crlf
write_ttl I (negsuc zero) = codes ":-1" ++ crlf
write_ttl I (negsuc (suc (suc n))) = b':' ∷ (I.format (negsuc (suc (suc n))) ++ crlf)
write_ttl I (pos n) = b':' ∷ (I.format (pos n) ++ crlf)

module _ (I : Itoa) {D : DashMap ValueEntry} (uptime : ℕ) (clock : Clock) (is_resp : Bool) where
  unfoldable pub dispatch_borrowed_to_buffer :
      Engine D → Thread → Command → Outcome (Bytes × Engine D × Thread)
  unfolding key_str mget_each mset_each
  dispatch_borrowed_to_buffer s t (Command.get k) =
      let r = Engine.get (key_str k) (clock 0) (clock 1) s in
      returns (write_get I is_resp r.0, r.1, t)
  dispatch_borrowed_to_buffer s t (Command.set k value ttl) = do
    (e, read) ← entry_of value ttl clock
    let r = Engine.set (key_str k) e (clock read) s
    returns (write_set r.0, r.1, t)
  dispatch_borrowed_to_buffer s t Command.ping = returns (codes "+PONG" ++ crlf, s, t)
  dispatch_borrowed_to_buffer s t (Command.del k) =
      let r = Engine.del (key_str k) (clock 0) s in returns (write_flag I r.0, r.1, t)
  dispatch_borrowed_to_buffer s t (Command.incr k) = do
    (r, s') ← Engine.incr I (key_str k) (clock 0) (clock 1) s
    returns (write_incr I r, s', t)
  dispatch_borrowed_to_buffer s t Command.info =
      let t' = flush_all t in
      returns (write_value I is_resp (info_text (counters_of uptime t') (Engine.len s)), s, t')
  dispatch_borrowed_to_buffer s t Command.db_size =
      returns (write_integer I (pos (Engine.len s)), s, t)
  dispatch_borrowed_to_buffer s t (Command.exists k) =
      let r = Engine.exists (key_str k) (clock 0) (clock 1) s in
      returns (write_integer I (flag r.0), r.1, t)
  dispatch_borrowed_to_buffer s t (Command.ttl k) =
      let r = Engine.ttl_secs (key_str k) (clock 0) (clock 1) s in returns (write_ttl I r.0, r.1, t)
  dispatch_borrowed_to_buffer s t (Command.expire k seconds) = do
    (b, s') ← Engine.expire (key_str k) seconds (clock 0) (clock 1) s
    returns (if b then codes ":1" ++ crlf else codes ":0" ++ crlf, s', t)
  dispatch_borrowed_to_buffer s t Command.flush_db =
      returns (codes "+OK" ++ crlf, Engine.clear s, t)
  dispatch_borrowed_to_buffer s t Command.keys =
      returns (write_items I is_resp (key_items (Engine.keys (clock 0) s)), s, t)
  dispatch_borrowed_to_buffer s t (Command.mget ks) =
      let r = mget_each ks 0 clock s in returns (write_items I is_resp r.0, r.1, t)
  dispatch_borrowed_to_buffer s t (Command.mset pairs) =
      returns (codes "+OK" ++ crlf, mset_each pairs 0 clock s, t)
