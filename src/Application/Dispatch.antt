-- ===== src/Application/Dispatch.antt =====
-- application/dispatcher.rs: `dispatch`, which returns a reply, and `dispatch_to_buffer`, which
-- writes it. The clock is the sequence of the instants that a call reads: `clock i` is the one that it
-- reads as number i. `m` is what INFO reads of the counters.
use zetdb.Prelude.{ℕ, ◌+◌, Bool, Option, none, some, List, [], ◌∷◌, Bytes, if◌then◌else◌}
use zetdb.Prelude.Int.{ℤ, pos, of_word}
use zetdb.Domain.Errors.{EngineError, display, Result, Outcome, returns, ◌>>=◌}
use zetdb.Domain.Value.{ValueEntry, new, with_ttl}
use zetdb.Domain.Command.{Command}
use zetdb.Storage.DashMap.{DashMap}
use zetdb.Storage.Itoa.{Itoa}
use zetdb.Storage.Engine
use zetdb.Storage.Engine.{Engine}
use zetdb.Protocol.Response.{Response, internal_error, type_error}
use zetdb.Application.Info.{Counters, info_text}

abbrev pub Clock : Type 0
Clock = ℕ → ℕ

-- The entry that SET stores, and the number of readings that it took.
unfoldable pub entry_of : Bytes → Option ℕ → Clock → Outcome (ValueEntry × ℕ)
unfolding new with_ttl
entry_of value none clock = returns (new (clock 0) value, 1)
entry_of value (some dur) clock = do e ← with_ttl (clock 0) (clock 1) value dur; returns (e, 2)

abbrev pub data_of : Option ValueEntry → Option Bytes
data_of none = none
data_of (some e) = some e.bytes

abbrev pub datas : List (Option ValueEntry) → List (Option Bytes)
datas [] = []
datas (o ∷ os) = data_of o ∷ datas os

abbrev pub key_items : List Bytes → List (Option Bytes)
key_items [] = []
key_items (k ∷ ks) = some k ∷ key_items ks

abbrev pub flag : Bool → ℤ
flag b = if b then pos 1 else pos 0

abbrev pub value_reply : Result (Option ValueEntry) EngineError → Response
value_reply (Result.ok o) = Response.value (data_of o)
value_reply (Result.err e) = Response.error (internal_error (display e))

abbrev pub ok_reply : Result (Unit {0}) EngineError → Response
ok_reply (Result.ok _) = Response.ok
ok_reply (Result.err e) = Response.error (internal_error (display e))

abbrev pub flag_reply : Result Bool EngineError → Response
flag_reply (Result.ok b) = Response.integer (flag b)
flag_reply (Result.err e) = Response.error (internal_error (display e))

abbrev pub incr_reply : Result ℤ EngineError → Response
incr_reply (Result.ok n) = Response.integer n
incr_reply (Result.err e) = Response.error (type_error (display e))

module _ {D : DashMap ValueEntry} where
  -- The loop of MSET: it stops at the first error. Each pair reads the clock twice at most.
  unfoldable pub mset :
      List (Bytes × Bytes) → ℕ → Clock → Engine D → Result (Unit {0}) EngineError × Engine D
  mset [] i clock s = (Result.ok tt, s)
  mset ((k, v) ∷ rest) i clock s =
      let r = Engine.set k (new (clock i) v) (clock (i + 1)) s in
      let next = mset rest (i + 2) clock r.1 in
      elim r.0 [ Result.ok _ ↦ next | Result.err e ↦ (Result.err e, r.1) ]

module _ (I : Itoa) {D : DashMap ValueEntry} (m : Counters) (clock : Clock) where
  unfoldable pub dispatch : Engine D → Command → Outcome (Response × Engine D)
  dispatch s (Command.get k) =
      let r = Engine.get k (clock 0) (clock 1) s in returns (value_reply r.0, r.1)
  dispatch s (Command.set k value ttl) = do
    (e, read) ← entry_of value ttl clock
    let r = Engine.set k e (clock read) s
    returns (ok_reply r.0, r.1)
  dispatch s Command.ping = returns (Response.pong, s)
  dispatch s (Command.del k) = let r = Engine.del k (clock 0) s in returns (flag_reply r.0, r.1)
  dispatch s (Command.incr k) = do
    (r, s') ← Engine.incr I k (clock 0) (clock 1) s
    returns (incr_reply r, s')
  dispatch s Command.info = returns (Response.value (some (info_text m (Engine.len s))), s)
  dispatch s Command.db_size = returns (Response.integer (of_word (Engine.len s)), s)
  dispatch s (Command.exists k) =
      let r = Engine.exists k (clock 0) (clock 1) s in returns (Response.integer (flag r.0), r.1)
  dispatch s (Command.ttl k) =
      let r = Engine.ttl_secs k (clock 0) (clock 1) s in returns (Response.integer r.0, r.1)
  dispatch s (Command.expire k seconds) = do
    (b, s') ← Engine.expire k seconds (clock 0) (clock 1) s
    returns (Response.integer (flag b), s')
  dispatch s Command.flush_db = returns (Response.ok, Engine.clear s)
  dispatch s Command.keys = returns (Response.array (key_items (Engine.keys (clock 0) s)), s)
  dispatch s (Command.mget ks) = returns (Response.array (datas (Engine.mget ks (clock 0) s)), s)
  dispatch s (Command.mset pairs) = let r = mset pairs 0 clock s in returns (ok_reply r.0, r.1)
