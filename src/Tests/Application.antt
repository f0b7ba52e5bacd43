-- ===== src/Tests/Application.antt =====
-- The dispatcher at concrete commands.
use zetdb.Prelude.{ℕ, ◌+◌, ◌≡◌, refl, none, some, true, Bytes, arith, ltb, if◌then◌else◌}
use zetdb.Bytes.{bytes_eq}
use zetdb.Domain.Command.{Command}
use zetdb.Domain.Errors.{returns}
use zetdb.Storage.Itoa.{display_itoa}
use zetdb.Storage.Engine.View.{view}
use zetdb.Protocol.Response.{Response}
use zetdb.Application.Info.{Counters}
use zetdb.Application.Dispatch.{Clock, dispatch, data_of}
use zetdb.Application.Buffer.{dispatch_to_buffer}
use zetdb.Application.Buffer.Refines.{Agree, dispatch_to_buffer-eq-dispatch}
use zetdb.Application.Replies.{dispatch-set-get}
use zetdb.Tests.Data.{hits, name, Store, store}

abbrev pub counters : Counters
counters = record {
  uptime_secs = 60;
  connections_active = 1;
  connections_total = 2;
  commands_total = 3;
  command_count = λ c. 0;
  keyspace_hits = 1;
  keyspace_misses = 1;
  errors_total = 0;
}

abbrev pub ticks_from : ℕ → Clock
ticks_from n i = n + i

dispatch_to_buffer-eq-dispatch_example :
    Agree display_itoa true
      (dispatch_to_buffer display_itoa counters (ticks_from 50) true store (Command.incr hits))
      (dispatch display_itoa counters (ticks_from 50) store (Command.incr hits))
dispatch_to_buffer-eq-dispatch_example =
    dispatch_to_buffer-eq-dispatch display_itoa counters (ticks_from 50) true store
      (Command.incr hits)

dispatch-set-get_example :
    (s1 : Store) × (dispatch display_itoa counters
        (ticks_from 50)
        store
        (Command.set name hits (some 1000))
      ≡ returns (Response.ok, s1))
    × ((later : Clock) (j : Bytes)
        → (s2 : Store) × (dispatch display_itoa counters later s1 (Command.get j)
            ≡ returns (
              Response.value (
                  if bytes_eq name j
                  then (if ltb (later 0) (50 + 1000) then some hits else none)
                  else data_of (view store (later 0) j)),
              s2,
            )))
dispatch-set-get_example =
    dispatch-set-get display_itoa counters (ticks_from 50) store name hits 1000 refl (omega arith)
