-- ===== src/Tests/Bench.antt =====
-- The load generators at concrete inputs.
use zetdb.Prelude.{◌≡◌, refl, true, none, some, List, [], ◌∷◌, ◌++◌, arith}
use zetdb.Bytes.{codes}
use zetdb.Domain.Errors.{ok, returns}
use zetdb.Storage.Itoa.{display_itoa}
use zetdb.Protocol.Memchr.{scalar, scalar2}
use zetdb.Protocol.Response.{Response, write_to_impl, is_success}
use zetdb.Prelude.{Bytes, false}
use zetdb.Application.Dispatch.{dispatch}
use zetdb.Bytes.Decimal.{show_nat}
use zetdb.Bytes.{bytes_eq}
use zetdb.Domain.Value.{ValueEntry}
use zetdb.Domain.Command.{Command, command_type}
use zetdb.Storage.Engine
use zetdb.Storage.Table.{table}
use zetdb.Server.Session.{Session, aof_entry_of}
use zetdb.Server.Session.Sent.{sent}
use zetdb.Server.Session.Turns.{feed}
use zetdb.Server.Session.Frames.{with_buf}
use zetdb.Server.Session.Wire.{replied, served}
use zetdb.Bench.Tally.{fresh, count_rounds, reported}
use zetdb.Bench.Compare.{write_key, build_batch, read_responses}
use zetdb.Bench.Batch.{commands_from, feed-build_batch}
use zetdb.Bench.Replies.{written, read_responses-written}
use zetdb.Tests.Server.{env, session}

-- 800 operations do not divide a block: of 20000 operations half are reported.
reported_half : reported (count_rounds 800 25 fresh) ≡ 10000
unfolding reported count_rounds
reported_half = refl

-- After a GET of a key that is not there.
abbrev missed : Bytes → Session (table ValueEntry) → Session (table ValueEntry)
missed k s = replied display_itoa true env (Command.get k) s (Response.value none, s.engine)

abbrev after_batch : Session (table ValueEntry)
after_batch = missed (codes "k:8") (missed (codes "k:7") (with_buf [] session))

batch-served :
    served display_itoa true env (commands_from false 2 7) (with_buf [] session)
    ≡ returns after_batch
unfolding dispatch Engine.get write_key bytes_eq aof_entry_of is_success command_type write_to_impl
batch-served = refl

feed-build_batch_example :
    feed display_itoa scalar scalar2 true env (build_batch false 2 7 ∷ []) (with_buf [] session)
    ≡ some (returns (true, sent after_batch))
unfolding build_batch show_nat write_to_impl
feed-build_batch_example =
    feed-build_batch display_itoa scalar scalar2 true env false 1 7 session after_batch
      (omega arith) refl batch-served (omega arith)

-- A value with a line of its own.
abbrev replies : List Response
replies = Response.ok ∷ Response.value (some (codes "a\nb")) ∷ Response.value none ∷ []

read_responses-written_example :
    read_responses 3 (written display_itoa replies ++ codes "+P") ≡ ok (codes "+P")
read_responses-written_example =
    read_responses-written display_itoa replies (codes "+P") (tt, (omega arith, (tt, tt)))
